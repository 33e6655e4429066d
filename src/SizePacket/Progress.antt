-- ===== src/SizePacket/Progress.antt =====
-- SizePacket::SerializeIn moves the offset forward.
use socket_cplus_plus.Prelude.{
  ℕ, ◌+◌, ◌≤◌, ◌<◌, ◌≡◌, sym, ap, ◌∙◌, inl, inr, none, some, List, get_elem?, set, true, not, ltb,
  Option-cases, some_inj, none_ne_some, arith,
}
use socket_cplus_plus.Serialize.{in_u8, in_u16}
use socket_cplus_plus.Serialize.Host.{ByteOrder}
use socket_cplus_plus.Serialize.Extent.{u16-Advances, in_u8_extent}
use socket_cplus_plus.Packets.{base_in, serialize_in}
use socket_cplus_plus.Packets.Advance.{serialize_in-Advances}
use socket_cplus_plus.PacketFactory.{Pointer, Factory, create_by_type}
use socket_cplus_plus.SizePacket.{size_in, is_remaining_buffer_bigenough}
use socket_cplus_plus.SizePacket.Receiving.{deliver}

module _ ⦃net : ByteOrder⦄ where
  deliver_progress :
      (bytes : List ℕ) (start : ℕ) (made : Pointer × Factory) (a next : ℕ) (g : Factory)
      → deliver bytes start made ≡ some (a, next, g)
      → start ≤ next
  deliver_progress bytes start (none, f) a next g e = absurd (none_ne_some e)
  deliver_progress bytes start (some b, f) a next g e = elim (Option-cases (get_elem? f.heap b)) [
    | inl missing ↦ absurd (none_ne_some (sym (rw (deliver, missing)) ∙ e))
    | inr (object, there) ↦ elim (Option-cases (serialize_in object bytes start)) [
      | inl failed ↦ absurd (none_ne_some (sym (rw (deliver, there, failed)) ∙ e))
      | inr ((filled, end), read) ↦
          let made : deliver bytes start (some b, f)
              ≡ some (b, end, record f { heap = set f.heap b filled }) =
            rw (deliver, there, read) in
          let same : end ≡ next = ap (λ r. r.1) (some_inj (sym made ∙ e)) in
          omega (arith, same, serialize_in-Advances object bytes start filled end read)
    ]
  ]

  pub size_in_progress :
      (f g : Factory) (bytes : List ℕ) (offset a next : ℕ)
      → size_in f bytes offset ≡ some (a, next, g)
      → offset < next
  unfolding size_in
  size_in_progress f g bytes offset a next e = elim (Option-cases (in_u8 bytes offset)) [
    | inl no_type ↦ absurd (none_ne_some (sym (rw (size_in, no_type)) ∙ e))
    | inr ((kind, after_type), typed) ↦ elim (Option-cases (in_u16 bytes after_type)) [
      | inl no_size ↦ absurd (none_ne_some (sym (rw (size_in, typed, no_size)) ∙ e))
      | inr ((size, start), sized) ↦ elim (Option-cases (base_in bytes start)) [
        | inl no_header ↦ absurd (none_ne_some (sym (rw (size_in, typed, sized, no_header)) ∙ e))
        | inr ((probe, end), probed) ↦
            let here : size_in f bytes offset
                ≡ deliver bytes start
                    (create_by_type (probe.packet_type, probe.packet_sub_type) f) =
              rw (size_in, typed, sized, probed) in
            let moved =
              deliver_progress bytes start
                (create_by_type (probe.packet_type, probe.packet_sub_type) f) a next g
                (sym here ∙ e) in
            omega (
              arith,
              moved,
              in_u8_extent bytes offset kind after_type typed,
              u16-Advances bytes after_type size start sized,
            )
      ]
    ]
  ]

  pub bigenough_lt :
      (bytes : List ℕ) (offset total : ℕ)
      → is_remaining_buffer_bigenough bytes offset total ≡ some true
      → offset < total
  unfolding is_remaining_buffer_bigenough
  bigenough_lt bytes offset total e = elim (Option-cases (in_u16 bytes (offset + 1))) [
    | inl beyond ↦ absurd (none_ne_some (sym (rw (is_remaining_buffer_bigenough, beyond)) ∙ e))
    | inr ((size, probe), sized) ↦
        let here : is_remaining_buffer_bigenough bytes offset total
            ≡ some (not (ltb total (size + probe))) =
          rw (is_remaining_buffer_bigenough, sized) in
        let moved = u16-Advances bytes (offset + 1) size probe sized in ground (arith, here, moved)
  ]

  pub bigenough_sized :
      (bytes : List ℕ) (offset total size probe : ℕ)
      → in_u16 bytes (offset + 1) ≡ some (size, probe)
      → is_remaining_buffer_bigenough bytes offset total ≡ some (not (ltb total (size + probe)))
  unfolding is_remaining_buffer_bigenough
  bigenough_sized bytes offset total size probe e = rw (is_remaining_buffer_bigenough, e)

  pub bigenough_beyond :
      (bytes : List ℕ) (offset total : ℕ)
      → in_u16 bytes (offset + 1) ≡ none
      → is_remaining_buffer_bigenough bytes offset total ≡ none
  unfolding is_remaining_buffer_bigenough
  bigenough_beyond bytes offset total e = rw (is_remaining_buffer_bigenough, e)
