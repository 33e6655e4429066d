-- ===== src/SizePacket/Owning.antt =====
-- SizePacket::SerializeIn takes an object from the factory and writes it over: what it gives is the
-- caller's own, and every object keeps its class, whatever the bytes are.
use socket_cplus_plus.Prelude.{
  ℕ, ◌≡◌, sym, ap, subst, ◌∙◌, inl, inr, none, some, List, ◌∷◌, get_elem?, set, Option-cases,
  some_inj, none_ne_some,
}
use socket_cplus_plus.Serialize.{in_u8, in_u16}
use socket_cplus_plus.Serialize.Host.{ByteOrder}
use socket_cplus_plus.Packets.{base_in, serialize_in}
use socket_cplus_plus.Packets.Kept.{serialize_in_kept}
use socket_cplus_plus.PacketFactory.{Pointer, TypePair, Factory, create_by_type}
use socket_cplus_plus.PacketFactory.Making.{Owned}
use socket_cplus_plus.PacketFactory.Ownership.{create_by_type-cases, create_by_type-Owned}
use socket_cplus_plus.PacketFactory.Kinds.{Keeps, set-Keeps, set-Owned}
use socket_cplus_plus.SizePacket.{size_in}
use socket_cplus_plus.SizePacket.Receiving.{deliver}

-- The packet is the caller's, beside those that were held, and no object has changed its class.
abbrev pub Taken : List Pointer → Factory → ℕ → Factory → Type 0
Taken held f a g = Owned (some a ∷ held) g × Keeps f.heap g.heap

create_by_type_heap : (k : TypePair) (f : Factory) → (create_by_type k f).1.heap ≡ f.heap
create_by_type_heap k f = elim (create_by_type-cases k f) [
  | inl e ↦ ap (λ r. r.1.heap) e
  | inr (b, found, e) ↦ ap (λ r. r.1.heap) e
]

module _ ⦃net : ByteOrder⦄ where
  deliver-Taken :
      (held : List Pointer) (bytes : List ℕ) (start : ℕ) (made : Pointer × Factory) (a next : ℕ)
      (g : Factory)
      → Owned (made.0 ∷ held) made.1
      → deliver bytes start made ≡ some (a, next, g)
      → Taken held made.1 a g
  deliver-Taken held bytes start (none, f) a next g owned e = absurd (none_ne_some e)
  deliver-Taken held bytes start (some b, f) a next g owned e =
      elim (Option-cases (get_elem? f.heap b)) [
        | inl missing ↦ absurd (none_ne_some (sym (rw (deliver, missing)) ∙ e))
        | inr (object, there) ↦ elim (Option-cases (serialize_in object bytes start)) [
          | inl failed ↦ absurd (none_ne_some (sym (rw (deliver, there, failed)) ∙ e))
          | inr ((filled, end), read) ↦
              let made : deliver bytes start (some b, f)
                  ≡ some (b, end, record f { heap = set f.heap b filled }) =
                rw (deliver, there, read) in
              let same = serialize_in_kept object filled bytes start end read in
              let whole : Taken held f b (record f { heap = set f.heap b filled }) = (
                set-Owned (some b ∷ held) f b object filled there same owned,
                set-Keeps f.heap b object filled there same,
              ) in
              subst (λ r. Taken held f r.0 r.2) (some_inj (sym made ∙ e)) whole
        ]
      ]

  pub size_in-Taken :
      (held : List Pointer) (f g : Factory) (bytes : List ℕ) (offset a next : ℕ)
      → Owned held f
      → size_in f bytes offset ≡ some (a, next, g)
      → Taken held f a g
  unfolding size_in
  size_in-Taken held f g bytes offset a next owned e = elim (Option-cases (in_u8 bytes offset)) [
    | inl no_type ↦ absurd (none_ne_some (sym (rw (size_in, no_type)) ∙ e))
    | inr ((kind, after_type), typed) ↦ elim (Option-cases (in_u16 bytes after_type)) [
      | inl no_size ↦ absurd (none_ne_some (sym (rw (size_in, typed, no_size)) ∙ e))
      | inr ((size, start), sized) ↦ elim (Option-cases (base_in bytes start)) [
        | inl no_header ↦ absurd (none_ne_some (sym (rw (size_in, typed, sized, no_header)) ∙ e))
        | inr ((probe, end), probed) ↦
            let k : TypePair = (probe.packet_type, probe.packet_sub_type) in
            let here : size_in f bytes offset ≡ deliver bytes start (create_by_type k f) =
              rw (size_in, typed, sized, probed) in
            subst (λ h. Owned (some a ∷ held) g × Keeps h g.heap) (create_by_type_heap k f)
              (deliver-Taken held bytes start (create_by_type k f) a next g
                (create_by_type-Owned held k f owned) (sym here ∙ e))
      ]
    ]
  ]
