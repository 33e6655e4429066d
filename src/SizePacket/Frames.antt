-- ===== src/SizePacket/Frames.antt =====
-- What SizePacket::SerializeOut writes, whole, although it goes back to write the size.
use socket_cplus_plus.Prelude.{
  ℕ, ◌+◌, ◌-◌, ◌%◌, ◌^◌, ◌≤◌, ◌<◌, ◌≡◌, refl, sym, ap, ap₂, fun_ext, ◌∙◌, inl, inr, List, [], ◌∷◌,
  ◌++◌, none, some, Option-cases, length, take, drop, length-append, length-take, length-drop,
  take-append-drop, append_assoc, arith,
}
use native.Mathlib.Decide.{dec_le}
use socket_cplus_plus.Wire.{Cursor, Out, emit}
use socket_cplus_plus.Wire.Laws.{emit-shape, cut, at-Cut, emit-short, emit-extent}
use socket_cplus_plus.Wire.Append.{emit_after}
use socket_cplus_plus.Serialize.{out_u16}
use socket_cplus_plus.Serialize.Host.{ByteOrder, be_bytes}
use socket_cplus_plus.Serialize.Words.{u8-writes, u16-writes}
use socket_cplus_plus.Packets.{Packet}
use socket_cplus_plus.Packets.Wire.{Fits, wire, serialize_out-writes}
use socket_cplus_plus.Packets.Classes.{
  Class, base_class, comms_class, server_tick_class, position_class, movement_class, class_of,
  class_size, length-wire,
}
use socket_cplus_plus.SizePacket.{size_out, network_protocol}

-- The frame of a packet.
abbrev pub frame : Packet → List ℕ
frame p = (network_protocol ∷ []) ++ (be_bytes 2 (length (wire p)) ++ wire p)

-- The frames of several packets, one behind the other.
abbrev pub frames : List Packet → List ℕ
frames [] = []
frames (p ∷ ps) = frame p ++ frames ps

small : (c : Class) → class_size c < 2 ^ 16
small base_class = omega arith
small comms_class = omega arith
small server_tick_class = omega arith
small position_class = omega arith
small movement_class = omega arith

-- A writer that leaves `gap` bytes free behind the first, and fills them from what it wrote then.
abbrev patching : Out → Out → (ℕ → Out) → Out
patching head body size c = elim (head c) [
  | none ↦ none
  | some d ↦ elim (body (record d { offset = d.offset + 2 })) [
    | none ↦ none
    | some e ↦ elim (size (e.offset - d.offset - 2) (record e { offset = d.offset })) [
      | none ↦ none
      | some f ↦ some (record f { offset = e.offset })
    ]
  ]
]

-- Behind the gap.
emit_beyond :
    (pre xs gap old ys post : List ℕ)
    → length gap ≡ 2
    → length old ≡ length ys
    → emit ys (record {
      bytes = pre ++ (xs ++ (gap ++ (old ++ post)));
      offset = length pre + length xs + 2;
    })
      ≡ some (record {
        bytes = pre ++ (xs ++ (gap ++ (ys ++ post)));
        offset = length pre + length xs + 2 + length ys;
      })
emit_beyond pre xs gap old ys post two e =
    let at : length pre + length xs + 2 ≡ length pre + length (xs ++ gap) =
      omega (arith, length-append xs gap) in
    rw (at, ← append_assoc xs gap (old ++ post), ← append_assoc xs gap (ys ++ post))
      (emit_after pre (xs ++ gap) old ys post e)

module _ (head body : List ℕ) (size : ℕ → List ℕ) (two : length (size (length body)) ≡ 2) where
  patched :
      (pre o1 o2 o3 post : List ℕ)
      → length o1 ≡ length head
      → length o2 ≡ 2
      → length o3 ≡ length body
      → patching
          (emit head)
          (emit body)
          (λ n. emit (size n))
          (record { bytes = pre ++ (o1 ++ (o2 ++ (o3 ++ post))); offset = length pre })
        ≡ some (record {
          bytes = pre ++ (head ++ (size (length body) ++ (body ++ post)));
          offset = length pre + length head + 2 + length body;
        })
  patched pre o1 o2 o3 post e1 e2 e3 =
      let start = length pre + length head in
      let width : start + 2 + length body - start - 2 ≡ length body = omega arith in
      rw (
        patching,
        emit-shape pre o1 head (o2 ++ (o3 ++ post)) e1,
        emit_beyond pre head o2 o3 body post e2 e3,
        width,
        emit_after pre head o2 (size (length body)) (body ++ post) (e2 ∙ sym two),
      )

  length-whole : length (head ++ (size (length body) ++ body)) ≡ length head + 2 + length body
  length-whole = omega (
    arith,
    two,
    length-append head (size (length body) ++ body),
    length-append (size (length body)) body,
  )

  single :
      (pre o1 o2 o3 post : List ℕ)
      → length o1 ≡ length head
      → length o2 ≡ 2
      → length o3 ≡ length body
      → emit
          (head ++ (size (length body) ++ body))
          (record { bytes = pre ++ (o1 ++ (o2 ++ (o3 ++ post))); offset = length pre })
        ≡ some (record {
          bytes = pre ++ (head ++ (size (length body) ++ (body ++ post)));
          offset = length pre + length head + 2 + length body;
        })
  single pre o1 o2 o3 post e1 e2 e3 =
      let field = size (length body) in
      let all : length (o1 ++ (o2 ++ o3)) ≡ length (head ++ (field ++ body)) =
        omega (arith, e1, e2, e3, length-whole, length-append o1 (o2 ++ o3), length-append o2 o3) in
      let end : length pre + length (head ++ (field ++ body))
          ≡ length pre + length head + 2 + length body =
        omega (arith, length-whole) in
      let old : o1 ++ (o2 ++ (o3 ++ post)) ≡ (o1 ++ (o2 ++ o3)) ++ post =
        ap (◌++◌ o1) (sym (append_assoc o2 o3 post)) ∙ sym (append_assoc o1 (o2 ++ o3) post) in
      let new : (head ++ (field ++ body)) ++ post ≡ head ++ (field ++ (body ++ post)) =
        append_assoc head (field ++ body) post ∙ ap (◌++◌ head) (append_assoc field body post) in
      ap (λ t. emit (head ++ (field ++ body)) (record { bytes = pre ++ t; offset = length pre }))
        old
      ∙ emit-shape pre (o1 ++ (o2 ++ o3)) (head ++ (field ++ body)) post all
      ∙ ap₂ (λ t n. some (record { bytes = pre ++ t; offset = n })) new end

  patching_fits :
      (c : Cursor)
      → c.offset + (length head + 2 + length body) ≤ length c.bytes
      → patching (emit head) (emit body) (λ n. emit (size n)) c
        ≡ emit (head ++ (size (length body) ++ body)) c
  patching_fits c h =
      let n = length head + 2 + length body in
      let k = cut c.bytes c.offset n h in
      let o1 = take (length head) k.over in
      let tail = drop (length head) k.over in
      let o2 = take 2 tail in
      let o3 = drop 2 tail in
      let tail_size : length tail ≡ 2 + length body =
        omega (arith, k.room, length-drop (length head) k.over) in
      let e1 : length o1 ≡ length head = length-take (length head) k.over (omega (arith, k.room)) in
      let e2 : length o2 ≡ 2 = length-take 2 tail (omega (arith, tail_size)) in
      let e3 : length o3 ≡ length body = omega (arith, tail_size, length-drop 2 tail) in
      let parts : k.over ++ k.behind ≡ o1 ++ (o2 ++ (o3 ++ k.behind)) =
        ap (λ t. t ++ k.behind) (sym (take-append-drop (length head) k.over))
        ∙ append_assoc o1 tail k.behind
        ∙ ap (λ t. o1 ++ (t ++ k.behind)) (sym (take-append-drop 2 tail))
        ∙ ap (◌++◌ o1) (append_assoc o2 o3 k.behind) in
      let here : c ≡ record {
        bytes = k.before ++ (o1 ++ (o2 ++ (o3 ++ k.behind)));
        offset = length k.before;
      } =
        at-Cut c n k ∙ ap (λ t. record { bytes = k.before ++ t; offset = length k.before }) parts in
      ap (patching (emit head) (emit body) (λ n. emit (size n))) here
      ∙ patched k.before o1 o2 o3 k.behind e1 e2 e3
      ∙ sym (
          ap (emit (head ++ (size (length body) ++ body))) here
          ∙ single k.before o1 o2 o3 k.behind e1 e2 e3)

  patching_short :
      (c : Cursor)
      → length c.bytes < c.offset + (length head + 2 + length body)
      → patching (emit head) (emit body) (λ n. emit (size n)) c
        ≡ emit (head ++ (size (length body) ++ body)) c
  patching_short c h =
      let fails =
        emit-short (head ++ (size (length body) ++ body)) c (omega (arith, length-whole)) in
      elim (Option-cases (emit head c)) [
        | inl e ↦ rw (patching, e, fails)
        | inr (d, e) ↦
            let (next, same) = emit-extent head c d e in
            rw (
              patching,
              e,
              emit-short body (record d { offset = d.offset + 2 }) (omega arith),
              fails,
            )
      ]

  patching-emit :
      patching (emit head) (emit body) (λ n. emit (size n))
      ≡ emit (head ++ (size (length body) ++ body))
  patching-emit = fun_ext λ c.
      elim (dec_le (c.offset + (length head + 2 + length body)) (length c.bytes)) [
        | yes fits ↦ patching_fits c fits
        | no short ↦ patching_short c (omega arith)
      ]

module _ ⦃net : ByteOrder⦄ where
  size_out-patching :
      (p : Packet)
      → Fits p
      → size_out p
        ≡ patching
            (emit (network_protocol ∷ []))
            (emit (wire p))
            (λ n. emit (be_bytes 2 (n % 2 ^ 16)))
  unfolding size_out
  size_out-patching p f =
      ap₂ (λ h b. patching h b (λ n. out_u16 (n % 2 ^ 16))) (u8-writes network_protocol)
        (serialize_out-writes p f)
      ∙ ap (patching (emit (network_protocol ∷ [])) (emit (wire p)))
          (fun_ext λ n. u16-writes (n % 2 ^ 16) (omega arith))

  -- No class is as large as 2^16 bytes.
  pub wire_small : (p : Packet) → length (wire p) < 2 ^ 16
  wire_small p = rw (length-wire p) (small (class_of p))

  -- SizePacket::SerializeOut of a packet whose fields are in their widths writes the type byte, the
  -- size of the packet in two bytes, and the packet, without a gap.
  pub size_out-writes : (p : Packet) → Fits p → size_out p ≡ emit (frame p)
  size_out-writes p f =
      let whole : length (wire p) % 2 ^ 16 ≡ length (wire p) = omega (arith, wire_small p) in
      size_out-patching p f
      ∙ patching-emit (network_protocol ∷ []) (wire p) (λ n. be_bytes 2 (n % 2 ^ 16)) refl
      ∙ ap (λ n. emit ((network_protocol ∷ []) ++ (be_bytes 2 n ++ wire p))) whole

  -- Behind bytes that are already in the buffer.
  pub size_out_behind :
      (p : Packet) (sent rest : List ℕ)
      → Fits p
      → length (frame p) ≤ length rest
      → size_out p (record { bytes = sent ++ rest; offset = length sent })
        ≡ some (record {
          bytes = (sent ++ frame p) ++ drop (length (frame p)) rest;
          offset = length (sent ++ frame p);
        })
  size_out_behind p sent rest fits room =
      let n = length (frame p) in
      ap (λ o. o (record { bytes = sent ++ rest; offset = length sent })) (size_out-writes p fits)
      ∙ ap (λ t. emit (frame p) (record { bytes = sent ++ t; offset = length sent }))
          (sym (take-append-drop n rest))
      ∙ emit-shape sent (take n rest) (frame p) (drop n rest) (length-take n rest room)
      ∙ ap₂ (λ t k. some (record { bytes = t; offset = k }))
          (sym (append_assoc sent (frame p) (drop n rest))) (sym (length-append sent (frame p)))
