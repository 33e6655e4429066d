-- ===== src/Packets/RoundTrip.antt =====
-- The serializers against each other: what a packet's SerializeOut wrote, the SerializeIn of an
-- object of its class reads back; and how far both go.
use socket_cplus_plus.Prelude.{◌+◌, ◌≤◌, ◌<◌, ◌≡◌, ap, ◌∙◌, some, none, length, arith}
use socket_cplus_plus.Wire.{Cursor}
use socket_cplus_plus.Wire.Laws.{emit-short, emit-total, emit-extent}
use socket_cplus_plus.Wire.Reads.{read_back}
use socket_cplus_plus.Serialize.Host.{ByteOrder}
use socket_cplus_plus.Packets.{Packet, serialize_out, serialize_in}
use socket_cplus_plus.Packets.Wire.{Fits, SameClass, wire, serialize_out-writes, serialize_in-Reads}
use socket_cplus_plus.Packets.Classes.{class_of, class_size, length-wire}

module _ ⦃net : ByteOrder⦄ where
  -- What SerializeOut of a packet with fields in their widths wrote at an offset, SerializeIn of any
  -- object of the same class reads from that offset: the same packet, with the offset moved alike.
  pub serialize_in-serialize_out :
      (p q : Packet) (c d : Cursor)
      → Fits p
      → SameClass q p
      → serialize_out p c ≡ some d
      → serialize_in q d.bytes c.offset ≡ some (p, d.offset)
  serialize_in-serialize_out p q c d f same e =
      read_back (serialize_out p) (serialize_in q) (wire p) p (serialize_out-writes p f)
        (serialize_in-Reads q p same f) e

  -- Where the buffer has room for its class's size, SerializeOut succeeds, moves the offset by that
  -- size and keeps the buffer's length.
  pub serialize_out_room :
      (p : Packet) (c : Cursor)
      → Fits p
      → c.offset + class_size (class_of p) ≤ length c.bytes
      → (d : Cursor) × (serialize_out p c ≡ some d)
        × (d.offset ≡ c.offset + class_size (class_of p))
        × (length d.bytes ≡ length c.bytes)
  serialize_out_room p c f h =
      let (d, e) = emit-total (wire p) c (omega (arith, length-wire p)) in
      let (next, same) = emit-extent (wire p) c d e in
      (d, ap (λ w. w c) (serialize_out-writes p f) ∙ e, omega (arith, length-wire p), same)

  -- With less room than that it writes outside the buffer.
  pub serialize_out_overrun :
      (p : Packet) (c : Cursor)
      → Fits p
      → length c.bytes < c.offset + class_size (class_of p)
      → serialize_out p c ≡ none
  serialize_out_overrun p c f h =
      ap (λ w. w c) (serialize_out-writes p f)
      ∙ emit-short (wire p) c (omega (arith, length-wire p))
