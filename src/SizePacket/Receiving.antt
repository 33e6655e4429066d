-- ===== src/SizePacket/Receiving.antt =====
-- The receiver of a frame: SizePacket::IsRemainingBufferBigenough and SizePacket::SerializeIn on what
-- SizePacket::SerializeOut wrote.
use socket_cplus_plus.Prelude.{
  ℕ, ◌+◌, ◌≡◌, refl, sym, ap, ap₂, ◌∙◌, List, [], ◌∷◌, ◌++◌, Option, none, some, not, ltb, length,
  get_elem?, set, arith,
}
use socket_cplus_plus.Prelude.Maps.{find, assign, pair_key}
use socket_cplus_plus.Wire.{Cursor}
use socket_cplus_plus.Wire.Laws.{emit-Wrote}
use socket_cplus_plus.Wire.Reads.{Reads-at}
use socket_cplus_plus.Serialize.{in_u16}
use socket_cplus_plus.Serialize.Host.{ByteOrder, be_bytes}
use socket_cplus_plus.Serialize.Words.{u8-Reads, u16-Reads}
use socket_cplus_plus.CircularBuffer.{CircularBuffer, get}
use socket_cplus_plus.CircularBuffer.Invariant.{IsValid}
use socket_cplus_plus.CircularBuffer.Queue.{queue_get}
use socket_cplus_plus.CircularBuffer.Refine.{get_refines}
use socket_cplus_plus.Packets.{
  Packet, base, comms, server_tick, position, movement, base_in, serialize_in,
}
use socket_cplus_plus.Packets.Wire.{
  BaseFits, Fits, SameClass, base_wire, wire, base-Reads, serialize_in-Reads,
}
use socket_cplus_plus.Packets.Classes.{header}
use socket_cplus_plus.PacketFactory.{Pointer, TypePair, Factory, moved, create_by_type}
use socket_cplus_plus.PacketFactory.Counting.{stored}
use socket_cplus_plus.PacketFactory.Ownership.{create_by_type_found, drawn}
use socket_cplus_plus.PacketFactory.Lifecycle.{create_by_type_exhausted}
use socket_cplus_plus.SizePacket.{
  size_out, size_in, is_remaining_buffer_bigenough, network_protocol,
}
use socket_cplus_plus.SizePacket.Frames.{frame, size_out-writes, wire_small}

header-wire : (p : Packet) → (rest : List ℕ) × (wire p ≡ base_wire (header p) ++ rest)
header-wire (base p) = ([], refl)
header-wire (comms p) = (be_bytes 2 p.connection_id, refl)
header-wire (server_tick p) = (be_bytes 2 p.server_tick, refl)
header-wire (position p) = (
  be_bytes 2 p.server_tick
      ++ (be_bytes 8 p.position_compressed ++ be_bytes 4 p.rotation_compressed),
  refl,
)
header-wire (movement p) = (
  be_bytes 2 p.server_tick
      ++ (be_bytes 8 p.position_compressed
          ++ (be_bytes 4 p.rotation_compressed ++ be_bytes 8 p.movement_dir_compressed)),
  refl,
)

header-Fits : (p : Packet) → Fits p → BaseFits (header p)
header-Fits (base p) f = f
header-Fits (comms p) (f, _) = f
header-Fits (server_tick p) (f, _) = f
header-Fits (position p) ((f, _), _, _) = f
header-Fits (movement p) (((f, _), _, _), _) = f

-- The pair by which the receiver asks the factory.
abbrev pub announced : Packet → TypePair
announced p = ((header p).packet_type, (header p).packet_sub_type)

module _ ⦃net : ByteOrder⦄ where
  -- SerializeIn from where it has probed the header on.
  abbrev pub deliver : List ℕ → ℕ → Pointer × Factory → Option (ℕ × ℕ × Factory)
  deliver bytes start (packet, g) = elim packet [
    | none ↦ none
    | some a ↦ elim (get_elem? g.heap a) [
      | none ↦ none
      | some object ↦ elim (serialize_in object bytes start) [
        | none ↦ none
        | some (filled, end) ↦ some (a, end, record g { heap = set g.heap a filled })
      ]
    ]
  ]

  abbrev pub receive : Factory → List ℕ → ℕ → TypePair → Option (ℕ × ℕ × Factory)
  receive f bytes start pair = deliver bytes start (create_by_type pair f)

  probed :
      (p : Packet) (pre post : List ℕ)
      → Fits p
      → base_in (pre ++ (frame p ++ post)) (length pre + 3)
        ≡ some (header p, length pre + (3 + length (base_wire (header p))))
  probed p pre post fits =
      let (rest, e) = header-wire p in
      let head = network_protocol ∷ be_bytes 2 (length (wire p)) in
      ap (λ t. base_in (pre ++ (head ++ (t ++ post))) (length pre + 3)) e
      ∙ Reads-at base_in (base_wire (header p)) (header p)
          (base-Reads (header p) (header-Fits p fits)) pre head (rest ++ post)

  pub sized :
      (p : Packet) (pre post : List ℕ)
      → in_u16 (pre ++ (frame p ++ post)) (length pre + 1) ≡ some (length (wire p), length pre + 3)
  sized p pre post =
      Reads-at in_u16 (be_bytes 2 (length (wire p))) (length (wire p))
        (u16-Reads (length (wire p)) (wire_small p)) pre (network_protocol ∷ []) (wire p ++ post)

  pub size_in-frame :
      (f : Factory) (p : Packet) (pre post : List ℕ)
      → Fits p
      → size_in f (pre ++ (frame p ++ post)) (length pre)
        ≡ receive f (pre ++ (frame p ++ post)) (length pre + 3) (announced p)
  unfolding size_in
  size_in-frame f p pre post fits =
      let tail = be_bytes 2 (length (wire p)) ++ (wire p ++ post) in
      rw (size_in, u8-Reads network_protocol pre tail, sized p pre post, probed p pre post fits)

  size_in_received :
      (f : Factory) (p : Packet) (c d : Cursor)
      → Fits p
      → size_out p c ≡ some d
      → size_in f d.bytes c.offset ≡ receive f d.bytes (c.offset + 3) (announced p)
  size_in_received f p c d fits e =
      let w = emit-Wrote (frame p) c d (ap (λ o. o c) (sym (size_out-writes p fits)) ∙ e) in
      let bytes = ap (λ t. t.bytes) w.target in
      let offset = ap (λ t. t.offset) w.source in
      ap₂ (size_in f) bytes offset
      ∙ size_in-frame f p w.before w.behind fits
      ∙ sym (ap₂ (λ t n. receive f t (n + 3) (announced p)) bytes offset)

  pub filled_frame :
      (q p : Packet) (pre post : List ℕ)
      → Fits p
      → SameClass q p
      → serialize_in q (pre ++ (frame p ++ post)) (length pre + 3)
        ≡ some (p, length pre + (3 + length (wire p)))
  filled_frame q p pre post fits same =
      Reads-at (serialize_in q) (wire p) p (serialize_in-Reads q p same fits) pre
        (network_protocol ∷ be_bytes 2 (length (wire p))) post

  filled_in :
      (q p : Packet) (c d : Cursor)
      → Fits p
      → size_out p c ≡ some d
      → SameClass q p
      → serialize_in q d.bytes (c.offset + 3) ≡ some (p, d.offset)
  filled_in q p c d fits e same =
      let w = emit-Wrote (frame p) c d (ap (λ o. o c) (sym (size_out-writes p fits)) ∙ e) in
      let bytes = ap (λ t. t.bytes) w.target in
      let offset = ap (λ t. t.offset) w.source in
      let end : length w.before + (3 + length (wire p)) ≡ d.offset =
        omega (arith, ap (λ t. t.offset) w.target) in
      ap₂ (λ t n. serialize_in q t (n + 3)) bytes offset
      ∙ filled_frame q p w.before w.behind fits same
      ∙ ap (λ n. some (p, n)) end

  -- The receiver's test on a frame answers whether the buffer holds it to its end.
  pub is_remaining_buffer_bigenough-size_out :
      (p : Packet) (c d : Cursor) (total_bytes_in_buffer : ℕ)
      → Fits p
      → size_out p c ≡ some d
      → is_remaining_buffer_bigenough d.bytes c.offset total_bytes_in_buffer
        ≡ some (not (ltb total_bytes_in_buffer d.offset))
  unfolding is_remaining_buffer_bigenough
  is_remaining_buffer_bigenough-size_out p c d total fits e =
      let w = emit-Wrote (frame p) c d (ap (λ o. o c) (sym (size_out-writes p fits)) ∙ e) in
      let bytes = ap (λ t. t.bytes) w.target in
      let offset = ap (λ t. t.offset) w.source in
      let size : in_u16 d.bytes (c.offset + 1) ≡ some (length (wire p), length w.before + 3) =
        ap₂ (λ t n. in_u16 t (n + 1)) bytes offset ∙ sized p w.before w.behind in
      let end : length (wire p) + (length w.before + 3) ≡ d.offset =
        omega (arith, ap (λ t. t.offset) w.target) in
      rw (is_remaining_buffer_bigenough, size, end)

  -- The receiver of a frame, where the pool of the announced pair has an object `a` of the packet's
  -- class in front: it takes that object, reads the packet into it, and stops behind the frame.
  pub size_in-size_out :
      (f : Factory) (b : CircularBuffer Pointer) (a : ℕ) (rest : List Pointer) (q p : Packet)
      (c d : Cursor)
      → Fits p
      → size_out p c ≡ some d
      → IsValid b
      → find (announced p) f.creation_pool ≡ some b
      → stored b ≡ some a ∷ rest
      → get_elem? f.heap a ≡ some q
      → SameClass q p
      → size_in f d.bytes c.offset
        ≡ some (
          a,
          d.offset,
          record f {
            creation_pool = assign (announced p) (get none moved b).1 f.creation_pool;
            heap = set f.heap a p;
          },
        )
  size_in-size_out f b a rest q p c d fits e v found oldest there same =
      let given : (get none moved b).0 ≡ some a =
        ap (λ r. r.0) (get_refines none moved b v ∙ ap (queue_get none b.max_size) oldest) in
      let created : create_by_type (announced p) f ≡ (some a, drawn (announced p) b f) =
        create_by_type_found (announced p) f b found
        ∙ ap (λ t. (t, drawn (announced p) b f)) given in
      size_in_received f p c d fits e
      ∙ ap (deliver d.bytes (c.offset + 3)) created
      ∙ rw (deliver, there, filled_in q p c d fits e same)

  -- Where the pool of the announced pair is empty, the factory's null pointer is dereferenced.
  pub size_in_exhausted :
      (f : Factory) (b : CircularBuffer Pointer) (p : Packet) (c d : Cursor)
      → Fits p
      → size_out p c ≡ some d
      → IsValid b
      → find (announced p) f.creation_pool ≡ some b
      → stored b ≡ []
      → size_in f d.bytes c.offset ≡ none
  size_in_exhausted f b p c d fits e v found empty =
      size_in_received f p c d fits e
      ∙ rw (deliver, create_by_type_exhausted (announced p) f b v found empty)
