-- ===== src/Packets/Wire.antt =====
-- The bytes of each packet class on the wire, and that the serializers write and read just these.
use socket_cplus_plus.Prelude.{
  subst, some, append_assoc, ℕ, ◌+◌, ◌^◌, ◌<◌, ◌≡◌, sym, List, [], ◌∷◌, ◌++◌, length, arith,
}
use socket_cplus_plus.Wire.{Out, In, emit, ◌>>◌, ◌>>=◌, pure}
use socket_cplus_plus.Wire.Append.{emit-append}
use socket_cplus_plus.Wire.Reads.{Reads, Reads-at, >>=-Reads}
use socket_cplus_plus.Serialize.{in_u8, in_u16, out_u16, in_int, in_u64}
use socket_cplus_plus.Serialize.Host.{ByteOrder, be_bytes}
use socket_cplus_plus.Serialize.Words.{
  u8-writes, u8-Reads, u16-writes, u16-Reads, int-writes, int-Reads, u64-writes, u64-Reads,
}
use socket_cplus_plus.Serialize.Arrays.{>>=-pure-Reads}
use socket_cplus_plus.Packets.{
  BasePacket, ServerTickPacket, PositionPacket, MovementPacket, Packet, base, comms, server_tick,
  position, movement, base_out, base_in, comms_out, comms_in, tick_out, tick_in, position_out,
  position_in, movement_out, movement_in, position_compressed_out, position_compressed_in,
  rotation_compressed_out, rotation_compressed_in, serialize_out, serialize_in,
}

-- Each field within its width.
pub record BaseFits (p : BasePacket) : Type 0 where
  pub type_u8 : p.packet_type < 256
  pub sub_type_u8 : p.packet_sub_type < 256
  pub product_u8 : p.game_product_id < 256
  pub major_u8 : p.version_number_major < 256
  pub minor_u8 : p.version_number_minor < 256
  pub instance_u16 : p.game_instance_id < 2 ^ 16

abbrev pub TickFits : ServerTickPacket → Type 0
TickFits p = BaseFits p.base × (p.server_tick < 2 ^ 16)

abbrev pub PositionFits : PositionPacket → Type 0
PositionFits p =
    TickFits p.tick × (p.position_compressed < 2 ^ 64) × (p.rotation_compressed < 2 ^ 32)

abbrev pub Fits : Packet → Type 0
Fits (base p) = BaseFits p
Fits (comms p) = BaseFits p.base × (p.connection_id < 2 ^ 16)
Fits (server_tick p) = TickFits p
Fits (position p) = PositionFits p
Fits (movement p) = PositionFits p.position × (p.movement_dir_compressed < 2 ^ 64)

abbrev pub base_wire : BasePacket → List ℕ
base_wire p =
    p.packet_type
    ∷ p.packet_sub_type
    ∷ p.version_number_major
    ∷ p.version_number_minor
    ∷ p.game_product_id
    ∷ be_bytes 2 p.game_instance_id

abbrev pub tick_wire : ServerTickPacket → List ℕ
tick_wire p = base_wire p.base ++ be_bytes 2 p.server_tick

abbrev pub position_wire : PositionPacket → List ℕ
position_wire p =
    (tick_wire p.tick ++ be_bytes 8 p.position_compressed) ++ be_bytes 4 p.rotation_compressed

abbrev pub wire : Packet → List ℕ
wire (base p) = base_wire p
wire (comms p) = base_wire p.base ++ be_bytes 2 p.connection_id
wire (server_tick p) = tick_wire p
wire (position p) = position_wire p
wire (movement p) = position_wire p.position ++ be_bytes 8 p.movement_dir_compressed

-- Of one class.
abbrev pub SameClass : Packet → Packet → Type 0
SameClass (base _) (base _) = Unit {0}
SameClass (comms _) (comms _) = Unit {0}
SameClass (server_tick _) (server_tick _) = Unit {0}
SameClass (position _) (position _) = Unit {0}
SameClass (movement _) (movement _) = Unit {0}
SameClass _ _ = ⊥

module _ ⦃net : ByteOrder⦄ where
  pub base-writes : (p : BasePacket) → BaseFits p → base_out p ≡ emit (base_wire p)
  unfolding base_out
  base-writes p f = simp (u8-writes, u16-writes p.game_instance_id f.instance_u16, emit-append)

  after_base :
      (p : BasePacket) (w : Out) (v : List ℕ)
      → BaseFits p
      → w ≡ emit v
      → (base_out p >> w) ≡ emit (base_wire p ++ v)
  after_base p w v f e = simp (base-writes p f, e, emit-append)

  tick-writes : (p : ServerTickPacket) → TickFits p → tick_out p ≡ emit (tick_wire p)
  unfolding tick_out
  tick-writes p (f, t) =
      after_base p.base (out_u16 p.server_tick) (be_bytes 2 p.server_tick) f
        (u16-writes p.server_tick t)

  position-writes : (p : PositionPacket) → PositionFits p → position_out p ≡ emit (position_wire p)
  unfolding position_out position_compressed_out rotation_compressed_out
  position-writes p (f, v, r) = simp (
    tick-writes p.tick f,
    u64-writes p.position_compressed v,
    int-writes p.rotation_compressed r,
    emit-append,
  )

  -- What `serialize_out` writes, class by class.
  pub serialize_out-writes : (p : Packet) → Fits p → serialize_out p ≡ emit (wire p)
  unfolding serialize_out comms_out movement_out position_compressed_out
  serialize_out-writes (base p) f = base-writes p f
  serialize_out-writes (comms p) (f, c) =
      after_base p.base (out_u16 p.connection_id) (be_bytes 2 p.connection_id) f
        (u16-writes p.connection_id c)
  serialize_out-writes (server_tick p) f = tick-writes p f
  serialize_out-writes (position p) f = position-writes p f
  serialize_out-writes (movement p) (f, d) =
      simp (position-writes p.position f, u64-writes p.movement_dir_compressed d, emit-append)

  u8_at :
      (pre xs : List ℕ) (v : ℕ) (rest : List ℕ)
      → in_u8 (pre ++ (xs ++ (v ∷ rest))) (length pre + length xs)
        ≡ some (v, length pre + (length xs + 1))
  u8_at pre xs v rest = Reads-at in_u8 (v ∷ []) v (u8-Reads v) pre xs rest

  pub base-Reads : (p : BasePacket) → BaseFits p → Reads base_in (base_wire p) p
  unfolding base_in
  base-Reads p f pre post =
      let after_product = be_bytes 2 p.game_instance_id ++ post in
      let after_minor = p.game_product_id ∷ after_product in
      let after_major = p.version_number_minor ∷ after_minor in
      let after_sub_type = p.version_number_major ∷ after_major in
      let two : List ℕ = p.packet_type ∷ p.packet_sub_type ∷ [] in
      let three : List ℕ = p.packet_type ∷ p.packet_sub_type ∷ p.version_number_major ∷ [] in
      ground (
        arith,
        u8_at pre [] p.packet_type (p.packet_sub_type ∷ after_sub_type),
        u8_at pre (p.packet_type ∷ []) p.packet_sub_type after_sub_type,
        u8_at pre two p.version_number_major after_major,
        u8_at pre three p.version_number_minor after_minor,
        u8_at pre (three ++ (p.version_number_minor ∷ [])) p.game_product_id after_product,
        Reads-at in_u16 (be_bytes 2 p.game_instance_id) p.game_instance_id
            (u16-Reads p.game_instance_id f.instance_u16) pre
            (three ++ (p.version_number_minor ∷ p.game_product_id ∷ [])) post,
      )

  -- A base packet and one more field.
  base_and :
      {A B : Type 0} (p : BasePacket) (m : In A) (v : List ℕ) (a : A) (f : BasePacket → A → B)
      → BaseFits p
      → Reads m v a
      → Reads (do b ← base_in; x ← m; pure (f b x)) (base_wire p ++ v) (f p a)
  base_and p m v a f fits r =
      >>=-Reads base_in (λ b. do x ← m; pure (f b x)) (base_wire p) v p (f p a) (base-Reads p fits)
        (>>=-pure-Reads m (f p) v a r)

  tick-Reads : (p : ServerTickPacket) → TickFits p → Reads tick_in (tick_wire p) p
  unfolding tick_in
  tick-Reads p (f, t) =
      base_and p.base in_u16 (be_bytes 2 p.server_tick) p.server_tick
        (λ b x. record { base = b; server_tick = x }) f (u16-Reads p.server_tick t)

  position-Reads : (p : PositionPacket) → PositionFits p → Reads position_in (position_wire p) p
  unfolding position_in position_compressed_in rotation_compressed_in
  position-Reads p (f, v, r) =
      let build : ServerTickPacket → ℕ → ℕ → PositionPacket =
        λ t pos rot. record { tick = t; position_compressed = pos; rotation_compressed = rot } in
      subst (λ bs. Reads position_in bs p)
        (sym (
          append_assoc (tick_wire p.tick) (be_bytes 8 p.position_compressed)
            (be_bytes 4 p.rotation_compressed)))
        (>>=-Reads tick_in (λ t. do pos ← in_u64; rot ← in_int; pure (build t pos rot))
          (tick_wire p.tick) (be_bytes 8 p.position_compressed ++ be_bytes 4 p.rotation_compressed)
          p.tick p (tick-Reads p.tick f)
          (>>=-Reads in_u64 (λ pos. do rot ← in_int; pure (build p.tick pos rot))
            (be_bytes 8 p.position_compressed) (be_bytes 4 p.rotation_compressed)
            p.position_compressed p (u64-Reads p.position_compressed v)
            (>>=-pure-Reads in_int (build p.tick p.position_compressed)
              (be_bytes 4 p.rotation_compressed) p.rotation_compressed
              (int-Reads p.rotation_compressed r))))

  movement-Reads :
      (p : MovementPacket)
      → PositionFits p.position
      → p.movement_dir_compressed < 2 ^ 64
      → Reads movement_in (position_wire p.position ++ be_bytes 8 p.movement_dir_compressed) p
  unfolding movement_in position_compressed_in
  movement-Reads p f d =
      let build : PositionPacket → ℕ → MovementPacket =
        λ q dir. record { position = q; movement_dir_compressed = dir } in
      >>=-Reads position_in (λ q. do dir ← in_u64; pure (build q dir)) (position_wire p.position)
        (be_bytes 8 p.movement_dir_compressed) p.position p (position-Reads p.position f)
        (>>=-pure-Reads in_u64 (build p.position) (be_bytes 8 p.movement_dir_compressed)
          p.movement_dir_compressed (u64-Reads p.movement_dir_compressed d))

  -- An object of the packet's class reads the packet.
  pub serialize_in-Reads :
      (q p : Packet) → SameClass q p → Fits p → Reads (serialize_in q) (wire p) p
  unfolding serialize_in comms_in
  serialize_in-Reads (base _) (base p) e f =
      >>=-pure-Reads base_in base (base_wire p) p (base-Reads p f)
  serialize_in-Reads (comms _) (comms p) e (f, c) =
      >>=-pure-Reads comms_in comms (wire (comms p)) p (
        base_and p.base in_u16 (be_bytes 2 p.connection_id) p.connection_id
          (λ b x. record { base = b; connection_id = x }) f (u16-Reads p.connection_id c))
  serialize_in-Reads (server_tick _) (server_tick p) e f =
      >>=-pure-Reads tick_in server_tick (tick_wire p) p (tick-Reads p f)
  serialize_in-Reads (position _) (position p) e f =
      >>=-pure-Reads position_in position (position_wire p) p (position-Reads p f)
  serialize_in-Reads (movement _) (movement p) e (f, d) =
      >>=-pure-Reads movement_in movement (wire (movement p)) p (movement-Reads p f d)
  serialize_in-Reads _ _ e f = elim e [ ]
