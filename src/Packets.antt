-- ===== src/Packets.antt =====
-- The packet classes of UDP01/OldCode/Packets: BasePacket and ConnectionCommsPacket (BasePacket.h,
-- BasePacket.cpp), ServerTickPacket, PositionPacket and MovementPacket (MovementPacket.h,
-- MovementPacket.cpp), with the field order of their SerializeIn and SerializeOut.
-- The classes of IPacketSerializable are the constructors of `Packet`; virtual calls are functions
-- by clauses. `padding`, which is never serialized, is left out.
pub mod Types
pub mod Classes
pub mod Wire
pub mod RoundTrip
pub mod Advance
pub mod Kept
pub mod Examples
use socket_cplus_plus.Prelude.{ℕ, ◌+◌}
use socket_cplus_plus.Wire.{Out, In, ◌>>◌, ◌>>=◌, pure}
use socket_cplus_plus.Serialize.{out_u8, in_u8, out_u16, in_u16, out_int, in_int, out_u64, in_u64}
use socket_cplus_plus.Serialize.Host.{ByteOrder}

pub record BasePacket : Type 0 where
  pub packet_type : ℕ
  pub packet_sub_type : ℕ
  pub game_product_id : ℕ
  pub version_number_major : ℕ
  pub version_number_minor : ℕ
  pub game_instance_id : ℕ

abbrev pub network_version_major : ℕ
network_version_major = 51

abbrev pub network_version_minor : ℕ
network_version_minor = 0

-- BasePacket(int packet_type, int packet_sub_type)
pub new_base : ℕ → ℕ → BasePacket
new_base packet_type packet_sub_type = record {
  packet_type = packet_type;
  packet_sub_type = packet_sub_type;
  game_product_id = 0;
  version_number_major = network_version_major;
  version_number_minor = network_version_minor;
  game_instance_id = 0;
}

-- What `CopyFrom(source)` makes of `dest`; `source.WriteTo(dest)` is the same.
pub copy_from : BasePacket → BasePacket → BasePacket
copy_from dest source = record dest {
  game_product_id = source.game_product_id;
  version_number_major = source.version_number_major;
  version_number_minor = source.version_number_minor;
  game_instance_id = source.game_instance_id;
}

pub record ConnectionCommsPacket : Type 0 where
  pub base : BasePacket
  pub open base use *
  pub connection_id : ℕ

pub record ServerTickPacket : Type 0 where
  pub base : BasePacket
  pub open base use *
  pub server_tick : ℕ

-- `position_compressed` is the U64 of PositionCompressed, `rotation_compressed` the pattern of the
-- int of RotationCompressed.
pub record PositionPacket : Type 0 where
  pub tick : ServerTickPacket
  pub open tick use *
  pub position_compressed : ℕ
  pub rotation_compressed : ℕ

pub record MovementPacket : Type 0 where
  pub position : PositionPacket
  pub open position use *
  pub movement_dir_compressed : ℕ

-- IPacketSerializable
pub data Packet : Type 0 where
  base : BasePacket → Packet
  comms : ConnectionCommsPacket → Packet
  server_tick : ServerTickPacket → Packet
  position : PositionPacket → Packet
  movement : MovementPacket → Packet

-- BasePacket::GetSize, the sum that the constructor asserts it to be.
abbrev pub base_size : ℕ
base_size = 1 + 1 + 1 + 1 + 1 + 2

module _ ⦃net : ByteOrder⦄ where
  pub base_out : BasePacket → Out
  base_out p =
      out_u8 p.packet_type
      >> out_u8 p.packet_sub_type
      >> out_u8 p.version_number_major
      >> out_u8 p.version_number_minor
      >> out_u8 p.game_product_id
      >> out_u16 p.game_instance_id

  pub base_in : In BasePacket
  base_in = do
    packet_type ← in_u8
    packet_sub_type ← in_u8
    version_number_major ← in_u8
    version_number_minor ← in_u8
    game_product_id ← in_u8
    game_instance_id ← in_u16
    pure (record {
      packet_type = packet_type;
      packet_sub_type = packet_sub_type;
      game_product_id = game_product_id;
      version_number_major = version_number_major;
      version_number_minor = version_number_minor;
      game_instance_id = game_instance_id;
    })

  pub comms_out : ConnectionCommsPacket → Out
  comms_out p = base_out p.base >> out_u16 p.connection_id

  pub comms_in : In ConnectionCommsPacket
  comms_in = do
    b ← base_in
    connection_id ← in_u16
    pure (record { base = b; connection_id = connection_id })

  pub tick_out : ServerTickPacket → Out
  tick_out p = base_out p.base >> out_u16 p.server_tick

  pub tick_in : In ServerTickPacket
  tick_in = do b ← base_in; tick ← in_u16; pure (record { base = b; server_tick = tick })

  -- PositionCompressed and RotationCompressed serialize their one number.
  pub position_compressed_out : ℕ → Out
  position_compressed_out v = out_u64 v

  pub position_compressed_in : In ℕ
  position_compressed_in = in_u64

  pub rotation_compressed_out : ℕ → Out
  rotation_compressed_out v = out_int v

  pub rotation_compressed_in : In ℕ
  rotation_compressed_in = in_int

  pub position_out : PositionPacket → Out
  position_out p =
      tick_out p.tick
      >> position_compressed_out p.position_compressed
      >> rotation_compressed_out p.rotation_compressed

  pub position_in : In PositionPacket
  position_in = do
    t ← tick_in
    pos ← position_compressed_in
    rot ← rotation_compressed_in
    pure (record { tick = t; position_compressed = pos; rotation_compressed = rot })

  pub movement_out : MovementPacket → Out
  movement_out p = position_out p.position >> position_compressed_out p.movement_dir_compressed

  pub movement_in : In MovementPacket
  movement_in = do
    p ← position_in
    dir ← position_compressed_in
    pure (record { position = p; movement_dir_compressed = dir })

  -- packet->SerializeOut
  pub serialize_out : Packet → Out
  serialize_out (base p) = base_out p
  serialize_out (comms p) = comms_out p
  serialize_out (server_tick p) = tick_out p
  serialize_out (position p) = position_out p
  serialize_out (movement p) = movement_out p

  -- packet->SerializeIn: an object of the same class with every field read anew.
  pub serialize_in : Packet → In Packet
  serialize_in (base _) = do p ← base_in; pure (base p)
  serialize_in (comms _) = do p ← comms_in; pure (comms p)
  serialize_in (server_tick _) = do p ← tick_in; pure (server_tick p)
  serialize_in (position _) = do p ← position_in; pure (position p)
  serialize_in (movement _) = do p ← movement_in; pure (movement p)
