-- ===== src/Packets/Examples.antt =====
-- Runs of the serializers of Serialize.h and of the packet classes.
use socket_cplus_plus.Prelude.{
  ℕ, ◌+◌, ◌≡◌, ◌≢◌, refl, [], ◌∷◌, ◌++◌, some, length, replicate, arith,
}
use socket_cplus_plus.Wire.{Cursor, emit}
use socket_cplus_plus.Serialize.{out_u8, out_u16, out_int, out_u64, htonll}
use socket_cplus_plus.Packets.{
  BasePacket, Packet, position, serialize_out, serialize_in, position_out, tick_out, base_out,
  position_compressed_out, rotation_compressed_out,
}
use socket_cplus_plus.Packets.Types.{get_packet_typename}
use socket_cplus_plus.Packets.Classes.{create, position_class, create-SameClass}
use socket_cplus_plus.Packets.Wire.{BaseFits, Fits, wire}
use socket_cplus_plus.Packets.RoundTrip.{serialize_in-serialize_out, serialize_out_room}
use socket_cplus_plus.Serialize.Hosts.{little_endian}

abbrev pub a_header : BasePacket
a_header = record {
  packet_type = 2;
  packet_sub_type = 1;
  game_product_id = 16;
  version_number_major = 51;
  version_number_minor = 0;
  game_instance_id = 258;
}

abbrev pub a_header-BaseFits : BaseFits a_header
a_header-BaseFits = record {
  type_u8 = omega arith;
  sub_type_u8 = omega arith;
  product_u8 = omega arith;
  major_u8 = omega arith;
  minor_u8 = omega arith;
  instance_u16 = omega arith;
}

-- A player at a place, which is what the game sends.
abbrev pub a_position : Packet
a_position = position (record {
  tick = record { base = a_header; server_tick = 515 };
  position_compressed = 1029;
  rotation_compressed = 6;
})

abbrev pub a_buffer : Cursor
a_buffer = record { bytes = replicate 24 9; offset = 2 }

abbrev pub a_short_buffer : Cursor
a_short_buffer = record { bytes = replicate 12 9; offset = 2 }

abbrev a_position_buffer : Cursor
a_position_buffer = record { bytes = (9 ∷ 9 ∷ []) ++ (wire a_position ++ (9 ∷ [])); offset = 23 }

a_position_written : serialize_out a_position a_buffer ≡ some a_position_buffer
unfolding serialize_out position_out tick_out base_out position_compressed_out
    rotation_compressed_out out_u8 out_u16 out_int out_u64 htonll emit
a_position_written = refl

pub a_position-Fits : Fits a_position
a_position-Fits = ((a_header-BaseFits, omega arith), omega arith, omega arith)

serialize_in-serialize_out_example :
    serialize_in (create 0 position_class) a_position_buffer.bytes 2 ≡ some (a_position, 23)
serialize_in-serialize_out_example =
    serialize_in-serialize_out a_position (create 0 position_class) a_buffer a_position_buffer
      a_position-Fits (create-SameClass 0 a_position) a_position_written

serialize_out_room_example :
    (d : Cursor) × (serialize_out a_position a_buffer ≡ some d)
    × (d.offset ≡ 23)
    × (length d.bytes ≡ 24)
serialize_out_room_example = serialize_out_room a_position a_buffer a_position-Fits (omega arith)

abbrev chat_number : ℕ
chat_number = 2 + 2

chat_named : get_packet_typename chat_number ≢ ""
unfolding get_packet_typename
chat_named e = cc e
