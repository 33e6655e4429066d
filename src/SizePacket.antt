-- ===== src/SizePacket.antt =====
-- SizePacket of UDP01/OldCode/Packets/BasePacket.h and BasePacket.cpp: the frame that a packet
-- travels in over TCP, a type byte, the packet's size in two bytes, and the packet.
pub mod Frames
pub mod Receiving
pub mod Progress
pub mod Owning
pub mod Examples
use socket_cplus_plus.Prelude.{
  ℕ, ◌+◌, ◌-◌, ◌%◌, ◌^◌, Bool, not, Option, none, some, List, get_elem?, set, ltb,
}
use socket_cplus_plus.Wire.{Cursor, Out}
use socket_cplus_plus.Serialize.{out_u8, in_u8, out_u16, in_u16}
use socket_cplus_plus.Serialize.Host.{ByteOrder}
use socket_cplus_plus.Packets.{Packet, base_in, serialize_out, serialize_in}
use socket_cplus_plus.PacketFactory.{Pointer, Factory, create_by_type}

-- PacketType_NetworkProtocol
abbrev pub network_protocol : ℕ
network_protocol = 3

-- sizeof(U16)
abbrev pub placeholder_size : ℕ
placeholder_size = 2

module _ ⦃net : ByteOrder⦄ where
  -- The size is written last, into the two bytes that were left free for it.
  pub size_out : Packet → Out
  size_out packet c = elim (out_u8 network_protocol c) [
    | none ↦ none
    | some d ↦
        let pos = d.offset in
        elim (serialize_out packet (record d { offset = pos + placeholder_size })) [
          | none ↦ none
          | some e ↦
              let size = (e.offset - pos - placeholder_size) % 2 ^ 16 in
              elim (out_u16 size (record e { offset = pos })) [
                | none ↦ none
                | some f ↦ some (record f { offset = e.offset })
              ]
        ]
  ]

  pub is_remaining_buffer_bigenough : List ℕ → ℕ → ℕ → Option Bool
  is_remaining_buffer_bigenough bytes offset total_bytes_in_buffer =
      elim (in_u16 bytes (offset + 1)) [
        | none ↦ none
        | some (size, probe_offset) ↦ some (not (ltb total_bytes_in_buffer (size + probe_offset)))
      ]

  -- The packet of the frame, the offset behind it, and the factory. `none` where the buffer ends too
  -- early, and where the factory gives a null pointer, which the code then dereferences.
  pub size_in : Factory → List ℕ → ℕ → Option (ℕ × ℕ × Factory)
  size_in f bytes offset = elim (in_u8 bytes offset) [
    | none ↦ none
    | some (_, after_type) ↦ elim (in_u16 bytes after_type) [
      | none ↦ none
      | some (_, start) ↦ elim (base_in bytes start) [
        | none ↦ none
        | some (probe, _) ↦
            let (packet, g) = create_by_type (probe.packet_type, probe.packet_sub_type) f in
            elim packet [
              | none ↦ none
              | some a ↦ elim (get_elem? g.heap a) [
                | none ↦ none
                | some object ↦ elim (serialize_in object bytes start) [
                  | none ↦ none
                  | some (filled, end) ↦ some (a, end, record g { heap = set g.heap a filled })
                ]
              ]
            ]
      ]
    ]
  ]
