-- ===== src/Packets/Advance.antt =====
-- No deserializer of a packet moves the offset back.
use socket_cplus_plus.Wire.Advance.{Advances, pure-Advances, >>=-Advances}
use socket_cplus_plus.Serialize.Host.{ByteOrder}
use socket_cplus_plus.Packets.{
  Packet, base, comms, server_tick, position, movement, base_in, comms_in, tick_in, position_in,
  movement_in, position_compressed_in, rotation_compressed_in, serialize_in,
}
use socket_cplus_plus.Serialize.Extent.{u8-Advances, u16-Advances, int-Advances, u64-Advances}

ruleset parts = (>>=-Advances, pure-Advances, u8-Advances, u16-Advances, int-Advances, u64-Advances)

module _ ⦃net : ByteOrder⦄ where
  pub base_in-Advances : Advances base_in
  unfolding base_in
  base_in-Advances =
      search (>>=-Advances, pure-Advances, u8-Advances, u16-Advances) depth 12 fits 20000

  comms_in-Advances : Advances comms_in
  unfolding comms_in
  comms_in-Advances = search (parts, base_in-Advances)

  tick_in-Advances : Advances tick_in
  unfolding tick_in
  tick_in-Advances = search (parts, base_in-Advances)

  position_in-Advances : Advances position_in
  unfolding position_in position_compressed_in rotation_compressed_in
  position_in-Advances = search (parts, tick_in-Advances)

  movement_in-Advances : Advances movement_in
  unfolding movement_in position_compressed_in
  movement_in-Advances = search (parts, position_in-Advances)

  pub serialize_in-Advances : (p : Packet) → Advances (serialize_in p)
  unfolding serialize_in
  serialize_in-Advances (base p) = search (parts, base_in-Advances)
  serialize_in-Advances (comms p) = search (parts, comms_in-Advances)
  serialize_in-Advances (server_tick p) = search (parts, tick_in-Advances)
  serialize_in-Advances (position p) = search (parts, position_in-Advances)
  serialize_in-Advances (movement p) = search (parts, movement_in-Advances)
