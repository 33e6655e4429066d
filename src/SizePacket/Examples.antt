-- ===== src/SizePacket/Examples.antt =====
-- Runs of a frame: written on a host with the lowest byte first, and received.
use socket_cplus_plus.Prelude.{◌≡◌, refl, ap, none, some, [], ◌∷◌, ◌++◌, replicate, arith}
use socket_cplus_plus.Prelude.Maps.{pair_key}
use socket_cplus_plus.Wire.{Cursor, emit}
use socket_cplus_plus.Serialize.Hosts.{little_endian}
use socket_cplus_plus.CircularBuffer.{get}
use socket_cplus_plus.CircularBuffer.Invariant.{create-IsValid}
use socket_cplus_plus.CircularBuffer.Refine.{contents-create}
use socket_cplus_plus.Packets.Classes.{position_class, create, create-SameClass}
use socket_cplus_plus.Packets.Examples.{a_position, a_position-Fits}
use socket_cplus_plus.PacketFactory.{moved}
use socket_cplus_plus.PacketFactory.Examples.{
  a_factory, a_ring, a_ring-PoolValid, a_ring-stored, an_empty_ring,
}
use socket_cplus_plus.SizePacket.{size_out, size_in}
use socket_cplus_plus.SizePacket.Frames.{frame, size_out-writes}
use socket_cplus_plus.SizePacket.Receiving.{size_in-size_out, size_in_exhausted}

abbrev a_buffer : Cursor
a_buffer = record { bytes = replicate 30 9; offset = 2 }

abbrev a_frame_buffer : Cursor
a_frame_buffer = record {
  bytes = (9 ∷ 9 ∷ []) ++ (frame a_position ++ (9 ∷ 9 ∷ 9 ∷ 9 ∷ []));
  offset = 26;
}

a_frame_written : size_out a_position a_buffer ≡ some a_frame_buffer
unfolding emit
a_frame_written = ap (λ o. o a_buffer) (size_out-writes a_position a_position-Fits)

size_out-writes_example : size_out a_position ≡ emit (frame a_position)
size_out-writes_example = size_out-writes a_position a_position-Fits

size_in-size_out_example :
    size_in a_factory a_frame_buffer.bytes 2
    ≡ some (
      0,
      26,
      record a_factory {
        creation_pool = ((2, 1), (get none moved a_ring).1) ∷ [];
        heap = a_position ∷ [];
      },
    )
size_in-size_out_example =
    size_in-size_out a_factory a_ring 0 [] (create 0 position_class) a_position a_buffer
      a_frame_buffer a_position-Fits a_frame_written a_ring-PoolValid.ring refl a_ring-stored refl
      (create-SameClass 0 a_position)

size_in_exhausted_example :
    size_in
      (record a_factory { creation_pool = ((2, 1), an_empty_ring) ∷ [] })
      a_frame_buffer.bytes
      2
    ≡ none
size_in_exhausted_example =
    size_in_exhausted (record a_factory { creation_pool = ((2, 1), an_empty_ring) ∷ [] })
      an_empty_ring a_position a_buffer a_frame_buffer a_position-Fits a_frame_written
      (create-IsValid none moved 2 (omega arith)) refl (contents-create none moved 2)
