-- ===== src/Compression/Examples.antt =====
-- Runs of the packing.
use socket_cplus_plus.Prelude.{◌≡◌, refl, true, false, some, arith}
use socket_cplus_plus.Compression.{
  get_bit_position, bit_from, position_pack, position_unpack, quantization, shift,
}
use socket_cplus_plus.Compression.Fields.{position_unpack-position_pack}

-- The shift that Settings computes.
shift_found : get_bit_position quantization ≡ some shift
unfolding get_bit_position bit_from
shift_found = refl

position_unpack-position_pack_example :
    position_unpack (position_pack (true, 25600) (false, 1) (true, 1048575))
    ≡ ((true, 25600), (false, 1), (true, 1048575))
position_unpack-position_pack_example =
    position_unpack-position_pack true false true 25600 1 1048575 (omega arith) (omega arith)
      (omega arith)
