-- ===== src/BoundedStrings/Examples.antt =====
-- Runs on small strings: the wire between two strings of different size.
use socket_cplus_plus.Prelude.{◌-◌, take, ◌≡◌, refl, some, [], ◌∷◌, replicate, length, arith}
use socket_cplus_plus.Wire.{Cursor, emit}
use socket_cplus_plus.Serialize.{c_string, out_u16}
use socket_cplus_plus.Serialize.Hosts.{little_endian}
use socket_cplus_plus.BoundedStrings.Bounded
use socket_cplus_plus.BoundedStrings.Bounded.Laws.{IsValid, bounded_in-bounded_out}

abbrev three : Bounded.BoundedLengthString
three = record { buffer = 97 ∷ 98 ∷ 99 ∷ 0 ∷ []; m_length = 3 }

three-IsValid : IsValid 3 three
unfolding c_string
three-IsValid = record { terminated = record { room = refl; short = omega arith }; counted = refl }

abbrev small : Bounded.BoundedLengthString
small = record { buffer = 0 ∷ 0 ∷ 0 ∷ []; m_length = 0 }

abbrev three_written : Cursor
three_written = record { bytes = 0 ∷ 3 ∷ 97 ∷ 98 ∷ 99 ∷ []; offset = 5 }

bounded_in-bounded_out_example :
    (r : Bounded.BoundedLengthString) × (Bounded.serialize_in 2 small three_written.bytes 0
      ≡ some (r, 5 - (length (c_string three.buffer) - 2)))
    × (c_string r.buffer ≡ take 2 (c_string three.buffer))
    × IsValid 2 r
unfolding Bounded.serialize_out out_u16 emit
bounded_in-bounded_out_example =
    bounded_in-bounded_out 3 2 three small (record { bytes = replicate 5 0; offset = 0 })
      three_written three-IsValid (omega arith) refl refl
