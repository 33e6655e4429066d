-- ===== src/Serialize/Examples.antt =====
-- Runs of the serializers of strings and arrays, on a host with the lowest byte first.
use socket_cplus_plus.Prelude.{ℕ, ◌≡◌, refl, List, [], ◌∷◌, some, replicate, All, arith}
use socket_cplus_plus.Wire.{Cursor, emit}
use socket_cplus_plus.Serialize.{out_u16, in_u16, out_string, in_string, out_array}
use socket_cplus_plus.Serialize.Host.{be_bytes}
use socket_cplus_plus.Serialize.Words.{u16-writes, u16-Reads}
use socket_cplus_plus.Serialize.Strings.{NoZero, in_string-out_string}
use socket_cplus_plus.Serialize.Arrays.{Sends}
use socket_cplus_plus.Serialize.Hosts.{little_endian}

abbrev a_buffer : Cursor
a_buffer = record { bytes = replicate 12 9; offset = 1 }

abbrev hello : List ℕ
hello = 104 ∷ 101 ∷ 108 ∷ 108 ∷ 111 ∷ []

hello_written :
    out_string hello a_buffer
    ≡ some (record {
      bytes = 9 ∷ 0 ∷ 5 ∷ 104 ∷ 101 ∷ 108 ∷ 108 ∷ 111 ∷ 9 ∷ 9 ∷ 9 ∷ 9 ∷ [];
      offset = 8;
    })
unfolding out_string out_u16 emit
hello_written = refl

hello-NoZero : NoZero hello
unfolding NoZero
hello-NoZero = (
  λ e. omega arith,
  (λ e. omega arith, (λ e. omega arith, (λ e. omega arith, (λ e. omega arith, tt)))),
)

in_string-out_string_example :
    in_string (9 ∷ 0 ∷ 5 ∷ 104 ∷ 101 ∷ 108 ∷ 108 ∷ 111 ∷ 9 ∷ 9 ∷ 9 ∷ 9 ∷ []) 1 ≡ some (hello, 8)
in_string-out_string_example =
    in_string-out_string hello a_buffer
      (record { bytes = 9 ∷ 0 ∷ 5 ∷ 104 ∷ 101 ∷ 108 ∷ 108 ∷ 111 ∷ 9 ∷ 9 ∷ 9 ∷ 9 ∷ []; offset = 8 })
      (omega arith) hello-NoZero hello_written

two_u16 : All (Sends out_u16 in_u16 (be_bytes 2)) (515 ∷ 7 ∷ [])
two_u16 = (
  record { writes = u16-writes 515 (omega arith); reads = u16-Reads 515 (omega arith) },
  (record { writes = u16-writes 7 (omega arith); reads = u16-Reads 7 (omega arith) }, tt),
)

array_written :
    out_array out_u16 (515 ∷ 7 ∷ []) a_buffer
    ≡ some (record { bytes = 9 ∷ 2 ∷ 3 ∷ 0 ∷ 7 ∷ 9 ∷ 9 ∷ 9 ∷ 9 ∷ 9 ∷ 9 ∷ 9 ∷ []; offset = 5 })
unfolding out_array out_u16 emit
array_written = refl
