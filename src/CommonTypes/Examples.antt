-- ===== src/CommonTypes/Examples.antt =====
-- Runs of the buckets and the vectors.
use socket_cplus_plus.Prelude.{ℕ, ◌≡◌, refl, some, List, [], ◌∷◌, replicate, arith}
use socket_cplus_plus.Wire.{Cursor, emit}
use socket_cplus_plus.Serialize.{out_u16, out_int, out_array, out_string}
use socket_cplus_plus.Serialize.Hosts.{little_endian}
use socket_cplus_plus.Serialize.Strings.{NoZero}
use socket_cplus_plus.CommonTypes.{
  StringBucket, DynamicDataBucket, string_bucket_out, data_bucket_out, data_bucket_in,
}
use socket_cplus_plus.CommonTypes.Buckets.{Plain, data_bucket_in-data_bucket_out}

abbrev a_bucket : StringBucket
a_bucket = record { bucket = (72 ∷ 105 ∷ []) ∷ (33 ∷ []) ∷ [] }

abbrev a_buffer : Cursor
a_buffer = record { bytes = replicate 16 9; offset = 1 }

abbrev a_bucket_buffer : Cursor
a_bucket_buffer = record {
  bytes = 9 ∷ 0 ∷ 0 ∷ 0 ∷ 2 ∷ 0 ∷ 2 ∷ 72 ∷ 105 ∷ 0 ∷ 1 ∷ 33 ∷ 9 ∷ 9 ∷ 9 ∷ 9 ∷ [];
  offset = 12;
}

hi-Plain : Plain (72 ∷ 105 ∷ [])
unfolding NoZero
hi-Plain = (omega arith, (λ e. omega arith, (λ e. omega arith, tt)))

mark-Plain : Plain (33 ∷ [])
unfolding NoZero
mark-Plain = (omega arith, (λ e. omega arith, tt))

a_bucket_written : string_bucket_out a_bucket a_buffer ≡ some a_bucket_buffer
unfolding string_bucket_out out_array out_string out_int out_u16 emit
a_bucket_written = refl

-- One row of one text.
abbrev a_table : DynamicDataBucket
a_table = record { bucket = ((33 ∷ []) ∷ []) ∷ [] }

abbrev a_table_buffer : Cursor
a_table_buffer = record {
  bytes = 9 ∷ 0 ∷ 0 ∷ 0 ∷ 1 ∷ 0 ∷ 0 ∷ 0 ∷ 1 ∷ 0 ∷ 1 ∷ 33 ∷ 9 ∷ 9 ∷ 9 ∷ 9 ∷ [];
  offset = 12;
}

a_table_written : data_bucket_out a_table a_buffer ≡ some a_table_buffer
unfolding data_bucket_out out_array out_string out_int out_u16 emit
a_table_written = refl

data_bucket_in-data_bucket_out_example : data_bucket_in a_table_buffer.bytes 1 ≡ some (a_table, 12)
data_bucket_in-data_bucket_out_example =
    data_bucket_in-data_bucket_out ((33 ∷ []) ∷ []) [] a_buffer a_table_buffer (omega arith)
      (omega arith) (omega arith) ((refl, (mark-Plain, tt)), tt) a_table_written

abbrev three : List ℕ
three = 4 ∷ 5 ∷ 6 ∷ []
