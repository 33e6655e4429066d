-- ===== src/CommonTypes.antt =====
-- UDP01/OldCode/Packets/CommonTypes.h and CommonTypes.cpp: the containers that packets carry. A text
-- is the list of its characters' codes.
pub mod Buckets
pub mod Erasing
pub mod Vectors
pub mod Examples
use socket_cplus_plus.Prelude.{
  ℕ, zero, suc, ◌+◌, ◌-◌, ◌%◌, ◌^◌, Bool, true, false, ◌&&◌, Option, none, some, List, [], ◌∷◌,
  ◌++◌, length, get_elem?, ltb, leb, if◌then◌else◌,
}
use socket_cplus_plus.Wire.{Out, In, ◌>>◌, ◌>>=◌, pure}
use socket_cplus_plus.Serialize.{out_int, in_int, out_array, in_array, out_string, in_string}
use socket_cplus_plus.Serialize.Host.{ByteOrder}
use socket_cplus_plus.Connection.{same_text}

abbrev pub Text : Type 0
Text = List ℕ

-- How often a loop up to an `int` runs that has this pattern of 32 bits: not at all for a negative one.
abbrev pub int_count : ℕ → ℕ
int_count n = if ltb n (2 ^ 31) then n else 0

pub record StringBucket : Type 0 where
  pub bucket : List Text

pub insert : StringBucket → Text → StringBucket
insert b str = record { bucket = b.bucket ++ (str ∷ []) }

-- "NULL"
abbrev pub null_text : Text
null_text = 78 ∷ 85 ∷ 76 ∷ 76 ∷ []

abbrev pub texts_equal : Text → Text → Bool
texts_equal s t = same_text s t && leb (length t) (length s)

-- DataRow::operator[]: a stored "NULL" reads as the empty text. Past the end is an error: `none`.
pub data_row_at : List Text → ℕ → Option Text
data_row_at row pos = elim (get_elem? row pos) [
  | none ↦ none
  | some ref ↦ some (if texts_equal null_text ref then [] else ref)
]

pub record DynamicDataBucket : Type 0 where
  pub bucket : List (List Text)

module _ ⦃net : ByteOrder⦄ where
  pub string_bucket_out : StringBucket → Out
  string_bucket_out b = out_int (length b.bucket % 2 ^ 32) >> out_array out_string b.bucket

  -- The strings are added behind those that the bucket has.
  pub string_bucket_in : StringBucket → In StringBucket
  string_bucket_in b = do
    num_strings ← in_int
    texts ← in_array in_string (int_count num_strings)
    pure (record { bucket = b.bucket ++ texts })

  -- The number of columns is that of the first row, which an empty bucket does not have: `none`.
  pub data_bucket_out : DynamicDataBucket → Out
  data_bucket_out b c = elim b.bucket [
    | [] ↦ none
    | row ∷ rows ↦
        (out_int (length (row ∷ rows) % 2 ^ 32)
            >> out_int (length row % 2 ^ 32)
            >> out_array (out_array out_string) (row ∷ rows))
          c
  ]

  -- The bucket is cleared first.
  pub data_bucket_in : In DynamicDataBucket
  data_bucket_in = do
    num_rows ← in_int
    num_columns ← in_int
    rows ← in_array (in_array in_string (int_count num_columns)) (int_count num_rows)
    pure (record { bucket = rows })

-- vector_copy, and DynamicDataBucket's assignments, push one element after the other.
module _ {A : Type 0} where
  pub push_all : List A → List A → List A
  push_all dest [] = dest
  push_all dest (x ∷ source) = push_all (dest ++ (x ∷ [])) source

  pub vector_copy : List A → List A → List A
  vector_copy dest source = push_all [] source

  pub remove_at : ℕ → List A → List A
  remove_at i [] = []
  remove_at zero (x ∷ xs) = xs
  remove_at (suc i) (x ∷ xs) = x ∷ remove_at i xs

  -- SerializedVector::remove of a U32 index.
  pub remove : List A → ℕ → Bool × List A
  remove m index = if leb (length m) index then (false, m) else (true, remove_at index m)

  -- SerializedKeyValueVector::erase of an `int` index, given by its pattern of 32 bits. The comparison
  -- with the size is one of unsigned 64-bit numbers. An erase past the end is an error: `none`.
  pub erase : List A → ℕ → Option (Bool × List A)
  erase m index =
      let negative = leb (2 ^ 31) index in
      let as_size = if negative then index + (2 ^ 64 - 2 ^ 32) else index in
      if negative && leb (length m) as_size
      then some (false, m)
      else if ltb index (length m)
      then some (true, remove_at index m)
      else none

pub push_rows : List (List Text) → List (List Text) → List (List Text)
push_rows bucket [] = bucket
push_rows bucket (row ∷ rows) = push_rows (bucket ++ (push_all [] row ∷ [])) rows

pub copy_rows : DynamicDataBucket → List (List Text) → DynamicDataBucket
copy_rows b copy_data = record { bucket = push_rows [] copy_data }
