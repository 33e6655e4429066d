-- ===== src/BoundedStrings/Fixed.antt =====
-- FixedLengthString, which is its array.
pub mod Laws
pub mod Operators
use socket_cplus_plus.Prelude.{
  ℕ, ◌+◌, Bool, false, Option, none, some, List, ◌++◌, length, take, drop, set, get_or, ltb, ◌==◌,
  if◌then◌else◌,
}
use socket_cplus_plus.Wire.{Out, In, emit}
use socket_cplus_plus.Serialize.{c_string}
use socket_cplus_plus.BoundedStrings.{strncpy, strcpy, same_text, strstr}

pub record FixedLengthString : Type 0 where
  pub buffer : List ℕ

module _ (str_length : ℕ) where
  pub max_length : ℕ
  max_length = str_length + 1

  pub clear : FixedLengthString → FixedLengthString
  clear s = record { buffer = set s.buffer 0 0 }

  pub string_length : FixedLengthString → ℕ
  string_length s = if get_or s.buffer 0 0 == 0 then 0 else length (c_string s.buffer)

  pub empty : FixedLengthString → Bool
  empty s = string_length s == 0

  pub find : List ℕ → FixedLengthString → ℕ
  find sub s =
      if get_or s.buffer 0 0 == 0
      then max_length
      else elim (strstr sub (c_string s.buffer)) [ none ↦ max_length | some i ↦ i ]

  pub copy : Option (List ℕ) → FixedLengthString → FixedLengthString
  copy none s = record { buffer = set s.buffer 0 0 }
  copy (some str) s = record {
    buffer =
        if ltb str_length (length str)
        then set (take str_length str ++ drop str_length s.buffer) str_length 0
        else strcpy str s.buffer;
  }

  -- `caseless` is the library's strcasecmp.
  pub is_equal : (List ℕ → List ℕ → Bool) → Option (List ℕ) → Bool → FixedLengthString → Bool
  is_equal caseless none compare_caseless s = get_or s.buffer 0 0 == 0
  is_equal caseless (some str) compare_caseless s =
      if ltb str_length (length str)
      then false
      else if compare_caseless
      then caseless (c_string s.buffer) str
      else same_text (c_string s.buffer) str

  -- The string, and the offset.
  unfoldable pub serialize_in : FixedLengthString → In FixedLengthString
  serialize_in s bytes offset = elim (strncpy str_length (drop offset bytes)) [
    | none ↦ none
    | some copied ↦ some (
      record { buffer = set (copied ++ drop str_length s.buffer) str_length 0 },
      offset + str_length,
    )
  ]

  unfoldable pub serialize_out : FixedLengthString → Out
  serialize_out s c = elim (strncpy str_length s.buffer) [
    | none ↦ none
    | some copied ↦ emit copied c
  ]
