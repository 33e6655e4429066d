-- ===== src/Utils.antt =====
-- UDP01/OldCode/Utils/Utils.cpp: numbers and texts, the time windows and the checksum. A text is the
-- list of its characters' codes. The keyboard is left out.
pub mod Texts
pub mod Dates
pub mod Files
pub mod Examples
use socket_cplus_plus.Prelude.{
  ℕ, zero, suc, ◌+◌, ◌-◌, ◌*◌, ◌/◌, ◌%◌, ◌^◌, Bool, true, false, not, ◌||◌, Option, none, some,
  List, [], ◌∷◌, ◌++◌, length, get_or, ltb, leb, ◌==◌, if◌then◌else◌,
}
use socket_cplus_plus.Serialize.Host.{ByteOrder, host_value}

abbrev pub Text : Type 0
Text = List ℕ

-- StringToU64: the loop up to the text's zero or end. `*str - '0'` wraps below zero, as the U64 does
-- above.
pub string_to_u64_from : ℕ → Text → ℕ
string_to_u64_from result [] = result
string_to_u64_from result (c ∷ str) =
    let rest = string_to_u64_from ((result * 10 + c + (2 ^ 64 - 48)) % 2 ^ 64) str in
    if c == 0 then result else rest

pub string_to_u64 : Text → ℕ
string_to_u64 str = string_to_u64_from 0 str

pub is_one_of : Text → ℕ → Bool
is_one_of [] c = false
is_one_of (d ∷ delimiter) c = let rest = is_one_of delimiter c in d == c || rest

-- find_first_of with substr on either side of it.
pub split_at : Text → Text → Option (Text × Text)
split_at delimiter [] = none
split_at delimiter (c ∷ text) =
    let rest = split_at delimiter text in
    if is_one_of delimiter c
    then some ([], text)
    else elim rest [ none ↦ none | some (before, behind) ↦ some (c ∷ before, behind) ]

pub split_on_first_found : List Text → Text → Text → Bool × List Text
split_on_first_found list_of_stuff text delimiter = elim (split_at delimiter text) [
  | none ↦ (false, list_of_stuff ++ (text ∷ []))
  | some (substr1, substr2) ↦ (true, list_of_stuff ++ (substr1 ∷ substr2 ∷ []))
]

-- " { key, value } "
pub create_printable_pair : Text → Text → Text
create_printable_pair key value =
    (32 ∷ 123 ∷ 32 ∷ []) ++ (key ++ ((44 ∷ 32 ∷ []) ++ (value ++ (32 ∷ 125 ∷ 32 ∷ []))))

-- The times are seconds with the window's begin not after the present, apart by what an `int` holds.
pub has_time_window_expired : ℕ → ℕ → ℕ → Bool
has_time_window_expired current_time window_begin num_seconds_for_window =
    let seconds_elapsed = current_time - window_begin in
    if ltb num_seconds_for_window seconds_elapsed then true else false

pub in_current_time_window : ℕ → ℕ → ℕ → Bool
in_current_time_window current_time window_begin num_seconds_for_window =
    let seconds_elapsed = current_time - window_begin in
    if leb seconds_elapsed num_seconds_for_window then false else true

module _ ⦃net : ByteOrder⦄ where
  -- The loop over the halves, two bytes at a time.
  pub sum_words : ℕ → List ℕ → ℕ
  sum_words checksum [] = checksum
  sum_words checksum (a ∷ []) = checksum
  sum_words checksum (a ∷ b ∷ file_data) =
      sum_words ((checksum + net.htons (host_value net.is_little (a ∷ b ∷ []))) % 2 ^ 16) file_data

  -- The last byte is added if `fileSize % 1` is not zero.
  pub calculate_checksum : List ℕ → ℕ
  calculate_checksum file_data =
      let extra_byte = length file_data % 1 in
      let checksum = sum_words 0 file_data in
      if extra_byte == 0
      then checksum
      else (checksum + net.htons (get_or file_data (length file_data - 1) 0)) % 2 ^ 16
