-- ===== src/Utils/Texts.antt =====
-- Numbers read from texts, texts split in two, and what the windows and the checksum tell.
use socket_cplus_plus.Prelude.{
  ℕ, zero, suc, ◌+◌, ◌-◌, ◌*◌, ◌%◌, ◌^◌, ◌≡◌, refl, ap, ◌⊎◌, inl, inr, true, false, none, some,
  List, [], ◌∷◌, ◌++◌, length, All, ◌==◌, Bool-cases, arith,
}
use socket_cplus_plus.Serialize.Host.{ByteOrder, host_value}
use socket_cplus_plus.Utils.{
  Text, string_to_u64_from, string_to_u64, is_one_of, split_at, split_on_first_found,
  has_time_window_expired, in_current_time_window, sum_words, calculate_checksum,
}

-- A number by its decimal digits, highest first.
abbrev pub decimal_from : ℕ → List ℕ → ℕ
decimal_from n [] = n
decimal_from n (d ∷ digits) = decimal_from (n * 10 + d) digits

abbrev pub printed : List ℕ → Text
printed [] = []
printed (d ∷ digits) = (48 + d) ∷ printed digits

string_to_u64_from_lem :
    (n : ℕ) (digits : List ℕ)
    → string_to_u64_from (n % 2 ^ 64) (printed digits) ≡ decimal_from n digits % 2 ^ 64
unfolding string_to_u64_from
string_to_u64_from_lem n [] = refl
string_to_u64_from_lem n (d ∷ digits) =
    let next : (n % 2 ^ 64 * 10 + (48 + d) + (2 ^ 64 - 48)) % 2 ^ 64 ≡ (n * 10 + d) % 2 ^ 64 =
      omega arith in
    let not_end : (48 + d == 0) ≡ false = ground arith in
    rw (not_end, next) (string_to_u64_from_lem (n * 10 + d) digits)

-- Digits are read as the number that they print, modulo 2^64.
pub string_to_u64_lem :
    (digits : List ℕ) → string_to_u64 (printed digits) ≡ decimal_from 0 digits % 2 ^ 64
unfolding string_to_u64
string_to_u64_lem digits = string_to_u64_from_lem 0 digits

abbrev pub NoneOf : Text → Text → Type 0
NoneOf delimiter text = All (λ c. is_one_of delimiter c ≡ false) text

-- The first delimiter of a text, between what stands before and behind it.
pub record FirstAt (delimiter text before behind : Text) : Type 0 where
  pub found : ℕ
  pub whole : text ≡ before ++ (found ∷ behind)
  pub delimits : is_one_of delimiter found ≡ true
  pub first : NoneOf delimiter before

split_at-cases :
    (delimiter text : Text)
    → ((split_at delimiter text ≡ none) × NoneOf delimiter text)
      ⊎ ((before : Text) × (behind : Text) × (split_at delimiter text ≡ some (before, behind))
          × FirstAt delimiter text before behind)
unfolding split_at
split_at-cases delimiter [] = inl (refl, tt)
split_at-cases delimiter (x ∷ text) = elim (Bool-cases (is_one_of delimiter x)) [
  | inl hit ↦
      inr (
        [],
        text,
        rw (split_at, hit),
        record { found = x; whole = refl; delimits = hit; first = tt },
      )
  | inr miss ↦ elim (split_at-cases delimiter text) [
    | inl (e, none_of) ↦ inl (rw (split_at, miss, e), (miss, none_of))
    | inr (before, behind, e, at) ↦ inr (
      x ∷ before,
      behind,
      rw (split_at, miss, e),
      record {
        found = at.found;
        whole = ap (◌∷◌ x) at.whole;
        delimits = at.delimits;
        first = (miss, at.first);
      },
    )
  ]
]

-- Of a text with a delimiter in it, the split answers true and adds what stands before the first
-- delimiter and behind it; of any other it answers false and adds the text whole.
pub split_on_first_found_lem :
    (list_of_stuff : List Text) (text delimiter : Text)
    → ((split_on_first_found list_of_stuff text delimiter ≡ (false, list_of_stuff ++ (text ∷ [])))
        × NoneOf delimiter text)
      ⊎ ((before : Text) × (behind : Text) × (split_on_first_found list_of_stuff text delimiter
            ≡ (true, list_of_stuff ++ (before ∷ behind ∷ [])))
          × FirstAt delimiter text before behind)
unfolding split_on_first_found
split_on_first_found_lem list_of_stuff text delimiter = elim (split_at-cases delimiter text) [
  | inl (e, none_of) ↦ inl (rw (split_on_first_found, e), none_of)
  | inr (before, behind, e, at) ↦ inr (before, behind, rw (split_on_first_found, e), at)
]

-- The two tests on a window answer alike: both whether it has passed.
pub in_current_time_window-has_time_window_expired :
    (current_time window_begin num_seconds : ℕ)
    → in_current_time_window current_time window_begin num_seconds
      ≡ has_time_window_expired current_time window_begin num_seconds
unfolding in_current_time_window has_time_window_expired
in_current_time_window-has_time_window_expired current_time window_begin num_seconds = ground arith

module _ ⦃net : ByteOrder⦄ where
  sum_words-odd :
      (n sum : ℕ) (file_data : List ℕ) (last : ℕ)
      → length file_data ≡ n * 2
      → sum_words sum (file_data ++ (last ∷ [])) ≡ sum_words sum file_data
  unfolding sum_words
  sum_words-odd n sum [] last e = refl
  sum_words-odd n sum (a ∷ []) last e = absurd (omega arith)
  sum_words-odd zero sum (a ∷ b ∷ file_data) last e = absurd (omega arith)
  sum_words-odd (suc n) sum (a ∷ b ∷ file_data) last e =
      sum_words-odd n ((sum + net.htons (host_value net.is_little (a ∷ b ∷ []))) % 2 ^ 16) file_data
        last (omega arith)

  -- The last byte of a file of odd size does not count.
  pub calculate_checksum_odd :
      (n : ℕ) (file_data : List ℕ) (last : ℕ)
      → length file_data ≡ n * 2
      → calculate_checksum (file_data ++ (last ∷ [])) ≡ calculate_checksum file_data
  unfolding calculate_checksum
  calculate_checksum_odd n file_data last e =
      let whole : (m : ℕ) → m % 1 ≡ 0 = λ m. omega arith in
      rw (
        calculate_checksum,
        whole (length (file_data ++ (last ∷ []))),
        whole (length file_data),
        sum_words-odd n 0 file_data last e,
      )
