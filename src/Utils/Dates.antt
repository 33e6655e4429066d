-- ===== src/Utils/Dates.antt =====
-- The dates of UDP01/OldCode/Utils/Utils.cpp, as texts and back. The C library's gmtime and mktime are
-- arguments; sscanf of the one format that is used is written out. An `int` is its pattern of 32 bits.
pub mod RoundTrip
use socket_cplus_plus.Prelude.{
  ℕ, zero, suc, ◌+◌, ◌-◌, ◌*◌, ◌/◌, ◌%◌, ◌^◌, Bool, true, false, ◌&&◌, ◌||◌, Option, none, some,
  List, [], ◌∷◌, ◌++◌, ltb, leb, ◌==◌, if◌then◌else◌,
}
use socket_cplus_plus.Utils.{Text}

-- A `struct tm`, less the days of the week and the year.
pub record Tm : Type 0 where
  pub tm_year : ℕ
  pub tm_mon : ℕ
  pub tm_mday : ℕ
  pub tm_hour : ℕ
  pub tm_min : ℕ
  pub tm_sec : ℕ

-- What a stream makes of a number that is not negative; the first argument bounds its digits.
pub print_from : ℕ → ℕ → Text
print_from zero n = []
print_from (suc fuel) n =
    let rest = print_from fuel (n / 10) in
    if ltb n 10 then (48 + n) ∷ [] else rest ++ ((48 + n % 10) ∷ [])

pub print : ℕ → Text
print n = print_from (suc n) n

-- `value` is a field of a time, and not negative.
pub get_0_prefixed_value : ℕ → Text
get_0_prefixed_value value =
    if value == 0 then 48 ∷ 48 ∷ [] else (if ltb value 10 then 48 ∷ [] else []) ++ print value

-- "year-month-day hour:minute:second"
pub date_text : Tm → Text
date_text now =
    print (now.tm_year + 1900)
    ++ (45
        ∷ (get_0_prefixed_value (now.tm_mon + 1)
            ++ (45
                ∷ (get_0_prefixed_value now.tm_mday
                    ++ (32
                        ∷ (get_0_prefixed_value now.tm_hour
                            ++ (58
                                ∷ (get_0_prefixed_value now.tm_min
                                    ++ (58 ∷ get_0_prefixed_value now.tm_sec)))))))))

pub is_digit : ℕ → Bool
is_digit c = leb 48 c && leb c 57

pub is_space : ℕ → Bool
is_space c = c == 32 || leb 9 c && leb c 13

pub skip_spaces : Text → Text
skip_spaces [] = []
skip_spaces (c ∷ text) = let rest = skip_spaces text in if is_space c then rest else c ∷ text

pub scan_digits : ℕ → Text → ℕ × Text
scan_digits n [] = (n, [])
scan_digits n (c ∷ text) =
    let rest = scan_digits ((n * 10 + (c - 48)) % 2 ^ 32) text in
    if is_digit c then rest else (n, c ∷ text)

pub scan_unsigned : Text → Option (ℕ × Text)
scan_unsigned [] = none
scan_unsigned (c ∷ text) = if is_digit c then some (scan_digits 0 (c ∷ text)) else none

pub negated : Option (ℕ × Text) → Option (ℕ × Text)
negated none = none
negated (some (n, rest)) = some ((2 ^ 32 - n) % 2 ^ 32, rest)

-- "%d" behind its spaces.
pub scan_int : Text → Option (ℕ × Text)
scan_int [] = none
scan_int (c ∷ text) =
    if c == 45
    then negated (scan_unsigned text)
    else if c == 43
    then scan_unsigned text
    else scan_unsigned (c ∷ text)

pub data Directive : Type 0 where
  whole_number : Directive
  literal : ℕ → Directive
  space : Directive

-- The numbers that are read up to the first directive that does not match.
pub scan : List Directive → Text → List ℕ
scan [] text = []
scan (whole_number ∷ directives) text = elim (scan_int (skip_spaces text)) [
  | none ↦ []
  | some (n, rest) ↦ n ∷ scan directives rest
]
scan (literal c ∷ directives) [] = []
scan (literal c ∷ directives) (d ∷ text) =
    let rest = scan directives text in if d == c then rest else []
scan (space ∷ directives) text = scan directives (skip_spaces text)

-- "%d-%d-%d %d:%d:%d"
abbrev pub date_format : List Directive
date_format =
    whole_number
    ∷ literal 45
    ∷ whole_number
    ∷ literal 45
    ∷ whole_number
    ∷ space
    ∷ whole_number
    ∷ literal 58
    ∷ whole_number
    ∷ literal 58
    ∷ whole_number
    ∷ []

-- The fields take the numbers in their order; those that are not read stay.
pub fill : List ℕ → Tm → Tm
fill [] t = t
fill (y ∷ []) t = record t { tm_year = y }
fill (y ∷ m ∷ []) t = record t { tm_year = y; tm_mon = m }
fill (y ∷ m ∷ d ∷ []) t = record t { tm_year = y; tm_mon = m; tm_mday = d }
fill (y ∷ m ∷ d ∷ h ∷ []) t = record t { tm_year = y; tm_mon = m; tm_mday = d; tm_hour = h }
fill (y ∷ m ∷ d ∷ h ∷ n ∷ []) t = record t {
  tm_year = y;
  tm_mon = m;
  tm_mday = d;
  tm_hour = h;
  tm_min = n;
}
fill (y ∷ m ∷ d ∷ h ∷ n ∷ s ∷ more) t = record {
  tm_year = y;
  tm_mon = m;
  tm_mday = d;
  tm_hour = h;
  tm_min = n;
  tm_sec = s;
}

pub based : Tm → Tm
based t = record t {
  tm_year = (t.tm_year + (2 ^ 32 - 1900)) % 2 ^ 32;
  tm_mon = (t.tm_mon + (2 ^ 32 - 1)) % 2 ^ 32;
}

module _ (gmtime : ℕ → Tm) (mktime : Tm → ℕ) where
  -- GetDateInUTC of a time.
  pub get_date_in_utc : ℕ → Text
  get_date_in_utc t = date_text (gmtime t)

  -- GetDateInUTC of the present and three differences.
  pub get_date_in_utc_from : ℕ → ℕ → ℕ → ℕ → Text
  get_date_in_utc_from now diff_days diff_hours diff_minutes =
      let t = gmtime now in
      if diff_days == 0 && (diff_hours == 0 && diff_minutes == 0)
      then date_text t
      else date_text (
          gmtime (
            mktime (record t {
              tm_mday = (t.tm_mday + diff_days) % 2 ^ 32;
              tm_hour = (t.tm_hour + diff_hours) % 2 ^ 32;
              tm_min = (t.tm_min + diff_minutes) % 2 ^ 32;
            })))

  pub get_date_from_string : ℕ → Text → ℕ
  get_date_from_string now utc_formatted =
      mktime (based (fill (scan date_format utc_formatted) (gmtime now)))

  pub zero_out_minutes : ℕ → ℕ
  zero_out_minutes current_time = mktime (record (gmtime current_time) { tm_min = 0; tm_sec = 0 })

  pub zero_out_hours : ℕ → ℕ
  zero_out_hours current_time =
      mktime (record (gmtime current_time) { tm_hour = 0; tm_min = 0; tm_sec = 0 })
