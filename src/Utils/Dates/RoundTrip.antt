-- ===== src/Utils/Dates/RoundTrip.antt =====
-- The scanner on what date_text prints.
use socket_cplus_plus.Prelude.{
  ℕ, zero, suc, ◌+◌, ◌-◌, ◌*◌, ◌/◌, ◌%◌, ◌^◌, ◌≤◌, ◌<◌, ◌≡◌, refl, ap, ◌∙◌, inl, inr, true, false,
  ◌&&◌, ◌||◌, some, List, [], ◌∷◌, ◌++◌, append_assoc, append-nil, drop, subst, ltb, leb, ◌==◌,
  Bool-cases, arith,
}
use socket_cplus_plus.Utils.{Text}
use socket_cplus_plus.Utils.Dates.{
  Tm, print_from, print, get_0_prefixed_value, date_text, is_digit, is_space, skip_spaces,
  scan_digits, scan_unsigned, scan_int, Directive, whole_number, literal, space, scan, date_format,
  fill, based, get_date_in_utc, get_date_from_string,
}

abbrev StartsDigit : Text → Type 0
StartsDigit [] = ⊥
StartsDigit (c ∷ text) = (48 ≤ c) × (c ≤ 57)

scan_digits_step :
    (n v w : ℕ) (text : Text)
    → v < 10
    → w ≡ n * 10 + v
    → w < 2 ^ 32
    → scan_digits n ((48 + v) ∷ text) ≡ scan_digits w text
unfolding scan_digits is_digit
scan_digits_step n v w text small e fits =
    let digit : (leb 48 (48 + v) && leb (48 + v) 57) ≡ true = ground arith in
    let value : (n * 10 + (48 + v - 48)) % 2 ^ 32 ≡ w = omega arith in rw (digit, value)

print_from-StartsDigit :
    (fuel n : ℕ) (rest : Text) → n ≤ fuel → StartsDigit (print_from (suc fuel) n ++ rest)
unfolding print_from
print_from-StartsDigit zero n rest h =
    let one : ltb n 10 ≡ true = ground arith in rw one (omega arith, omega arith)
print_from-StartsDigit (suc fuel) n rest h = elim (Bool-cases (ltb n 10)) [
  | inl one ↦ rw one (omega arith, ground arith)
  | inr more ↦
      let last : Text = (48 + n % 10) ∷ [] in
      rw (more, append_assoc (print_from (suc fuel) (n / 10)) last rest)
        (print_from-StartsDigit fuel (n / 10) (last ++ rest) (omega arith))
]

scan_digits-print_from :
    (fuel n : ℕ) (rest : Text)
    → n < fuel
    → n < 2 ^ 31
    → scan_digits 0 (print_from fuel n ++ rest) ≡ scan_digits n rest
unfolding print_from
scan_digits-print_from zero n rest h fits = absurd (omega arith)
scan_digits-print_from (suc fuel) n rest h fits = elim (Bool-cases (ltb n 10)) [
  | inl one ↦ rw one (scan_digits_step 0 n n rest (ground arith) (omega arith) (omega arith))
  | inr more ↦
      let last : Text = (48 + n % 10) ∷ [] in
      let tens : 10 ≤ n = ground arith in
      rw (more, append_assoc (print_from fuel (n / 10)) last rest)
        (scan_digits-print_from fuel (n / 10) (last ++ rest) (omega arith) (omega arith)
          ∙ scan_digits_step (n / 10) (n % 10) n rest (omega arith) (omega arith) (omega arith))
]

-- A text that starts with the digits of a number.
record Spells (n : ℕ) (text rest : Text) : Type 0 where
  starts : StartsDigit text
  value : scan_digits 0 text ≡ scan_digits n rest

print-Spells : (n : ℕ) (rest : Text) → n < 2 ^ 31 → Spells n (print n ++ rest) rest
unfolding print
print-Spells n rest fits = record {
  starts = print_from-StartsDigit n n rest (omega arith);
  value = scan_digits-print_from (suc n) n rest (omega arith) fits;
}

prefixed-Spells :
    (n : ℕ) (rest : Text) → n < 2 ^ 31 → Spells n (get_0_prefixed_value n ++ rest) rest
unfolding get_0_prefixed_value
prefixed-Spells zero rest fits = record {
  starts = (omega arith, omega arith);
  value =
      scan_digits_step 0 0 0 (48 ∷ rest) (omega arith) (omega arith) (omega arith)
      ∙ scan_digits_step 0 0 0 rest (omega arith) (omega arith) (omega arith);
}
prefixed-Spells (suc n) rest fits =
    let some_left : (suc n == 0) ≡ false = ground arith in
    let plain = print-Spells (suc n) rest fits in
    elim (Bool-cases (ltb (suc n) 10)) [
      | inl one ↦
          rw (some_left, one)
            (record {
              starts = (omega arith, omega arith);
              value =
                  scan_digits_step 0 0 0 (print (suc n) ++ rest) (omega arith) (omega arith)
                    (omega arith)
                  ∙ plain.value;
            })
      | inr more ↦ rw (some_left, more) plain
    ]

-- What is no digit ends a number.
abbrev Ends : Text → Type 0
Ends [] = Unit {0}
Ends (c ∷ text) = is_digit c ≡ false

scan_digits-Ends : (n : ℕ) (rest : Text) → Ends rest → scan_digits n rest ≡ (n, rest)
unfolding scan_digits
scan_digits-Ends n [] e = refl
scan_digits-Ends n (c ∷ rest) e = rw e

skip_spaces-StartsDigit : (text : Text) → StartsDigit text → skip_spaces text ≡ text
unfolding skip_spaces is_space
skip_spaces-StartsDigit [] h = absurd h
skip_spaces-StartsDigit (c ∷ text) h =
    let no_space : (c == 32 || leb 9 c && leb c 13) ≡ false = ground arith in rw no_space

scan_int-StartsDigit : (text : Text) → StartsDigit text → scan_int text ≡ some (scan_digits 0 text)
unfolding scan_int scan_unsigned is_digit
scan_int-StartsDigit [] h = absurd h
scan_int-StartsDigit (c ∷ text) h =
    let digit : (leb 48 c && leb c 57) ≡ true = ground arith in
    let no_minus : (c == 45) ≡ false = ground arith in
    let no_plus : (c == 43) ≡ false = ground arith in rw (no_minus, no_plus, digit)

scan_number :
    (n : ℕ) (text rest : Text) (directives : List Directive)
    → Spells n text rest
    → Ends rest
    → scan (whole_number ∷ directives) text ≡ n ∷ scan directives rest
unfolding scan
scan_number n text rest directives spells ends =
    let read : scan_int text ≡ some (n, rest) =
      scan_int-StartsDigit text spells.starts
      ∙ ap some (spells.value ∙ scan_digits-Ends n rest ends) in
    rw (scan, skip_spaces-StartsDigit text spells.starts, read)

-- A number with a character behind it that the format has there too.
scan_part :
    (n c : ℕ) (rest : Text) (directives : List Directive) (text : Text)
    → Spells n text (c ∷ rest)
    → is_digit c ≡ false
    → scan (whole_number ∷ literal c ∷ directives) text ≡ n ∷ scan directives rest
unfolding scan
scan_part n c rest directives text spells ends =
    let same : (c == c) ≡ true = ground arith in
    scan_number n text (c ∷ rest) (literal c ∷ directives) spells ends ∙ rw same

scan_before_space :
    (n : ℕ) (rest : Text) (directives : List Directive) (text : Text)
    → Spells n text (32 ∷ rest)
    → StartsDigit rest
    → scan (whole_number ∷ space ∷ directives) text ≡ n ∷ scan directives rest
unfolding scan skip_spaces is_space is_digit
scan_before_space n rest directives text spells next =
    scan_number n text (32 ∷ rest) (space ∷ directives) spells refl
    ∙ ap (λ t. n ∷ scan directives t) (skip_spaces-StartsDigit rest next)

-- The fields are in the ranges that gmtime keeps, the year a positive `int`.
pub record InRange (t : Tm) : Type 0 where
  pub year : t.tm_year + 1900 < 2 ^ 31
  pub month : t.tm_mon < 12
  pub day : t.tm_mday ≤ 31
  pub hour : t.tm_hour < 24
  pub minute : t.tm_min < 60
  pub second : t.tm_sec ≤ 60

scan-date_text :
    (t : Tm)
    → InRange t
    → scan date_format (date_text t)
      ≡ (t.tm_year + 1900) ∷ (t.tm_mon + 1) ∷ t.tm_mday ∷ t.tm_hour ∷ t.tm_min ∷ t.tm_sec ∷ []
unfolding date_text scan is_digit
scan-date_text t h =
    let s = get_0_prefixed_value t.tm_sec in
    let n = get_0_prefixed_value t.tm_min ++ (58 ∷ s) in
    let o = get_0_prefixed_value t.tm_hour ++ (58 ∷ n) in
    let d = get_0_prefixed_value t.tm_mday ++ (32 ∷ o) in
    let m = get_0_prefixed_value (t.tm_mon + 1) ++ (45 ∷ d) in
    let hours = prefixed-Spells t.tm_hour (58 ∷ n) (omega (arith, h.hour)) in
    let seconds : Spells t.tm_sec s [] =
      subst (λ text. Spells t.tm_sec text []) (append-nil s)
        (prefixed-Spells t.tm_sec [] (omega (arith, h.second))) in
    scan_part (t.tm_year + 1900) 45 m (drop 2 date_format) _
      (print-Spells (t.tm_year + 1900) (45 ∷ m) h.year) refl
    ∙ ap (◌∷◌ (t.tm_year + 1900)) (
        scan_part (t.tm_mon + 1) 45 d (drop 4 date_format) _
          (prefixed-Spells (t.tm_mon + 1) (45 ∷ d) (omega (arith, h.month))) refl
        ∙ ap (◌∷◌ (t.tm_mon + 1)) (
            scan_before_space t.tm_mday o (drop 6 date_format) _
              (prefixed-Spells t.tm_mday (32 ∷ o) (omega (arith, h.day))) hours.starts
            ∙ ap (◌∷◌ t.tm_mday) (
                scan_part t.tm_hour 58 n (drop 8 date_format) _ hours refl
                ∙ ap (◌∷◌ t.tm_hour) (
                    scan_part t.tm_min 58 s (drop 10 date_format) _
                      (prefixed-Spells t.tm_min (58 ∷ s) (omega (arith, h.minute))) refl
                    ∙ ap (◌∷◌ t.tm_min) (scan_number t.tm_sec s [] [] seconds tt)))))

based_lem :
    (t : Tm)
    → InRange t
    → based (record t { tm_year = t.tm_year + 1900; tm_mon = t.tm_mon + 1 }) ≡ t
unfolding based
based_lem t h =
    let year : (t.tm_year + 1900 + (2 ^ 32 - 1900)) % 2 ^ 32 ≡ t.tm_year = omega (arith, h.year) in
    let month : (t.tm_mon + 1 + (2 ^ 32 - 1)) % 2 ^ 32 ≡ t.tm_mon = omega (arith, h.month) in
    rw (year, month)

module _ (gmtime : ℕ → Tm) (mktime : Tm → ℕ) where
  -- A time that is printed and read back comes out as mktime of what gmtime made of it, whenever it is
  -- read.
  pub get_date_from_string-get_date_in_utc :
      (t now : ℕ)
      → InRange (gmtime t)
      → get_date_from_string gmtime mktime now (get_date_in_utc gmtime mktime t) ≡ mktime (gmtime t)
  unfolding get_date_from_string get_date_in_utc fill based
  get_date_from_string-get_date_in_utc t now h =
      ap (λ numbers. mktime (based (fill numbers (gmtime now)))) (scan-date_text (gmtime t) h)
      ∙ ap mktime (based_lem (gmtime t) h)
