-- ===== src/BoundedStrings/Buffers.antt =====
-- Arrays of characters that end in a zero.
use socket_cplus_plus.Prelude.{
  ℕ, zero, suc, ◌+◌, ◌-◌, ◌≤◌, ◌<◌, ◌≡◌, refl, sym, ap, ◌∙◌, inl, inr, true, false, some, List, [],
  ◌∷◌, ◌++◌, length, take, drop, set, replicate, length-append, length-drop, length-replicate, ◌==◌,
  Bool-cases, arith, append_assoc, length-set, Option-cases, none_ne_some, some_inj,
}
use socket_cplus_plus.Serialize.{c_string}
use socket_cplus_plus.Serialize.Strings.{NoZero}
use socket_cplus_plus.BoundedStrings.{strncpy, same_text}

-- A text of at most `n` characters in an array of n + 1.
pub record IsTerminated (n : ℕ) (buffer : List ℕ) : Type 0 where
  pub room : length buffer ≡ n + 1
  pub short : length (c_string buffer) ≤ n

-- A text with zeros behind it, up to n characters.
abbrev pub padded : ℕ → List ℕ → List ℕ
padded n text = text ++ replicate (n - length text) 0

pub c_string-ended : (text rest : List ℕ) → NoZero text → c_string (text ++ (0 ∷ rest)) ≡ text
unfolding c_string NoZero
c_string-ended [] rest z = refl
c_string-ended (c ∷ text) rest z = ground (arith, c_string-ended text rest z.1)

pub c_string-NoZero_any : (buffer : List ℕ) → NoZero (c_string buffer)
unfolding c_string NoZero
c_string-NoZero_any [] = tt
c_string-NoZero_any (c ∷ buffer) = elim (Bool-cases (c == 0)) [
  | inl end ↦ rw end tt
  | inr on ↦ rw on ((λ e. cc (on, e)), c_string-NoZero_any buffer)
]

-- A zero at place `n` ends the text there at the latest.
pub c_string-set_zero :
    (n : ℕ) (buffer : List ℕ) → n < length buffer → length (c_string (set buffer n 0)) ≤ n
unfolding c_string
c_string-set_zero n [] h = absurd (omega arith)
c_string-set_zero zero (c ∷ buffer) h = omega arith
c_string-set_zero (suc n) (c ∷ buffer) h = ground (arith, c_string-set_zero n buffer (omega arith))

pub set-append_length :
    (xs rest : List ℕ) (y v : ℕ) → set (xs ++ (y ∷ rest)) (length xs) v ≡ xs ++ (v ∷ rest)
set-append_length [] rest y v = refl
set-append_length (x ∷ xs) rest y v = ap (◌∷◌ x) (set-append_length xs rest y v)

pub take_all : (n : ℕ) (xs : List ℕ) → length xs ≤ n → take n xs ≡ xs
take_all zero [] h = refl
take_all zero (x ∷ xs) h = absurd (omega arith)
take_all (suc n) [] h = refl
take_all (suc n) (x ∷ xs) h = ap (◌∷◌ x) (take_all n xs (omega arith))

pub NoZero-take : (n : ℕ) (xs : List ℕ) → NoZero xs → NoZero (take n xs)
unfolding NoZero
NoZero-take zero xs z = tt
NoZero-take (suc n) [] z = tt
NoZero-take (suc n) (x ∷ xs) (first, rest) = (first, NoZero-take n xs rest)

-- The last character of an array of n + 1, replaced by a zero behind n others.
pub ended :
    (n : ℕ) (xs buffer : List ℕ)
    → length xs ≡ n
    → length buffer ≡ n + 1
    → set (xs ++ drop n buffer) n 0 ≡ xs ++ (0 ∷ [])
ended n xs buffer e h = last (drop n buffer) (omega (arith, length-drop n buffer))
  where
    last : (rest : List ℕ) → length rest ≡ 1 → set (xs ++ rest) n 0 ≡ xs ++ (0 ∷ [])
    last [] one = absurd (omega arith)
    last (y ∷ []) one = ap (λ k. set (xs ++ (y ∷ [])) k 0) (sym e) ∙ set-append_length xs [] y 0
    last (y ∷ z ∷ rest) one = absurd (omega arith)

pub length-padded : (n : ℕ) (text : List ℕ) → length text ≤ n → length (padded n text) ≡ n
length-padded n text h = omega (
  arith,
  length-append text (replicate (n - length text) 0),
  length-replicate {A = ℕ} (n - length text) 0,
)

whole : (n : ℕ) → suc n ≡ suc n - 0
whole n = omega arith

one_less : (n m : ℕ) → n - m ≡ suc n - suc m
one_less n m = omega arith

-- strncpy of an array whose text is short enough gives the text with zeros behind it.
pub strncpy-c_string :
    (n : ℕ) (buffer : List ℕ)
    → n < length buffer
    → length (c_string buffer) ≤ n
    → strncpy n buffer ≡ some (padded n (c_string buffer))
unfolding strncpy c_string
strncpy-c_string zero [] h short = absurd (omega arith)
strncpy-c_string zero (c ∷ buffer) h short = elim (Bool-cases (c == 0)) [
  | inl end ↦ rw end
  | inr on ↦ absurd (ground arith)
]
strncpy-c_string (suc n) [] h short = absurd (omega arith)
strncpy-c_string (suc n) (c ∷ buffer) h short = elim (Bool-cases (c == 0)) [
  | inl end ↦ rw end (ap (λ k. some (replicate k 0)) (whole n))
  | inr on ↦
      let ih = strncpy-c_string n buffer (omega arith) (ground arith) in
      rw (on, ih)
        (ap (λ k. some (c ∷ (c_string buffer ++ replicate k 0)))
          (one_less n (length (c_string buffer))))
]

pub strncpy-padded :
    (n : ℕ) (text post : List ℕ)
    → NoZero text
    → length text ≤ n
    → strncpy n (padded n text ++ post) ≡ some (padded n text)
unfolding strncpy NoZero
strncpy-padded zero [] post z h = refl
strncpy-padded zero (c ∷ text) post z h = absurd (omega arith)
strncpy-padded (suc n) [] post z h =
    ap (λ k. strncpy (suc n) (replicate k 0 ++ post)) (sym (whole n))
    ∙ ap (λ k. some (replicate k 0)) (whole n)
strncpy-padded (suc n) (c ∷ text) post (first, rest) h =
    let on : (c == 0) ≡ false = ground arith in
    let less = one_less n (length text) in
    let ih =
      ap (λ k. strncpy n ((text ++ replicate k 0) ++ post)) (sym less)
      ∙ strncpy-padded n text post rest (omega arith)
      ∙ ap (λ k. some (text ++ replicate k 0)) less in
    rw (on, ih)

pub same_text_refl : (text : List ℕ) → same_text text text ≡ true
unfolding same_text
same_text_refl [] = refl
same_text_refl (c ∷ text) = ground (arith, same_text_refl text)

pub c_string-padded :
    (k : ℕ) (text : List ℕ) → NoZero text → c_string ((text ++ replicate k 0) ++ (0 ∷ [])) ≡ text
c_string-padded zero text z = ap c_string (append_assoc text [] (0 ∷ [])) ∙ c_string-ended text [] z
c_string-padded (suc k) text z =
    ap c_string (append_assoc text (replicate (suc k) 0) (0 ∷ []))
    ∙ c_string-ended text (replicate k 0 ++ (0 ∷ [])) z

pub length-strncpy :
    (n : ℕ) (source copied : List ℕ) → strncpy n source ≡ some copied → length copied ≡ n
unfolding strncpy
length-strncpy zero source copied e = ap length (sym (some_inj e))
length-strncpy (suc n) [] copied e = absurd (none_ne_some e)
length-strncpy (suc n) (c ∷ source) copied e = elim (Bool-cases (c == 0)) [
  | inl end ↦
      let zeros : strncpy (suc n) (c ∷ source) ≡ some (replicate (suc n) 0) = rw end in
      ap length (some_inj (sym e ∙ zeros)) ∙ length-replicate {A = ℕ} (suc n) 0
  | inr on ↦ elim (Option-cases (strncpy n source)) [
    | inl failed ↦ absurd (none_ne_some (sym (rw (strncpy, on, failed)) ∙ e))
    | inr (rest, copies) ↦
        let made : strncpy (suc n) (c ∷ source) ≡ some (c ∷ rest) = rw (on, copies) in
        ap length (some_inj (sym e ∙ made)) ∙ ap suc (length-strncpy n source rest copies)
  ]
]

-- Characters put in front of an array and ended by a zero stay within it.
pub ended-IsTerminated :
    (n k : ℕ) (xs buffer : List ℕ)
    → length xs ≡ k
    → k ≤ n
    → length buffer ≡ n + 1
    → IsTerminated n (set (xs ++ drop k buffer) k 0)
ended-IsTerminated n k xs buffer e h room =
    let all : length (xs ++ drop k buffer) ≡ n + 1 =
      omega (arith, length-append xs (drop k buffer), length-drop k buffer) in
    record {
      room = length-set (xs ++ drop k buffer) k 0 ∙ all;
      short = omega (arith, c_string-set_zero k (xs ++ drop k buffer) (omega (arith, all)));
    }
