-- ===== src/BoundedStrings.antt =====
-- FixedLengthString and BoundedLengthString of UDP01/OldCode/General/FixedLengthString.h and
-- FixedLengthString.inl: texts in an array of str_length + 1 characters.
-- A `const char*` is the text that it leads to, without its zero; NULL is `none`.
pub mod Buffers
pub mod Fixed
pub mod Bounded
pub mod Examples
use socket_cplus_plus.Prelude.{
  ℕ, zero, suc, ◌+◌, Bool, true, false, ◌&&◌, Option, none, some, List, [], ◌∷◌, ◌++◌, length, take,
  drop, replicate, ◌==◌, if◌then◌else◌,
}
use socket_cplus_plus.Serialize.{c_string}

-- strncpy: n characters, zeros behind the end of the text. `none` where the source ends, without a
-- zero, before that.
unfoldable pub strncpy : ℕ → List ℕ → Option (List ℕ)
strncpy zero source = some []
strncpy (suc n) [] = none
strncpy (suc n) (c ∷ source) =
    let rest : Option (List ℕ) = elim (strncpy n source) [
      | none ↦ none
      | some copied ↦ some (c ∷ copied)
    ] in
    if c == 0 then some (replicate (suc n) 0) else rest

-- strcpy of a text: its characters and a zero; what stands behind stays.
unfoldable pub strcpy : List ℕ → List ℕ → List ℕ
strcpy str buffer = str ++ (0 ∷ drop (suc (length str)) buffer)

-- strcmp(a, b) == 0
unfoldable pub same_text : List ℕ → List ℕ → Bool
same_text [] [] = true
same_text [] (b ∷ bs) = false
same_text (a ∷ as_) [] = false
same_text (a ∷ as_) (b ∷ bs) = a == b && same_text as_ bs

unfoldable pub starts_with : List ℕ → List ℕ → Bool
starts_with [] str = true
starts_with (c ∷ cs) [] = false
starts_with (c ∷ cs) (s ∷ str) = c == s && starts_with cs str

-- strstr: how far into the text the first occurrence stands.
unfoldable pub strstr : List ℕ → List ℕ → Option ℕ
strstr sub [] = if starts_with sub [] then some 0 else none
strstr sub (s ∷ str) =
    let rest : Option ℕ = elim (strstr sub str) [ none ↦ none | some i ↦ some (suc i) ] in
    if starts_with sub (s ∷ str) then some 0 else rest
