-- ===== src/BoundedStrings/Bounded/Operators.antt =====
-- The operators of BoundedLengthString, which pass on to copy and isEqual.
use socket_cplus_plus.Prelude.{
  ℕ, ◌+◌, ◌≡◌, Bool, not, some, List, length, ltb, Bool-cases, inl, inr, ◌∙◌, arith, false,
}
use socket_cplus_plus.Serialize.{c_string}
use socket_cplus_plus.Serialize.Strings.{NoZero}
use socket_cplus_plus.BoundedStrings.{same_text}
use socket_cplus_plus.BoundedStrings.Buffers.{take_all, same_text_refl}
use socket_cplus_plus.BoundedStrings.Bounded.{BoundedLengthString, copy, is_equal}
use socket_cplus_plus.BoundedStrings.Bounded.Laws.{copy_lem}

module _ (str_length : ℕ) where
  -- operator = of a text
  pub assign : List ℕ → BoundedLengthString → BoundedLengthString
  assign str s = copy str_length (some str) s

  -- operator == of a text, from either side; isEqual is not asked to leave the case out.
  pub equals_text : List ℕ → BoundedLengthString → Bool
  equals_text str s = is_equal str_length same_text (some str) false s

  -- operator == of two strings
  pub equals : BoundedLengthString → BoundedLengthString → Bool
  equals rhs s = equals_text (c_string rhs.buffer) s

  -- What is assigned is found equal, unless it is too long.
  pub equals_text-assign :
      (str : List ℕ) (s : BoundedLengthString)
      → NoZero str
      → length s.buffer ≡ str_length + 1
      → equals_text str (assign str s) ≡ not (ltb str_length (length str))
  unfolding equals_text assign is_equal
  equals_text-assign str s z room = elim (Bool-cases (ltb str_length (length str))) [
    | inl long ↦ rw long
    | inr short ↦
        let holds = (copy_lem str_length str s z room).0 ∙ take_all str_length str (ground arith) in
        rw (short, holds) (same_text_refl str)
  ]
