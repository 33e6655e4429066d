-- ===== src/BoundedStrings/Fixed/Operators.antt =====
-- The operators of FixedLengthString, which pass on to copy and isEqual.
use socket_cplus_plus.Prelude.{ℕ, ◌+◌, ◌≡◌, Bool, not, some, List, length, ltb, false}
use socket_cplus_plus.Serialize.{c_string}
use socket_cplus_plus.Serialize.Strings.{NoZero}
use socket_cplus_plus.BoundedStrings.{same_text}
use socket_cplus_plus.BoundedStrings.Fixed.{FixedLengthString, copy, is_equal}
use socket_cplus_plus.BoundedStrings.Fixed.Laws.{is_equal-copy}

module _ (str_length : ℕ) where
  -- operator = of a text
  pub assign : List ℕ → FixedLengthString → FixedLengthString
  assign str s = copy str_length (some str) s

  -- operator == of a text, from either side; isEqual is not asked to leave the case out.
  pub equals_text : List ℕ → FixedLengthString → Bool
  equals_text str s = is_equal str_length same_text (some str) false s

  -- operator == of two strings
  pub equals : FixedLengthString → FixedLengthString → Bool
  equals rhs s = equals_text (c_string rhs.buffer) s

  -- What is assigned is found equal, unless it is too long.
  pub equals_text-assign :
      (str : List ℕ) (s : FixedLengthString)
      → NoZero str
      → length s.buffer ≡ str_length + 1
      → equals_text str (assign str s) ≡ not (ltb str_length (length str))
  unfolding equals_text assign
  equals_text-assign str s z room = is_equal-copy str_length same_text str s z room
