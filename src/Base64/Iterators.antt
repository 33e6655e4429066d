-- ===== src/Base64/Iterators.antt =====
-- The iterators of boost::archive that Base64.cpp puts together, with their documented behaviour.
use socket_cplus_plus.Prelude.{ℕ, ◌+◌, ◌*◌, ◌/◌, ◌%◌, ◌<◌, ◌≡◌, Option, some, List, [], ◌∷◌}

-- base64_from_binary and binary_from_base64, which throws where `from_base64` is `none`; and
-- transform_width, from three bytes to four values of six bits, and from two such neighbours to the
-- byte at that place of three. The bits come highest first.
pub record Base64Iterators : Type 0 where
  pub to_base64 : ℕ → ℕ
  pub from_base64 : ℕ → Option ℕ
  pub sextets : ℕ → ℕ → ℕ → List ℕ
  pub octet : ℕ → ℕ → ℕ → ℕ
  pub from_base64_inverse : (v : ℕ) → v < 64 → from_base64 (to_base64 v) ≡ some v
  pub sextets_highest_first :
      (a b c : ℕ)
      → a < 256
      → b < 256
      → c < 256
      → sextets a b c ≡ (a / 4) ∷ (a % 4 * 16 + b / 16) ∷ (b % 16 * 4 + c / 64) ∷ (c % 64) ∷ []
  pub octet_first : (x y : ℕ) → x < 64 → y < 64 → octet 0 x y ≡ x * 4 + y / 16
  pub octet_second : (x y : ℕ) → x < 64 → y < 64 → octet 1 x y ≡ x % 16 * 16 + y / 4
  pub octet_third : (x y : ℕ) → x < 64 → y < 64 → octet 2 x y ≡ x % 4 * 64 + y
