-- ===== src/Base64/Examples.antt =====
-- The usual alphabet, and two bytes that go there and back.
use socket_cplus_plus.Prelude.{
  ℕ, ◌+◌, ◌-◌, ◌*◌, ◌/◌, ◌%◌, ◌<◌, ◌≡◌, refl, ◌&&◌, Option, none, some, [], ◌∷◌, ◌++◌, length, ltb,
  leb, ◌==◌, if◌then◌else◌, arith,
}
use socket_cplus_plus.Base64.Iterators.{Base64Iterators}
use socket_cplus_plus.Base64.{base64_encode, base64_decode, encode_groups}
use socket_cplus_plus.Base64.RoundTrip.{base64_decode-base64_encode}

to_alphabet : ℕ → ℕ
to_alphabet v =
    if ltb v 26
    then 65 + v
    else if ltb v 52
    then 71 + v
    else if ltb v 62
    then v - 4
    else if v == 62
    then 43
    else 47

from_alphabet : ℕ → Option ℕ
from_alphabet c =
    if leb 65 c && leb c 90
    then some (c - 65)
    else if leb 97 c && leb c 122
    then some (c - 71)
    else if leb 48 c && leb c 57
    then some (c + 4)
    else if c == 43
    then some 62
    else if c == 47
    then some 63
    else none

alphabet_inverse : (v : ℕ) → v < 64 → from_alphabet (to_alphabet v) ≡ some v
unfolding to_alphabet from_alphabet
alphabet_inverse v h = ground arith

instance abbrev usual : Base64Iterators
usual = record {
  to_base64 = to_alphabet;
  from_base64 = from_alphabet;
  sextets = λ a b c. (a / 4) ∷ (a % 4 * 16 + b / 16) ∷ (b % 16 * 4 + c / 64) ∷ (c % 64) ∷ [];
  octet = λ p x y.
      if p == 0 then x * 4 + y / 16 else if p == 1 then x % 16 * 16 + y / 4 else x % 4 * 64 + y;
  from_base64_inverse = alphabet_inverse;
  sextets_highest_first = λ a b c ha hb hc. refl;
  octet_first = λ x y hx hy. refl;
  octet_second = λ x y hx hy. refl;
  octet_third = λ x y hx hy. refl;
}

-- "Hi" is "SGk=".
hi_encoded : base64_encode (72 ∷ 105 ∷ []) ≡ 83 ∷ 71 ∷ 107 ∷ 61 ∷ []
unfolding base64_encode encode_groups to_alphabet
hi_encoded = refl

base64_decode-base64_encode_example :
    base64_decode (base64_encode (72 ∷ 105 ∷ []) ++ (0 ∷ [])) 2
    ≡ some (72 ∷ 105 ∷ [], length (base64_encode (72 ∷ 105 ∷ [])))
base64_decode-base64_encode_example =
    base64_decode-base64_encode (72 ∷ 105 ∷ []) (0 ∷ []) (omega arith, (omega arith, tt))
      (omega arith)
