-- ===== src/Base64/RoundTrip.antt =====
-- The decoder on what the encoder wrote.
use socket_cplus_plus.Prelude.{
  ℕ, zero, suc, ◌+◌, ◌*◌, ◌/◌, ◌%◌, ◌^◌, ◌<◌, ◌≡◌, refl, ap, ◌∙◌, Option, none, some, List, [], ◌∷◌,
  ◌++◌, map, length, take, All, arith,
}
use socket_cplus_plus.Base64.Iterators.{Base64Iterators}
use socket_cplus_plus.Base64.{
  Read, outside, thrown, value, sextet_at, octet_at, decode_from, base64_encode, base64_decode,
}
use socket_cplus_plus.Base64.Groups.{group, encoded, base64_encode-encoded}

abbrev pub Bytes : List ℕ → Type 0
Bytes src = All (λ b. b < 256) src

module _ ⦃it : Base64Iterators⦄ where
  to : ℕ → ℕ
  to v = it.to_base64 v

  group_lem :
      (a b c : ℕ)
      → a < 256
      → b < 256
      → c < 256
      → group a b c
        ≡ to (a / 4) ∷ to (a % 4 * 16 + b / 16) ∷ to (b % 16 * 4 + c / 64) ∷ to (c % 64) ∷ []
  unfolding to
  group_lem a b c ha hb hc = ap (map it.to_base64) (it.sextets_highest_first a b c ha hb hc)

  first_octet :
      (a b : ℕ) (rest : List ℕ)
      → a < 256
      → b < 256
      → octet_at (to (a / 4) ∷ to (a % 4 * 16 + b / 16) ∷ rest) 0 ≡ value a
  unfolding octet_at sextet_at to
  first_octet a b rest ha hb =
      let x = a / 4 in
      let y = a % 4 * 16 + b / 16 in
      rw (it.from_base64_inverse x (omega arith), it.from_base64_inverse y (omega arith))
        (ap value (it.octet_first x y (omega arith) (omega arith) ∙ omega arith))

  second_octet :
      (w a b c : ℕ) (rest : List ℕ)
      → b < 256
      → c < 256
      → octet_at (w ∷ to (a % 4 * 16 + b / 16) ∷ to (b % 16 * 4 + c / 64) ∷ rest) 1 ≡ value b
  unfolding octet_at sextet_at to
  second_octet w a b c rest hb hc =
      let x = a % 4 * 16 + b / 16 in
      let y = b % 16 * 4 + c / 64 in
      rw (it.from_base64_inverse x (omega arith), it.from_base64_inverse y (omega arith))
        (ap value (it.octet_second x y (omega arith) (omega arith) ∙ omega arith))

  third_octet :
      (w x' b c : ℕ) (rest : List ℕ)
      → c < 256
      → octet_at (w ∷ x' ∷ to (b % 16 * 4 + c / 64) ∷ to (c % 64) ∷ rest) 2 ≡ value c
  unfolding octet_at sextet_at to
  third_octet w x' b c rest hc =
      let x = b % 16 * 4 + c / 64 in
      let y = c % 64 in
      rw (it.from_base64_inverse x (omega arith), it.from_base64_inverse y (omega arith))
        (ap value (it.octet_third x y (omega arith) (omega arith) ∙ omega arith))

  abbrev octet_with : ℕ → List ℕ → ℕ → ℕ → Read
  octet_with p src q r = elim (sextet_at src q) [
    | outside ↦ outside
    | thrown ↦ thrown
    | value x ↦ elim (sextet_at src r) [
      | outside ↦ outside
      | thrown ↦ thrown
      | value y ↦ value (it.octet p x y)
    ]
  ]

  octet_at-behind :
      (w x y z i : ℕ) (rest : List ℕ) → octet_at (w ∷ x ∷ y ∷ z ∷ rest) (i + 3) ≡ octet_at rest i
  unfolding octet_at sextet_at
  octet_at-behind w x y z i rest =
      let src : List ℕ = w ∷ x ∷ y ∷ z ∷ rest in
      let q = i / 3 * 4 + i % 3 in
      let q' = (i + 3) / 3 * 4 + (i + 3) % 3 in
      let place : (i + 3) % 3 ≡ i % 3 = omega arith in
      let here : q' ≡ suc (suc (suc (suc q))) = omega arith in
      let next : q' + 1 ≡ suc (suc (suc (suc (q + 1)))) = omega arith in
      ap (λ p. octet_with p src q' (q' + 1)) place
      ∙ ap (λ r. octet_with (i % 3) src r (q' + 1)) here
      ∙ ap (λ r. octet_with (i % 3) src (suc (suc (suc (suc q)))) r) next

  abbrev with_byte : Read → Option (List ℕ) → Option (List ℕ)
  with_byte r rest = elim r [
    | outside ↦ none
    | thrown ↦ some []
    | value b ↦ elim rest [ none ↦ none | some bytes ↦ some (b ∷ bytes) ]
  ]

  decode_from-behind :
      (room w x y z i : ℕ) (rest : List ℕ)
      → decode_from room (i + 3) (w ∷ x ∷ y ∷ z ∷ rest) ≡ decode_from room i rest
  unfolding decode_from
  decode_from-behind zero w x y z i rest = refl
  decode_from-behind (suc room) w x y z i rest =
      let src : List ℕ = w ∷ x ∷ y ∷ z ∷ rest in
      let onward : i + 3 + 1 ≡ i + 1 + 3 = omega arith in
      ap (λ r. with_byte r (decode_from room (i + 3 + 1) src)) (octet_at-behind w x y z i rest)
      ∙ ap (with_byte (octet_at rest i))
          (ap (λ n. decode_from room n src) onward ∙ decode_from-behind room w x y z (i + 1) rest)

  decoded_byte :
      (room i b : ℕ) (src bytes : List ℕ)
      → octet_at src i ≡ value b
      → decode_from room (i + 1) src ≡ some bytes
      → decode_from (suc room) i src ≡ some (b ∷ bytes)
  unfolding decode_from
  decoded_byte room i b src bytes e later =
      ap (λ r. with_byte r (decode_from room (i + 1) src)) e ∙ ap (with_byte (value b)) later

  decodes :
      (src more : List ℕ) → Bytes src → decode_from (length src) 0 (encoded src ++ more) ≡ some src
  unfolding decode_from
  decodes [] more h = refl
  decodes (a ∷ []) more (ha, _) =
      ap (λ g. decode_from 1 0 ((take 2 g ++ (61 ∷ 61 ∷ [])) ++ more))
        (group_lem a 0 0 ha (omega arith) (omega arith))
      ∙ decoded_byte 0 0 a (to (a / 4) ∷ to (a % 4 * 16 + 0 / 16) ∷ 61 ∷ 61 ∷ more) []
          (first_octet a 0 (61 ∷ 61 ∷ more) ha (omega arith)) refl
  decodes (a ∷ b ∷ []) more (ha, (hb, _)) =
      let w = to (a / 4) in
      let x = to (a % 4 * 16 + b / 16) in
      let y = to (b % 16 * 4 + 0 / 64) in
      let text : List ℕ = w ∷ x ∷ y ∷ 61 ∷ more in
      ap (λ g. decode_from 2 0 ((take 3 g ++ (61 ∷ [])) ++ more))
        (group_lem a b 0 ha hb (omega arith))
      ∙ decoded_byte 1 0 a text (b ∷ []) (first_octet a b (y ∷ 61 ∷ more) ha hb)
          (decoded_byte 0 1 b text [] (second_octet w a b 0 (61 ∷ more) hb (omega arith)) refl)
  decodes (a ∷ b ∷ c ∷ src) more (ha, (hb, (hc, h))) =
      let w = to (a / 4) in
      let x = to (a % 4 * 16 + b / 16) in
      let y = to (b % 16 * 4 + c / 64) in
      let z = to (c % 64) in
      let rest = encoded src ++ more in
      let text : List ℕ = w ∷ x ∷ y ∷ z ∷ rest in
      let n = length src in
      ap (λ g. decode_from (suc (suc (suc n))) 0 ((g ++ encoded src) ++ more))
        (group_lem a b c ha hb hc)
      ∙ decoded_byte (suc (suc n)) 0 a text (b ∷ c ∷ src) (first_octet a b (y ∷ z ∷ rest) ha hb) (
          decoded_byte (suc n) 1 b text (c ∷ src) (second_octet w a b c (z ∷ rest) hb hc) (
            decoded_byte n 2 c text src (third_octet w x b c rest hc)
              (decode_from-behind n w x y z 0 rest ∙ decodes src more h)))

  length-encoded : (src : List ℕ) → Bytes src → (length src + 2) / 3 * 4 ≡ length (encoded src)
  length-encoded [] h = refl
  length-encoded (a ∷ []) (ha, _) = rw (group_lem a 0 0 ha (omega arith) (omega arith))
  length-encoded (a ∷ b ∷ []) (ha, (hb, _)) = rw (group_lem a b 0 ha hb (omega arith))
  length-encoded (a ∷ b ∷ c ∷ src) (ha, (hb, (hc, h))) =
      rw (group_lem a b c ha hb hc) (omega (arith, length-encoded src h))

  -- Fewer than 3 * 2 ^ 30 - 2 bytes that are encoded, whatever stands behind them, and decoded into
  -- a buffer of their number are the same bytes, and the pointer that comes back leads behind the
  -- encoded text.
  pub base64_decode-base64_encode :
      (src more : List ℕ)
      → Bytes src
      → length src + 2 < 3 * 2 ^ 30
      → base64_decode (base64_encode src ++ more) (length src)
        ≡ some (src, length (base64_encode src))
  unfolding base64_decode
  base64_decode-base64_encode src more h small =
      let in_range : (length src + 2) % 2 ^ 32 / 3 * 4 % 2 ^ 32 ≡ (length src + 2) / 3 * 4 =
        omega arith in
      rw (
        base64_decode,
        base64_encode-encoded src small,
        decodes src more h,
        in_range,
        length-encoded src h,
      )
