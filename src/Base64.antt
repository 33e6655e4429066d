-- ===== src/Base64.antt =====
-- UDP01/OldCode/General/Base64.cpp. What the code writes to `dest` is the list of its characters, from
-- the first on; its length is what base64_encode returns. From 3 * 2 ^ 30
-- bytes on, `j` wraps round, and the code goes on at the start of `dest`, which the list does not show.
pub mod Iterators
pub mod Groups
pub mod RoundTrip
pub mod Examples
use socket_cplus_plus.Prelude.{
  ℕ, zero, suc, ◌+◌, ◌-◌, ◌*◌, ◌/◌, ◌%◌, ◌^◌, Option, none, some, List, [], ◌∷◌, ◌++◌, map, length,
  take, drop, replicate, get_elem?, ◌==◌, if◌then◌else◌,
}
use socket_cplus_plus.Base64.Iterators.{Base64Iterators}

-- What the code gets at a place of its source: nothing, where that lies outside; an exception; or a
-- value.
pub data Read : Type 0 where
  outside : Read
  thrown : Read
  value : ℕ → Read

module _ ⦃it : Base64Iterators⦄ where
  -- base64_enc over whole groups of three.
  pub encode_groups : List ℕ → List ℕ
  encode_groups [] = []
  encode_groups (a ∷ []) = []
  encode_groups (a ∷ b ∷ []) = []
  encode_groups (a ∷ b ∷ c ∷ src) = map it.to_base64 (it.sextets a b c) ++ encode_groups src

  pub base64_encode : List ℕ → List ℕ
  base64_encode src =
      let len = length src in
      let one_third_len = len / 3 in
      let len_rounded_down = one_third_len * 3 in
      let j = (len_rounded_down + one_third_len) % 2 ^ 32 in
      let body = encode_groups (take len_rounded_down src) in
      let tail = take 3 (drop len_rounded_down src ++ replicate 3 0) in
      let i = (len + one_third_len + 1) % 2 ^ 32 in
      if len_rounded_down == len
      then body
      else body ++ (take (i - j) (encode_groups tail) ++ replicate ((j + 4) % 2 ^ 32 - i) 61)

  -- binary_from_base64 of the character at a place.
  pub sextet_at : List ℕ → ℕ → Read
  sextet_at src q = elim (get_elem? src q) [
    | none ↦ outside
    | some c ↦ elim (it.from_base64 c) [ none ↦ thrown | some x ↦ value x ]
  ]

  -- `*src_it` in round `i`, which takes its bits from two neighbouring characters.
  pub octet_at : List ℕ → ℕ → Read
  octet_at src i =
      let q = i / 3 * 4 + i % 3 in
      elim (sextet_at src q) [
        | outside ↦ outside
        | thrown ↦ thrown
        | value x ↦ elim (sextet_at src (q + 1)) [
          | outside ↦ outside
          | thrown ↦ thrown
          | value y ↦ value (it.octet (i % 3) x y)
        ]
      ]

  -- The loop from `i` on, with so many bytes of room.
  pub decode_from : ℕ → ℕ → List ℕ → Option (List ℕ)
  decode_from zero i src = some []
  decode_from (suc room) i src =
      let rest = decode_from room (i + 1) src in
      elim (octet_at src i) [
        | outside ↦ none
        | thrown ↦ some []
        | value b ↦ elim rest [ none ↦ none | some bytes ↦ some (b ∷ bytes) ]
      ]

  -- The bytes that are written, and how far the pointer that is returned lies behind `src`.
  pub base64_decode : List ℕ → ℕ → Option (List ℕ × ℕ)
  base64_decode src len = elim (decode_from len 0 src) [
    | none ↦ none
    | some bytes ↦ some (bytes, (length bytes + 2) % 2 ^ 32 / 3 * 4 % 2 ^ 32)
  ]
