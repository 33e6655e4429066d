-- ===== src/Base64/Groups.antt =====
-- The encoder group by group.
use socket_cplus_plus.Prelude.{
  ℕ, suc, ◌+◌, ◌-◌, ◌*◌, ◌/◌, ◌%◌, ◌^◌, ◌<◌, ◌≡◌, refl, ap, sym, ◌∙◌, inl, inr, Bool, Bool-cases,
  true, false, List, [], ◌∷◌, ◌++◌, append_assoc, append-nil, map, length, take, drop, replicate,
  ◌==◌, if◌then◌else◌, arith,
}
use socket_cplus_plus.Base64.Iterators.{Base64Iterators}
use socket_cplus_plus.Base64.{encode_groups, base64_encode}

module _ ⦃it : Base64Iterators⦄ where
  abbrev pub group : ℕ → ℕ → ℕ → List ℕ
  group a b c = map it.to_base64 (it.sextets a b c)

  -- Four characters for three bytes, and '=' for what is missing in the last group.
  abbrev pub encoded : List ℕ → List ℕ
  encoded [] = []
  encoded (a ∷ []) = take 2 (group a 0 0) ++ (61 ∷ 61 ∷ [])
  encoded (a ∷ b ∷ []) = take 3 (group a b 0) ++ (61 ∷ [])
  encoded (a ∷ b ∷ c ∷ src) = group a b c ++ encoded src

  -- The encoder by what it computes from the length: whether the groups are whole, where the last one
  -- starts, and how many of its characters are kept and how many are '='.
  abbrev assembled : Bool → ℕ → ℕ → ℕ → List ℕ → List ℕ
  assembled whole rounded kept missing src =
      if whole
      then encode_groups (take rounded src)
      else encode_groups (take rounded src)
        ++ (take kept (encode_groups (take 3 (drop rounded src ++ replicate 3 0)))
            ++ replicate missing 61)

  assembled_behind :
      (whole : Bool) (rounded kept missing a b c : ℕ) (src : List ℕ)
      → assembled whole (suc (suc (suc rounded))) kept missing (a ∷ b ∷ c ∷ src)
        ≡ group a b c ++ assembled whole rounded kept missing src
  unfolding encode_groups
  assembled_behind true rounded kept missing a b c src = refl
  assembled_behind false rounded kept missing a b c src =
      append_assoc (group a b c) (encode_groups (take rounded src)) (
        take kept (encode_groups (take 3 (drop rounded src ++ replicate 3 0)))
        ++ replicate missing 61)

  -- The encoder in numbers that do not wrap.
  abbrev unwrapped : List ℕ → List ℕ
  unwrapped src =
      let n = length src in
      let k = n / 3 in
      assembled (k * 3 == n) (k * 3) ((n + k + 1) - (k * 3 + k)) ((k * 3 + k + 4) - (n + k + 1)) src

  base64_encode-unwrapped :
      (src : List ℕ) → length src + 2 < 3 * 2 ^ 30 → base64_encode src ≡ unwrapped src
  unfolding base64_encode
  base64_encode-unwrapped src small =
      let n = length src in
      let k = n / 3 in
      let j = (k * 3 + k) % 2 ^ 32 in
      let i = (n + k + 1) % 2 ^ 32 in
      elim (Bool-cases (k * 3 == n)) [
        | inl whole ↦
            ap (λ w. assembled w (k * 3) (i - j) ((j + 4) % 2 ^ 32 - i) src) whole
            ∙ sym (
                ap
                  (λ w.
                    assembled w (k * 3) ((n + k + 1) - (k * 3 + k)) ((k * 3 + k + 4) - (n + k + 1))
                      src)
                  whole)
        | inr cut ↦
            let kept : i - j ≡ (n + k + 1) - (k * 3 + k) = ground arith in
            let missing : (j + 4) % 2 ^ 32 - i ≡ (k * 3 + k + 4) - (n + k + 1) = ground arith in
            ap (λ m. assembled (k * 3 == n) (k * 3) m ((j + 4) % 2 ^ 32 - i) src) kept
            ∙ ap (λ m. assembled (k * 3 == n) (k * 3) ((n + k + 1) - (k * 3 + k)) m src) missing
      ]

  unwrapped-behind :
      (a b c : ℕ) (src : List ℕ) → unwrapped (a ∷ b ∷ c ∷ src) ≡ group a b c ++ unwrapped src
  unwrapped-behind a b c src =
      let n = length src in
      let n' = suc (suc (suc n)) in
      let k = n / 3 in
      let k' = n' / 3 in
      let whole : (k' * 3 == n') ≡ (k * 3 == n) = ground arith in
      let rounded : k' * 3 ≡ suc (suc (suc (k * 3))) = omega arith in
      let kept : (n' + k' + 1) - (k' * 3 + k') ≡ (n + k + 1) - (k * 3 + k) = omega arith in
      let missing : (k' * 3 + k' + 4) - (n' + k' + 1) ≡ (k * 3 + k + 4) - (n + k + 1) =
        omega arith in
      let src' : List ℕ = a ∷ b ∷ c ∷ src in
      ap
        (λ w.
          assembled w (k' * 3) ((n' + k' + 1) - (k' * 3 + k')) ((k' * 3 + k' + 4) - (n' + k' + 1))
            src')
        whole
      ∙ ap
          (λ r.
            assembled (k * 3 == n) r ((n' + k' + 1) - (k' * 3 + k'))
              ((k' * 3 + k' + 4) - (n' + k' + 1)) src')
          rounded
      ∙ ap
          (λ m.
            assembled (k * 3 == n) (suc (suc (suc (k * 3)))) m ((k' * 3 + k' + 4) - (n' + k' + 1))
              src')
          kept
      ∙ ap
          (λ m. assembled (k * 3 == n) (suc (suc (suc (k * 3)))) ((n + k + 1) - (k * 3 + k)) m src')
          missing
      ∙ assembled_behind (k * 3 == n) (k * 3) ((n + k + 1) - (k * 3 + k))
          ((k * 3 + k + 4) - (n + k + 1)) a b c src

  unwrapped-encoded : (src : List ℕ) → unwrapped src ≡ encoded src
  unfolding encode_groups
  unwrapped-encoded [] = refl
  unwrapped-encoded (a ∷ []) = ap (λ t. take 2 t ++ (61 ∷ 61 ∷ [])) (append-nil (group a 0 0))
  unwrapped-encoded (a ∷ b ∷ []) = ap (λ t. take 3 t ++ (61 ∷ [])) (append-nil (group a b 0))
  unwrapped-encoded (a ∷ b ∷ c ∷ src) =
      unwrapped-behind a b c src ∙ ap (◌++◌ (group a b c)) (unwrapped-encoded src)

  -- The encoder turns each group of three bytes into four characters, and a last one that is not whole
  -- into those that have bits of it, with '=' behind them, if `j` does not wrap.
  pub base64_encode-encoded :
      (src : List ℕ) → length src + 2 < 3 * 2 ^ 30 → base64_encode src ≡ encoded src
  base64_encode-encoded src small = base64_encode-unwrapped src small ∙ unwrapped-encoded src
