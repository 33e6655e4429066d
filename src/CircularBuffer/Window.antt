-- ===== src/CircularBuffer/Window.antt =====
-- The items that stand in the ring from an index on, going round at its end.
use native.Mathlib.Nat.{mod-add-mod, mod-eq_of_lt, mod-eq-sub-mod}
use native.Mathlib.Decide.{dec_lt}
use socket_cplus_plus.Prelude.{
  ℕ, zero, suc, ◌+◌, ◌-◌, ◌%◌, ◌≤◌, ◌<◌, ◌≡◌, refl, sym, ap, ap₂, ◌∙◌, ◌≢◌, ◌⊎◌, inl, inr, List, [],
  ◌∷◌, ◌++◌, length, get_or, set, get_or-set_self, get_or-set_ne, arith,
}

-- An index at most twice round.
pub mod_round : (x m : ℕ) → x < m + m → ((x < m) × (x % m ≡ x)) ⊎ ((m ≤ x) × (x % m ≡ x - m))
mod_round x m h = elim (dec_lt x m) [
  | yes below ↦ inl (below, mod-eq_of_lt below)
  | no above ↦
      inr (omega arith, mod-eq-sub-mod {n = x} {m = m} (omega arith) ∙ mod-eq_of_lt (omega arith))
]

pub round_on : (h k m : ℕ) → h < m → suc k < m → ((h + 1) % m + k) % m ≡ (h + suc k) % m
round_on h k m hh hk = rw mod-add-mod (ap (λ t. t % m) (omega arith))

pub whole_round : (t m : ℕ) → t < m → ((t + 1) % m + (m - 1)) % m ≡ t
whole_round t m h =
    let next : t + 1 + (m - 1) ≡ t + m = omega arith in
    rw mod-add-mod (ap (λ k. k % m) next ∙ ground (arith, mod_round (t + m) m))

-- Less than a whole round does not come back.
round_ne : (h e m : ℕ) → h < m → 0 < e → e < m → (h + e) % m ≢ h
round_ne h e m hh pos he = λ eq. ground (arith, mod_round (h + e) m)

module _ {A : Type 0} (blank : A) (m : ℕ) where
  abbrev pub span : List A → ℕ → ℕ → List A
  span buf h zero = []
  span buf h (suc n) = get_or buf h blank ∷ span buf ((h + 1) % m) n

  pub length-span : (buf : List A) (h n : ℕ) → length (span buf h n) ≡ n
  length-span buf h zero = refl
  length-span buf h (suc n) = ap suc (length-span buf ((h + 1) % m) n)

  -- A write beyond the span leaves it as it is.
  pub span-beyond :
      (buf : List A) (i : ℕ) (x : A) (n h e : ℕ)
      → h < m
      → n ≤ e
      → e < m
      → i ≡ (h + e) % m
      → span (set buf i x) h n ≡ span buf h n
  span-beyond buf i x zero h e hh le lt at = refl
  span-beyond buf i x (suc n) h zero hh le lt at = absurd (omega arith)
  span-beyond buf i x (suc n) h (suc e) hh le lt at =
      ap₂ ◌∷◌
        (get_or-set_ne buf i h x blank
          (λ eq. round_ne h (suc e) m hh (omega arith) lt (sym at ∙ eq)))
        (span-beyond buf i x n ((h + 1) % m) e (ground (arith, mod_round (h + 1) m)) (omega arith)
          (omega arith) (at ∙ sym (round_on h e m hh lt)))

  pub span-last :
      (buf : List A) (n h : ℕ)
      → h < m
      → n < m
      → span buf h (suc n) ≡ span buf h n ++ (get_or buf ((h + n) % m) blank ∷ [])
  span-last buf zero h hh hn =
      let here : (h + 0) % m ≡ h = ground (arith, mod_round (h + 0) m) in rw here
  span-last buf (suc n) h hh hn = ap (◌∷◌ (get_or buf h blank)) (
      span-last buf n ((h + 1) % m) (ground (arith, mod_round (h + 1) m)) (omega arith)
      ∙ ap (λ k. span buf ((h + 1) % m) n ++ (get_or buf k blank ∷ [])) (round_on h n m hh hn))

  -- A write just behind a span makes it one item longer.
  pub span-snoc :
      (buf : List A) (x : A) (n h i : ℕ)
      → length buf ≡ m
      → h < m
      → n < m
      → i ≡ (h + n) % m
      → span (set buf i x) h (suc n) ≡ span buf h n ++ (x ∷ [])
  span-snoc buf x n h i size hh hn at =
      let inside : i < m = ground (arith, mod_round (h + n) m) in
      span-last (set buf i x) n h hh hn
      ∙ ap₂ (λ q y. q ++ (y ∷ [])) (span-beyond buf i x n h n hh (omega arith) hn at)
          (rw (← at) (get_or-set_self buf i x blank (omega arith)))

  pub span-first :
      (buf : List A) (h n : ℕ)
      → 0 < n
      → span buf h n ≡ get_or buf h blank ∷ span buf ((h + 1) % m) (n - 1)
  span-first buf h zero p = absurd (omega arith)
  span-first buf h (suc n) p = ap (λ k. span buf h (suc k)) (omega arith)
