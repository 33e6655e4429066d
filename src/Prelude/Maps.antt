-- ===== src/Prelude/Maps.antt =====
-- Keys that a program compares, and std::map as an association list.
use Prim.Native.String.{String}
use text.Mathlib.Text.{◌==◌ as str_eq}
use text.Mathlib.TextEquality.{eq_iff}
use Prim.Native.Nat.{ℕ}
use mathlib.Core.Path.{◌≡◌, refl, sym, ap, ◌∙◌}
use mathlib.Core.Logic.{◌↔◌, inl, inr}
use mathlib.Core.Bool.{Bool, true, false, ◌&&◌}
use mathlib.Core.Option.{Option, none, some}
use mathlib.Core.List.{List, [], ◌∷◌}
use native.Mathlib.Omega.{arith}
use socket_cplus_plus.Prelude.Tests.{◌==◌, ==_iff, if◌then◌else◌, Bool-cases}

pub record Key (K : Type 0) : Type 0 where
  pub same : K → K → Bool
  pub same_iff : (a b : K) → (same a b ≡ true) ↔ (a ≡ b)

instance abbrev pub ℕ_key : Key ℕ
ℕ_key = record { same = ◌==◌; same_iff = ==_iff }

instance abbrev pub string_key : Key String
string_key = record { same = str_eq; same_iff = eq_iff }

abbrev pub pair_same : ℕ × ℕ → ℕ × ℕ → Bool
pair_same (a, b) (c, d) = a == c && b == d

pub pair_same_iff : (p q : ℕ × ℕ) → (pair_same p q ≡ true) ↔ (p ≡ q)
pair_same_iff (a, b) (c, d) = ground arith

instance abbrev pub pair_key : Key (ℕ × ℕ)
pair_key = record { same = pair_same; same_iff = pair_same_iff }

pub same_refl : {K : Type 0} ⦃key : Key K⦄ (k : K) → key.same k k ≡ true
same_refl ⦃key⦄ k = (key.same_iff k k).1 refl

module _ {K V : Type 0} ⦃key : Key K⦄ where
  abbrev pub find : K → List (K × V) → Option V
  find k [] = none
  find k ((j, v) ∷ m) = if key.same j k then some v else find k m

  -- m.find(k) != m.end()
  abbrev pub has : K → List (K × V) → Bool
  has k [] = false
  has k ((j, v) ∷ m) = if key.same j k then true else has k m

  -- m[k] = v
  abbrev pub assign : K → V → List (K × V) → List (K × V)
  assign k v [] = (k, v) ∷ []
  assign k v ((j, w) ∷ m) = if key.same j k then (j, v) ∷ m else (j, w) ∷ assign k v m

  pub find-assign :
      (k j : K) (v : V) (m : List (K × V))
      → find j (assign k v m) ≡ (if key.same k j then some v else find j m)
  find-assign k j v [] = refl
  find-assign k j v ((i, w) ∷ m) =
      ground (arith, key.same_iff i j, key.same_iff k j, key.same_iff i k, find-assign k j v m)

  pub find-assigned : (k j : K) (v : V) (m : List (K × V)) → k ≡ j → find j (assign k v m) ≡ some v
  find-assigned k j v m e =
      find-assign k j v m ∙ ap (λ t. if t then some v else find j m) ((key.same_iff k j).1 e)

  pub find-has : (k : K) (m : List (K × V)) → has k m ≡ false → find k m ≡ none
  find-has k [] h = refl
  find-has k ((j, v) ∷ m) h = ground (arith, find-has k m)

  pub has-find : (k : K) (m : List (K × V)) → has k m ≡ true → (v : V) × (find k m ≡ some v)
  has-find k [] h = cc
  has-find k ((j, v) ∷ m) h = elim (Bool-cases (key.same j k)) [
    | inl yes_same ↦ (v, rw yes_same)
    | inr no_same ↦
        let (w, e) = has-find k m (sym (ap (λ t. if t then true else has k m) no_same) ∙ h) in
        (w, rw (no_same, e))
  ]

  pub has-first : (k : K) (v : V) (m : List (K × V)) → has k ((k, v) ∷ m) ≡ true
  has-first k v m = rw (same_refl k)

  pub has-later : (k j : K) (v : V) (m : List (K × V)) → has k m ≡ true → has k ((j, v) ∷ m) ≡ true
  has-later k j v m h = ground arith
