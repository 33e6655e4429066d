-- ===== src/Prelude/Bits.antt =====
-- Masks and joins of bit fields as arithmetic, at every width, from the digit recursion that the
-- native operations stand for.
use Prim.Native.Nat.{
  ℕ, zero, suc, ◌+◌, ◌-◌, ◌*◌, ◌/◌, ◌%◌, ◌^◌, ◌≤◌, ◌<◌, min, max, bit_and, bit_or, digits,
  bit_and-bitwise, bit_or-bitwise,
}
use mathlib.Core.Path.{◌≡◌, refl, ap, ap₂, ◌∙◌}
use native.Mathlib.Nat.{pow-suc, one-le-pow, div-add-mod}
use native.Mathlib.Omega.{arith}

-- Fuel beyond the number itself changes no digit.
enough_digits :
    (z : ℕ → ℕ) (f : ℕ → ℕ → ℕ) (n m a b : ℕ) → a ≤ n → a ≤ m → digits z f n a b ≡ digits z f m a b
enough_digits z f zero zero a b p q = refl
enough_digits z f zero (suc m) zero b p q = refl
enough_digits z f (suc n) zero zero b p q = refl
enough_digits z f (suc n) (suc m) zero b p q = refl
enough_digits z f zero m (suc a) b p q = absurd (omega arith)
enough_digits z f (suc n) zero (suc a) b p q = absurd (omega arith)
enough_digits z f (suc n) (suc m) (suc a) b p q =
    rw (enough_digits z f n m (suc a / 2) (b / 2) (omega arith) (omega arith))

-- One digit of either operation, where the first number is not zero.
digit_step :
    (z : ℕ → ℕ) (f : ℕ → ℕ → ℕ) (a b : ℕ)
    → digits z f a (suc a / 2) (b / 2) ≡ digits z f (suc a / 2) (suc a / 2) (b / 2)
digit_step z f a b = enough_digits z f a (suc a / 2) (suc a / 2) (b / 2) (omega arith) (omega arith)

pub bit_or-halves : (a b : ℕ) → bit_or a b ≡ bit_or (a / 2) (b / 2) * 2 + max (a % 2) (b % 2)
bit_or-halves zero b = omega (arith, bit_or-bitwise zero b, bit_or-bitwise zero (b / 2))
bit_or-halves (suc a) b =
    let whole = bit_or-bitwise (suc a) b in
    let half = bit_or-bitwise (suc a / 2) (b / 2) in
    omega (arith, digit_step (λ y. y) max a b, half, whole)

pub bit_and-halves : (a b : ℕ) → bit_and a b ≡ bit_and (a / 2) (b / 2) * 2 + min (a % 2) (b % 2)
bit_and-halves zero b = omega (arith, bit_and-bitwise zero b, bit_and-bitwise zero (b / 2))
bit_and-halves (suc a) b =
    let whole = bit_and-bitwise (suc a) b in
    let half = bit_and-bitwise (suc a / 2) (b / 2) in
    omega (arith, digit_step (λ y. 0) min a b, half, whole)

-- Both operations against zero, by halving.
against_zero : (n a : ℕ) → a ≤ n → (bit_or a 0 ≡ a) × (bit_and a 0 ≡ 0)
against_zero n zero h = (refl, refl)
against_zero zero (suc a) h = absurd (omega arith)
against_zero (suc n) (suc a) h =
    let (joined, masked) = against_zero n (suc a / 2) (omega arith) in
    (
      omega (arith, joined, bit_or-halves (suc a) 0),
      omega (arith, masked, bit_and-halves (suc a) 0),
    )

pub bit_or-zero : (a : ℕ) → bit_or a 0 ≡ a
bit_or-zero a = (against_zero a a (omega arith)).0

pub bit_and-zero : (a : ℕ) → bit_and a 0 ≡ 0
bit_and-zero a = (against_zero a a (omega arith)).1

double_shift : (q k : ℕ) → q * 2 ^ suc k ≡ 2 * (q * 2 ^ k)
double_shift q k = omega (arith, ap (λ (t : ℕ). q * t) (pow-suc 2 k))

-- A field above bit `k` and one below it join by `|` into their sum.
pub bit_or-join : (k q r : ℕ) → r < 2 ^ k → bit_or (q * 2 ^ k) r ≡ q * 2 ^ k + r
bit_or-join zero q r h = let e : r ≡ 0 = omega arith in rw e (rw bit_or-zero (omega arith))
bit_or-join (suc k) q r h =
    let half : q * 2 ^ suc k / 2 ≡ q * 2 ^ k = omega (arith, double_shift q k) in
    let joined = bit_or-join k q (r / 2) (omega (arith, pow-suc 2 k)) in
    omega (
      arith,
      double_shift q k,
      bit_or-halves (q * 2 ^ suc k) r,
      ap (λ (t : ℕ). bit_or t (r / 2)) half,
      joined,
    )

-- A mask that is zero below bit `k` does not see what stands there.
and_above : (k q r m : ℕ) → r < 2 ^ k → bit_and (q * 2 ^ k + r) (m * 2 ^ k) ≡ bit_and q m * 2 ^ k
and_above zero q r m h =
    let e : q * 1 + r ≡ q = omega arith in
    let f : m * 1 ≡ m = omega arith in rw (e, f) (omega arith)
and_above (suc k) q r m h =
    let half : (q * 2 ^ suc k + r) / 2 ≡ q * 2 ^ k + r / 2 = omega (arith, double_shift q k) in
    let mask : m * 2 ^ suc k / 2 ≡ m * 2 ^ k = omega (arith, double_shift m k) in
    omega (
      arith,
      double_shift m k,
      double_shift (bit_and q m) k,
      bit_and-halves (q * 2 ^ suc k + r) (m * 2 ^ suc k),
      ap₂ bit_and half mask,
      and_above k q (r / 2) m (omega (arith, pow-suc 2 k)),
    )

pub bit_and-shifted : (k x m : ℕ) → bit_and x (m * 2 ^ k) ≡ bit_and (x / 2 ^ k) m * 2 ^ k
bit_and-shifted k x m =
    let e : x ≡ x / 2 ^ k * 2 ^ k + x % 2 ^ k = omega (arith, div-add-mod x (2 ^ k)) in
    ap (λ (t : ℕ). bit_and t (m * 2 ^ k)) e
    ∙ and_above k (x / 2 ^ k) (x % 2 ^ k) m (grind (arith, one-le-pow k 2))

and_below : (k q r : ℕ) → r < 2 ^ k → bit_and (q * 2 ^ k + r) (2 ^ k - 1) ≡ r
and_below zero q r h = rw bit_and-zero (omega arith)
and_below (suc k) q r h =
    let half : (q * 2 ^ suc k + r) / 2 ≡ q * 2 ^ k + r / 2 = omega (arith, double_shift q k) in
    let mask : (2 ^ suc k - 1) / 2 ≡ 2 ^ k - 1 = omega (arith, pow-suc 2 k) in
    omega (
      arith,
      pow-suc 2 k,
      one-le-pow k 2,
      double_shift q k,
      bit_and-halves (q * 2 ^ suc k + r) (2 ^ suc k - 1),
      ap₂ bit_and half mask,
      and_below k q (r / 2) (omega (arith, pow-suc 2 k)),
    )

-- A mask of `k` low bits leaves the remainder.
pub bit_and-low : (k x : ℕ) → bit_and x (2 ^ k - 1) ≡ x % 2 ^ k
bit_and-low k x =
    let e : x ≡ x / 2 ^ k * 2 ^ k + x % 2 ^ k = omega (arith, div-add-mod x (2 ^ k)) in
    ap (λ (t : ℕ). bit_and t (2 ^ k - 1)) e
    ∙ and_below k (x / 2 ^ k) (x % 2 ^ k) (grind (arith, one-le-pow k 2))
