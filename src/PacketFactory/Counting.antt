-- ===== src/PacketFactory/Counting.antt =====
-- How often a pointer stands in a list, in a ring, and in all pools together.
use socket_cplus_plus.Prelude.{
  ℕ, ◌+◌, ◌≤◌, ◌≡◌, refl, ap, ◌∙◌, none, some, List, [], ◌∷◌, ◌++◌, drop, ◌==◌, ==-refl,
  if◌then◌else◌, arith,
}
use socket_cplus_plus.Prelude.Maps.{find, assign, pair_key}
use socket_cplus_plus.CircularBuffer.{CircularBuffer, put, get}
use socket_cplus_plus.CircularBuffer.Invariant.{IsValid}
use socket_cplus_plus.CircularBuffer.Queue.{contents, queue_put, queue_get}
use socket_cplus_plus.CircularBuffer.Refine.{put_refines, get_refines}
use socket_cplus_plus.PacketFactory.{Pointer, TypePair, moved}

abbrev pub one : Pointer → Pointer → ℕ
one none none = 1
one (some a) (some b) = if a == b then 1 else 0
one _ _ = 0

abbrev pub times : Pointer → List Pointer → ℕ
times p [] = 0
times p (x ∷ xs) = one p x + times p xs

-- What a ring of pointers stores.
abbrev pub stored : CircularBuffer Pointer → List Pointer
stored b = contents none moved b

abbrev pub pooled : Pointer → List (TypePair × CircularBuffer Pointer) → ℕ
pooled p [] = 0
pooled p ((k, b) ∷ pools) = times p (stored b) + pooled p pools

pub one_self : (a : ℕ) → one (some a) (some a) ≡ 1
one_self a = ground (arith, ==-refl a)

pub times-append :
    (p : Pointer) (xs ys : List Pointer) → times p (xs ++ ys) ≡ times p xs + times p ys
times-append p [] ys = omega arith
times-append p (x ∷ xs) ys = omega (arith, times-append p xs ys)

times-drop : (p : Pointer) (xs : List Pointer) → times p (drop 1 xs) ≤ times p xs
times-drop p [] = omega arith
times-drop p (x ∷ xs) = omega arith

times-queue_put :
    (p x : Pointer) (cap : ℕ) (q : List Pointer)
    → times p (queue_put none cap q x) ≤ times p q + one p x
times-queue_put p x cap q =
    ground (arith, times-append p q (x ∷ []), times-append p (drop 1 q) (x ∷ []), times-drop p q)

-- A put adds its pointer, and may drop another.
pub times-put :
    (p x : Pointer) (b : CircularBuffer Pointer)
    → IsValid b
    → times p (stored (put none moved b x)) ≤ times p (stored b) + one p x
times-put p x b v = rw (put_refines none moved b x v) (times-queue_put p x b.max_size (stored b))

times-queue_get :
    (a cap : ℕ) (q : List Pointer)
    → times (some a) (queue_get none cap q).1 + one (some a) (queue_get none cap q).0
      ≡ times (some a) q
times-queue_get a cap [] = refl
times-queue_get a cap (x ∷ q) = omega arith

-- A get takes its pointer off.
pub times-get :
    (a : ℕ) (b : CircularBuffer Pointer)
    → IsValid b
    → times (some a) (stored (get none moved b).1) + one (some a) (get none moved b).0
      ≡ times (some a) (stored b)
times-get a b v =
    ap (λ r. times (some a) r.1 + one (some a) r.0) (get_refines none moved b v)
    ∙ times-queue_get a b.max_size (stored b)

null-queue_get :
    (cap : ℕ) (q : List Pointer) → times none q ≡ 0 → times none (queue_get none cap q).1 ≡ 0
null-queue_get cap [] h = refl
null-queue_get cap (x ∷ q) h = omega arith

pub null-get :
    (b : CircularBuffer Pointer)
    → IsValid b
    → times none (stored b) ≡ 0
    → times none (stored (get none moved b).1) ≡ 0
null-get b v h =
    ap (λ r. times none r.1) (get_refines none moved b v) ∙ null-queue_get b.max_size (stored b) h

-- Exchanging the ring of a key exchanges its share.
pub pooled-assign :
    (p : Pointer) (k : TypePair) (b c : CircularBuffer Pointer)
    (pools : List (TypePair × CircularBuffer Pointer))
    → find k pools ≡ some b
    → pooled p (assign k c pools) + times p (stored b) ≡ pooled p pools + times p (stored c)
pooled-assign p k b c [] e = cc
pooled-assign p k b c ((j, d) ∷ pools) e = ground (arith, pooled-assign p k b c pools)

pub pooled-fresh :
    (p : Pointer) (k : TypePair) (c : CircularBuffer Pointer)
    (pools : List (TypePair × CircularBuffer Pointer))
    → find k pools ≡ none
    → pooled p (assign k c pools) ≡ pooled p pools + times p (stored c)
pooled-fresh p k c [] e = omega arith
pooled-fresh p k c ((j, d) ∷ pools) e = ground (arith, pooled-fresh p k c pools)
