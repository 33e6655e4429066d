-- ===== src/CircularBuffer/Invariant.antt =====
-- The representation invariant of the ring, kept by every method.
use socket_cplus_plus.Prelude.{
  ℕ, ◌≤◌, ◌<◌, ◌≡◌, refl, true, length, length-set, get_or, length-replicate, arith,
}
use socket_cplus_plus.CircularBuffer.{CircularBuffer, create, put, get, reset, size}

pub record IsValid {A : Type 0} (b : CircularBuffer A) : Type 0 where
  pub storage : length b.buf ≡ b.max_size
  pub head_in : b.head < b.max_size
  pub tail_in : b.tail < b.max_size
  pub full_meets : b.full ≡ true → b.head ≡ b.tail

module _ {A : Type 0} (blank : A) (moved : A → A) where
  pub create-IsValid : (n : ℕ) → 0 < n → IsValid (create blank moved n)
  unfolding create
  create-IsValid n h = record {
    storage = length-replicate n blank;
    head_in = h;
    tail_in = h;
    full_meets = λ e. cc;
  }

  pub put-IsValid : (b : CircularBuffer A) (x : A) → IsValid b → IsValid (put blank moved b x)
  unfolding put
  put-IsValid b x v = ground (arith, length-set b.buf b.head x)

  pub get-IsValid : (b : CircularBuffer A) → IsValid b → IsValid (get blank moved b).1
  unfolding get
  get-IsValid b v = ground (arith, length-set b.buf b.tail (moved (get_or b.buf b.tail blank)))

  pub reset-IsValid : (b : CircularBuffer A) → IsValid b → IsValid (reset blank moved b)
  unfolding reset
  reset-IsValid b v = ground arith

  pub size-le : (b : CircularBuffer A) → IsValid b → size blank moved b ≤ b.max_size
  unfolding size
  size-le b v = ground arith

  pub max_size-create : (n : ℕ) → (create blank moved n).max_size ≡ n
  unfolding create
  max_size-create n = refl
