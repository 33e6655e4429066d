-- ===== src/CircularBuffer.antt =====
-- UDP01/OldCode/General/CircularBuffer.h: circular_buffer<T>, a ring that overwrites its oldest item
-- when it is full. Each method is taken as one step, a function of the state: put, get and reset
-- hold a lock guard, the others do not.
pub mod Invariant
pub mod Window
pub mod Queue
pub mod Refine
pub mod Examples
use socket_cplus_plus.Prelude.{
  ℕ, ◌+◌, ◌-◌, ◌%◌, List, replicate, Bool, true, false, not, ◌&&◌, ◌==◌, leb, if◌then◌else◌, get_or,
  set,
}

pub record CircularBuffer (A : Type 0) : Type 0 where
  pub buf : List A
  pub max_size : ℕ
  pub head : ℕ
  pub tail : ℕ
  pub full : Bool

-- `blank` is T(), and `moved` what `std::move` leaves of an item. `size_t` does not wrap here: an
-- index stays below `max_size`, and `max_size + head` below twice that.
module _ {A : Type 0} (blank : A) (moved : A → A) where
  -- circular_buffer(size_t size)
  unfoldable pub create : ℕ → CircularBuffer A
  create size = record {
    buf = replicate size blank;
    max_size = size;
    head = 0;
    tail = 0;
    full = false;
  }

  unfoldable pub put : CircularBuffer A → A → CircularBuffer A
  put b item =
      let tail' = if b.full then (b.tail + 1) % b.max_size else b.tail in
      let head' = (b.head + 1) % b.max_size in
      record b { buf = set b.buf b.head item; head = head'; tail = tail'; full = head' == tail' }

  unfoldable pub is_empty : CircularBuffer A → Bool
  is_empty b = not b.full && b.head == b.tail

  unfoldable pub get : CircularBuffer A → A × CircularBuffer A
  unfolding is_empty
  get b = if is_empty b then (blank, b) else (
    get_or b.buf b.tail blank,
    record b {
      buf = set b.buf b.tail (moved (get_or b.buf b.tail blank));
      full = false;
      tail = (b.tail + 1) % b.max_size;
    },
  )

  pub reset : CircularBuffer A → CircularBuffer A
  reset b = record b { head = b.tail; full = false }

  pub is_full : CircularBuffer A → Bool
  is_full b = b.full

  pub capacity : CircularBuffer A → ℕ
  capacity b = b.max_size

  unfoldable pub size : CircularBuffer A → ℕ
  size b =
      if b.full
      then b.max_size
      else if leb b.tail b.head
      then b.head - b.tail
      else b.max_size + b.head - b.tail
