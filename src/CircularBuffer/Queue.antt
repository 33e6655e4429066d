-- ===== src/CircularBuffer/Queue.antt =====
-- What a client of the ring may call, in order, and the queue that it is meant to be.
use socket_cplus_plus.Prelude.{ℕ, ◌≡◌, List, [], ◌∷◌, ◌++◌, Bool, length, drop, ◌==◌, if◌then◌else◌}
use socket_cplus_plus.CircularBuffer.{CircularBuffer, put, get, reset, size, is_empty, is_full}
use socket_cplus_plus.CircularBuffer.Window.{span, length-span}

-- What a client may call.
pub data Op (A : Type 0) : Type 0 where
  puts : A → Op A
  gets resets sizes empties fulls : Op A

pub data Reply (A : Type 0) : Type 0 where
  nothing : Reply A
  item : A → Reply A
  count : ℕ → Reply A
  flag : Bool → Reply A

module _ {A : Type 0} (blank : A) (cap : ℕ) where
  abbrev pub queue_put : List A → A → List A
  queue_put q x = (if length q == cap then drop 1 q else q) ++ (x ∷ [])

  abbrev pub queue_get : List A → A × List A
  queue_get [] = (blank, [])
  queue_get (x ∷ q) = (x, q)

  unfoldable pub queue_run : List A → List (Op A) → List (Reply A)
  queue_run q [] = []
  queue_run q (puts x ∷ ops) = nothing ∷ queue_run (queue_put q x) ops
  queue_run q (gets ∷ ops) = let (x, q') = queue_get q in item x ∷ queue_run q' ops
  queue_run q (resets ∷ ops) = nothing ∷ queue_run [] ops
  queue_run q (sizes ∷ ops) = count (length q) ∷ queue_run q ops
  queue_run q (empties ∷ ops) = flag (length q == 0) ∷ queue_run q ops
  queue_run q (fulls ∷ ops) = flag (length q == cap) ∷ queue_run q ops

module _ {A : Type 0} (blank : A) (moved : A → A) where
  unfoldable pub run : CircularBuffer A → List (Op A) → List (Reply A)
  run b [] = []
  run b (puts x ∷ ops) = nothing ∷ run (put blank moved b x) ops
  run b (gets ∷ ops) = let (x, b') = get blank moved b in item x ∷ run b' ops
  run b (resets ∷ ops) = nothing ∷ run (reset blank moved b) ops
  run b (sizes ∷ ops) = count (size blank moved b) ∷ run b ops
  run b (empties ∷ ops) = flag (is_empty blank moved b) ∷ run b ops
  run b (fulls ∷ ops) = flag (is_full blank moved b) ∷ run b ops

  -- The items that are stored, oldest first.
  unfoldable pub contents : CircularBuffer A → List A
  contents b = span blank b.max_size b.buf b.tail (size blank moved b)

  pub length-contents : (b : CircularBuffer A) → length (contents b) ≡ size blank moved b
  unfolding contents
  length-contents b = length-span blank b.max_size b.buf b.tail (size blank moved b)
