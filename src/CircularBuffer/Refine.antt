-- ===== src/CircularBuffer/Refine.antt =====
-- The ring against its contract: a queue of at most `capacity` items, oldest first, which drops its
-- oldest item to take a new one when it is full.
use socket_cplus_plus.Prelude.{
  ℕ, suc, ◌+◌, ◌-◌, ◌%◌, ◌≤◌, ◌<◌, ◌≡◌, refl, sym, ap, ap₂, ◌∙◌, inl, inr, List, [], ◌∷◌, ◌++◌,
  true, false, length, replicate, get_or, set, drop, ◌==◌, Bool-cases, arith,
}
use socket_cplus_plus.CircularBuffer.{
  CircularBuffer, create, put, get, reset, size, is_empty, is_full,
}
use socket_cplus_plus.CircularBuffer.Invariant.{IsValid, put-IsValid, get-IsValid, reset-IsValid}
use socket_cplus_plus.CircularBuffer.Queue.{
  Op, puts, gets, resets, sizes, empties, fulls, queue_put, queue_get, queue_run, run, contents,
  length-contents,
}
use socket_cplus_plus.CircularBuffer.Window.{
  mod_round, span, span-beyond, span-snoc, span-first, whole_round,
}

module _ {A : Type 0} (blank : A) (moved : A → A) where
  -- Where a put writes while there is room, and what it makes of the size.
  room_left :
      (b : CircularBuffer A) (x : A)
      → IsValid b
      → b.full ≡ false
      → (b.head ≡ (b.tail + size blank moved b) % b.max_size)
        × (size blank moved b < b.max_size)
        × (size blank moved (put blank moved b x) ≡ suc (size blank moved b))
        × ((put blank moved b x).tail ≡ b.tail)
  unfolding size put
  room_left b x v e = ground (
    arith,
    mod_round (b.tail + (b.head - b.tail)) b.max_size,
    mod_round (b.tail + (b.max_size + b.head - b.tail)) b.max_size,
    mod_round (b.head + 1) b.max_size,
  )

  none_left :
      (b : CircularBuffer A) (x : A)
      → IsValid b
      → b.full ≡ true
      → (size blank moved b ≡ b.max_size)
        × (size blank moved (put blank moved b x) ≡ b.max_size)
        × ((put blank moved b x).tail ≡ (b.tail + 1) % b.max_size)
  unfolding size put
  none_left b x v e = ground arith

  put_room :
      (b : CircularBuffer A) (x : A)
      → IsValid b
      → b.full ≡ false
      → contents blank moved (put blank moved b x)
        ≡ queue_put blank b.max_size (contents blank moved b) x
  unfolding contents put
  put_room b x v e =
      let (at, room, grown, same) = room_left b x v e in
      let untouched : (length (contents blank moved b) == b.max_size) ≡ false =
        ground (arith, length-contents blank moved b) in
      ap₂ (λ t n. span blank b.max_size (set b.buf b.head x) t n) same grown
      ∙ span-snoc blank b.max_size b.buf x (size blank moved b) b.tail b.head v.storage v.tail_in
          room at
      ∙ rw untouched

  put_over :
      (b : CircularBuffer A) (x : A)
      → IsValid b
      → b.full ≡ true
      → contents blank moved (put blank moved b x)
        ≡ queue_put blank b.max_size (contents blank moved b) x
  unfolding contents put
  put_over b x v e =
      let m = b.max_size in
      let next = (b.tail + 1) % m in
      let (whole, grown, moves) = none_left b x v e in
      let all_but_one : m ≡ suc (m - 1) = omega arith in
      let at : b.head ≡ (next + (m - 1)) % m =
        v.full_meets e ∙ sym (whole_round b.tail m v.tail_in) in
      let next_in : next < m = ground (arith, mod_round (b.tail + 1) m) in
      let at_capacity : (length (contents blank moved b) == m) ≡ true =
        ground (arith, length-contents blank moved b, whole) in
      let dropped : drop 1 (contents blank moved b) ≡ span blank m b.buf next (m - 1) =
        ap (λ n. drop 1 (span blank m b.buf b.tail n)) whole
        ∙ ap (drop 1) (span-first blank m b.buf b.tail m (omega arith)) in
      ap₂ (λ t n. span blank m (set b.buf b.head x) t n) moves grown
      ∙ ap (span blank m (set b.buf b.head x) next) all_but_one
      ∙ span-snoc blank m b.buf x (m - 1) next b.head v.storage next_in (omega arith) at
      ∙ sym (rw at_capacity (ap (λ q. q ++ (x ∷ [])) dropped))

  -- `put` appends its item, and drops the oldest one first if the ring is full.
  pub put_refines :
      (b : CircularBuffer A) (x : A)
      → IsValid b
      → contents blank moved (put blank moved b x)
        ≡ queue_put blank b.max_size (contents blank moved b) x
  put_refines b x v = elim (Bool-cases b.full) [
    | inl e ↦ put_over b x v e
    | inr e ↦ put_room b x v e
  ]

  emptied :
      (b : CircularBuffer A)
      → is_empty blank moved b ≡ true
      → (get blank moved b ≡ (blank, b)) × (size blank moved b ≡ 0)
  unfolding get is_empty size
  emptied b e = (rw e, ground arith)

  -- The ring behind a `get` that found an item.
  abbrev drained : CircularBuffer A → CircularBuffer A
  drained b = record b {
    buf = set b.buf b.tail (moved (get_or b.buf b.tail blank));
    full = false;
    tail = (b.tail + 1) % b.max_size;
  }

  taken :
      (b : CircularBuffer A)
      → is_empty blank moved b ≡ false
      → get blank moved b ≡ (get_or b.buf b.tail blank, drained b)
  unfolding get
  taken b e = rw e

  shrunk :
      (b : CircularBuffer A)
      → IsValid b
      → is_empty blank moved b ≡ false
      → (0 < size blank moved b)
        × (size blank moved b ≤ b.max_size)
        × (size blank moved (drained b) ≡ size blank moved b - 1)
  unfolding is_empty size
  shrunk b v e = ground (arith, mod_round (b.tail + 1) b.max_size)

  contents-drained :
      (b : CircularBuffer A)
      → IsValid b
      → is_empty blank moved b ≡ false
      → contents blank moved b ≡ get_or b.buf b.tail blank ∷ contents blank moved (drained b)
  unfolding contents
  contents-drained b v e =
      let m = b.max_size in
      let next = (b.tail + 1) % m in
      let (some_left, bound, less) = shrunk b v e in
      let next_in : next < m = ground (arith, mod_round (b.tail + 1) m) in
      let kept =
        span-beyond blank m b.buf b.tail (moved (get_or b.buf b.tail blank))
          (size blank moved b - 1) next (m - 1) next_in (omega arith) (omega arith)
          (sym (whole_round b.tail m v.tail_in)) in
      span-first blank m b.buf b.tail (size blank moved b) some_left
      ∙ ap (◌∷◌ (get_or b.buf b.tail blank)) (
          sym kept
          ∙ ap (span blank m (set b.buf b.tail (moved (get_or b.buf b.tail blank))) next)
              (sym less))

  -- `get` takes the oldest item off, and answers T() if there is none.
  pub get_refines :
      (b : CircularBuffer A)
      → IsValid b
      → let (x, b') = get blank moved b in
        (x, contents blank moved b') ≡ queue_get blank b.max_size (contents blank moved b)
  get_refines b v = elim (Bool-cases (is_empty blank moved b)) [
    | inl e ↦
        let (stays, zero_size) = emptied b e in
        let bare : contents blank moved b ≡ [] =
          unfold contents in ap (span blank b.max_size b.buf b.tail) zero_size in
        ap (λ r. (r.0, contents blank moved r.1)) stays ∙ rw bare
    | inr e ↦ ap (λ r. (r.0, contents blank moved r.1)) (taken b e) ∙ rw (contents-drained b v e)
  ]

  pub reset_refines : (b : CircularBuffer A) → contents blank moved (reset blank moved b) ≡ []
  unfolding contents reset size
  reset_refines b =
      let zero_size : size blank moved (reset blank moved b) ≡ 0 = ground arith in
      ap (span blank b.max_size b.buf b.tail) zero_size

  pub contents-create : (n : ℕ) → contents blank moved (create blank moved n) ≡ []
  unfolding contents create size
  contents-create n =
      let zero_size : size blank moved (create blank moved n) ≡ 0 = ground arith in
      ap (span blank n (replicate n blank) 0) zero_size

  status :
      (b : CircularBuffer A)
      → IsValid b
      → (is_empty blank moved b ≡ (size blank moved b == 0))
        × (is_full blank moved b ≡ (size blank moved b == b.max_size))
  unfolding is_empty is_full size
  status b v = ground arith

  pub capacity_stays :
      (b : CircularBuffer A) (x : A)
      → ((put blank moved b x).max_size ≡ b.max_size)
        × ((get blank moved b).1.max_size ≡ b.max_size)
        × ((reset blank moved b).max_size ≡ b.max_size)
  unfolding put get reset
  capacity_stays b x = ground arith

  -- No sequence of calls tells a valid ring from the queue of its contents, bounded by its capacity.
  pub run_refines :
      (ops : List (Op A)) (b : CircularBuffer A)
      → IsValid b
      → run blank moved b ops ≡ queue_run blank b.max_size (contents blank moved b) ops
  unfolding run queue_run
  run_refines [] b v = refl
  run_refines (puts x ∷ ops) b v = rw (
    run_refines ops (put blank moved b x) (put-IsValid blank moved b x v),
    put_refines b x v,
    (capacity_stays b x).0,
  )
  run_refines (gets ∷ ops) b v = rw (
    run_refines ops (get blank moved b).1 (get-IsValid blank moved b v),
    ← get_refines b v,
    (capacity_stays b blank).1,
  )
  run_refines (resets ∷ ops) b v = rw (
    run_refines ops (reset blank moved b) (reset-IsValid blank moved b v),
    reset_refines b,
    (capacity_stays b blank).2,
  )
  run_refines (sizes ∷ ops) b v = rw (run_refines ops b v, length-contents blank moved b)
  run_refines (empties ∷ ops) b v =
      rw (run_refines ops b v, length-contents blank moved b, (status b v).0)
  run_refines (fulls ∷ ops) b v =
      rw (run_refines ops b v, length-contents blank moved b, (status b v).1)
