-- ===== src/Wire/Append.antt =====
-- Writers one after the other: side by side, and into a place that was left free.
use socket_cplus_plus.Prelude.{
  ℕ, ◌+◌, ◌≤◌, ◌<◌, ◌≡◌, sym, ap, fun_ext, ◌∙◌, inl, inr, List, ◌++◌, some, arith, Option-cases,
  length, take, drop, length-append, length-take, length-drop, take-append-drop, append_assoc,
}
use native.Mathlib.Decide.{dec_le}
use socket_cplus_plus.Wire.{Cursor, emit, ◌>>◌}
use socket_cplus_plus.Wire.Laws.{emit-shape, cut, at-Cut, emit-short, emit-extent}

-- A write over `old`, some bytes behind `pre`.
pub emit_after :
    (pre xs old ys post : List ℕ)
    → length old ≡ length ys
    → emit ys (record { bytes = pre ++ (xs ++ (old ++ post)); offset = length pre + length xs })
      ≡ some (record {
        bytes = pre ++ (xs ++ (ys ++ post));
        offset = length pre + length xs + length ys;
      })
emit_after pre xs old ys post e =
    rw
      (
        ← append_assoc pre xs (old ++ post),
        ← append_assoc pre xs (ys ++ post),
        ← length-append pre xs,
      )
      (emit-shape (pre ++ xs) old ys post e)

module _ (pre o1 o2 post xs ys : List ℕ) (e1 : length o1 ≡ length xs)
    (e2 : length o2 ≡ length ys) where
  one_write :
      emit (xs ++ ys) (record { bytes = pre ++ (o1 ++ (o2 ++ post)); offset = length pre })
      ≡ some (record {
        bytes = pre ++ (xs ++ (ys ++ post));
        offset = length pre + length xs + length ys;
      })
  one_write =
      let e : length (o1 ++ o2) ≡ length (xs ++ ys) =
        omega (arith, length-append o1 o2, length-append xs ys) in
      let sum : length pre + length xs + length ys ≡ length pre + length (xs ++ ys) =
        omega (arith, length-append xs ys) in
      rw (← append_assoc o1 o2 post, ← append_assoc xs ys post, sum)
        (emit-shape pre (o1 ++ o2) (xs ++ ys) post e)

  two_writes :
      (emit xs >> emit ys) (record { bytes = pre ++ (o1 ++ (o2 ++ post)); offset = length pre })
      ≡ emit (xs ++ ys) (record { bytes = pre ++ (o1 ++ (o2 ++ post)); offset = length pre })
  two_writes =
      rw (one_write, emit-shape pre o1 xs (o2 ++ post) e1, ◌>>◌) (emit_after pre xs o2 ys post e2)

writes_fit :
    (xs ys : List ℕ) (c : Cursor)
    → c.offset + length (xs ++ ys) ≤ length c.bytes
    → (emit xs >> emit ys) c ≡ emit (xs ++ ys) c
writes_fit xs ys c h =
    let k = cut c.bytes c.offset (length (xs ++ ys)) h in
    let o1 = take (length xs) k.over in
    let o2 = drop (length xs) k.over in
    let parts : k.over ++ k.behind ≡ o1 ++ (o2 ++ k.behind) =
      ap (λ t. t ++ k.behind) (sym (take-append-drop (length xs) k.over))
      ∙ append_assoc o1 o2 k.behind in
    let here : c
        ≡ record { bytes = k.before ++ (o1 ++ (o2 ++ k.behind)); offset = length k.before } =
      at-Cut c (length (xs ++ ys)) k
      ∙ ap (λ t. record { bytes = k.before ++ t; offset = length k.before }) parts in
    rw here (
      two_writes k.before o1 o2 k.behind xs ys
        (length-take (length xs) k.over (omega (arith, k.room, length-append xs ys)))
        (omega (arith, k.room, length-append xs ys, length-drop (length xs) k.over)))

writes_short :
    (xs ys : List ℕ) (c : Cursor)
    → length c.bytes < c.offset + length (xs ++ ys)
    → (emit xs >> emit ys) c ≡ emit (xs ++ ys) c
writes_short xs ys c h = elim (Option-cases (emit xs c)) [
  | inl e ↦ rw (e, emit-short (xs ++ ys) c h, ◌>>◌)
  | inr (d, e) ↦
      let (next, same) = emit-extent xs c d e in
      rw (e, emit-short (xs ++ ys) c h, ◌>>◌) (emit-short ys d (omega (arith, length-append xs ys)))
]

pub emit-append : (xs ys : List ℕ) → (emit xs >> emit ys) ≡ emit (xs ++ ys)
emit-append xs ys = fun_ext λ c. elim (dec_le (c.offset + length (xs ++ ys)) (length c.bytes)) [
  | yes fits ↦ writes_fit xs ys c fits
  | no short ↦ writes_short xs ys c (omega arith)
]
