-- ===== src/CommonTypes/Erasing.antt =====
-- Removing by index: what the vectors check, and what copying makes.
use socket_cplus_plus.Prelude.{
  ℕ, zero, suc, ◌^◌, ◌<◌, ◌≡◌, refl, sym, ap, ◌∙◌, true, false, none, some, List, [], ◌∷◌, ◌++◌,
  length, take, drop, ltb, leb, if◌then◌else◌, append-nil, append_assoc, arith,
}
use socket_cplus_plus.CommonTypes.{
  Text, push_all, vector_copy, remove_at, remove, erase, push_rows, copy_rows, DynamicDataBucket,
}

module _ {A : Type 0} where
  push_all_lem : (dest source : List A) → push_all dest source ≡ dest ++ source
  unfolding push_all
  push_all_lem dest [] = sym (append-nil dest)
  push_all_lem dest (x ∷ source) =
      push_all_lem (dest ++ (x ∷ [])) source ∙ append_assoc dest (x ∷ []) source

  -- The copy is the source, whatever the destination held.
  pub vector_copy_lem : (dest source : List A) → vector_copy dest source ≡ source
  unfolding vector_copy
  vector_copy_lem dest source = push_all_lem [] source

  remove_at-take : (i : ℕ) (m : List A) → remove_at i m ≡ take i m ++ drop (suc i) m
  unfolding remove_at
  remove_at-take zero [] = refl
  remove_at-take (suc i) [] = refl
  remove_at-take zero (x ∷ m) = refl
  remove_at-take (suc i) (x ∷ m) = ap (◌∷◌ x) (remove_at-take i m)

  -- SerializedVector::remove takes the element of an index in range out and answers true, and leaves
  -- the vector alone otherwise.
  pub remove_lem :
      (m : List A) (index : ℕ)
      → remove m index
        ≡ (if ltb index (length m) then (true, take index m ++ drop (suc index) m) else (false, m))
  unfolding remove
  remove_lem m index = ground (arith, remove_at-take index m)

  -- erase refuses a negative index, takes out the element of an index in range, and erases past the
  -- end for any other.
  pub erase_lem :
      (m : List A) (index : ℕ)
      → length m < 2 ^ 63
      → erase m index ≡ (
          if leb (2 ^ 31) index
          then some (false, m)
          else if ltb index (length m)
          then some (true, take index m ++ drop (suc index) m)
          else none)
  unfolding erase
  erase_lem m index fits = ground (arith, remove_at-take index m)

push_rows_lem : (bucket rows : List (List Text)) → push_rows bucket rows ≡ bucket ++ rows
unfolding push_rows
push_rows_lem bucket [] = sym (append-nil bucket)
push_rows_lem bucket (row ∷ rows) =
    push_rows_lem (bucket ++ (push_all [] row ∷ [])) rows
    ∙ append_assoc bucket (push_all [] row ∷ []) rows
    ∙ ap (λ r. bucket ++ (r ∷ rows)) (push_all_lem [] row)

-- Assigning to a bucket makes it hold the assigned rows, whatever it held before.
pub copy_rows_lem :
    (b : DynamicDataBucket) (rows : List (List Text)) → (copy_rows b rows).bucket ≡ rows
unfolding copy_rows
copy_rows_lem b rows = push_rows_lem [] rows
