-- ===== src/Serialize/Arrays.antt =====
-- Arrays and containers: one element after the other, in both directions.
use socket_cplus_plus.Prelude.{
  subst, ℕ, ◌≡◌, sym, ap, fun_ext, ◌∙◌, List, [], ◌∷◌, ◌++◌, some, length, All, append-nil,
  append_assoc, arith,
}
use socket_cplus_plus.Wire.{Cursor, Out, In, emit, ◌>>◌, ◌>>=◌, pure}
use socket_cplus_plus.Wire.Append.{emit-append}
use socket_cplus_plus.Wire.Reads.{Reads, pure-Reads, >>=-Reads, read_back}
use socket_cplus_plus.Serialize.{out_array, in_array}
use socket_cplus_plus.Serialize.Strings.{>>-done}

pub >>_assoc : (f g h : Out) → ((f >> g) >> h) ≡ (f >> (g >> h))
>>_assoc f g h = fun_ext λ c. ground arith

-- Reading `n` elements after something else.
pub >>=-pure-Reads :
    {A B : Type 0} (m : In A) (f : A → B) (bs : List ℕ) (a : A)
    → Reads m bs a
    → Reads (do x ← m; pure (f x)) bs (f a)
>>=-pure-Reads m f bs a r =
    subst (λ t. Reads (do x ← m; pure (f x)) t (f a)) (append-nil bs)
      (>>=-Reads m (λ x. pure (f x)) bs [] a (f a) r (pure-Reads (f a)))

module _ {A : Type 0} (out : A → Out) (read : In A) (wire : A → List ℕ) where
  -- What makes an element fit for the wire.
  pub record Sends (v : A) : Type 0 where
    pub writes : out v ≡ emit (wire v)
    pub reads : Reads read (wire v) v

  abbrev pub array_wire : List A → List ℕ
  array_wire [] = []
  array_wire (v ∷ vs) = wire v ++ array_wire vs

  pub array-writes :
      (xs : List ℕ) (vs : List A)
      → All Sends vs
      → (emit xs >> out_array out vs) ≡ emit (xs ++ array_wire vs)
  unfolding out_array
  array-writes xs [] h = >>-done (emit xs) ∙ ap emit (sym (append-nil xs))
  array-writes xs (v ∷ vs) (s, hs) =
      sym (>>_assoc (emit xs) (out v) (out_array out vs))
      ∙ ap (λ w. (emit xs >> w) >> out_array out vs) s.writes
      ∙ ap (λ w. w >> out_array out vs) (emit-append xs (wire v))
      ∙ array-writes (xs ++ wire v) vs hs
      ∙ ap emit (append_assoc xs (wire v) (array_wire vs))

  pub array-Reads :
      (vs : List A) → All Sends vs → Reads (in_array read (length vs)) (array_wire vs) vs
  unfolding in_array
  array-Reads [] h = pure-Reads []
  array-Reads (v ∷ vs) (s, hs) =
      >>=-Reads read (λ x. do xs ← in_array read (length vs); pure (x ∷ xs)) (wire v)
        (array_wire vs) v (v ∷ vs) s.reads
        (>>=-pure-Reads (in_array read (length vs)) (◌∷◌ v) (array_wire vs) vs (array-Reads vs hs))

  -- At least one element: all are written as one.
  pub array_emits :
      (v : A) (vs : List A)
      → All Sends (v ∷ vs)
      → out_array out (v ∷ vs) ≡ emit (array_wire (v ∷ vs))
  unfolding out_array
  array_emits v vs (s, hs) = ap (λ w. w >> out_array out vs) s.writes ∙ array-writes (wire v) vs hs

  -- A fixed array whose elements fit is read back whole, by as many reads as it has elements.
  pub in_array-out_array :
      (v : A) (vs : List A) (c d : Cursor)
      → All Sends (v ∷ vs)
      → out_array out (v ∷ vs) c ≡ some d
      → in_array read (length (v ∷ vs)) d.bytes c.offset ≡ some (v ∷ vs, d.offset)
  in_array-out_array v vs c d h e =
      read_back (out_array out (v ∷ vs)) (in_array read (length (v ∷ vs))) (array_wire (v ∷ vs))
        (v ∷ vs) (array_emits v vs h) (array-Reads (v ∷ vs) h) e
