-- ===== src/Wire/Reads.antt =====
-- Readers by what they read, and the round trip of a writer and a reader of the same bytes.
use Prim.Native.Nat.{◌-◌}
use socket_cplus_plus.Prelude.{
  ℕ, ◌+◌, ◌<◌, ◌≡◌, sym, ap, ap₂, ◌∙◌, List, [], ◌++◌, none, some, arith, le→leb, lt→leb, length,
  length-append, take-append_length, drop-append_length, append_assoc,
}
use socket_cplus_plus.Wire.{Cursor, Out, In, emit, fetch, ◌>>=◌, pure}
use socket_cplus_plus.Wire.Laws.{emit-Wrote}

-- At any place where `bs` stands the reader returns `a` and moves past `bs`.
abbrev pub Reads : {A : Type 0} → In A → List ℕ → A → Type 0
Reads m bs a =
    (pre post : List ℕ) → m (pre ++ (bs ++ post)) (length pre) ≡ some (a, length pre + length bs)

pub fetch-Reads : (n : ℕ) (bs : List ℕ) → n ≡ length bs → Reads (fetch n) bs bs
unfolding fetch
fetch-Reads n bs e pre post = rw (
  e,
  le→leb (length pre + length bs) (length (pre ++ (bs ++ post)))
      (omega (arith, length-append pre (bs ++ post), length-append bs post)),
  drop-append_length pre (bs ++ post),
  take-append_length bs post,
)

pub fetch-short :
    (n : ℕ) (bytes : List ℕ) (offset : ℕ) → length bytes < offset + n → fetch n bytes offset ≡ none
unfolding fetch
fetch-short n bytes offset h = rw (lt→leb (offset + n) (length bytes) h)

pub pure-Reads : {A : Type 0} (a : A) → Reads (pure a) [] a
pure-Reads a pre post = ap (λ n. some (a, n)) (omega arith)

pub >>=-Reads :
    {A B : Type 0} (m : In A) (f : A → In B) (xs ys : List ℕ) (a : A) (b : B)
    → Reads m xs a
    → Reads (f a) ys b
    → Reads (m >>= f) (xs ++ ys) b
>>=-Reads m f xs ys a b first rest pre post =
    let total : length pre + length (xs ++ ys) ≡ length (pre ++ xs) + length ys =
      omega (arith, length-append xs ys, length-append pre xs) in
    let later : f a (pre ++ (xs ++ (ys ++ post))) (length pre + length xs)
        ≡ some (b, length (pre ++ xs) + length ys) =
      rw (← append_assoc pre xs (ys ++ post), ← length-append pre xs) (rest (pre ++ xs) post) in
    ap (λ t. (m >>= f) (pre ++ t) (length pre)) (append_assoc xs ys post)
    ∙ rw (first pre (ys ++ post), ◌>>=◌, total) later

-- The same, some bytes further on.
pub Reads-at :
    {A : Type 0} (m : In A) (bs : List ℕ) (a : A)
    → Reads m bs a
    → (pre xs post : List ℕ)
    → m (pre ++ (xs ++ (bs ++ post))) (length pre + length xs)
      ≡ some (a, length pre + (length xs + length bs))
Reads-at m bs a r pre xs post =
    let next : length pre + (length xs + length bs) ≡ length pre + length xs + length bs =
      omega arith in
    rw (next, ← append_assoc pre xs (bs ++ post), ← length-append pre xs) (r (pre ++ xs) post)

-- What a writer wrote, a reader of those bytes reads back, and both move the offset alike.
pub read_back :
    {A : Type 0} (w : Out) (m : In A) (bs : List ℕ) (a : A) {c d : Cursor}
    → w ≡ emit bs
    → Reads m bs a
    → w c ≡ some d
    → m d.bytes c.offset ≡ some (a, d.offset)
read_back w m bs a {c} {d} writes reads done =
    let e = emit-Wrote bs c d (ap (λ f. f c) (sym writes) ∙ done) in
    ap₂ m (ap (λ t. t.bytes) e.target) (ap (λ t. t.offset) e.source)
    ∙ reads e.before e.behind
    ∙ ap (λ n. some (a, n)) (sym (ap (λ t. t.offset) e.target))

-- A reader that wants only the first part of what was written stops short of the writer.
pub read_prefix :
    {A : Type 0} (w : Out) (m : In A) (xs ys : List ℕ) (a : A) {c d : Cursor}
    → w ≡ emit (xs ++ ys)
    → Reads m xs a
    → w c ≡ some d
    → m d.bytes c.offset ≡ some (a, d.offset - length ys)
read_prefix w m xs ys a {c} {d} writes reads done =
    let e = emit-Wrote (xs ++ ys) c d (ap (λ f. f c) (sym writes) ∙ done) in
    let stop : length e.before + length xs ≡ d.offset - length ys =
      omega (arith, ap (λ t. t.offset) e.target, length-append xs ys) in
    ap₂ m (ap (λ t. t.bytes) e.target ∙ ap (◌++◌ e.before) (append_assoc xs ys e.behind))
      (ap (λ t. t.offset) e.source)
    ∙ reads e.before (ys ++ e.behind)
    ∙ ap (λ n. some (a, n)) stop
