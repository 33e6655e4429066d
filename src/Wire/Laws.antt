-- ===== src/Wire/Laws.antt =====
-- Writers by what they write and readers by what they read, both put together by append.
use socket_cplus_plus.Prelude.{
  ℕ, suc, ◌+◌, ◌≤◌, ◌<◌, ◌≡◌, sym, ap, ◌∙◌, inl, inr, List, [], ◌∷◌, ◌++◌, none, some, arith,
  le→leb, lt→leb, Option-cases, some_inj, none_ne_some, length, take, drop, length-append,
  length-take, length-drop, take-append-drop, take-append_length, drop-append_length,
}
use socket_cplus_plus.Wire.{Cursor, emit}

drop_two :
    {A : Type 0} (pre old post : List A) (n : ℕ)
    → length old ≡ n
    → drop (length pre + n) (pre ++ (old ++ post)) ≡ post
drop_two [] old post n e =
    let here : 0 + n ≡ length old = omega arith in rw here (drop-append_length old post)
drop_two (x ∷ pre) old post n e =
    let next : suc (length pre) + n ≡ suc (length pre + n) = omega arith in
    rw next (drop_two pre old post n e)

pub emit-shape :
    (pre old bs post : List ℕ)
    → length old ≡ length bs
    → emit bs (record { bytes = pre ++ (old ++ post); offset = length pre })
      ≡ some (record { bytes = pre ++ (bs ++ post); offset = length pre + length bs })
unfolding emit
emit-shape pre old bs post e = rw (
  le→leb (length pre + length bs) (length (pre ++ (old ++ post))) fits,
  take-append_length pre (old ++ post),
  drop_two pre old post (length bs) e,
)
  where
    fits : length pre + length bs ≤ length (pre ++ (old ++ post))
    fits = omega (arith, length-append pre (old ++ post), length-append old post)

-- What stands behind a cursor with room for `n` bytes.
pub record Cut (bytes : List ℕ) (offset n : ℕ) : Type 0 where
  pub before : List ℕ
  pub over : List ℕ
  pub behind : List ℕ
  pub whole : bytes ≡ before ++ (over ++ behind)
  pub start : length before ≡ offset
  pub room : length over ≡ n

pub cut : (bytes : List ℕ) (offset n : ℕ) → offset + n ≤ length bytes → Cut bytes offset n
cut bytes offset n h = record {
  before = take offset bytes;
  over = take n (drop offset bytes);
  behind = drop n (drop offset bytes);
  whole = sym (
      ap (◌++◌ (take offset bytes)) (take-append-drop n (drop offset bytes))
      ∙ take-append-drop offset bytes);
  start = length-take offset bytes (omega arith);
  room = length-take n (drop offset bytes) (omega (arith, length-drop offset bytes));
}

pub emit-short :
    (bs : List ℕ) (c : Cursor) → length c.bytes < c.offset + length bs → emit bs c ≡ none
unfolding emit
emit-short bs c h = rw (lt→leb (c.offset + length bs) (length c.bytes) h)

-- A write that succeeds splits the buffer; only the bytes at the offset change.
pub record Wrote (bs : List ℕ) (c d : Cursor) : Type 0 where
  pub before : List ℕ
  pub over : List ℕ
  pub behind : List ℕ
  pub source : c ≡ record { bytes = before ++ (over ++ behind); offset = length before }
  pub target : d ≡ record { bytes = before ++ (bs ++ behind); offset = length before + length bs }
  pub room : length over ≡ length bs

pub emit-fits :
    (bs : List ℕ) (c d : Cursor) → emit bs c ≡ some d → c.offset + length bs ≤ length c.bytes
unfolding emit
emit-fits bs c d e = ground arith

pub at-Cut :
    (c : Cursor) (n : ℕ) (k : Cut c.bytes c.offset n)
    → c ≡ record { bytes = k.before ++ (k.over ++ k.behind); offset = length k.before }
at-Cut c n k = λ i. record { bytes = k.whole i; offset = sym k.start i }

pub emit-Wrote : (bs : List ℕ) (c d : Cursor) → emit bs c ≡ some d → Wrote bs c d
emit-Wrote bs c d e =
    let k = cut c.bytes c.offset (length bs) (emit-fits bs c d e) in
    record {
      before = k.before;
      over = k.over;
      behind = k.behind;
      source = at-Cut c (length bs) k;
      target = some_inj (
          sym e
          ∙ ap (emit bs) (at-Cut c (length bs) k)
          ∙ emit-shape k.before k.over bs k.behind k.room);
      room = k.room;
    }

pub emit-extent :
    (bs : List ℕ) (c d : Cursor)
    → emit bs c ≡ some d
    → (d.offset ≡ c.offset + length bs) × (length d.bytes ≡ length c.bytes)
emit-extent bs c d e =
    let w = emit-Wrote bs c d e in
    let old = ap (λ t. length t.bytes) w.source in
    let new = ap (λ t. length t.bytes) w.target in
    (
      omega (arith, ap (λ t. t.offset) w.source, ap (λ t. t.offset) w.target),
      omega (
        arith,
        old,
        new,
        w.room,
        length-append w.before (w.over ++ w.behind),
        length-append w.over w.behind,
        length-append w.before (bs ++ w.behind),
        length-append bs w.behind,
      ),
    )

-- Where there is room the write is made.
pub emit-total :
    (bs : List ℕ) (c : Cursor)
    → c.offset + length bs ≤ length c.bytes
    → (d : Cursor) × (emit bs c ≡ some d)
emit-total bs c h = elim (Option-cases (emit bs c)) [
  | inl e ↦ absurd (none_ne_some (sym e ∙ made))
  | inr found ↦ found
]
  where
    k : Cut c.bytes c.offset (length bs)
    k = cut c.bytes c.offset (length bs) h

    made :
        emit bs c
        ≡ some
            (record { bytes = k.before ++ (bs ++ k.behind); offset = length k.before + length bs })
    made = ap (emit bs) (at-Cut c (length bs) k) ∙ emit-shape k.before k.over bs k.behind k.room
