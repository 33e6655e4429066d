-- ===== src/Wire/Advance.antt =====
-- Readers that never move the offset back.
use socket_cplus_plus.Prelude.{
  ℕ, ◌+◌, ◌≤◌, ◌≡◌, sym, ◌∙◌, inl, inr, List, some, Option-cases, none_ne_some, length, take, drop,
  le→leb, arith,
}
use socket_cplus_plus.Wire.{In, fetch, ◌>>=◌, pure}

abbrev pub Advances : {A : Type 0} → In A → Type 0
Advances {A} m =
    (bytes : List ℕ) (offset : ℕ) (a : A) (next : ℕ)
    → m bytes offset ≡ some (a, next)
    → offset ≤ next

pub fetch-Advances : (n : ℕ) → Advances (fetch n)
unfolding fetch
fetch-Advances n bytes offset a next e = ground arith

pub fetch_extent :
    (n : ℕ) (bytes : List ℕ) (offset : ℕ) (a : List ℕ) (next : ℕ)
    → fetch n bytes offset ≡ some (a, next)
    → next ≡ offset + n
unfolding fetch
fetch_extent n bytes offset a next e = ground arith

pub pure-Advances : {A : Type 0} (a : A) → Advances (pure a)
pure-Advances a bytes offset b next e = ground arith

pub >>=-Advances :
    {A B : Type 0} (m : In A) (f : A → In B)
    → Advances m
    → ((a : A) → Advances (f a))
    → Advances (m >>= f)
>>=-Advances m f first rest bytes offset b next e = elim (Option-cases (m bytes offset)) [
  | inl failed ↦ absurd (none_ne_some (sym (rw (failed, ◌>>=◌)) ∙ e))
  | inr ((a, middle), ran) ↦
      let after : (m >>= f) bytes offset ≡ f a bytes middle = rw (ran, ◌>>=◌) in
      let start = first bytes offset a middle ran in
      let end = rest a bytes middle b next (sym after ∙ e) in omega (arith, start, end)
]

pub fetch_total :
    (n : ℕ) (bytes : List ℕ) (offset : ℕ)
    → offset + n ≤ length bytes
    → fetch n bytes offset ≡ some (take n (drop offset bytes), offset + n)
unfolding fetch
fetch_total n bytes offset room = rw (le→leb (offset + n) (length bytes) room)
