-- ===== src/Serialize/Strings.antt =====
-- Arrays and strings: what they write, what is read back, and what a string over the reader's
-- buffer does to the offset.
use socket_cplus_plus.Prelude.{
  subst, ℕ, ◌-◌, ◌%◌, ◌^◌, ◌≤◌, ◌<◌, ◌≡◌, refl, sym, ap, fun_ext, ◌∙◌, ◌≢◌, List, [], ◌∷◌, ◌++◌,
  false, some, arith, if◌then◌else◌, ltb, ◌==◌, length, take, drop, All, append_assoc, length-take,
  length-drop, take-append-drop,
}
use socket_cplus_plus.Wire.{Out, Cursor, emit, ◌>>◌, pure}
use socket_cplus_plus.Wire.Append.{emit-append}
use socket_cplus_plus.Wire.Reads.{Reads, pure-Reads, >>=-Reads, read_back, read_prefix}
use socket_cplus_plus.Serialize.Host.{ByteOrder, be_bytes}
use socket_cplus_plus.Serialize.{
  out_u16, in_u16, out_string, in_string, in_text, c_string, done, max_string,
}
use socket_cplus_plus.Serialize.Words.{fetched-Reads, u16-writes, u16-Reads}

pub >>-done : (w : Out) → (w >> done) ≡ w
>>-done w = fun_ext λ c. ground arith

unfoldable pub NoZero : List ℕ → Type 0
NoZero s = All (λ c. c ≢ 0) s

pub c_string-NoZero : (s : List ℕ) → NoZero s → c_string s ≡ s
unfolding c_string NoZero
c_string-NoZero [] h = refl
c_string-NoZero (c ∷ cs) h = ground (arith, c_string-NoZero cs h.1)

take_all : {A : Type 0} (s : List A) → take (length s) s ≡ s
take_all [] = refl
take_all (x ∷ s) = ap (◌∷◌ x) (take_all s)

in_text-Reads : (s : List ℕ) → length s < max_string → Reads (in_text (length s)) s (c_string s)
unfolding in_text
in_text-Reads s h =
    fetched-Reads (if ltb (max_string - 1) (length s) then max_string - 1 else length s) c_string s
      (c_string s) (ground arith) refl

in_text-overlong :
    (len : ℕ) (s : List ℕ)
    → max_string ≤ len
    → length s ≡ max_string - 1
    → Reads (in_text len) s (c_string s)
unfolding in_text
in_text-overlong len s h e =
    fetched-Reads (if ltb (max_string - 1) len then max_string - 1 else len) c_string s (c_string s)
      (ground arith) refl

module _ ⦃net : ByteOrder⦄ where
  -- A string on the wire: its length in two bytes, and its characters.
  abbrev pub string_wire : List ℕ → List ℕ
  string_wire s = be_bytes 2 (length s) ++ s

  pub string-writes : (s : List ℕ) → length s < 2 ^ 16 → out_string s ≡ emit (string_wire s)
  unfolding out_string
  string-writes [] h = >>-done (out_u16 0) ∙ u16-writes 0 h
  string-writes (x ∷ s) h =
      let value : List ℕ = x ∷ s in
      let fits : length value % 2 ^ 16 ≡ length value = omega arith in
      let some_left : (length value == 0) ≡ false = ground arith in
      ap (λ len. out_u16 len >> (if len == 0 then done else emit (take len value))) fits
      ∙ rw (some_left, take_all value)
          (ap (λ w. w >> emit value) (u16-writes (length value) h)
            ∙ emit-append (be_bytes 2 (length value)) value)

  text-Reads :
      (len : ℕ) (s : List ℕ) (t : List ℕ)
      → 0 < len
      → len < 2 ^ 16
      → Reads (in_text len) s t
      → Reads in_string (be_bytes 2 len ++ s) t
  unfolding in_string
  text-Reads len s t h fits r =
      let some_left : (len == 0) ≡ false = ground arith in
      >>=-Reads in_u16 (λ n. if n == 0 then pure [] else in_text n) (be_bytes 2 len) s len t
        (u16-Reads len fits) (rw some_left r)

  pub string-Reads :
      (s : List ℕ) → length s < max_string → NoZero s → Reads in_string (string_wire s) s
  unfolding in_string
  string-Reads [] h z =
      >>=-Reads in_u16 (λ n. if n == 0 then pure [] else in_text n) (be_bytes 2 0) [] 0 []
        (u16-Reads 0 (omega arith)) (pure-Reads [])
  string-Reads (x ∷ s) h z =
      text-Reads (length (x ∷ s)) (x ∷ s) (x ∷ s) (omega arith) (omega arith) (
        subst (Reads (in_text (length (x ∷ s))) (x ∷ s)) (c_string-NoZero (x ∷ s) z)
          (in_text-Reads (x ∷ s) h))

  -- A string of at most 3071 characters, none of them zero, is read back as it was written, and the
  -- reader stops where the writer stopped.
  pub in_string-out_string :
      (s : List ℕ) (c d : Cursor)
      → length s < max_string
      → NoZero s
      → out_string s c ≡ some d
      → in_string d.bytes c.offset ≡ some (s, d.offset)
  in_string-out_string s c d h z e =
      read_back (out_string s) in_string (string_wire s) s (string-writes s (omega arith))
        (string-Reads s h z) e

  -- Of a longer string the reader takes the first 3071 characters and stops behind them, so all that
  -- the writer wrote after them is left for the next reader.
  pub in_string-overlong :
      (s : List ℕ) (c d : Cursor)
      → max_string ≤ length s
      → length s < 2 ^ 16
      → out_string s c ≡ some d
      → in_string d.bytes c.offset
        ≡ some (c_string (take (max_string - 1) s), d.offset - (length s - (max_string - 1)))
  in_string-overlong s c d long fits e =
      let kept = take (max_string - 1) s in
      let rest = drop (max_string - 1) s in
      let size : length kept ≡ max_string - 1 = length-take (max_string - 1) s (omega arith) in
      let parts : string_wire s ≡ (be_bytes 2 (length s) ++ kept) ++ rest =
        ap (◌++◌ (be_bytes 2 (length s))) (sym (take-append-drop (max_string - 1) s))
        ∙ sym (append_assoc (be_bytes 2 (length s)) kept rest) in
      let left : length rest ≡ length s - (max_string - 1) = length-drop (max_string - 1) s in
      rw (← left) (
        read_prefix (out_string s) in_string (be_bytes 2 (length s) ++ kept) rest (c_string kept)
          (string-writes s fits ∙ ap emit parts)
          (text-Reads (length s) kept (c_string kept) (omega arith) fits
            (in_text-overlong (length s) kept long size))
          e)
