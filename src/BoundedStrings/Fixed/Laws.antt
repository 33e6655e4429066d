-- ===== src/BoundedStrings/Fixed/Laws.antt =====
-- FixedLengthString: copies, the wire, and what comes from it.
use socket_cplus_plus.Prelude.{
  ℕ, suc, ◌+◌, ◌-◌, ◌≤◌, ◌≡◌, sym, ap, subst, fun_ext, ◌∙◌, inl, inr, Bool, false, not, some, List,
  [], ◌∷◌, ◌++◌, length, take, drop, set, length-append, length-take, length-drop,
  drop-append_length, ltb, Bool-cases, Option-cases, none_ne_some, some_inj, arith,
}
use socket_cplus_plus.Wire.{Cursor, emit}
use socket_cplus_plus.Wire.Reads.{Reads, read_back}
use socket_cplus_plus.Serialize.{c_string}
use socket_cplus_plus.Serialize.Strings.{NoZero}
use socket_cplus_plus.BoundedStrings.{strncpy, strcpy}
use socket_cplus_plus.BoundedStrings.Buffers.{
  IsTerminated, padded, c_string-ended, c_string-NoZero_any, take_all, NoZero-take, ended,
  length-padded, strncpy-c_string, strncpy-padded, same_text_refl, c_string-padded, length-strncpy,
  ended-IsTerminated,
}
use socket_cplus_plus.BoundedStrings.Fixed.{
  FixedLengthString, copy, is_equal, serialize_in, serialize_out,
}

module _ (n : ℕ) where
  -- A copy of a text into a string with its array holds the text, cut to the string's length, and its
  -- zero stays in the array.
  pub copy_lem :
      (str : List ℕ) (s : FixedLengthString)
      → NoZero str
      → length s.buffer ≡ n + 1
      → (c_string (copy n (some str) s).buffer ≡ take n str)
        × IsTerminated n (copy n (some str) s).buffer
  unfolding copy strcpy
  copy_lem str s z room = elim (Bool-cases (ltb n (length str))) [
    | inl long ↦
        let first : length (take n str) ≡ n = length-take n str (ground arith) in
        let all = ended n (take n str) s.buffer first room in
        let holds : c_string (take n str ++ (0 ∷ [])) ≡ take n str =
          c_string-ended (take n str) [] (NoZero-take n str z) in
        rw (long, all)
          (
            holds,
            record {
              room = omega (arith, first, length-append (take n str) (0 ∷ []));
              short = omega (arith, first, ap length holds);
            },
          )
    | inr short ↦
        let few : length str ≤ n = ground arith in
        let rest = drop (suc (length str)) s.buffer in
        let holds = c_string-ended str rest z in
        rw (short, take_all n str few)
          (
            holds,
            record {
              room =
                  omega
                    (arith, length-append str (0 ∷ rest), length-drop (suc (length str)) s.buffer);
              short = omega (arith, ap length holds);
            },
          )
  ]

  -- A string that was copied from a text compares as equal to it exactly when the text was not cut.
  pub is_equal-copy :
      (caseless : List ℕ → List ℕ → Bool) (str : List ℕ) (s : FixedLengthString)
      → NoZero str
      → length s.buffer ≡ n + 1
      → is_equal n caseless (some str) false (copy n (some str) s) ≡ not (ltb n (length str))
  unfolding is_equal
  is_equal-copy caseless str s z room = elim (Bool-cases (ltb n (length str))) [
    | inl long ↦ rw long
    | inr short ↦
        let holds = (copy_lem str s z room).0 ∙ take_all n str (ground arith) in
        rw (short, holds) (same_text_refl str)
  ]

  abbrev pub wire : FixedLengthString → List ℕ
  wire s = padded n (c_string s.buffer)

  serialize_out-writes :
      (s : FixedLengthString) → IsTerminated n s.buffer → serialize_out n s ≡ emit (wire s)
  unfolding serialize_out
  serialize_out-writes s v =
      fun_ext λ c. rw (serialize_out, strncpy-c_string n s.buffer (omega (arith, v.room)) v.short)

  serialize_in-Reads :
      (s t : FixedLengthString)
      → IsTerminated n s.buffer
      → length t.buffer ≡ n + 1
      → Reads (serialize_in n t) (wire s) (record { buffer = wire s ++ (0 ∷ []) })
  unfolding serialize_in
  serialize_in-Reads s t v room pre post =
      let text = c_string s.buffer in
      let size = length-padded n text v.short in
      rw (
        serialize_in,
        drop-append_length pre (wire s ++ post),
        strncpy-padded n text post (c_string-NoZero_any s.buffer) v.short,
        ended n (wire s) t.buffer size room,
        size,
      )

  -- A string that ends within its array, written and read back into any other of its size, gives a
  -- string with the same text, and both move the offset alike.
  pub fixed_in-fixed_out :
      (s t : FixedLengthString) (c d : Cursor)
      → IsTerminated n s.buffer
      → length t.buffer ≡ n + 1
      → serialize_out n s c ≡ some d
      → (r : FixedLengthString) × (serialize_in n t d.bytes c.offset ≡ some (r, d.offset))
        × (c_string r.buffer ≡ c_string s.buffer)
  fixed_in-fixed_out s t c d v room done = (
    record { buffer = wire s ++ (0 ∷ []) },
    read_back (serialize_out n s) (serialize_in n t) (wire s)
        (record { buffer = wire s ++ (0 ∷ []) }) (serialize_out-writes s v)
        (serialize_in-Reads s t v room) done,
    c_string-padded (n - length (c_string s.buffer)) (c_string s.buffer)
        (c_string-NoZero_any s.buffer),
  )

  -- Whatever bytes come, the string that is read ends within its array.
  pub serialize_in-IsTerminated :
      (s t : FixedLengthString) (bytes : List ℕ) (offset next : ℕ)
      → length s.buffer ≡ n + 1
      → serialize_in n s bytes offset ≡ some (t, next)
      → IsTerminated n t.buffer × (next ≡ offset + n)
  unfolding serialize_in
  serialize_in-IsTerminated s t bytes offset next room e =
      elim (Option-cases (strncpy n (drop offset bytes))) [
        | inl failed ↦ absurd (none_ne_some (sym (rw (serialize_in, failed)) ∙ e))
        | inr (copied, copies) ↦
            let made : serialize_in n s bytes offset
                ≡ some (record { buffer = set (copied ++ drop n s.buffer) n 0 }, offset + n) =
              rw (serialize_in, copies) in
            let same = some_inj (sym made ∙ e) in
            (
              subst (λ (r : FixedLengthString). IsTerminated n r.buffer) (ap (λ r. r.0) same)
                  (ended-IsTerminated n n copied s.buffer
                    (length-strncpy n (drop offset bytes) copied copies) (omega arith) room),
              sym (ap (λ r. r.1) same),
            )
      ]
