-- ===== src/BoundedStrings/Bounded/Laws.antt =====
-- BoundedLengthString: copies, the wire between strings of any two sizes, and what comes from it.
use socket_cplus_plus.Prelude.{
  ℕ, zero, suc, ◌+◌, ◌-◌, ◌%◌, ◌^◌, ◌≤◌, ◌<◌, ◌≡◌, refl, sym, ap, subst, ◌∙◌, inl, inr, true, false,
  some, List, [], ◌∷◌, ◌++◌, append_assoc, append-nil, length, take, drop, set, length-append,
  length-take, length-drop, take-append-drop, ltb, ◌==◌, if◌then◌else◌, Bool-cases, arith,
}
use socket_cplus_plus.Wire.{Cursor, emit, ◌>>◌, pure}
use socket_cplus_plus.Wire.Append.{emit-append}
use socket_cplus_plus.Wire.Reads.{Reads, pure-Reads, >>=-Reads, read_prefix}
use socket_cplus_plus.Serialize.{c_string, out_u16, in_u16, done}
use socket_cplus_plus.Serialize.Host.{ByteOrder, be_bytes}
use socket_cplus_plus.Serialize.Words.{fetched-Reads, u16-writes, u16-Reads}
use socket_cplus_plus.Serialize.Strings.{NoZero, >>-done}
use socket_cplus_plus.BoundedStrings.{strcpy}
use socket_cplus_plus.BoundedStrings.Buffers.{
  IsTerminated, c_string-ended, c_string-NoZero_any, take_all, NoZero-take, ended-IsTerminated,
  set-append_length,
}
use socket_cplus_plus.BoundedStrings.Bounded.{
  BoundedLengthString, copy, clear, cut_length, read_characters, serialize_in, serialize_out,
}

-- The text ends within the array, and the length is the text's.
pub record IsValid (n : ℕ) (s : BoundedLengthString) : Type 0 where
  pub terminated : IsTerminated n s.buffer
  pub counted : s.m_length ≡ length (c_string s.buffer)

take-c_string : (buffer : List ℕ) → take (length (c_string buffer)) buffer ≡ c_string buffer
unfolding c_string
take-c_string [] = refl
take-c_string (c ∷ buffer) = elim (Bool-cases (c == 0)) [
  | inl end ↦ rw end
  | inr on ↦ rw on (ap (◌∷◌ c) (take-c_string buffer))
]

-- A text of `k` characters or fewer put in front of an array and ended.
put_in_front :
    (n : ℕ) (text buffer : List ℕ)
    → NoZero text
    → length text ≤ n
    → length buffer ≡ n + 1
    → c_string (set (text ++ drop (length text) buffer) (length text) 0) ≡ text
put_in_front n text buffer z h room =
    last (drop (length text) buffer) (omega (arith, length-drop (length text) buffer))
  where
    last : (rest : List ℕ) → 0 < length rest → c_string (set (text ++ rest) (length text) 0) ≡ text
    last [] one = absurd (omega arith)
    last (y ∷ rest) one = ap c_string (set-append_length text rest y 0) ∙ c_string-ended text rest z

module _ (n : ℕ) where
  put-IsValid :
      (text buffer : List ℕ)
      → NoZero text
      → length text ≤ n
      → length buffer ≡ n + 1
      → IsValid n (record {
        buffer = set (text ++ drop (length text) buffer) (length text) 0;
        m_length = length text;
      })
  put-IsValid text buffer z h room = record {
    terminated = ended-IsTerminated n (length text) text buffer refl h room;
    counted = sym (ap length (put_in_front n text buffer z h room));
  }

  -- A copy of a text into a string with its array holds the text, cut to the string's length, is valid,
  -- and counts the characters that it holds.
  pub copy_lem :
      (str : List ℕ) (s : BoundedLengthString)
      → NoZero str
      → length s.buffer ≡ n + 1
      → (c_string (copy n (some str) s).buffer ≡ take n str) × IsValid n (copy n (some str) s)
  unfolding copy strcpy
  copy_lem str s z room = elim (Bool-cases (ltb n (length str))) [
    | inl long ↦
        let kept = take n str in
        let size : length kept ≡ n = length-take n str (ground arith) in
        let made : copy n (some str) s ≡ record {
          buffer = set (kept ++ drop (length kept) s.buffer) (length kept) 0;
          m_length = length kept;
        } =
          rw (copy, long, size) in
        let zero_free = NoZero-take n str z in
        (
          ap (λ t. c_string t.buffer) made
              ∙ put_in_front n kept s.buffer zero_free (omega (arith, size)) room,
          subst (IsValid n) (sym made)
              (put-IsValid kept s.buffer zero_free (omega (arith, size)) room),
        )
    | inr short ↦
        let few : length str ≤ n = ground arith in
        let rest = drop (suc (length str)) s.buffer in
        let made : copy n (some str) s
            ≡ record { buffer = str ++ (0 ∷ rest); m_length = length str } =
          rw (copy, short, set-append_length str rest 0 0) in
        let holds = c_string-ended str rest z in
        (
          ap (λ t. c_string t.buffer) made ∙ holds ∙ sym (take_all n str few),
          subst (IsValid n) (sym made) (record {
            terminated = record {
              room =
                  omega
                    (arith, length-append str (0 ∷ rest), length-drop (suc (length str)) s.buffer);
              short = omega (arith, ap length holds);
            };
            counted = sym (ap length holds);
          }),
        )
  ]

-- What a reader into a string of `k` characters makes of a text.
abbrev pub taken_into : ℕ → List ℕ → BoundedLengthString → BoundedLengthString
taken_into k text t = record {
  buffer = set (take k text ++ drop (length (take k text)) t.buffer) (length (take k text)) 0;
  m_length = length (take k text);
}

-- Only characters that are there are written.
emit_if_any :
    (size text : List ℕ)
    → (emit size >> (if ltb 0 (length text) then emit text else done)) ≡ emit (size ++ text)
emit_if_any size [] = >>-done (emit size) ∙ ap emit (sym (append-nil size))
emit_if_any size (x ∷ text) =
    let any : ltb 0 (length (x ∷ text)) ≡ true = ground arith in
    rw any (emit-append size (x ∷ text))

length-take_cut : (k : ℕ) (text : List ℕ) → length (take k text) ≡ cut_length k (length text)
unfolding cut_length
length-take_cut k text = elim (Bool-cases (ltb k (length text))) [
  | inl long ↦ rw long (length-take k text (ground arith))
  | inr short ↦ rw short (ap length (take_all k text (ground arith)))
]

take_nil : (k : ℕ) (text : List ℕ) → text ≡ [] → take k text ≡ []
take_nil zero text e = refl
take_nil (suc k) text e = rw e refl

take_few : (k : ℕ) (text : List ℕ) → length (take k text) ≤ k
take_few zero text = omega arith
take_few (suc k) [] = omega arith
take_few (suc k) (x ∷ text) = omega (arith, take_few k text)

module _ ⦃net : ByteOrder⦄ where
  serialize_out-writes :
      (n : ℕ) (s : BoundedLengthString)
      → IsValid n s
      → n < 2 ^ 16
      → serialize_out n s ≡ emit (be_bytes 2 (length (c_string s.buffer)) ++ c_string s.buffer)
  unfolding serialize_out
  serialize_out-writes n s v small =
      let text = c_string s.buffer in
      let fits : length text < 2 ^ 16 = omega (arith, v.terminated.short) in
      let same : length text % 2 ^ 16 ≡ length text = omega arith in
      ap (λ m. out_u16 (m % 2 ^ 16) >> (if ltb 0 m then emit (take m s.buffer) else done)) v.counted
      ∙ rw (same, take-c_string s.buffer, u16-writes (length text) fits)
          (emit_if_any (be_bytes 2 (length text)) text)

  read_characters-Reads :
      (k : ℕ) (text : List ℕ) (t : BoundedLengthString)
      → Reads (read_characters k (length text) t) (take k text) (taken_into k text t)
  unfolding read_characters
  read_characters-Reads k text t = rw (← length-take_cut k text) (
      fetched-Reads (length (take k text))
        (λ characters. record {
          buffer =
              set (characters ++ drop (length (take k text)) t.buffer) (length (take k text)) 0;
          m_length = length (take k text);
        })
        (take k text) (taken_into k text t) refl refl)

  serialize_in-Reads :
      (k : ℕ) (text : List ℕ) (t : BoundedLengthString)
      → length text < 2 ^ 16
      → Reads (serialize_in k t) (be_bytes 2 (length text) ++ take k text) (taken_into k text t)
  unfolding serialize_in clear
  serialize_in-Reads k [] t fits = rw (take_nil k [] refl) (
      >>=-Reads in_u16 (λ size. if size == 0 then pure (clear k t) else read_characters k size t)
        (be_bytes 2 0) [] 0 (clear k t) (u16-Reads 0 (omega arith)) (pure-Reads (clear k t)))
  serialize_in-Reads k (x ∷ text) t fits =
      let some_left : (length (x ∷ text) == 0) ≡ false = ground arith in
      >>=-Reads in_u16 (λ size. if size == 0 then pure (clear k t) else read_characters k size t)
        (be_bytes 2 (length (x ∷ text))) (take k (x ∷ text)) (length (x ∷ text))
        (taken_into k (x ∷ text) t) (u16-Reads (length (x ∷ text)) fits)
        (rw some_left (read_characters-Reads k (x ∷ text) t))

  -- A valid string of a size below 2 ^ 16 that is written and read into a string of another size gives
  -- a valid string with the text cut to that size. The reader's offset stays behind the writer's by as much as was cut.
  pub bounded_in-bounded_out :
      (n k : ℕ) (s t : BoundedLengthString) (c d : Cursor)
      → IsValid n s
      → n < 2 ^ 16
      → length t.buffer ≡ k + 1
      → serialize_out n s c ≡ some d
      → (r : BoundedLengthString) × (serialize_in k t d.bytes c.offset
          ≡ some (r, d.offset - (length (c_string s.buffer) - k)))
        × (c_string r.buffer ≡ take k (c_string s.buffer))
        × IsValid k r
  bounded_in-bounded_out n k s t c d v small room sent =
      let text = c_string s.buffer in
      let size = be_bytes 2 (length text) in
      let kept = take k text in
      let zero_free = NoZero-take k text (c_string-NoZero_any s.buffer) in
      let few : length kept ≤ k = take_few k text in
      let parts : size ++ text ≡ (size ++ kept) ++ drop k text =
        ap (◌++◌ size) (sym (take-append-drop k text))
        ∙ sym (append_assoc size kept (drop k text)) in
      (
        taken_into k text t,
        rw (← length-drop k text) (
            read_prefix (serialize_out n s) (serialize_in k t) (size ++ kept) (drop k text)
              (taken_into k text t) (serialize_out-writes n s v small ∙ ap emit parts)
              (serialize_in-Reads k text t (omega (arith, v.terminated.short))) sent),
        put_in_front k kept t.buffer zero_free few room,
        put-IsValid k kept t.buffer zero_free few room,
      )
