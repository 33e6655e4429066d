-- ===== src/TcpClient/Reading.antt =====
-- The read actor, handle_read, over the bytes of a stream that arrive in any portions.
use socket_cplus_plus.Prelude.{
  ℕ, zero, suc, ◌+◌, ◌-◌, ◌≡◌, refl, sym, ap, ◌∙◌, inl, inr, false, Option, none, some, List, [],
  ◌∷◌, ◌++◌, append-nil, append_assoc, length, take, drop, replicate, ◌==◌, if◌then◌else◌,
  Bool-cases, Option-cases, none_ne_some, arith,
}
use socket_cplus_plus.TcpClient.{reading, TcpClient, start_read, print_line, handle_read}

abbrev pub newline : ℕ
newline = 10

-- The number of bytes up to the first newline, that one included.
unfoldable pub line_end : List ℕ → Option ℕ
line_end [] = none
line_end (b ∷ bytes) =
    let rest : Option ℕ = elim (line_end bytes) [ none ↦ none | some n ↦ some (suc n) ] in
    if b == newline then some 1 else rest

-- A read that the library completes without an error: the time, the bytes that have arrived since the
-- last one, and the number that it reports.
abbrev pub Completion : Type 0
Completion = ℕ × List ℕ × ℕ

pub complete_reads : List Completion → TcpClient → TcpClient
complete_reads [] c = c
complete_reads ((now, chunk, n) ∷ rest) c =
    complete_reads rest
      (handle_read now false n (record c { input_buffer = c.input_buffer ++ chunk }))

-- What async_read_until promises: the reported number of bytes is that of the first line in the
-- buffer.
abbrev pub Promised : List Completion → TcpClient → Type 0
Promised [] c = Unit {0}
Promised ((now, chunk, n) ∷ rest) c =
    (line_end (c.input_buffer ++ chunk) ≡ some n)
    × Promised rest (handle_read now false n (record c { input_buffer = c.input_buffer ++ chunk }))

-- The first line of a text without its newline, and what stands behind that.
pub first_line : List ℕ → Option (List ℕ × List ℕ)
first_line [] = none
first_line (b ∷ bytes) =
    let rest : Option (List ℕ × List ℕ) = elim (first_line bytes) [
      | none ↦ none
      | some (line, behind) ↦ some (b ∷ line, behind)
    ] in
    if b == newline then some ([], bytes) else rest

-- The first `k` lines.
pub first_lines : ℕ → List ℕ → Option (List (List ℕ) × List ℕ)
first_lines zero bytes = some ([], bytes)
first_lines (suc k) bytes = elim (first_line bytes) [
  | none ↦ none
  | some (line, behind) ↦ elim (first_lines k behind) [
    | none ↦ none
    | some (lines, rest) ↦ some (line ∷ lines, rest)
  ]
]

abbrev pub arrived : List Completion → List ℕ
arrived [] = []
arrived ((now, chunk, n) ∷ rest) = chunk ++ arrived rest

abbrev pub non_empty : List (List ℕ) → List (List ℕ)
non_empty [] = []
non_empty ([] ∷ lines) = non_empty lines
non_empty ((b ∷ line) ∷ lines) = (b ∷ line) ∷ non_empty lines

line_end-first_line :
    (bytes : List ℕ) (n : ℕ)
    → line_end bytes ≡ some n
    → (k : ℕ) × (n ≡ suc k) × (first_line bytes ≡ some (take k bytes, drop (suc k) bytes))
unfolding line_end first_line
line_end-first_line [] n e = absurd (none_ne_some e)
line_end-first_line (b ∷ bytes) n e = elim (Bool-cases (b == newline)) [
  | inl stop ↦ (0, ground arith, ground arith)
  | inr on ↦ elim (Option-cases (line_end bytes)) [
    | inl more ↦ absurd (none_ne_some (sym (rw (line_end, on, more)) ∙ e))
    | inr (m, more) ↦
        let (k, size, found) = line_end-first_line bytes m more in
        (suc k, ground (arith, size), rw (first_line, on, found))
  ]
]

first_line-append :
    (bytes more line behind : List ℕ)
    → first_line bytes ≡ some (line, behind)
    → first_line (bytes ++ more) ≡ some (line, behind ++ more)
unfolding first_line
first_line-append [] more line behind e = absurd (none_ne_some e)
first_line-append (b ∷ bytes) more line behind e = elim (Bool-cases (b == newline)) [
  | inl stop ↦ ground arith
  | inr on ↦ elim (Option-cases (first_line bytes)) [
    | inl none_left ↦ absurd (none_ne_some (sym (rw (first_line, on, none_left)) ∙ e))
    | inr ((rest, end), found) ↦
        let ih = first_line-append bytes more rest end found in ground arith
  ]
]

print_line_lem :
    (line : List ℕ) (c : TcpClient)
    → print_line line c ≡ record c { printed = c.printed ++ non_empty (line ∷ []) }
unfolding print_line
print_line_lem [] c = ground (arith, append-nil c.printed)
print_line_lem (b ∷ line) c = refl

-- What one completed read makes of the client.
handle_read_line :
    (now k : ℕ) (c : TcpClient)
    → c.stopped ≡ false
    → handle_read now false (suc k) c ≡ record c {
      input_buffer = drop (suc k) c.input_buffer;
      deadline = some (now + 30);
      pending = c.pending ++ (reading ∷ []);
      printed = c.printed ++ non_empty (take k c.input_buffer ∷ []);
    }
unfolding handle_read start_read
handle_read_line now k c h =
    let less : suc k - 1 ≡ k = omega arith in
    rw (handle_read, h, less, print_line_lem (take k c.input_buffer))

non_empty-append : (xs ys : List (List ℕ)) → non_empty (xs ++ ys) ≡ non_empty xs ++ non_empty ys
non_empty-append [] ys = refl
non_empty-append ([] ∷ xs) ys = non_empty-append xs ys
non_empty-append ((b ∷ line) ∷ xs) ys = ap (◌∷◌ (b ∷ line)) (non_empty-append xs ys)

-- However the stream is cut into portions, a running client that has completed `k` reads has taken
-- the first `k` lines of all that arrived, printed those that are not empty in their order, and has
-- kept the rest in its buffer; each read has started the next.
pub complete_reads_lines :
    (events : List Completion) (c : TcpClient)
    → c.stopped ≡ false
    → Promised events c
    → (lines : List (List ℕ)) × (first_lines (length events) (c.input_buffer ++ arrived events)
        ≡ some (lines, (complete_reads events c).input_buffer))
      × ((complete_reads events c).printed ≡ c.printed ++ non_empty lines)
      × ((complete_reads events c).pending ≡ c.pending ++ replicate (length events) reading)
      × ((complete_reads events c).stopped ≡ false)
unfolding complete_reads first_lines
complete_reads_lines [] c h p = (
  [],
  ap (λ t. some ([], t)) (append-nil c.input_buffer),
  sym (append-nil c.printed),
  sym (append-nil c.pending),
  h,
)
complete_reads_lines ((now, chunk, n) ∷ rest) c h (p, later) =
    let c' = record c { input_buffer = c.input_buffer ++ chunk } in
    let (k, size, found) = line_end-first_line c'.input_buffer n p in
    let line = take k c'.input_buffer in
    let next = ap (λ m. handle_read now false m c') size ∙ handle_read_line now k c' h in
    let (lines, cut, shown, ops, on) =
      complete_reads_lines rest (handle_read now false n c') (ap (λ t. t.stopped) next ∙ h) later in
    let left =
      sym (ap (λ t. first_lines (length rest) (t.input_buffer ++ arrived rest)) next) ∙ cut in
    (
      line ∷ lines,
      rw (
        first_lines,
        ← append_assoc c.input_buffer chunk (arrived rest),
        first_line-append c'.input_buffer (arrived rest) line (drop (suc k) c'.input_buffer) found,
        left,
      ),
      shown
          ∙ ap (λ t. t.printed ++ non_empty lines) next
          ∙ append_assoc c.printed (non_empty (line ∷ [])) (non_empty lines)
          ∙ ap (◌++◌ c.printed) (sym (non_empty-append (line ∷ []) lines)),
      ops
          ∙ ap (λ t. t.pending ++ replicate (length rest) reading) next
          ∙ append_assoc c.pending (reading ∷ []) (replicate (length rest) reading),
      on,
    )
