-- ===== src/ServerLog/Stamps.antt =====
-- Which lines of a run of messages carry the time.
use socket_cplus_plus.Prelude.{
  ℕ, ◌+◌, ◌≤◌, ◌≡◌, refl, sym, ap, ◌∙◌, inl, inr, Bool, true, false, ◌&&◌, ◌||◌, Option, none, some,
  List, [], ◌∷◌, ◌++◌, All, not, length, take, drop, length-drop, append-nil, append_assoc, ltb,
  ◌==◌, if◌then◌else◌, Bool-cases, arith,
}
use socket_cplus_plus.Serialize.Strings.{NoZero}
use socket_cplus_plus.BoundedStrings.Buffers.{c_string-ended, NoZero-take}
use socket_cplus_plus.Utils.{Text}
use socket_cplus_plus.ServerLog.{
  log_temp_buffer_size, Log, write_line, is_separator, time_text, print_line, log_to_file, file_log,
  log_message,
}

-- A message as LogMessage gets it, with the time of the call and what its buffer starts with.
pub record Message : Type 0 where
  pub priority : ℕ
  pub text : Text
  pub time : ℕ
  pub stack : List ℕ

-- The text has no zero, and the buffer its size.
abbrev pub IsProper : Message → Type 0
IsProper m = NoZero m.text × (length m.stack ≡ log_temp_buffer_size)

-- What fits the buffer.
abbrev pub cut : Message → Text
cut m = take 510 m.text

-- '-', '*', '=' or '+'
abbrev pub is_mark : ℕ → Bool
is_mark c = c == 45 || (c == 42 || (c == 61 || c == 43))

-- " - [", the date and "]"
abbrev pub stamp : Text → Text
stamp date = 32 ∷ 45 ∷ 32 ∷ 91 ∷ (date ++ (93 ∷ []))

abbrev pub begins_as_separator : Text → Bool
begins_as_separator (a ∷ b ∷ text) = a == b && is_mark a
begins_as_separator _ = false

abbrev pub later_than_all : ℕ → List ℕ → Bool
later_than_all t [] = true
later_than_all t (s ∷ seen) = ltb s t && later_than_all t seen

some_if :
    {A : Type 0} (x y : A) (b : Bool) → (if b then some x else some y) ≡ some (if b then x else y)
some_if x y true = refl
some_if x y false = refl

write_line_open :
    (text : Text) (l : Log)
    → l.is_open ≡ true
    → write_line text l ≡ record l { lines = l.lines ++ (text ∷ []) }
unfolding write_line
write_line_open text l e = ap (λ b. if b then record l { lines = l.lines ++ (text ∷ []) } else l) e

-- The newest of the times so far is what the log keeps.
abbrev pub Newest : ℕ → List ℕ → Type 0
Newest last seen = (t : ℕ) → later_than_all t seen ≡ ltb last t

later-Newest :
    (last time : ℕ) (seen : List ℕ)
    → ltb last time ≡ true
    → Newest last seen
    → Newest time (time ∷ seen)
later-Newest last time seen later newest t = ground (arith, newest t)

earlier-Newest :
    (last time : ℕ) (seen : List ℕ)
    → ltb last time ≡ false
    → Newest last seen
    → Newest last (time ∷ seen)
earlier-Newest last time seen early newest t = ground (arith, newest t)

module _ (format : Text → Text → Text → ℕ → Text) (date : ℕ → Text) where
  pub log_messages : List Message → Log → Option Log
  log_messages [] l = some l
  log_messages (m ∷ ms) l = elim (log_message format date m.priority m.text m.time m.stack l) [
    | none ↦ none
    | some after ↦ log_messages ms after
  ]

  -- `seen` are the times of the messages so far.
  abbrev pub expected : Text → List ℕ → List Message → List Text
  expected name seen [] = []
  expected name seen (m ∷ ms) =
      if begins_as_separator (cut m)
      then cut m ∷ expected name seen ms
      else format name (cut m) (if later_than_all m.time seen then stamp (date m.time) else [])
          m.priority
        ∷ expected name (m.time ∷ seen) ms

  log_to_file_text :
      (priority current_time : ℕ) (text : Text) (rest : List ℕ) (l : Log)
      → NoZero text
      → 1 ≤ length rest + length text
      → log_to_file format date priority (text ++ (0 ∷ rest)) current_time l
        ≡ some (
            if begins_as_separator text
            then write_line text l
            else print_line format date priority text current_time l)
  unfolding log_to_file is_separator NoZero
  log_to_file_text priority current_time [] [] l z h = absurd (omega arith)
  log_to_file_text priority current_time [] (b ∷ rest) l z h =
      rw (log_to_file, c_string-ended [] (b ∷ rest) tt) (ground arith)
  log_to_file_text priority current_time (a ∷ []) rest l z h =
      rw (log_to_file, c_string-ended (a ∷ []) rest z) (ground arith)
  log_to_file_text priority current_time (a ∷ b ∷ text) rest l z h =
      rw (log_to_file, c_string-ended (a ∷ b ∷ text) rest z) (some_if _ _ (a == b && is_mark a))

  pub log_message_lem :
      (m : Message) (l : Log)
      → l.is_open ≡ true
      → IsProper m
      → log_message format date m.priority m.text m.time m.stack l
        ≡ some (
            if begins_as_separator (cut m)
            then write_line (cut m) l
            else print_line format date m.priority (cut m) m.time l)
  unfolding log_message file_log
  log_message_lem m l e (z, whole) =
      let rest = drop (length (cut m) + 1) m.stack in
      ap
        (λ b.
          if not b
          then some l
          else log_to_file format date m.priority (cut m ++ (0 ∷ rest)) m.time l)
        e
      ∙ log_to_file_text m.priority m.time (cut m) rest l (NoZero-take 510 m.text z)
          (omega (arith, whole, length-drop (length (cut m) + 1) m.stack))

  -- What a run of messages makes of the log.
  abbrev pub Logs : List Message → Log → List Text → Type 0
  Logs ms l more =
      (after : Log) × (log_messages ms l ≡ some after) × (after.lines ≡ l.lines ++ more)

  abbrev on_with : List Message → Option Log → Option Log
  on_with ms none = none
  on_with ms (some l) = log_messages ms l

  one_more :
      (m : Message) (ms : List Message) (l : Log) (last : ℕ) (line : Text) (more : List Text)
      → log_message format date m.priority m.text m.time m.stack l
        ≡ some (record l { last_time_logged = last; lines = l.lines ++ (line ∷ []) })
      → Logs ms (record l { last_time_logged = last; lines = l.lines ++ (line ∷ []) }) more
      → Logs (m ∷ ms) l (line ∷ more)
  unfolding log_messages
  one_more m ms l last line more logged (after, ran, same) =
      (after, ap (on_with ms) logged ∙ ran, same ∙ append_assoc l.lines (line ∷ []) more)

  pub messages_lem :
      (ms : List Message) (seen : List ℕ) (l : Log)
      → l.is_open ≡ true
      → All IsProper ms
      → Newest l.last_time_logged seen
      → (after : Log) × (log_messages ms l ≡ some after)
        × (after.lines ≡ l.lines ++ expected l.logging_filter_name seen ms)
  unfolding log_messages print_line time_text
  messages_lem [] seen l e proper newest = (l, refl, sym (append-nil l.lines))
  messages_lem (m ∷ ms) seen l e (first, proper) newest =
      let logged = log_message_lem m l e first in
      let name = l.logging_filter_name in
      elim (Bool-cases (begins_as_separator (cut m))) [
        | inl separates ↦ rw separates (
            one_more m ms l l.last_time_logged (cut m) (expected name seen ms)
              (logged ∙ rw separates (ap some (write_line_open (cut m) l e)))
              (messages_lem ms seen (record l { lines = l.lines ++ (cut m ∷ []) }) e proper newest))
        | inr prints ↦ elim (Bool-cases (ltb l.last_time_logged m.time)) [
          | inl later ↦
              let line = format name (cut m) (stamp (date m.time)) m.priority in
              rw (prints, newest m.time, later)
                (one_more m ms l m.time line (expected name (m.time ∷ seen) ms)
                  (logged
                    ∙ rw (prints, print_line, later)
                        (ap some (write_line_open line (record l { last_time_logged = m.time }) e)))
                  (messages_lem ms (m.time ∷ seen)
                    (record l { last_time_logged = m.time; lines = l.lines ++ (line ∷ []) }) e
                    proper (later-Newest l.last_time_logged m.time seen later newest)))
          | inr early ↦
              let line = format name (cut m) [] m.priority in
              rw (prints, newest m.time, early)
                (one_more m ms l l.last_time_logged line (expected name (m.time ∷ seen) ms)
                  (logged ∙ rw (prints, print_line, early) (ap some (write_line_open line l e)))
                  (messages_lem ms (m.time ∷ seen) (record l { lines = l.lines ++ (line ∷ []) }) e
                    proper (earlier-Newest l.last_time_logged m.time seen early newest)))
        ]
      ]

  pub closed_messages :
      (ms : List Message) (l : Log) → l.is_open ≡ false → log_messages ms l ≡ some l
  unfolding log_messages log_message file_log
  closed_messages [] l shut = refl
  closed_messages (m ∷ ms) l shut =
      let rest = drop (length (cut m) + 1) m.stack in
      ap
        (λ b. on_with ms (
          if not b
          then some l
          else log_to_file format date m.priority (cut m ++ (0 ∷ rest)) m.time l))
        shut
      ∙ closed_messages ms l shut
