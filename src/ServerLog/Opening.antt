-- ===== src/ServerLog/Opening.antt =====
-- A log that is opened and written to.
use socket_cplus_plus.Prelude.{
  ℕ, ◌<◌, ◌≡◌, refl, sym, ap, ◌∙◌, Bool, true, false, some, List, [], ◌∷◌, ◌++◌, All, append-nil,
  append_assoc, length, replicate, Bool-cases, inl, inr, leb, if◌then◌else◌, arith,
}
use socket_cplus_plus.Utils.{Text}
use socket_cplus_plus.ServerLog.{
  log_temp_buffer_size, Log, write_line, write_lines, banner, create_log_file, file_log_close,
}
use socket_cplus_plus.ServerLog.Stamps.{
  Message, IsProper, expected, Newest, log_messages, messages_lem, closed_messages,
}

write_lines_open :
    (texts : List Text) (l : Log)
    → l.is_open ≡ true
    → write_lines texts l ≡ record l { lines = l.lines ++ texts }
unfolding write_lines write_line
write_lines_open [] l e = ap (λ ls. record l { lines = ls }) (sym (append-nil l.lines))
write_lines_open (text ∷ texts) l e =
    let next : Log = record l { lines = l.lines ++ (text ∷ []) } in
    ap (λ b. write_lines texts (if b then next else l)) e
    ∙ write_lines_open texts next e
    ∙ ap (λ ls. record l { lines = ls }) (append_assoc l.lines (text ∷ []) texts)

-- The lines in front of a further run: three empty ones, then a frame of stars around the name of the
-- process, the date, and "new log".
abbrev pub framed : ℕ → Text → ℕ → Text
framed left text right =
    replicate left 42
    ++ (32 ∷ 32 ∷ 32 ∷ 32 ∷ 32 ∷ (text ++ (32 ∷ 32 ∷ 32 ∷ 32 ∷ 32 ∷ replicate right 42)))

abbrev pub further_run : Text → Text → List Text
further_run process_name date =
    []
    ∷ []
    ∷ []
    ∷ replicate 65 42
    ∷ replicate 65 42
    ∷ framed 17 process_name 27
    ∷ framed 13 date 23
    ∷ (replicate 27 42
        ++ (32 ∷ 32 ∷ 32 ∷ 110 ∷ 101 ∷ 119 ∷ 32 ∷ 108 ∷ 111 ∷ 103 ∷ 32 ∷ 32 ∷ 32 ∷ replicate 25 42))
    ∷ replicate 65 42
    ∷ replicate 65 42
    ∷ []

banner_lem : (process_name date : Text) → banner process_name date ≡ further_run process_name date
unfolding banner
banner_lem process_name date = refl

-- What the file holds once it is open.
abbrev pub at_first : Bool → List Text → Text → Text → List Text
at_first true existing process_name date = []
at_first false existing process_name date = existing ++ further_run process_name date

abbrev pub opened : Bool → List Text → Text → Text → Log → Log
opened erase existing process_name date l = record {
  is_open = true;
  lines = at_first erase existing process_name date;
  logging_filter_name = process_name;
  last_time_logged = l.last_time_logged;
  is_creating_file = false;
}

pub create_log_file_lem :
    (erase : Bool) (existing : List Text) (process_name date : Text) (l : Log)
    → l.is_creating_file ≡ false
    → length process_name < log_temp_buffer_size
    → create_log_file true existing process_name erase date l
      ≡ some (opened erase existing process_name date l)
unfolding create_log_file
create_log_file_lem true existing process_name date l idle short =
    let fits : leb log_temp_buffer_size (length process_name) ≡ false = ground arith in
    rw (create_log_file, fits)
      (ap (λ b. if b then some l else some (opened true existing process_name date l)) idle)
create_log_file_lem false existing process_name date l idle short =
    let fits : leb log_temp_buffer_size (length process_name) ≡ false = ground arith in
    let start : Log = record (opened true existing process_name date l) { lines = existing } in
    rw (create_log_file, fits)
      (ap (λ b. if b then some l else some (write_lines (banner process_name date) start)) idle
        ∙ ap some (write_lines_open (banner process_name date) start refl)
        ∙ ap (λ ls. some (record start { lines = existing ++ ls })) (banner_lem process_name date))

closes : (l : Log) → (file_log_close l).is_open ≡ false
unfolding file_log_close
closes l = elim (Bool-cases l.is_open) [
  | inl opened_yet ↦ ap (λ b. (if b then record l { is_open = false } else l).is_open) opened_yet
  | inr shut ↦ ap (λ b. (if b then record l { is_open = false } else l).is_open) shut ∙ shut
]

module _ (format : Text → Text → Text → ℕ → Text) (date : ℕ → Text) where
  -- A log file that is opened for a process with a name of less than 512 characters, and messages
  -- without a zero: the file holds, behind what it held and the ten lines of a further run, which have
  -- the process's name and the date, or behind nothing where that is erased, a line for each message, in their order, with at most 510 of its characters. A message
  -- that begins with the same separator twice is written as it is; any other is formatted with the
  -- process's name, and with the time if that is later than every time so far. No message fails.
  pub log_messages-create_log_file :
      (erase : Bool) (existing : List Text) (process_name banner_date : Text) (ms : List Message)
      (l : Log)
      → l.is_creating_file ≡ false
      → length process_name < log_temp_buffer_size
      → All IsProper ms
      → (m : Log) × (after : Log) × (create_log_file true existing process_name erase banner_date l
          ≡ some m)
        × (log_messages format date ms m ≡ some after)
        × (after.lines
            ≡ at_first erase existing process_name banner_date
              ++ expected format date process_name (l.last_time_logged ∷ []) ms)
  log_messages-create_log_file erase existing process_name banner_date ms l idle short proper =
      let m = opened erase existing process_name banner_date l in
      let newest : Newest l.last_time_logged (l.last_time_logged ∷ []) = λ t. ground arith in
      let (after, ran, same) =
        messages_lem format date ms (l.last_time_logged ∷ []) m refl proper newest in
      (
        m,
        after,
        create_log_file_lem erase existing process_name banner_date l idle short,
        ran,
        same,
      )

  -- A log that is closed stays as it is, whatever is logged.
  pub log_messages-file_log_close :
      (ms : List Message) (l : Log)
      → log_messages format date ms (file_log_close l) ≡ some (file_log_close l)
  log_messages-file_log_close ms l = closed_messages format date ms (file_log_close l) (closes l)
