-- ===== src/ServerLog.antt =====
-- UDP01/OldCode/NetworkCommon/server_log.cpp, as built for Windows: messages that go to a log file.
-- What the console gets is left out. A text that printf or boost has formatted is an argument or a
-- parameter.
pub mod Stamps
pub mod Opening
pub mod Examples
use socket_cplus_plus.Prelude.{
  ℕ, ◌+◌, Bool, true, false, not, ◌&&◌, ◌||◌, Option, none, some, List, [], ◌∷◌, ◌++◌, length, take,
  drop, get_elem?, replicate, ltb, leb, ◌==◌, if◌then◌else◌,
}
use socket_cplus_plus.Serialize.{c_string}
use socket_cplus_plus.Utils.{Text}
use socket_cplus_plus.Utils.Files.{Made, create_sub_directory}

abbrev pub log_temp_buffer_size : ℕ
log_temp_buffer_size = 512

-- The globals. `lines` is what the log file holds, open or not.
pub record Log : Type 0 where
  pub is_open : Bool
  pub lines : List Text
  pub logging_filter_name : Text
  pub last_time_logged : ℕ
  pub is_creating_file : Bool

-- As the program starts.
pub unopened : Log
unopened = record {
  is_open = false;
  lines = [];
  logging_filter_name = [];
  last_time_logged = 0;
  is_creating_file = false;
}

-- A line written to the stream, which takes it only if it is open.
pub write_line : Text → Log → Log
write_line text l = if l.is_open then record l { lines = l.lines ++ (text ∷ []) } else l

pub write_lines : List Text → Log → Log
write_lines [] l = l
write_lines (text ∷ texts) l = write_lines texts (write_line text l)

-- The banner in front of a further run of the process.
pub banner : Text → Text → List Text
banner process_name date =
    []
    ∷ []
    ∷ []
    ∷ replicate 65 42
    ∷ replicate 65 42
    ∷ (replicate 17 42 ++ (replicate 5 32 ++ (process_name ++ (replicate 5 32 ++ replicate 27 42))))
    ∷ (replicate 13 42 ++ (replicate 5 32 ++ (date ++ (replicate 5 32 ++ replicate 23 42))))
    ∷ (replicate 27 42
        ++ ((32 ∷ 32 ∷ 32 ∷ 110 ∷ 101 ∷ 119 ∷ 32 ∷ 108 ∷ 111 ∷ 103 ∷ 32 ∷ 32 ∷ 32 ∷ [])
            ++ replicate 25 42))
    ∷ replicate 65 42
    ∷ replicate 65 42
    ∷ []

-- `opens` is whether the file can be opened, `existing` what it holds before. The name is copied into
-- an array of 512 characters, with its zero: `none` where it does not fit.
pub create_log_file : Bool → List Text → Text → Bool → Text → Log → Option Log
create_log_file opens existing process_name erase_previous_contents date l =
    let kept : List Text = if erase_previous_contents then [] else existing in
    let opened : Log = record l {
      is_open = opens;
      lines = kept;
      logging_filter_name = process_name;
      is_creating_file = false;
    } in
    if l.is_creating_file
    then some l
    else if leb log_temp_buffer_size (length process_name)
    then none
    else if erase_previous_contents
    then some opened
    else some (write_lines (banner process_name date) opened)

-- '-', '*', '=' and '+'
pub is_separator : ℕ → Bool
is_separator c = c == 45 || (c == 42 || (c == 61 || c == 43))

pub file_log_close : Log → Log
file_log_close l = if l.is_open then record l { is_open = false } else l

-- "c:/temp/mber_logging"
abbrev directory : Text
directory =
    99 ∷ 58 ∷ 47 ∷ 116 ∷ 101 ∷ 109 ∷ 112 ∷ 47 ∷ 109 ∷ 98 ∷ 101 ∷ 114 ∷ 95 ∷ 108 ∷ 111 ∷ 103 ∷ 103
    ∷ 105 ∷ 110 ∷ 103 ∷ []

-- The name of the log file, and the log; a null name is dereferenced: `none`.
pub file_log_open :
    List Made → (Text → Bool × List Text) → Option Text → Bool → Text → Log → Option (Text × Log)
file_log_open answers disk none erase_previous_contents date l = none
file_log_open answers disk (some process_name) erase_previous_contents date l =
    let filename : Text = directory ++ (47 ∷ (process_name ++ (46 ∷ 108 ∷ 111 ∷ 103 ∷ []))) in
    elim (create_sub_directory directory answers) [
      | none ↦ none
      | some _ ↦
          elim (create_log_file (disk filename).0 (disk filename).1 process_name
            erase_previous_contents date l) [ none ↦ none | some after ↦ some (filename, after) ]
    ]

-- `date` is GetDateInUTC by the time. `format` is what boost makes of the name, the message, the time
-- and the priority.
module _ (format : Text → Text → Text → ℕ → Text) (date : ℕ → Text) where
  -- " - [" and "]"
  pub time_text : ℕ → Text
  time_text current_time = (32 ∷ 45 ∷ 32 ∷ 91 ∷ []) ++ (date current_time ++ (93 ∷ []))

  pub print_line : ℕ → Text → ℕ → Log → Log
  print_line priority text current_time l =
      if ltb l.last_time_logged current_time
      then write_line (format l.logging_filter_name text (time_text current_time) priority)
          (record l { last_time_logged = current_time })
      else write_line (format l.logging_filter_name text [] priority) l

  -- FileLog behind its guard. The first two characters tell a separator; `none` where the buffer has
  -- none.
  pub log_to_file : ℕ → List ℕ → ℕ → Log → Option Log
  log_to_file priority buffer current_time l = elim (get_elem? buffer 0) [
    | none ↦ none
    | some first ↦ elim (get_elem? buffer 1) [
      | none ↦ none
      | some second ↦
          if first == second && is_separator first
          then some (write_line (c_string buffer) l)
          else some (print_line priority (c_string buffer) current_time l)
    ]
  ]

  pub file_log : ℕ → List ℕ → ℕ → Log → Option Log
  file_log priority buffer current_time l =
      if not l.is_open then some l else log_to_file priority buffer current_time l

  -- `message` is what the format and the arguments make, `stack` what the buffer starts with.
  -- vsnprintf of 511 leaves 510 characters and a zero.
  pub log_message : ℕ → Text → ℕ → List ℕ → Log → Option Log
  log_message priority message current_time stack l =
      let text = take 510 message in
      file_log priority (text ++ (0 ∷ drop (length text + 1) stack)) current_time l
