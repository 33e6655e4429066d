-- ===== src/ServerLog/Examples.antt =====
-- Runs of the log: a second run of a process, and a name that is too long.
use socket_cplus_plus.Prelude.{
  ℕ, ◌≡◌, refl, true, false, none, some, List, [], ◌∷◌, ◌++◌, replicate, length-replicate, arith,
}
use socket_cplus_plus.Serialize.Strings.{NoZero}
use socket_cplus_plus.Utils.{Text}
use socket_cplus_plus.ServerLog.{
  Log, unopened, create_log_file, log_temp_buffer_size, time_text, is_separator,
}
use socket_cplus_plus.ServerLog.Stamps.{Message, IsProper, expected, log_messages}
use socket_cplus_plus.ServerLog.Opening.{at_first, log_messages-create_log_file}

-- The name, the message and the time, one behind the other.
abbrev joined : Text → Text → Text → ℕ → Text
joined name text time priority = name ++ (text ++ time)

abbrev seconds : ℕ → Text
seconds t = t ∷ []

abbrev at_time : Text → ℕ → Message
at_time text time = record {
  priority = 2;
  text = text;
  time = time;
  stack = replicate log_temp_buffer_size 255;
}

-- Two messages in one second, and a separator between them.
abbrev three_messages : List Message
three_messages =
    at_time (72 ∷ 105 ∷ []) 9 ∷ at_time (45 ∷ 45 ∷ 45 ∷ []) 9 ∷ at_time (72 ∷ 111 ∷ []) 9 ∷ []

at_time-IsProper : (text : Text) (time : ℕ) → NoZero text → IsProper (at_time text time)
at_time-IsProper text time z = (z, length-replicate {A = ℕ} log_temp_buffer_size 255)

three_lines :
    expected joined seconds (115 ∷ []) (0 ∷ []) three_messages
    ≡ (115 ∷ 72 ∷ 105 ∷ 32 ∷ 45 ∷ 32 ∷ 91 ∷ 9 ∷ 93 ∷ [])
      ∷ (45 ∷ 45 ∷ 45 ∷ [])
      ∷ (115 ∷ 72 ∷ 111 ∷ [])
      ∷ []
unfolding time_text is_separator
three_lines = refl

too_long : create_log_file true [] (replicate 512 65) true [] unopened ≡ none
unfolding create_log_file unopened
too_long = refl

log_messages-create_log_file_example :
    (m : Log) × (after : Log) × (create_log_file true [] (115 ∷ []) false [] unopened ≡ some m)
    × (log_messages joined seconds three_messages m ≡ some after)
    × (after.lines
        ≡ at_first false [] (115 ∷ []) []
          ++ expected joined seconds (115 ∷ []) (0 ∷ []) three_messages)
unfolding unopened NoZero
log_messages-create_log_file_example =
    log_messages-create_log_file joined seconds false [] (115 ∷ []) [] three_messages unopened refl
      (omega arith)
      (
        at_time-IsProper (72 ∷ 105 ∷ []) 9 ((λ e. ground arith), ((λ e. ground arith), tt)),
        (
          at_time-IsProper (45 ∷ 45 ∷ 45 ∷ []) 9
              ((λ e. ground arith), ((λ e. ground arith), ((λ e. ground arith), tt))),
          (at_time-IsProper (72 ∷ 111 ∷ []) 9 ((λ e. ground arith), ((λ e. ground arith), tt)), tt),
        ),
      )
