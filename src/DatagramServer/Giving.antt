-- ===== src/DatagramServer/Giving.antt =====
-- What main takes from the system, and gives back.
use socket_cplus_plus.Prelude.{
  ℕ, suc, ◌≡◌, Bool, true, false, ◌&&◌, ◌||◌, none, some, List, [], ◌∷◌, map, ◌==◌, if◌then◌else◌,
}
use socket_cplus_plus.Serialize.{c_string}
use socket_cplus_plus.DatagramServer.{
  System, timed_out, error, ready, Line, received, closed, Ended, failed, succeeded, runs_on,
  Answers,
}

-- The text in the buffer ends there.
abbrev pub has_zero : List ℕ → Bool
has_zero [] = false
has_zero (c ∷ buffer) = c == 0 || has_zero buffer

-- The line of an answer of recvfrom: the number of bytes, and the characters in front of the first
-- zero; or that the connection is closed.
abbrev pub line_of : ℕ × List ℕ → Line
line_of (n, buffer) = if n == 0 then closed else received n (c_string buffer)

abbrev pub Ends : ℕ × List ℕ → Type 0
Ends d = has_zero d.1 ≡ true

-- Every call up to the bind succeeds.
abbrev pub set_up : Answers → Bool
set_up os =
    os.started && ((elim os.handle [ none ↦ false | some h ↦ true ]) && (os.option_set && os.bound))

-- How main has to end.
abbrev pub ending : Answers → System → Ended × System
ending os s =
    if set_up os
    then elim (os.select (100, 0)) [
      | timed_out ↦ (succeeded, s)
      | error ↦ (succeeded, s)
      | ready ↦ (
        runs_on (map line_of os.datagrams),
        record s { sockets = suc s.sockets; startups = suc s.startups },
      )
    ]
    else (failed, s)
