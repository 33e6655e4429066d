-- ===== src/Sockets/Balance.antt =====
-- Every path gives back what it took.
use socket_cplus_plus.Prelude.{ℕ, ◌+◌, ◌*◌, ◌<◌, ◌≡◌, not, ◌&&◌, Option, some, List, arith}
use socket_cplus_plus.Sockets.{
  Held, Answers, is_port_busy, Constructed, constructed, thrown, new, destroy, timeout, ◌then◌,
  without,
}

-- Whatever the system answers, IsPortBusy closes the socket and frees the list that it took, once, and
-- answers false only if every call succeeded.
pub is_port_busy_lem :
    (os : Answers) (handle : ℕ) (h : Held)
    → is_port_busy os handle h
      ≡ some (not (os.resolved && os.made && os.option_set && os.bound && os.listening), h)
unfolding is_port_busy without
is_port_busy_lem os handle h = ground arith

-- What is held when a server that was to be constructed is gone.
abbrev pub outlived : Constructed × Held → Option Held
outlived (constructed server, g) = destroy server g
outlived (thrown _, g) = some g

-- A udpServer constructor that throws leaves nothing open or allocated; after one that does not,
-- the destructor closes the socket that was opened and frees the list, once, and nothing else.
pub destroy-new :
    (os : Answers) (handle port : ℕ) (addr : List ℕ) (h : Held)
    → ◌then◌ (new os handle addr port h) outlived ≡ some h
unfolding new destroy without
destroy-new os handle port addr h = ground arith

-- The two parts of the wait make up the milliseconds, the second part less than a second.
pub timeout_lem :
    (ms : ℕ) → ((timeout ms).0 * 1000000 + (timeout ms).1 ≡ ms * 1000) × ((timeout ms).1 < 1000000)
unfolding timeout
timeout_lem ms = (omega arith, omega arith)
