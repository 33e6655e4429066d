-- ===== src/DatagramServer.antt =====
-- UDP01/UDP01.cpp: a program that waits for a first datagram and prints what it receives. What the
-- system answers is an argument.
pub mod Giving
pub mod Examples
use socket_cplus_plus.Prelude.{
  ℕ, zero, suc, Bool, true, false, not, Option, none, some, List, [], ◌∷◌, ◌++◌, ◌==◌,
  if◌then◌else◌,
}

-- The sockets that are open, and the calls of WSAStartup that are not taken back.
pub record System : Type 0 where
  pub sockets : ℕ
  pub startups : ℕ

-- Closing or taking back what is not held is an error: `none`.
abbrev pub closesocket : System → Option System
closesocket s = elim s.sockets [ zero ↦ none | suc n ↦ some (record s { sockets = n }) ]

abbrev pub wsa_cleanup : System → Option System
wsa_cleanup s = elim s.startups [ zero ↦ none | suc n ↦ some (record s { startups = n }) ]

-- The socket first, then the library.
abbrev pub close_and_cleanup : System → Option System
close_and_cleanup s = elim (closesocket s) [ none ↦ none | some t ↦ wsa_cleanup t ]

pub networking_init : Bool → System → Bool × System
networking_init started s =
    if started then (true, record s { startups = suc s.startups }) else (false, s)

-- What socket() answers, `none` for INVALID_SOCKET; the result is 0 on failure.
pub open_dgram_socket : Option ℕ → Bool → System → Option (ℕ × System)
open_dgram_socket none option_set s = elim (wsa_cleanup s) [ none ↦ none | some t ↦ some (0, t) ]
open_dgram_socket (some handle) option_set s =
    let t : System = record s { sockets = suc s.sockets } in
    if option_set
    then some (handle, t)
    else elim (close_and_cleanup t) [ none ↦ none | some u ↦ some (0, u) ]

-- SOCKADDR_IN: the family, the port in the network's order, and the address.
pub record ReceiverAddr : Type 0 where
  pub sin_family : ℕ
  pub sin_port : ℕ
  pub sin_addr : ℕ

-- AF_INET is 2 and INADDR_ANY is 0, in whatever order; `htons` is the socket library's.
pub setup_socket_details : (ℕ → ℕ) → ℕ → ReceiverAddr
setup_socket_details htons port = record { sin_family = 2; sin_port = htons port; sin_addr = 0 }

-- The answer of select.
pub data SelectTiming : Type 0 where
  timed_out error ready : SelectTiming

-- The wait's seconds and microseconds, as select gets them.
pub recvfrom_time_out_udp : (ℕ × ℕ → SelectTiming) → ℕ → ℕ → SelectTiming
recvfrom_time_out_udp select sec usec = select (sec, usec)

-- The text that printf takes from a buffer, up to a zero; without one it reads outside: `none`.
pub c_text : List ℕ → Option (List ℕ)
c_text [] = none
c_text (zero ∷ buffer) = some []
c_text (suc c ∷ buffer) = elim (c_text buffer) [ none ↦ none | some text ↦ some (suc c ∷ text) ]

-- What a round of the receiving loop prints: the number of bytes and the text, or that the connection
-- is closed.
pub data Line : Type 0 where
  received : ℕ → List ℕ → Line
  closed : Line

-- What a round prints. Each answer of recvfrom is the number of bytes, zero also for an error, and the
-- buffer, whole. Printing a text that does not end within the buffer is undefined: `none`.
pub print_round : ℕ → List ℕ → Option Line
print_round byte_received receive_buf =
    if byte_received == 0
    then some closed
    else elim (c_text receive_buf) [ none ↦ none | some text ↦ some (received byte_received text) ]

abbrev pub with_line : Option Line → Option (List Line) → Option (List Line)
with_line none rest = none
with_line (some line) none = none
with_line (some line) (some lines) = some (line ∷ lines)

-- The loop has no exit, so what it prints for the answers so far is all there is to it.
pub receive_loop : List (ℕ × List ℕ) → Option (List Line)
receive_loop [] = some []
receive_loop ((byte_received, receive_buf) ∷ answers) =
    with_line (print_round byte_received receive_buf) (receive_loop answers)

-- The end of main: it returns -1 or 0, or it never returns, and prints.
pub data Ended : Type 0 where
  failed : Ended
  succeeded : Ended
  runs_on : List Line → Ended

-- What the system answers to main.
pub record Answers : Type 0 where
  pub started : Bool
  pub handle : Option ℕ
  pub option_set : Bool
  pub bound : Bool
  pub select : ℕ × ℕ → SelectTiming
  pub datagrams : List (ℕ × List ℕ)

abbrev pub ends_with : Ended → Option System → Option (Ended × System)
ends_with e none = none
ends_with e (some s) = some (e, s)

-- main from the switch on.
pub serve : SelectTiming → List (ℕ × List ℕ) → System → Option (Ended × System)
serve timed_out datagrams s = ends_with succeeded (close_and_cleanup s)
serve error datagrams s = ends_with succeeded (close_and_cleanup s)
serve ready datagrams s = elim (receive_loop datagrams) [
  | none ↦ none
  | some lines ↦ some (runs_on lines, s)
]

pub main : Answers → System → Option (Ended × System)
main os s =
    let (is_up, t) = networking_init os.started s in
    if not is_up then some (failed, t) else elim (open_dgram_socket os.handle os.option_set t) [
      | none ↦ none
      | some (receiving_socket, u) ↦
          if receiving_socket == 0
          then some (failed, u)
          else if not os.bound
          then ends_with failed (close_and_cleanup u)
          else serve (recvfrom_time_out_udp os.select 100 0) os.datagrams u
    ]
