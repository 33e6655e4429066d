-- ===== src/UdpClient.antt =====
-- UDP01 - Client/UDP01 - Client.cpp: a program that shakes hands with the server over UDP by a
-- CommsStateMachine of Common/Connection.h. What the system answers is an argument; the printing is
-- left out.
pub mod Once
pub mod Session
pub mod Examples
use socket_cplus_plus.Prelude.{
  ℕ, Bool, true, false, Option, none, some, List, [], ◌∷◌, ◌++◌, length, take, drop, ltb, not,
  if◌then◌else◌,
}
use socket_cplus_plus.Connection.{
  CommsStateMachine, new, data_send, data_receive, ready_to_send, is_expecting_receive,
}

abbrev pub buffer_size : ℕ
buffer_size = 1024

-- sizeof(sockaddr_in), which is also the size of each sender's address.
abbrev pub slen : ℕ
slen = 16

-- The variables of main, with the datagrams that went out.
pub record Client : Type 0 where
  pub sm : CommsStateMachine
  pub buffer : List ℕ
  pub sent : List (List ℕ)

-- How far the program comes: it exits with a failure; it waits, for ever, till it may send, while
-- nothing changes its machine; it waits for the system; or the library ends it.
pub data Outcome : Type 0 where
  exit_failure : List (List ℕ) → Outcome
  asleep : Client → Outcome
  waiting : Client → Outcome
  ended : Outcome

-- One turn of main's loop behind the wait: it ends the program, or comes to the next.
pub data Turn : Type 0 where
  stops : Outcome → Turn
  goes_on : Client → Turn

-- What recvfrom answers, `none` for an error; a datagram that is longer than the buffer is one, too.
-- DataReceive is told the size of the address, not that of the datagram.
pub receive_reply : Option (List ℕ) → Client → Turn
receive_reply none c = stops (exit_failure c.sent)
receive_reply (some datagram) c =
    let filled = datagram ++ drop (length datagram) c.buffer in
    if ltb buffer_size (length datagram)
    then stops (exit_failure c.sent)
    else goes_on (record c { sm = (data_receive c.sm (take slen filled)).1; buffer = filled })

-- `accepted` is whether sendto takes the datagram.
pub turn : Bool → Option (List ℕ) → Client → Turn
turn accepted reply c = elim (data_send c.sm c.buffer) [
  | none ↦ stops ended
  | some (success, bytes_used, filled, m) ↦
      let d : Client = record {
        sm = m;
        buffer = filled;
        sent = c.sent ++ (take bytes_used filled ∷ []);
      } in
      if not accepted
      then stops (exit_failure c.sent)
      else if is_expecting_receive m
      then receive_reply reply d
      else goes_on d
]

-- The loop of main, for as long as the system answers.
pub run_loop : List (Bool × Option (List ℕ)) → Client → Outcome
run_loop [] c = if ready_to_send c.sm then waiting c else asleep c
run_loop ((accepted, reply) ∷ answers) c = elim (ready_to_send c.sm) [
  | false ↦ asleep c
  | true ↦ elim (turn accepted reply c) [ stops o ↦ o | goes_on d ↦ run_loop answers d ]
]

-- Init: whether WSAStartup succeeds.
pub init : Bool → Option Outcome
init started = if started then none else some (exit_failure [])

-- CreateSocket: what socket() answers, `none` for SOCKET_ERROR.
pub create_socket : Option ℕ → Option Outcome
create_socket none = some (exit_failure [])
create_socket (some handle) = none

-- `junk` is what the machine's number, and `stack` what the buffer starts with.
pub main : Bool → Option ℕ → ℕ → List ℕ → List (Bool × Option (List ℕ)) → Outcome
main started handle junk stack answers = elim (init started) [
  | some o ↦ o
  | none ↦ elim (create_socket handle) [
    | some o ↦ o
    | none ↦ run_loop answers (record { sm = new junk false; buffer = stack; sent = [] })
  ]
]
