-- ===== src/ThreadedServer.antt =====
-- UDPServer of UDP01-ThreadedServer/UDP01-ThreadedServer.cpp: a socket, and a Connection for each
-- peer. What the system answers is an argument of the step that asks. A Connection is its machine;
-- its address is the key that it stands under, since it is made with the address of that key.
pub mod Setup
pub mod Datagrams
pub mod Serving
pub mod Running
pub mod Examples
use socket_cplus_plus.Prelude.{
  ℕ, ◌+◌, ◌-◌, Bool, true, false, not, Option, none, some, List, [], ◌∷◌, ◌++◌, ltb, ◌==◌,
  if◌then◌else◌,
}
use socket_cplus_plus.Prelude.Maps.{Key, pair_key, find, assign}
use socket_cplus_plus.Connection.{
  CommsStateMachine, connection, handle_data_in, needs_service, run_service, has_expired,
}

-- The IPv4 address and the port.
abbrev pub SocketPair : Type 0
SocketPair = ℕ × ℕ

-- `startups` counts the calls of WSAStartup that WSACleanup has not taken back.
pub record UdpServer : Type 0 where
  pub is_valid : Bool
  pub receiving_socket : ℕ
  pub open_sockets : List ℕ
  pub startups : ℕ
  pub connections : List (SocketPair × CommsStateMachine)

-- sizeof(ReceiveBuf)
abbrev pub buf_length : ℕ
buf_length = 1024

-- The constructor does not set the socket.
pub new : ℕ → UdpServer
new junk = record {
  is_valid = false;
  receiving_socket = junk;
  open_sockets = [];
  startups = 0;
  connections = [];
}

-- closesocket of a handle that is not open fails, and closes nothing.
pub close_socket : ℕ → List ℕ → List ℕ
close_socket h [] = []
close_socket h (s ∷ rest) = if h == s then rest else s ∷ close_socket h rest

-- The connections are deleted, and stay in the map.
pub cleanup_and_exit : UdpServer → UdpServer
cleanup_and_exit s = record s {
  open_sockets = close_socket s.receiving_socket s.open_sockets;
  startups = s.startups - 1;
  is_valid = false;
}

pub networking_init : Bool → UdpServer → Bool × UdpServer
networking_init started s =
    if started then (true, record s { startups = s.startups + 1 }) else (false, s)

-- The local variable hides the member of the same name, which cleanup_and_exit closes. The result is
-- `none` for 0.
pub open_dgram_socket : Option ℕ → Bool → UdpServer → Option ℕ × UdpServer
open_dgram_socket none option_set s = (none, cleanup_and_exit s)
open_dgram_socket (some handle) option_set s =
    let t = record s { open_sockets = handle ∷ s.open_sockets } in
    if option_set then (some handle, t) else (none, cleanup_and_exit t)

-- Init behind the opening of the socket. A handle of 0 is taken for a failure: it is not bound, and
-- stays open.
pub bind_socket : Bool → Option ℕ → UdpServer → UdpServer
bind_socket bound none s = record s { is_valid = false; receiving_socket = 0 }
bind_socket bound (some handle) s = record s {
  is_valid = if handle == 0 then false else bound;
  receiving_socket = handle;
}

pub init : Bool → Option ℕ → Bool → Bool → UdpServer → UdpServer
init started handle option_set bound s =
    let (ready, t) = networking_init started s in
    let (opened, u) = open_dgram_socket handle option_set t in
    if ready then bind_socket bound opened u else record t { is_valid = false }

-- What recvfrom answers: an error; or the number of bytes, the sender, and the buffer, whole.
pub data Answer : Type 0 where
  socket_error : Answer
  received : ℕ → SocketPair → List ℕ → Answer

-- `peer` is what getpeername puts in the place of the sender, if it succeeds.
pub pass_buffer_to_connection : Option SocketPair → SocketPair → List ℕ → ℕ → UdpServer → UdpServer
pass_buffer_to_connection peer sender buffer junk s =
    let deets : SocketPair = elim peer [ none ↦ sender | some p ↦ p ] in
    let found : CommsStateMachine = elim (find deets s.connections) [
      | none ↦ connection junk
      | some c ↦ c
    ] in
    record s { connections = assign deets (handle_data_in found buffer) s.connections }

-- The do-while loop; a list of answers that ends stands for a socket that gives no more.
pub receive_all_data_from_endpoint : Option SocketPair → ℕ → List Answer → UdpServer → UdpServer
receive_all_data_from_endpoint peer junk [] s = s
receive_all_data_from_endpoint peer junk (socket_error ∷ answers) s = s
receive_all_data_from_endpoint peer junk (received n sender buffer ∷ answers) s =
    let passed = pass_buffer_to_connection peer sender buffer junk s in
    let more = receive_all_data_from_endpoint peer junk answers passed in
    if n == 0 then s else if ltb buf_length n then more else passed

-- What select answers.
pub data SelectTiming : Type 0 where
  timed_out : SelectTiming
  failed : SelectTiming
  ready : SelectTiming

pub receive : SelectTiming → Option SocketPair → ℕ → List Answer → UdpServer → UdpServer
receive timed_out peer junk answers s = s
receive failed peer junk answers s = s
receive ready peer junk answers s = receive_all_data_from_endpoint peer junk answers s

-- Each connection's turn: what it sends. An expired one is erased while the loop stands on it, which
-- is undefined. `stack` is what RunService's buffer starts with.
pub service_all :
    List ℕ
    → List (SocketPair × CommsStateMachine)
    → Option (List (SocketPair × List ℕ) × List (SocketPair × CommsStateMachine))
service_all stack [] = some ([], [])
service_all stack ((pair, c) ∷ rest) =
    elim (if needs_service c then run_service c stack else some (none, c)) [
      | none ↦ none
      | some (sent, d) ↦ elim (has_expired d) [
        | true ↦ none
        | false ↦ elim (service_all stack rest) [
          | none ↦ none
          | some (others, kept) ↦
              some (
                elim sent [ none ↦ others | some bytes ↦ (pair, bytes) ∷ others ],
                (pair, d) ∷ kept,
              )
        ]
      ]
    ]

pub service_outgoing_connections :
    List ℕ → UdpServer → Option (List (SocketPair × List ℕ) × UdpServer)
service_outgoing_connections stack s = elim (service_all stack s.connections) [
  | none ↦ none
  | some (sent, kept) ↦ some (sent, record s { connections = kept })
]

-- One round of the loop of operator().
pub serve_round :
    SelectTiming
    → Option SocketPair
    → ℕ
    → List Answer
    → List ℕ
    → UdpServer
    → Option (List (SocketPair × List ℕ) × UdpServer)
serve_round timing peer junk answers stack s =
    service_outgoing_connections stack (receive timing peer junk answers s)

-- What the system answers in one round.
pub record Round : Type 0 where
  pub timing : SelectTiming
  pub peer : Option SocketPair
  pub junk : ℕ
  pub answers : List Answer
  pub stack : List ℕ

-- The loop of operator(), with what each round sends; a list of rounds that ends stands for a server
-- that is still running.
pub serve_rounds : List Round → UdpServer → Option (List (List (SocketPair × List ℕ)) × UdpServer)
serve_rounds [] s = some ([], s)
serve_rounds (r ∷ rounds) s = elim s.is_valid [
  | false ↦ some ([], s)
  | true ↦ elim (serve_round r.timing r.peer r.junk r.answers r.stack s) [
    | none ↦ none
    | some (sent, t) ↦ elim (serve_rounds rounds t) [
      | none ↦ none
      | some (others, u) ↦ some (sent ∷ others, u)
    ]
  ]
]

-- operator()
pub run_server :
    Bool
    → Option ℕ
    → Bool
    → Bool
    → List Round
    → UdpServer
    → Option (List (List (SocketPair × List ℕ)) × UdpServer)
run_server started handle option_set bound rounds s =
    let t = if s.is_valid then s else init started handle option_set bound s in
    if not t.is_valid then some ([], t) else serve_rounds rounds t
