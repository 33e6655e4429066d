-- ===== src/ThreadedServer/Serving.antt =====
-- What the server sends.
use socket_cplus_plus.Prelude.{
  ℕ, ◌≡◌, refl, sym, ap, subst, ◌∙◌, inl, inr, Bool, true, false, Option, none, some, List, [], ◌∷◌,
  map, ltb, ◌==◌, Bool-cases, Option-cases, some_inj, none_ne_some,
}
use socket_cplus_plus.Prelude.Maps.{pair_key, find, assign}
use socket_cplus_plus.Connection.{CommsStateMachine, connection, handle_data_in}
use socket_cplus_plus.Connection.Serving.{
  IsPast, connection-IsPast, handle_data_in-IsPast, run_service-IsPast, served_always,
}
use socket_cplus_plus.ThreadedServer.{
  SocketPair, UdpServer, new, networking_init, open_dgram_socket, cleanup_and_exit, bind_socket,
  init, buf_length, Answer, socket_error, received, pass_buffer_to_connection,
  receive_all_data_from_endpoint, SelectTiming, timed_out, failed, ready, receive, service_all,
  service_outgoing_connections,
}

pub data Step (s t : UdpServer) : Type 0 where
  inits :
      (started : Bool) (handle : Option ℕ) (option_set bound : Bool)
      → t ≡ init started handle option_set bound s
      → Step s t
  receives :
      (timing : SelectTiming) (peer : Option SocketPair) (junk : ℕ) (answers : List Answer)
      → t ≡ receive timing peer junk answers s
      → Step s t
  services :
      (stack : List ℕ) (sent : List (SocketPair × List ℕ))
      → service_outgoing_connections stack s ≡ some (sent, t)
      → Step s t

pub data Reaches (s : UdpServer) : UdpServer → Type 0 where
  stays : Reaches s s
  goes : {t u : UdpServer} → Reaches s t → Step t u → Reaches s u

abbrev pub Connections : Type 0
Connections = List (SocketPair × CommsStateMachine)

abbrev pub AllPast : Connections → Type 0
AllPast [] = Unit {0}
AllPast ((pair, c) ∷ rest) = IsPast c × AllPast rest

find-IsPast :
    (pair : SocketPair) (c : CommsStateMachine) (cs : Connections)
    → AllPast cs
    → find pair cs ≡ some c
    → IsPast c
find-IsPast pair c [] past e = absurd (none_ne_some e)
find-IsPast pair c ((key, d) ∷ cs) (here, later) e = elim (Bool-cases (pair_key.same key pair)) [
  | inl same ↦
      let found : find pair ((key, d) ∷ cs) ≡ some d = rw same in
      subst IsPast (some_inj (sym found ∙ e)) here
  | inr other ↦
      let passed : find pair ((key, d) ∷ cs) ≡ find pair cs = rw other in
      find-IsPast pair c cs later (sym passed ∙ e)
]

assign-AllPast :
    (pair : SocketPair) (c : CommsStateMachine) (cs : Connections)
    → IsPast c
    → AllPast cs
    → AllPast (assign pair c cs)
assign-AllPast pair c [] here past = (here, tt)
assign-AllPast pair c ((key, d) ∷ cs) here (first, later) =
    elim (Bool-cases (pair_key.same key pair)) [
      | inl same ↦ rw same (here, later)
      | inr other ↦ rw other (first, assign-AllPast pair c cs here later)
    ]

passed_to-AllPast :
    (pair : SocketPair) (buffer : List ℕ) (junk : ℕ) (cs : Connections)
    → AllPast cs
    → AllPast (
        assign pair
          (handle_data_in (elim (find pair cs) [ none ↦ connection junk | some c ↦ c ]) buffer)
          cs)
passed_to-AllPast pair buffer junk cs past = elim (Option-cases (find pair cs)) [
  | inl fresh ↦ rw fresh (
      assign-AllPast pair (handle_data_in (connection junk) buffer) cs
        (connection-IsPast junk buffer) past)
  | inr (c, known) ↦ rw known (
      assign-AllPast pair (handle_data_in c buffer) cs
        (handle_data_in-IsPast c buffer (find-IsPast pair c cs past known)) past)
]

passed-AllPast :
    (peer : Option SocketPair) (sender : SocketPair) (buffer : List ℕ) (junk : ℕ) (s : UdpServer)
    → AllPast s.connections
    → AllPast (pass_buffer_to_connection peer sender buffer junk s).connections
unfolding pass_buffer_to_connection
passed-AllPast none sender buffer junk s past =
    passed_to-AllPast sender buffer junk s.connections past
passed-AllPast (some p) sender buffer junk s past =
    passed_to-AllPast p buffer junk s.connections past

service_all-AllPast :
    (stack : List ℕ) (cs : Connections)
    → AllPast cs
    → service_all stack cs
      ≡ some (map (λ (r : SocketPair × CommsStateMachine). (r.0, stack)) cs, cs)
unfolding service_all
service_all-AllPast stack [] past = refl
service_all-AllPast stack ((pair, c) ∷ cs) (here, later) =
    let (needs, stays_on) = served_always c in
    rw (
      service_all,
      needs,
      run_service-IsPast c stack here,
      stays_on,
      service_all-AllPast stack cs later,
    )

receive_all-AllPast :
    (peer : Option SocketPair) (junk : ℕ) (answers : List Answer) (s : UdpServer)
    → AllPast s.connections
    → AllPast (receive_all_data_from_endpoint peer junk answers s).connections
unfolding receive_all_data_from_endpoint
receive_all-AllPast peer junk [] s past = past
receive_all-AllPast peer junk (socket_error ∷ answers) s past = past
receive_all-AllPast peer junk (received n sender buffer ∷ answers) s past =
    let passed = pass_buffer_to_connection peer sender buffer junk s in
    let passed_past = passed-AllPast peer sender buffer junk s past in
    elim (Bool-cases (n == 0)) [
      | inl closed ↦ rw closed past
      | inr some_bytes ↦ elim (Bool-cases (ltb buf_length n)) [
        | inl over ↦
            rw (some_bytes, over) (receive_all-AllPast peer junk answers passed passed_past)
        | inr within ↦ rw (some_bytes, within) passed_past
      ]
    ]

pub receive-AllPast :
    (timing : SelectTiming) (peer : Option SocketPair) (junk : ℕ) (answers : List Answer)
    (s : UdpServer)
    → AllPast s.connections
    → AllPast (receive timing peer junk answers s).connections
unfolding receive
receive-AllPast timed_out peer junk answers s past = past
receive-AllPast failed peer junk answers s past = past
receive-AllPast ready peer junk answers s past = receive_all-AllPast peer junk answers s past

pub init_connections :
    (started : Bool) (handle : Option ℕ) (option_set bound : Bool) (s : UdpServer)
    → (init started handle option_set bound s).connections ≡ s.connections
unfolding init networking_init open_dgram_socket cleanup_and_exit bind_socket
init_connections false handle option_set bound s = refl
init_connections true none option_set bound s = refl
init_connections true (some h) true bound s = refl
init_connections true (some h) false bound s = refl

pub service_lem :
    (stack : List ℕ) (s : UdpServer)
    → AllPast s.connections
    → service_outgoing_connections stack s
      ≡ some (map (λ (r : SocketPair × CommsStateMachine). (r.0, stack)) s.connections, s)
unfolding service_outgoing_connections
service_lem stack s past =
    rw (service_outgoing_connections, service_all-AllPast stack s.connections past)

Step-AllPast : (s t : UdpServer) → Step s t → AllPast s.connections → AllPast t.connections
Step-AllPast s t (inits started handle option_set bound e) past =
    subst AllPast
      (sym (ap (λ u. u.connections) e ∙ init_connections started handle option_set bound s)) past
Step-AllPast s t (receives timing peer junk answers e) past =
    subst (λ u. AllPast u.connections) (sym e) (receive-AllPast timing peer junk answers s past)
Step-AllPast s t (services stack sent e) past =
    subst (λ u. AllPast u.connections)
      (ap (λ r. r.1) (some_inj (sym (service_lem stack s past) ∙ e))) past

Reaches-AllPast : (junk : ℕ) (s : UdpServer) → Reaches (new junk) s → AllPast s.connections
unfolding new
Reaches-AllPast junk s stays = tt
Reaches-AllPast junk s (goes {t = m} run step) = Step-AllPast m s step (Reaches-AllPast junk m run)

-- Whatever the system has answered and the peers have sent, in every round the server sends each peer
-- that it has a connection with one datagram, which is the buffer of RunService as it was found, and
-- changes nothing: it never answers a handshake.
pub service_unwritten :
    (junk : ℕ) (s : UdpServer) (stack : List ℕ)
    → Reaches (new junk) s
    → service_outgoing_connections stack s
      ≡ some (map (λ (r : SocketPair × CommsStateMachine). (r.0, stack)) s.connections, s)
service_unwritten junk s stack run = service_lem stack s (Reaches-AllPast junk s run)
