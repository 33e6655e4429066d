-- ===== src/ThreadedServer/Running.antt =====
-- The server from its start on, for as long as it runs.
use socket_cplus_plus.Prelude.{
  ℕ, ◌≡◌, refl, sym, ap, subst, ◌∙◌, inl, inr, Bool, true, false, not, ◌&&◌, Option, none, some,
  List, [], ◌∷◌, All, map, ltb, ◌==◌, if◌then◌else◌, Bool-cases, arith,
}
use socket_cplus_plus.Connection.{CommsStateMachine}
use socket_cplus_plus.ThreadedServer.{
  SocketPair, UdpServer, new, init, networking_init, open_dgram_socket, cleanup_and_exit,
  bind_socket, buf_length, Answer, socket_error, received, pass_buffer_to_connection,
  receive_all_data_from_endpoint, SelectTiming, timed_out, failed, ready, receive, serve_round,
  Round, serve_rounds, run_server,
}
use socket_cplus_plus.ThreadedServer.Serving.{
  Connections, AllPast, receive-AllPast, init_connections, service_lem,
}

-- Every round has sent, and each datagram that it sent is the buffer as it was found.
abbrev pub Unwritten : List Round → List (List (SocketPair × List ℕ)) → Type 0
Unwritten [] [] = Unit {0}
Unwritten (r ∷ rounds) (sent ∷ more) = All (λ d. d.1 ≡ r.stack) sent × Unwritten rounds more
Unwritten _ _ = ⊥

each_unwritten :
    (stack : List ℕ) (cs : Connections)
    → All
        (λ (d : SocketPair × List ℕ). d.1 ≡ stack)
        (map (λ (r : SocketPair × CommsStateMachine). (r.0, stack)) cs)
each_unwritten stack [] = tt
each_unwritten stack (c ∷ cs) = (refl, each_unwritten stack cs)

receive_all_valid :
    (peer : Option SocketPair) (junk : ℕ) (answers : List Answer) (s : UdpServer)
    → (receive_all_data_from_endpoint peer junk answers s).is_valid ≡ s.is_valid
unfolding receive_all_data_from_endpoint pass_buffer_to_connection
receive_all_valid peer junk [] s = refl
receive_all_valid peer junk (socket_error ∷ answers) s = refl
receive_all_valid peer junk (received n sender buffer ∷ answers) s =
    let more =
      receive_all_valid peer junk answers (pass_buffer_to_connection peer sender buffer junk s) in
    elim (Bool-cases (n == 0)) [
      | inl closed ↦ rw closed
      | inr some_bytes ↦ elim (Bool-cases (ltb buf_length n)) [
        | inl over ↦ rw (some_bytes, over) more
        | inr within ↦ rw (some_bytes, within)
      ]
    ]

receive_valid :
    (timing : SelectTiming) (peer : Option SocketPair) (junk : ℕ) (answers : List Answer)
    (s : UdpServer)
    → (receive timing peer junk answers s).is_valid ≡ s.is_valid
unfolding receive
receive_valid timed_out peer junk answers s = refl
receive_valid failed peer junk answers s = refl
receive_valid ready peer junk answers s = receive_all_valid peer junk answers s

-- What the rounds do with a server that is valid.
abbrev Serves : List Round → Option (List (List (SocketPair × List ℕ)) × UdpServer) → Type 0
Serves rounds r =
    (sent : List (List (SocketPair × List ℕ))) × (t : UdpServer) × (r ≡ some (sent, t))
    × (t.is_valid ≡ true)
    × Unwritten rounds sent

abbrev Sent : Type 0
Sent = List (SocketPair × List ℕ)

abbrev with_first : Sent → Option (List Sent × UdpServer) → Option (List Sent × UdpServer)
with_first sent none = none
with_first sent (some (others, u)) = some (sent ∷ others, u)

abbrev next_rounds : List Round → Option (Sent × UdpServer) → Option (List Sent × UdpServer)
next_rounds rounds none = none
next_rounds rounds (some (sent, t)) = with_first sent (serve_rounds rounds t)

abbrev guarded : Round → List Round → UdpServer → Bool → Option (List Sent × UdpServer)
guarded r rounds s false = some ([], s)
guarded r rounds s true =
    next_rounds rounds (serve_round r.timing r.peer r.junk r.answers r.stack s)

serve_rounds_lem :
    (rounds : List Round) (s : UdpServer)
    → s.is_valid ≡ true
    → AllPast s.connections
    → Serves rounds (serve_rounds rounds s)
unfolding serve_rounds serve_round
serve_rounds_lem [] s valid past = ([], s, refl, valid, tt)
serve_rounds_lem (r ∷ rounds) s valid past =
    let t = receive r.timing r.peer r.junk r.answers s in
    let past_t = receive-AllPast r.timing r.peer r.junk r.answers s past in
    let (others, u, ran, still, unwritten) =
      serve_rounds_lem rounds t (receive_valid r.timing r.peer r.junk r.answers s ∙ valid) past_t in
    (
      map (λ (c : SocketPair × CommsStateMachine). (c.0, r.stack)) t.connections ∷ others,
      u,
      ap (guarded r rounds s) valid
          ∙ ap (next_rounds rounds) (service_lem r.stack t past_t)
          ∙ ap
              (with_first
                (map (λ (c : SocketPair × CommsStateMachine). (c.0, r.stack)) t.connections))
              ran,
      still,
      (each_unwritten r.stack t.connections, unwritten),
    )

-- Every call up to the bind succeeds, with a handle that is not 0.
abbrev pub comes_up : Bool → Option ℕ → Bool → Bool → Bool
comes_up started none option_set bound = false
comes_up started (some handle) option_set bound =
    started && (option_set && (not (handle == 0) && bound))

init_valid :
    (junk : ℕ) (started : Bool) (handle : Option ℕ) (option_set bound : Bool)
    → (init started handle option_set bound (new junk)).is_valid
      ≡ comes_up started handle option_set bound
unfolding init networking_init open_dgram_socket cleanup_and_exit bind_socket new
init_valid junk started none option_set bound = ground arith
init_valid junk started (some handle) option_set bound = ground arith

-- A new server that is run: if a call up to the bind fails, or the socket's handle is 0, it ends at once, without having sent.
-- Otherwise, whatever the system answers and the peers send, every round goes through, the server
-- stays valid, so that its loop never ends, and each datagram that it ever sends is the buffer of
-- RunService as it was found in that round.
pub run_server_lem :
    (junk : ℕ) (started : Bool) (handle : Option ℕ) (option_set bound : Bool) (rounds : List Round)
    → (sent : List (List (SocketPair × List ℕ))) × (t : UdpServer) × (run_server started handle
          option_set bound rounds
          (new junk)
        ≡ some (sent, t))
      × (t.is_valid ≡ comes_up started handle option_set bound)
      × (if comes_up started handle option_set bound then Unwritten rounds sent else (sent ≡ []))
unfolding run_server new
run_server_lem junk started handle option_set bound rounds =
    let s = init started handle option_set bound (new junk) in
    let valid = init_valid junk started handle option_set bound in
    let branches : Bool → Option (List Sent × UdpServer) =
      λ b. if not b then some ([], s) else serve_rounds rounds s in
    elim (Bool-cases (comes_up started handle option_set bound)) [
      | inl up ↦
          let past =
            subst AllPast (sym (init_connections started handle option_set bound (new junk))) tt in
          let (sent, t, ran, still, unwritten) = serve_rounds_lem rounds s (valid ∙ up) past in
          (sent, t, ap branches (valid ∙ up) ∙ ran, still ∙ sym up, rw up unwritten)
      | inr down ↦ ([], s, ap branches (valid ∙ down), valid, rw down refl)
    ]
