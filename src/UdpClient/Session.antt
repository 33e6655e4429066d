-- ===== src/UdpClient/Session.antt =====
-- The client and the server of UDP01-ThreadedServer together.
use socket_cplus_plus.Prelude.{
  ℕ, ◌≡◌, ◌⊎◌, refl, sym, ap, ◌∙◌, inl, inr, Bool, true, false, Option, none, some, List, [], ◌∷◌,
  ◌++◌, map, length, take, drop, take-append-drop, drop-beyond, length-drop, append-nil,
  if◌then◌else◌, ltb, arith,
}
use socket_cplus_plus.Prelude.Maps.{pair_key, pair_same, pair_same_iff, find}
use socket_cplus_plus.Connection.{
  send_connection_id, connection_failed, CommsStateMachine, connection, handle_data_in,
}
use socket_cplus_plus.Connection.Handshake.{hello}
use socket_cplus_plus.Connection.Client.{greeting, greeted_reply, connection_greeted}
use socket_cplus_plus.ThreadedServer.{
  SocketPair, UdpServer, new, Answer, received, ready, receive, service_outgoing_connections,
}
use socket_cplus_plus.ThreadedServer.Datagrams.{machine_at, receive_one}
use socket_cplus_plus.ThreadedServer.Serving.{Reaches, goes, receives, service_unwritten}
use socket_cplus_plus.UdpClient.{slen, buffer_size, Client, Outcome, asleep, main}
use socket_cplus_plus.UdpClient.Once.{main_sends_once, replied}

-- How the server stands when the client's datagram, the handshake in front of what its own buffer
-- held, is in.
abbrev pub greeted_server : ℕ → SocketPair → List ℕ → List Answer → UdpServer → UdpServer
greeted_server junk client behind answers s =
    receive ready none junk (received 6 client (hello true ++ behind) ∷ answers) s

-- The server has a machine past the handshake for the client.
abbrev pub Past : SocketPair → UdpServer → Type 0
Past client s =
    (c : CommsStateMachine) × (find client s.connections ≡ some c)
    × (c.current_state ≡ send_connection_id)

-- The client sleeps, with one datagram sent, and either its connection has failed, or the reply
-- begins with a server's handshake.
abbrev pub Ended : List ℕ → Outcome → Type 0
Ended reply o =
    (c : Client) × (o ≡ asleep c)
    × (c.sent ≡ hello true ∷ [])
    × (((rest : List ℕ) × (reply ≡ hello false ++ rest)) ⊎ (c.sm.current_state ≡ connection_failed))

-- A reply that fills the buffer leaves nothing else in it.
replied_whole :
    (stack reply : List ℕ)
    → length stack ≡ buffer_size
    → length reply ≡ buffer_size
    → reply ++ drop (length reply) (greeting stack) ≡ reply
replied_whole stack reply whole full =
    let gone : drop (length reply) (greeting stack) ≡ [] =
      drop-beyond (length reply) (greeting stack)
        (omega (arith, whole, full, length-drop 5 (drop 2 stack), length-drop 2 stack)) in
    ap (λ r. reply ++ r) gone ∙ append-nil reply

replied-Ended :
    (handle junk : ℕ) (stack reply : List ℕ) (answers : List (Bool × Option (List ℕ)))
    → length stack ≡ buffer_size
    → length reply ≡ buffer_size
    → Ended reply (main true (some handle) junk stack ((true, some reply) ∷ answers))
replied-Ended handle junk stack reply answers whole full =
    let fits : ltb buffer_size (length reply) ≡ false = ground (arith, full) in
    let filled = reply ++ drop (length reply) (greeting stack) in
    let ran : main true (some handle) junk stack ((true, some reply) ∷ answers)
        ≡ asleep (replied junk stack reply) =
      main_sends_once handle junk stack ((true, some reply) ∷ answers) whole ∙ rw fits refl in
    let seen : ((rest : List ℕ) × (reply ≡ hello false ++ rest))
        ⊎ ((replied junk stack reply).sm.current_state ≡ connection_failed) =
      elim (greeted_reply junk (take slen filled)) [
        | inl (rest, starts) ↦ inl (
          rest ++ drop slen filled,
          sym (replied_whole stack reply whole full)
              ∙ sym (take-append-drop slen filled)
              ∙ ap (λ r. r ++ drop slen filled) starts,
        )
        | inr lost ↦ inr lost
      ] in
    (replied junk stack reply, ran, refl, seen)

-- A client whose six bytes reach a server in any state that a run leaves it in, where the server does
-- not know the client, getpeername fails, and both buffers have their 1024 bytes: the server takes the
-- client past the handshake, and answers with its buffer as it was found. The client takes that for
-- the server's handshake only if it happens to begin with one; else its connection has failed. Either
-- way it sends nothing more, for whatever the system answers.
pub session :
    (server_junk junk handle : ℕ) (s : UdpServer) (client : SocketPair)
    (behind stack unwritten : List ℕ) (later : List Answer)
    (answers : List (Bool × Option (List ℕ)))
    → Reaches (new server_junk) s
    → find client s.connections ≡ none
    → length stack ≡ buffer_size
    → length unwritten ≡ buffer_size
    → Past client (greeted_server junk client behind later s)
      × (service_outgoing_connections unwritten (greeted_server junk client behind later s)
          ≡ some (
            map
                (λ (r : SocketPair × CommsStateMachine). (r.0, unwritten))
                (greeted_server junk client behind later s).connections,
            greeted_server junk client behind later s,
          ))
      × Ended unwritten (main true (some handle) junk stack ((true, some unwritten) ∷ answers))
session server_junk junk handle s client behind stack unwritten later answers run fresh whole full =
    let t = greeted_server junk client behind later s in
    let taken =
      receive_one s client client (hello true ++ behind) 6 junk later (omega arith) (omega arith) in
    let mine : pair_same client client ≡ true = (pair_same_iff client client).1 refl in
    let new_one : machine_at junk client s ≡ connection junk =
      ap (λ (o : Option CommsStateMachine). elim o [ none ↦ connection junk | some c ↦ c ]) fresh in
    let found : find client t.connections
        ≡ some (handle_data_in (connection junk) (hello true ++ behind)) =
      taken
      ∙ ap
          (λ b.
            if b
            then some (handle_data_in (machine_at junk client s) (hello true ++ behind))
            else find client s.connections)
          mine
      ∙ ap (λ c. some (handle_data_in c (hello true ++ behind))) new_one in
    (
      (
        handle_data_in (connection junk) (hello true ++ behind),
        found,
        connection_greeted junk behind,
      ),
      service_unwritten server_junk t unwritten (
          goes run
            (receives ready none junk (received 6 client (hello true ++ behind) ∷ later) refl)),
      replied-Ended handle junk stack unwritten answers whole full,
    )
