-- ===== src/ThreadedServer/Examples.antt =====
-- Runs of the server: its set-up, and one peer that greets it.
use socket_cplus_plus.Prelude.{ℕ, ◌≡◌, true, false, none, some, List, [], ◌∷◌, ◌++◌, replicate}
use socket_cplus_plus.Prelude.Maps.{pair_key}
use socket_cplus_plus.Connection.Handshake.{hello}
use socket_cplus_plus.ThreadedServer.{
  SocketPair, UdpServer, new, init, received, receive, ready, Round, run_server, timed_out,
}
use socket_cplus_plus.ThreadedServer.Running.{Unwritten, run_server_lem}
use socket_cplus_plus.ThreadedServer.Setup.{init_lem}

-- The bind fails.
init_lem_example :
    ((init true (some 7) true false (new 3)).is_valid ≡ false)
    × ((init true (some 7) true false (new 3)).open_sockets ≡ 7 ∷ [])
    × ((init true (some 7) true false (new 3)).startups ≡ 1)
init_lem_example = init_lem 3 7 true true false

abbrev a_peer : SocketPair
a_peer = (167772161, 40000)

abbrev a_datagram : List ℕ
a_datagram = hello true ++ replicate 1018 0

abbrev greeted : UdpServer
greeted = receive ready none 0 (received 7 a_peer a_datagram ∷ []) (new 3)

-- A round in which the peer's datagram comes, and one without.
abbrev two_rounds : List Round
two_rounds =
    record {
      timing = ready;
      peer = none;
      junk = 0;
      answers = received 7 a_peer a_datagram ∷ [];
      stack = 9 ∷ 9 ∷ [];
    }
    ∷ record { timing = timed_out; peer = none; junk = 0; answers = []; stack = 5 ∷ [] }
    ∷ []

run_server_lem_example :
    (sent : List (List (SocketPair × List ℕ))) × (t : UdpServer) × (run_server true
        (some 7)
        true
        true
        two_rounds
        (new 3)
      ≡ some (sent, t))
    × (t.is_valid ≡ true)
    × Unwritten two_rounds sent
run_server_lem_example = run_server_lem 3 true (some 7) true true two_rounds
