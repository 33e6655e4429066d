-- ===== src/UdpClient/Examples.antt =====
-- Runs of the client: with a server's handshake as the reply, and with the server's buffer of zeros.
use socket_cplus_plus.Prelude.{
  ℕ, ◌≡◌, true, false, Bool, Option, some, List, [], ◌∷◌, map, length, length-replicate, replicate,
}
use socket_cplus_plus.Connection.{CommsStateMachine}
use socket_cplus_plus.Connection.Handshake.{hello}
use socket_cplus_plus.ThreadedServer.{SocketPair, UdpServer, new, service_outgoing_connections}
use socket_cplus_plus.ThreadedServer.Setup.{new_unknown}
use socket_cplus_plus.ThreadedServer.Serving.{stays}
use socket_cplus_plus.UdpClient.{main}
use socket_cplus_plus.UdpClient.Once.{expected, main_sends_once}
use socket_cplus_plus.UdpClient.Session.{greeted_server, Past, Ended, session}

abbrev zeros : List ℕ
zeros = replicate 1024 0

zeros-length : length zeros ≡ 1024
zeros-length = length-replicate {A = ℕ} 1024 0

abbrev answers : List (Bool × Option (List ℕ))
answers = (true, some (hello false)) ∷ (true, some (hello false)) ∷ []

main_sends_once_example : main true (some 5) 7 zeros answers ≡ expected 7 zeros answers
main_sends_once_example = main_sends_once 5 7 zeros answers zeros-length

-- 127.0.0.1, and a port of the client's.
abbrev local_client : SocketPair
local_client = (2130706433, 40000)

abbrev greeted : UdpServer
greeted = greeted_server 7 local_client [] [] (new 3)

session_example :
    Past local_client greeted
    × (service_outgoing_connections zeros greeted
        ≡ some (
          map (λ (r : SocketPair × CommsStateMachine). (r.0, zeros)) greeted.connections,
          greeted,
        ))
    × Ended zeros (main true (some 5) 7 zeros ((true, some zeros) ∷ answers))
session_example =
    session 3 7 5 (new 3) local_client [] zeros zeros [] answers stays (new_unknown 3 local_client)
      zeros-length zeros-length
