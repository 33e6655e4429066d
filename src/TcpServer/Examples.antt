-- ===== src/TcpServer/Examples.antt =====
-- Runs of the server: a frame that arrives, and a peer that connects and leaves.
use socket_cplus_plus.Prelude.{
  ℕ, ◌≡◌, ◌≢◌, refl, Option, true, false, none, some, [], ◌∷◌, ◌++◌, length, replicate, arith,
}
use socket_cplus_plus.Prelude.Maps.{pair_key}
use socket_cplus_plus.Serialize.Hosts.{little_endian}
use socket_cplus_plus.CircularBuffer.{get}
use socket_cplus_plus.Packets.Classes.{position_class, create, create-SameClass}
use socket_cplus_plus.Packets.Examples.{a_position, a_position-Fits}
use socket_cplus_plus.PacketFactory.{Factory, moved}
use socket_cplus_plus.PacketFactory.Examples.{a_factory, a_ring, a_factory_makes}
use socket_cplus_plus.SizePacket.Frames.{frame}
use socket_cplus_plus.TcpServer.{
  TcpConnection, TcpServer, Outcome, modify, handle_reschedule, new, unfinished, fault, finished,
  receive, begin_accepting_new_connections, new_connection_accepted_handler,
  cleanup_closed_connections, is_closed, reschedule_me, set_server, set_connection_id,
  create as create_connection,
}
use socket_cplus_plus.TcpServer.Receiving.{receive_ends}
use socket_cplus_plus.TcpServer.Frames.{
  Served, nothing, another, send_message-frame, receive-frames, receive-send_message,
}
use socket_cplus_plus.TcpServer.Places.{times, Placed}
use socket_cplus_plus.TcpServer.Scheduling.{accept_ends, reschedules, cleans, stays, goes, Reaches}
use socket_cplus_plus.TcpServer.Runs.{Reaches-Placed}
use socket_cplus_plus.TcpServer.Threader.{TcpThreader, thread_round}
use socket_cplus_plus.TcpServer.Threader.Rounds.{Attended, thread_round-Attended}
use socket_cplus_plus.TcpServer.Numbers.{connection_id_unique}

abbrev drawn_factory : Factory
drawn_factory = record a_factory { creation_pool = ((2, 1), (get none moved a_ring).1) ∷ [] }

abbrev filled_factory : Factory
filled_factory = record drawn_factory { heap = a_position ∷ [] }

a_position-Served : Served a_factory (a_position ∷ []) (0 ∷ []) filled_factory
a_position-Served =
    another a_factory_makes refl (create-SameClass 0 a_position) a_position-Fits nothing

receive_ends_example : receive (replicate 9 1) 9 [] a_factory ≢ unfinished
receive_ends_example = receive_ends (replicate 9 1) 9 [] a_factory

receive-frames_example :
    receive (frame a_position ++ replicate 3 0) (length (frame a_position)) [] a_factory
    ≡ finished (some 0 ∷ []) filled_factory
receive-frames_example =
    receive-frames a_factory filled_factory (a_position ∷ []) (0 ∷ []) (replicate 3 0) []
      a_position-Served (omega arith)

receive-send_message_example :
    receive (frame a_position ++ replicate 3 0) (length (frame a_position)) [] a_factory
    ≡ finished (some 0 ∷ []) filled_factory
receive-send_message_example =
    receive-send_message a_position (create 0 position_class) (replicate 120 0) (replicate 3 0)
      (frame a_position) a_factory drawn_factory 0 [] a_position-Fits (omega arith)
      (send_message-frame a_position (replicate 120 0) a_position-Fits (omega arith))
      a_factory_makes refl (create-SameClass 0 a_position) (omega arith)

abbrev listening : TcpServer
listening = begin_accepting_new_connections 0 new

abbrev accepted : TcpServer
accepted = new_connection_accepted_handler 0 0 false (record listening { accepts = [] })

accepted-Reaches : Reaches listening a_factory accepted a_factory
unfolding begin_accepting_new_connections new
accepted-Reaches = goes stays (accept_ends 0 0 false [] [] refl refl refl)

Reaches-Placed_example : Placed accepted 0
Reaches-Placed_example = Reaches-Placed 0 a_factory accepted a_factory accepted-Reaches 0

connection_id_unique_example : ◌≡◌ {A = ℕ} 1 1
unfolding begin_accepting_new_connections new_connection_accepted_handler reschedule_me set_server
    set_connection_id create_connection new
connection_id_unique_example =
    connection_id_unique 0 a_factory accepted a_factory 1 1
      (set_connection_id 1025 (create_connection 0)) (set_connection_id 1025 (create_connection 0))
      accepted-Reaches (omega arith) refl refl refl

abbrev serving : TcpThreader
serving = record {
  tcp_server = some accepted;
  has_work = true;
  port_address = 1313;
  is_thread_running = true;
}

thread_round-Attended_example :
    (u : TcpServer) × (thread_round handle_reschedule cleanup_closed_connections false serving
      ≡ some (record serving { tcp_server = some u }))
    × (u.connections_awaiting_schedule ≡ [])
    × ((a : ℕ)
        → is_closed (handle_reschedule accepted).connections a ≡ true
        → times a u.connections_made ≡ 0)
    × ((a : ℕ) → Attended u a)
thread_round-Attended_example =
    thread_round-Attended 0 a_factory a_factory a_factory a_factory accepted handle_reschedule
      cleanup_closed_connections serving accepted-Reaches (goes stays (reschedules refl refl))
      (goes stays (cleans refl refl)) refl refl

-- The connection reads a frame.
abbrev reading : TcpServer
reading = record accepted { connections_awaiting_schedule = []; reads = 0 ∷ [] }

abbrev a_read : TcpServer
a_read = record reading {
  reads = [];
  connections_awaiting_schedule = 0 ∷ [];
  connections =
      modify 0 (λ (c : TcpConnection). record c { inward_packets = some 0 ∷ [] })
        reading.connections;
}

abbrev answered : Outcome → Option (TcpServer × Factory)
answered unfinished = none
answered fault = none
answered (finished packets g) = some (
  reschedule_me 0 (record reading {
    reads = [];
    connections =
        modify 0 (λ (t : TcpConnection). record t { inward_packets = packets }) reading.connections;
  }),
  g,
)
