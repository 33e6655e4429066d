-- ===== src/TcpServer/Threader.antt =====
-- TCPThreader of UDP01/OldCode/Socket/Socket.h and Socket.cpp, which owns a server and runs its two
-- loops. The thread that TCPServer::Start detaches is taken to run at once. What the library's
-- handlers do in a round is an argument; TcpServer.Scheduling has what they can do. Not modelled are
-- the making of the threads that run them, the signal_set that is local to BeginService, and the
-- destructor, which joins the threads.
pub mod Rounds
use socket_cplus_plus.Prelude.{ℕ, Bool, true, false, Option, none, some, length, if◌then◌else◌}
use socket_cplus_plus.TcpServer.{
  TcpServer, new, begin_accepting_new_connections, cleanup_closed_connections, handle_reschedule,
}

-- `has_work` is whether the work guard keeps the library from running out of work.
pub record TcpThreader : Type 0 where
  pub tcp_server : Option TcpServer
  pub has_work : Bool
  pub port_address : ℕ
  pub is_thread_running : Bool

pub new_threader : ℕ → TcpThreader
new_threader port_addr = record {
  tcp_server = none;
  has_work = true;
  port_address = port_addr;
  is_thread_running = false;
}

-- `junk` is the id that a connection's constructor leaves.
pub begin_service : ℕ → TcpThreader → TcpThreader
begin_service junk t = record t {
  tcp_server = some (begin_accepting_new_connections junk new);
  is_thread_running = true;
}

pub is_connected : TcpThreader → Bool
is_connected t = elim t.tcp_server [ none ↦ false | some s ↦ s.is_accepting ]

pub prepare_stop : TcpThreader → TcpThreader
prepare_stop t = record t { is_thread_running = false }

pub stop : TcpThreader → TcpThreader
stop t = record t { has_work = false }

-- Without a server it is a call through a null pointer.
pub num_connected_clients : TcpThreader → Option ℕ
num_connected_clients t = elim t.tcp_server [
  | none ↦ none
  | some s ↦ some (length s.connections_made)
]

-- The first half of a round of ThreadRun, once the library has run.
pub clean_round : TcpThreader → Option TcpThreader
clean_round t =
    if t.is_thread_running
    then elim t.tcp_server [
      | none ↦ none
      | some s ↦ some (record t { tcp_server = some (cleanup_closed_connections s) })
    ]
    else some t

-- The second half. In between, another thread may have called prepare_stop.
pub reschedule_round : TcpThreader → Option TcpThreader
reschedule_round t =
    if t.is_thread_running
    then elim t.tcp_server [
      | none ↦ none
      | some s ↦ some (record t { tcp_server = some (handle_reschedule s) })
    ]
    else some t

-- What handlers of the library do, by what becomes of the server.
abbrev pub handled : (TcpServer → TcpServer) → TcpThreader → TcpThreader
handled handlers t = record t {
  tcp_server = elim t.tcp_server [ none ↦ none | some s ↦ some (handlers s) ];
}

-- A round in which the library's `run` returns. `run` is what handlers do until then and in the pause
-- behind it, `between` what they do, on the other threads, between the two halves.
pub thread_round :
    (TcpServer → TcpServer) → (TcpServer → TcpServer) → Bool → TcpThreader → Option TcpThreader
thread_round run between stopped_between t = elim (clean_round (handled run t)) [
  | none ↦ none
  | some u ↦ reschedule_round (handled between (if stopped_between then prepare_stop u else u))
]
