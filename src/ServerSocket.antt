-- ===== src/ServerSocket.antt =====
-- ServerSocket of UDP01/OldCode/Socket/ServerSocket.h, which owns a TCPThreader: its constructor and its
-- count of clients. Its listeners are those of Observers. The destructor is not modelled: it waits for
-- the threads that run the library.
pub mod Clients
use socket_cplus_plus.Prelude.{ℕ, Option, none, some, []}
use socket_cplus_plus.Observers.{Listeners}
use socket_cplus_plus.TcpServer.Threader.{
  TcpThreader, new_threader, begin_service, num_connected_clients,
}

pub record ServerSocket : Type 0 where
  pub threader : Option TcpThreader
  pub listeners : Listeners

-- `junk` is the id that a connection's constructor leaves.
pub new_server_socket : ℕ → ℕ → ServerSocket
new_server_socket junk port = record {
  threader = some (begin_service junk (new_threader port));
  listeners = [];
}

pub num_connected : ServerSocket → Option ℕ
num_connected s = elim s.threader [ none ↦ some 0 | some t ↦ num_connected_clients t ]
