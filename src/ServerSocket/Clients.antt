-- ===== src/ServerSocket/Clients.antt =====
-- The number of clients.
use socket_cplus_plus.Prelude.{ℕ, ◌≡◌, some}
use socket_cplus_plus.TcpServer.Threader.{new_threader}
use socket_cplus_plus.TcpServer.Threader.Rounds.{num_connected_clients-begin_service}
use socket_cplus_plus.ServerSocket.{new_server_socket, num_connected}

-- A new ServerSocket has no clients, and asks a server that exists.
num_connected-new_server_socket :
    (junk port : ℕ) → num_connected (new_server_socket junk port) ≡ some 0
unfolding num_connected new_server_socket
num_connected-new_server_socket junk port =
    num_connected_clients-begin_service junk (new_threader port)
