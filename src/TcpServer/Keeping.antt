-- ===== src/TcpServer/Keeping.antt =====
-- The queued packets in any run of the server.
use socket_cplus_plus.Prelude.{ℕ, List, []}
use socket_cplus_plus.PacketFactory.{Pointer}
use socket_cplus_plus.TcpServer.{TcpConnection, TcpServer, modify}
use socket_cplus_plus.TcpServer.Owning.{queued}

-- What is queued for all others.
abbrev others : ℕ → List TcpConnection → List Pointer
others conn cs = queued (modify conn (λ c. record c { inward_packets = [] }) cs)
