-- ===== src/ThreadedServer/Datagrams.antt =====
-- Where a datagram goes.
use socket_cplus_plus.Prelude.{
  ℕ, ◌≤◌, ◌<◌, ◌≡◌, ap, ◌∙◌, Option, none, some, List, ◌∷◌, if◌then◌else◌, arith,
}
use socket_cplus_plus.Prelude.Maps.{pair_key, pair_same, find, find-assign}
use socket_cplus_plus.Connection.{CommsStateMachine, connection, handle_data_in}
use socket_cplus_plus.ThreadedServer.{
  SocketPair, UdpServer, buf_length, Answer, received, pass_buffer_to_connection,
  receive_all_data_from_endpoint, ready, receive,
}

-- The machine under an address: a new one where there is none.
abbrev pub machine_at : ℕ → SocketPair → UdpServer → CommsStateMachine
machine_at junk pair s = elim (find pair s.connections) [ none ↦ connection junk | some c ↦ c ]

-- The loop makes one round.
pub one_round :
    (s : UdpServer) (peer : Option SocketPair) (sender : SocketPair) (buffer : List ℕ) (n junk : ℕ)
    (answers : List Answer)
    → 0 < n
    → n ≤ buf_length
    → receive ready peer junk (received n sender buffer ∷ answers) s
      ≡ pass_buffer_to_connection peer sender buffer junk s
unfolding receive receive_all_data_from_endpoint
one_round s peer sender buffer n junk answers some_bytes few = ground arith

-- Where the system keeps what recvfrom promises, no more bytes than the buffer has, a socket that is
-- ready takes one datagram, of the first sender: the machine under the sender's address, a new one
-- where there was none, gets the buffer, and every other address keeps the connection that it has.
-- Later answers are never asked for.
pub receive_one :
    (s : UdpServer) (sender other : SocketPair) (buffer : List ℕ) (n junk : ℕ)
    (answers : List Answer)
    → 0 < n
    → n ≤ buf_length
    → find other (receive ready none junk (received n sender buffer ∷ answers) s).connections ≡ (
        if pair_same sender other
        then some (handle_data_in (machine_at junk sender s) buffer)
        else find other s.connections)
unfolding pass_buffer_to_connection
receive_one s sender other buffer n junk answers some_bytes few =
    ap (λ t. find other t.connections)
      (one_round s none sender buffer n junk answers some_bytes few)
    ∙ find-assign sender other (handle_data_in (machine_at junk sender s) buffer) s.connections
