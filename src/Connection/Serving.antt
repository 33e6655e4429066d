-- ===== src/Connection/Serving.antt =====
-- A server's connection once its first datagram is in.
use socket_cplus_plus.Prelude.{ℕ, ◌≡◌, ◌≢◌, true, false, some, List, arith}
use socket_cplus_plus.Connection.{
  send_handshake, CommsStateMachine, new, connection, data_receive, read_protocol_sentinel,
  data_send, ready_to_send, is_expecting_receive, handle_data_in, needs_service, run_service,
  has_expired,
}

-- It has left the handshake, without having sent.
abbrev pub IsPast : CommsStateMachine → Type 0
IsPast m = (m.current_state ≢ send_handshake) × (m.has_sent_state ≡ false)

pub connection-IsPast :
    (junk : ℕ) (buffer : List ℕ) → IsPast (handle_data_in (connection junk) buffer)
unfolding handle_data_in connection new data_receive read_protocol_sentinel
connection-IsPast junk buffer = ground arith

pub handle_data_in-IsPast :
    (m : CommsStateMachine) (buffer : List ℕ) → IsPast m → IsPast (handle_data_in m buffer)
unfolding handle_data_in data_receive
handle_data_in-IsPast m buffer past = ground arith

pub run_service-IsPast :
    (m : CommsStateMachine) (stack : List ℕ) → IsPast m → run_service m stack ≡ some (some stack, m)
unfolding run_service ready_to_send data_send
run_service-IsPast m stack past = ground arith

pub served_always : (m : CommsStateMachine) → (needs_service m ≡ true) × (has_expired m ≡ false)
unfolding needs_service is_expecting_receive has_expired
served_always m = ground arith
