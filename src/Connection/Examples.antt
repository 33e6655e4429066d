-- ===== src/Connection/Examples.antt =====
-- Runs of the handshake.
use socket_cplus_plus.Prelude.{
  ℕ, ◌≡◌, refl, ap, Bool, true, false, some, List, [], ◌∷◌, ◌++◌, replicate, arith,
}
use socket_cplus_plus.Connection.{
  State, send_handshake, send_connection_id, CommsStateMachine, new, data_send, data_receive,
  write_protocol_sentinel, copy_library_id, run_service, ready_to_send,
}
use socket_cplus_plus.Connection.Handshake.{hello, data_receive_sound, data_receive-data_send}
use socket_cplus_plus.Connection.States.{receives, stays, goes, is_early, new-Reaches}

abbrev machine : State → Bool → Bool → CommsStateMachine
machine state iniates sent = record {
  current_state = state;
  iniates = iniates;
  has_sent_state = sent;
  conn_id = 0;
}

abbrev client : CommsStateMachine
client = machine send_handshake true false

abbrev server : CommsStateMachine
server = machine send_handshake false false

abbrev greeting : List ℕ
greeting = hello true ++ (0 ∷ 9 ∷ [])

client_sends :
    data_send client (replicate 8 9) ≡ some (true, 6, greeting, machine send_handshake true true)
unfolding data_send write_protocol_sentinel copy_library_id
client_sends = refl

data_receive-data_send_example :
    data_receive server greeting ≡ (true, machine send_connection_id false false)
data_receive-data_send_example =
    data_receive-data_send client server (machine send_handshake true true) (replicate 8 9) greeting
      true 6 refl refl (omega arith) client_sends

server_takes : (data_receive server greeting).0 ≡ true
server_takes =
    ap (λ r. r.0)
      (data_receive-data_send client server (machine send_handshake true true) (replicate 8 9)
        greeting true 6 refl refl (omega arith) client_sends)

data_receive_sound_example : (rest : List ℕ) × (greeting ≡ hello true ++ rest)
data_receive_sound_example = data_receive_sound server greeting refl server_takes

new-Reaches_example :
    (is_early (data_receive (new 0 true) (5 ∷ [])).1.current_state ≡ true)
    × ((data_receive (new 0 true) (5 ∷ [])).1.iniates ≡ false)
    × ((data_receive (new 0 true) (5 ∷ [])).1.conn_id ≡ 0)
new-Reaches_example = new-Reaches 0 true (data_receive (new 0 true) (5 ∷ [])).1 (
    goes (new 0 true) (data_receive (new 0 true) (5 ∷ [])).1 (data_receive (new 0 true) (5 ∷ [])).1
      (receives (new 0 true) (5 ∷ [])) (stays (data_receive (new 0 true) (5 ∷ [])).1))

server_serves :
    run_service server (replicate 8 9)
    ≡ some (some (hello false ++ (0 ∷ 9 ∷ [])), machine send_handshake false true)
unfolding run_service ready_to_send data_send write_protocol_sentinel copy_library_id
server_serves = refl
