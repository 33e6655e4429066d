-- ===== src/Connection/Client.antt =====
-- The machine of the side that starts: it sends its handshake, and after that nothing makes it ready
-- to send again.
use socket_cplus_plus.Prelude.{
  ℕ, ◌≤◌, ◌≡◌, ◌⊎◌, refl, ap, inl, inr, Bool, true, false, some, List, ◌∷◌, ◌++◌, length, drop,
  Bool-cases, arith,
}
use socket_cplus_plus.Connection.{
  send_handshake, send_connection_id, connection_failed, CommsStateMachine, new, data_receive,
  read_protocol_sentinel, data_send, ready_to_send, is_expecting_receive, connection,
  handle_data_in,
}
use socket_cplus_plus.Connection.Handshake.{
  hello, data_send-hello, data_receive-hello, data_receive_sound,
}

-- The machine of a client that has sent its handshake.
abbrev pub has_greeted : ℕ → CommsStateMachine
has_greeted junk = record {
  current_state = send_handshake;
  iniates = true;
  has_sent_state = true;
  conn_id = junk;
}

-- The buffer with the handshake and its zero in front.
abbrev pub greeting : List ℕ → List ℕ
greeting stack = hello true ++ (0 ∷ drop 5 (drop 2 stack))

pub new-data_send :
    (junk : ℕ) (stack : List ℕ)
    → 7 ≤ length stack
    → data_send (new junk false) stack ≡ some (true, 6, greeting stack, has_greeted junk)
unfolding new
new-data_send junk stack long =
    data_send-hello
      (record {
        current_state = send_handshake;
        iniates = true;
        has_sent_state = false;
        conn_id = junk;
      })
      stack refl long

pub new_ready : (junk : ℕ) → ready_to_send (new junk false) ≡ true
unfolding new ready_to_send
new_ready junk = refl

pub always_expecting : (m : CommsStateMachine) → is_expecting_receive m ≡ true
unfolding is_expecting_receive
always_expecting m = refl

-- No reply makes it ready to send again.
pub greeted_once :
    (junk : ℕ) (buffer : List ℕ) → ready_to_send (data_receive (has_greeted junk) buffer).1 ≡ false
unfolding ready_to_send data_receive read_protocol_sentinel
greeted_once junk buffer = ground arith

-- A reply that does not begin with a server's handshake is the end of the connection.
pub greeted_failed :
    (junk : ℕ) (buffer : List ℕ)
    → (data_receive (has_greeted junk) buffer).0 ≡ false
    → (data_receive (has_greeted junk) buffer).1.current_state ≡ connection_failed
unfolding data_receive read_protocol_sentinel
greeted_failed junk buffer e = ground arith

pub greeted_reply :
    (junk : ℕ) (buffer : List ℕ)
    → ((rest : List ℕ) × (buffer ≡ hello false ++ rest))
      ⊎ ((data_receive (has_greeted junk) buffer).1.current_state ≡ connection_failed)
greeted_reply junk buffer = elim (Bool-cases (data_receive (has_greeted junk) buffer).0) [
  | inl taken ↦ inl (data_receive_sound (has_greeted junk) buffer refl taken)
  | inr refused ↦ inr (greeted_failed junk buffer refused)
]

-- A server's machine takes the handshake of a client.
pub connection_greeted :
    (junk : ℕ) (behind : List ℕ)
    → (handle_data_in (connection junk) (hello true ++ behind)).current_state ≡ send_connection_id
unfolding connection new handle_data_in
connection_greeted junk behind =
    ap (λ (r : Bool × CommsStateMachine). r.1.current_state)
      (data_receive-hello
        (record {
          current_state = send_handshake;
          iniates = false;
          has_sent_state = false;
          conn_id = junk;
        })
        true behind refl)
