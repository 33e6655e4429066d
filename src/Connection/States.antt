-- ===== src/Connection/States.antt =====
-- The states of the machine under any sequence of sends and receives.
use socket_cplus_plus.Prelude.{
  ℕ, ◌≤◌, ◌≡◌, ◌≢◌, refl, sym, ap, ◌∙◌, Bool, true, false, not, Option, none, some, List, length,
  some_inj, arith,
}
use socket_cplus_plus.Connection.{
  State, send_handshake, send_connection_id, connection_failed, CommsStateMachine, new,
  copy_library_id, data_send, read_protocol_sentinel, data_receive, ready_to_send, run_service,
}

pub data Step : CommsStateMachine → CommsStateMachine → Type 0 where
  sends :
      (m after : CommsStateMachine) (buffer sent : List ℕ) (ok : Bool) (used : ℕ)
      → data_send m buffer ≡ some (ok, used, sent, after)
      → Step m after
  receives : (m : CommsStateMachine) (buffer : List ℕ) → Step m (data_receive m buffer).1

pub data Reaches : CommsStateMachine → CommsStateMachine → Type 0 where
  stays : (m : CommsStateMachine) → Reaches m m
  goes : (l m n : CommsStateMachine) → Step l m → Reaches m n → Reaches l n

-- The states that the code knows how to enter.
abbrev pub is_early : State → Bool
is_early send_handshake = true
is_early send_connection_id = true
is_early connection_failed = true
is_early _ = false

send_idle :
    (m : CommsStateMachine) (buffer : List ℕ)
    → m.current_state ≢ send_handshake
    → data_send m buffer ≡ some (true, 0, buffer, m)
unfolding data_send
send_idle m buffer h = ground arith

receive_idle :
    (m : CommsStateMachine) (buffer : List ℕ)
    → m.current_state ≢ send_handshake
    → data_receive m buffer ≡ (true, m)
unfolding data_receive
receive_idle m buffer h = ground arith

-- Once it has left the handshake, no call changes the machine: a failed one stays failed.
pub Step-settled : (m n : CommsStateMachine) → Step m n → m.current_state ≢ send_handshake → n ≡ m
Step-settled m n (sends l after buffer sent ok used e) h =
    sym (ap (λ r. r.3) (some_inj (sym (send_idle l buffer h) ∙ e)))
Step-settled m n (receives l buffer) h = ap (λ r. r.1) (receive_idle l buffer h)

-- What one call makes of a machine that has not left the states that are known.
abbrev Kept : CommsStateMachine → CommsStateMachine → Type 0
Kept m n = (is_early n.current_state ≡ true) × (n.iniates ≡ m.iniates) × (n.conn_id ≡ m.conn_id)

send-Kept :
    (m after : CommsStateMachine) (buffer sent : List ℕ) (ok : Bool) (used : ℕ)
    → is_early m.current_state ≡ true
    → data_send m buffer ≡ some (ok, used, sent, after)
    → Kept m after
unfolding data_send copy_library_id
send-Kept m after buffer sent ok used h e = ground arith

receive-Kept :
    (m : CommsStateMachine) (buffer : List ℕ)
    → is_early m.current_state ≡ true
    → Kept m (data_receive m buffer).1
unfolding data_receive read_protocol_sentinel
receive-Kept m buffer h = ground arith

Step-Kept : (m n : CommsStateMachine) → Step m n → is_early m.current_state ≡ true → Kept m n
Step-Kept m n (sends l after buffer sent ok used e) h = send-Kept l after buffer sent ok used h e
Step-Kept m n (receives l buffer) h = receive-Kept l buffer h

run-Kept : (m n : CommsStateMachine) → Reaches m n → is_early m.current_state ≡ true → Kept m n
run-Kept m n (stays l) h = (h, refl, refl)
run-Kept m n (goes a b c s r) h =
    let (early, role, id) = Step-Kept a b s h in
    let (early', role', id') = run-Kept b c r early in (early', role' ∙ role, id' ∙ id)

-- Whatever is sent and received, a new machine keeps its role and its connection id, and is waiting
-- for the handshake, waiting for the connection id, or failed.
pub new-Reaches :
    (junk : ℕ) (is_server : Bool) (m : CommsStateMachine)
    → Reaches (new junk is_server) m
    → (is_early m.current_state ≡ true) × (m.iniates ≡ not is_server) × (m.conn_id ≡ junk)
unfolding new
new-Reaches junk is_server m r = run-Kept (new junk is_server) m r refl

-- The service of a machine that has yet to send puts its handshake out and marks it as sent; the next
-- service sends nothing and changes nothing.
pub run_service_once :
    (m after : CommsStateMachine) (stack later : List ℕ) (sent : Option (List ℕ))
    → m.current_state ≡ send_handshake
    → m.has_sent_state ≡ false
    → 6 ≤ length stack
    → run_service m stack ≡ some (sent, after)
    → (after.has_sent_state ≡ true) × (run_service after later ≡ some (none, after))
unfolding run_service ready_to_send data_send copy_library_id
run_service_once m after stack later sent e unsent long ran = ground arith
