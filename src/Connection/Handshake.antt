-- ===== src/Connection/Handshake.antt =====
-- The handshake between two machines: what one sends, the other takes, if it has the other role.
use socket_cplus_plus.Prelude.{
  ℕ, ◌-◌, ◌≤◌, ◌≡◌, sym, ap, ◌∙◌, Bool, true, false, not, none, some, List, [], ◌∷◌, ◌++◌, length,
  drop, ltb, leb, if◌then◌else◌, some_inj, le→leb, arith,
}
use socket_cplus_plus.Connection.{
  State, send_handshake, send_connection_id, connection_failed, CommsStateMachine, sentinel,
  client_id, server_id, unique_library_id, write_protocol_sentinel, copy_library_id, data_send,
  read_protocol_sentinel, same_text, data_receive,
}

-- The bytes of a handshake.
abbrev pub hello : Bool → List ℕ
hello iniates = sentinel ∷ (if iniates then client_id else server_id) ∷ unique_library_id

-- A machine that has yet to shake hands writes its handshake and a zero to the front of a buffer of
-- seven bytes or more, reports six bytes, and has sent.
pub data_send-hello :
    (m : CommsStateMachine) (buffer : List ℕ)
    → m.current_state ≡ send_handshake
    → 7 ≤ length buffer
    → data_send m buffer
      ≡ some (
        true,
        6,
        hello m.iniates ++ (0 ∷ drop 5 (drop 2 buffer)),
        record m { has_sent_state = true },
      )
unfolding data_send write_protocol_sentinel copy_library_id
data_send-hello m buffer e h =
    let long : ltb (length buffer) 6 ≡ false = ground arith in
    rw (data_send, e, long, copy_library_id, le→leb 5 (length buffer - 2) (omega arith))
      (ap
        (λ (s : State). some (
          true,
          6,
          hello m.iniates ++ (0 ∷ drop 5 (drop 2 buffer)),
          record m { current_state = s; has_sent_state = true },
        ))
        e)

-- Six bytes pass the machine's own guard, but the library's copy needs a seventh for the zero.
pub data_send_short :
    (m : CommsStateMachine) (buffer : List ℕ)
    → m.current_state ≡ send_handshake
    → length buffer ≡ 6
    → data_send m buffer ≡ none
unfolding data_send copy_library_id
data_send_short m buffer e h =
    let long : ltb (length buffer) 6 ≡ false = ground arith in
    let small : leb 5 (length buffer - 2) ≡ false = ground arith in
    rw (data_send, e, long, copy_library_id, small)

-- What a machine that gets a handshake makes of it, by its own role and the sender's.
abbrev pub answer : CommsStateMachine → Bool → Bool × CommsStateMachine
answer m sender_iniates =
    if m.iniates
    then if sender_iniates
      then (false, record m { current_state = connection_failed })
      else (true, record m { current_state = send_connection_id })
    else if sender_iniates
    then (true, record m { current_state = send_connection_id; has_sent_state = false })
    else (false, record m { current_state = connection_failed })

pub data_receive-hello :
    (m : CommsStateMachine) (sender_iniates : Bool) (rest : List ℕ)
    → m.current_state ≡ send_handshake
    → data_receive m (hello sender_iniates ++ rest) ≡ answer m sender_iniates
unfolding data_receive read_protocol_sentinel same_text
data_receive-hello m true rest e = rw (data_receive, e) (ground arith)
data_receive-hello m false rest e = rw (data_receive, e) (ground arith)

-- The six bytes that a machine accepts.
accepted :
    (m : CommsStateMachine) (a b c d e f : ℕ) (rest : List ℕ)
    → m.current_state ≡ send_handshake
    → (data_receive m (a ∷ b ∷ c ∷ d ∷ e ∷ f ∷ rest)).0 ≡ true
    → (a ≡ sentinel)
      × (b ≡ (if m.iniates then server_id else client_id))
      × (c ≡ 73)
      × (d ≡ 79)
      × (e ≡ 73)
      × (f ≡ 67)
unfolding data_receive read_protocol_sentinel same_text
accepted m a b c d e f rest h t = ground arith

-- A machine that is waiting for the handshake takes a datagram only if it starts with the handshake
-- of the other role.
pub data_receive_sound :
    (m : CommsStateMachine) (buffer : List ℕ)
    → m.current_state ≡ send_handshake
    → (data_receive m buffer).0 ≡ true
    → (rest : List ℕ) × (buffer ≡ hello (not m.iniates) ++ rest)
unfolding data_receive
data_receive_sound m [] h t = absurd (ground arith)
data_receive_sound m (a ∷ []) h t = absurd (ground arith)
data_receive_sound m (a ∷ b ∷ []) h t = absurd (ground arith)
data_receive_sound m (a ∷ b ∷ c ∷ []) h t = absurd (ground arith)
data_receive_sound m (a ∷ b ∷ c ∷ d ∷ []) h t = absurd (ground arith)
data_receive_sound m (a ∷ b ∷ c ∷ d ∷ e ∷ []) h t = absurd (ground arith)
data_receive_sound m (a ∷ b ∷ c ∷ d ∷ e ∷ f ∷ rest) h t =
    let (e0, e1, e2, e3, e4, e5) = accepted m a b c d e f rest h t in
    let role : (if m.iniates then server_id else client_id)
        ≡ (if not m.iniates then client_id else server_id) =
      ground arith in
    (rest, rw (e0, e1 ∙ role, e2, e3, e4, e5))

-- The sender's handshake brings a machine of the other role to the next state; one of the same role
-- fails. The buffer's rest does not matter.
pub data_receive-data_send :
    (m n after : CommsStateMachine) (buffer sent : List ℕ) (ok : Bool) (used : ℕ)
    → m.current_state ≡ send_handshake
    → n.current_state ≡ send_handshake
    → 7 ≤ length buffer
    → data_send m buffer ≡ some (ok, used, sent, after)
    → data_receive n sent ≡ answer n m.iniates
data_receive-data_send m n after buffer sent ok used hm hn long e =
    let same = some_inj (sym (data_send-hello m buffer hm long) ∙ e) in
    ap (data_receive n) (sym (ap (λ r. r.2) same))
    ∙ data_receive-hello n m.iniates (0 ∷ drop 5 (drop 2 buffer)) hn
