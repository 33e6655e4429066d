-- ===== src/UdpClient/Once.antt =====
-- The client's loop takes one turn.
use socket_cplus_plus.Prelude.{
  ℕ, ◌≤◌, ◌≡◌, refl, ap, ◌∙◌, inl, inr, Bool, true, false, Option, none, some, List, [], ◌∷◌, ◌++◌,
  length, take, drop, ltb, Bool-cases, if◌then◌else◌, arith,
}
use socket_cplus_plus.Connection.{new, data_receive, ready_to_send}
use socket_cplus_plus.Connection.Handshake.{hello}
use socket_cplus_plus.Connection.Client.{
  has_greeted, greeting, new-data_send, new_ready, always_expecting, greeted_once,
}
use socket_cplus_plus.UdpClient.{
  buffer_size, slen, Client, Outcome, exit_failure, asleep, waiting, Turn, stops, goes_on,
  receive_reply, turn, run_loop, init, create_socket, main,
}

abbrev pub started : ℕ → List ℕ → Client
started junk stack = record { sm = new junk false; buffer = stack; sent = [] }

abbrev pub greeted : ℕ → List ℕ → Client
greeted junk stack = record {
  sm = has_greeted junk;
  buffer = greeting stack;
  sent = hello true ∷ [];
}

-- What a reply leaves of the client.
abbrev pub replied : ℕ → List ℕ → List ℕ → Client
replied junk stack datagram =
    let filled = datagram ++ drop (length datagram) (greeting stack) in
    record {
      sm = (data_receive (has_greeted junk) (take slen filled)).1;
      buffer = filled;
      sent = hello true ∷ [];
    }

first_turn :
    (accepted : Bool) (reply : Option (List ℕ)) (junk : ℕ) (stack : List ℕ)
    → 7 ≤ length stack
    → turn accepted reply (started junk stack)
      ≡ (if accepted then receive_reply reply (greeted junk stack) else stops (exit_failure []))
unfolding turn
first_turn true reply junk stack long =
    rw (turn, new-data_send junk stack long, always_expecting (has_greeted junk))
first_turn false reply junk stack long = rw (turn, new-data_send junk stack long)

asleep_after :
    (answers : List (Bool × Option (List ℕ))) (c : Client)
    → ready_to_send c.sm ≡ false
    → run_loop answers c ≡ asleep c
unfolding run_loop
asleep_after [] c e = rw (run_loop, e) refl
asleep_after ((accepted, reply) ∷ answers) c e = rw (run_loop, e) refl

abbrev after : List (Bool × Option (List ℕ)) → Turn → Outcome
after answers (stops o) = o
after answers (goes_on d) = run_loop answers d

-- What the client makes of all that the system answers.
abbrev pub expected : ℕ → List ℕ → List (Bool × Option (List ℕ)) → Outcome
expected junk stack [] = waiting (started junk stack)
expected junk stack ((false, reply) ∷ answers) = exit_failure []
expected junk stack ((true, none) ∷ answers) = exit_failure (hello true ∷ [])
expected junk stack ((true, some datagram) ∷ answers) =
    if ltb buffer_size (length datagram)
    then exit_failure (hello true ∷ [])
    else asleep (replied junk stack datagram)

-- What follows the first turn.
settled :
    (accepted : Bool) (reply : Option (List ℕ)) (junk : ℕ) (stack : List ℕ)
    (answers : List (Bool × Option (List ℕ)))
    → after answers
        (if accepted then receive_reply reply (greeted junk stack) else stops (exit_failure []))
      ≡ expected junk stack ((accepted, reply) ∷ answers)
unfolding receive_reply
settled false reply junk stack answers = refl
settled true none junk stack answers = refl
settled true (some datagram) junk stack answers =
    elim (Bool-cases (ltb buffer_size (length datagram))) [
      | inl long ↦ rw long refl
      | inr fits ↦
          let filled = datagram ++ drop (length datagram) (greeting stack) in
          rw fits (
            asleep_after answers (replied junk stack datagram)
              (greeted_once junk (take slen filled)))
    ]

-- Once it has a socket, with its buffer of 1024 bytes and whatever the system answers, the client
-- sends one datagram, its handshake of six bytes, unless sendto fails. If a reply comes that fits the
-- buffer, it takes it, and then sleeps for ever, whatever the reply was; on any failure it exits.
pub main_sends_once :
    (handle junk : ℕ) (stack : List ℕ) (answers : List (Bool × Option (List ℕ)))
    → length stack ≡ buffer_size
    → main true (some handle) junk stack answers ≡ expected junk stack answers
unfolding main init create_socket run_loop receive_reply
main_sends_once handle junk stack [] whole = rw (run_loop, new_ready junk)
main_sends_once handle junk stack ((accepted, reply) ∷ answers) whole =
    let first = first_turn accepted reply junk stack (omega (arith, whole)) in
    rw (run_loop, new_ready junk)
      (ap (after answers) first ∙ settled accepted reply junk stack answers)
