-- ===== src/DatagramServer/Examples.antt =====
-- Runs of the program: a datagram that comes, and a bind that fails.
use socket_cplus_plus.Prelude.{◌≡◌, refl, true, some, [], ◌∷◌}
use socket_cplus_plus.DatagramServer.{
  System, ready, received, closed, Answers, print_round, receive_loop, c_text,
}

abbrev idle : System
idle = record { sockets = 0; startups = 0 }

abbrev a_datagram : Answers
a_datagram = record {
  started = true;
  handle = some 340;
  option_set = true;
  bound = true;
  select = λ wait. ready;
  datagrams = (2, 72 ∷ 105 ∷ 0 ∷ []) ∷ (0, 0 ∷ []) ∷ (2, 72 ∷ 105 ∷ 33 ∷ 0 ∷ []) ∷ [];
}

-- The third line shows a byte that the datagram does not have.
printed :
    receive_loop a_datagram.datagrams
    ≡ some (received 2 (72 ∷ 105 ∷ []) ∷ closed ∷ received 2 (72 ∷ 105 ∷ 33 ∷ []) ∷ [])
unfolding receive_loop print_round c_text
printed = refl
