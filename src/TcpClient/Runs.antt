-- ===== src/TcpClient/Runs.antt =====
-- What holds of a client after any run of its handlers and its user's calls.
use socket_cplus_plus.Prelude.{ℕ, sym, subst, Bool, Option, List, [], ◌∷◌, ◌++◌, arith}
use socket_cplus_plus.Serialize.Host.{ByteOrder}
use socket_cplus_plus.PacketFactory.{Pointer, Factory}
use socket_cplus_plus.TcpClient.{
  connecting, reading, writing, heartbeat_wait, deadline_wait, TcpClient, new, write, read, stop,
  start_connect, start,
}
use socket_cplus_plus.TcpClient.Actors.{
  Step, connect_ends, read_ends, write_ends, heartbeat_ends, deadline_ends, user_writes, user_reads,
  user_stops, Reaches, stays, goes, Sound,
}
use socket_cplus_plus.TcpClient.Soundness.{
  resumes, stop-Sound, read_resumed-Sound, write_resumed-Sound, deadline_resumed-Sound,
  connect_resumed-Sound, heartbeat_resumed-Sound,
}

write-Sound : (packet : Pointer) (c : TcpClient) → Sound c → Sound (write packet c)
unfolding write
write-Sound packet c s = ground arith

read-Sound :
    (deque : List Pointer) (should_clear : Bool) (c : TcpClient)
    → Sound c
    → Sound (read deque should_clear c).1
unfolding read
read-Sound deque should_clear c s = ground arith

pub start-Sound :
    (now : ℕ) (endpoints : List ℕ) (expiry : Option ℕ) → Sound (start now endpoints (new expiry))
unfolding start start_connect new stop
start-Sound now [] expiry = ground arith
start-Sound now (x ∷ rest) expiry = ground arith

module _ ⦃net : ByteOrder⦄ where
  pub Step-Sound : (c d : TcpClient) (f g : Factory) → Step c f d g → Sound c → Sound d
  Step-Sound c d f g (connect_ends now ec iter stack before after e ran) s =
      connect_resumed-Sound now ec iter stack c (record c { pending = before ++ after }) d f g
        (resumes (connecting iter) before after c.input_buffer c e) s ran
  Step-Sound c d f g (read_ends now ec n chunk before after e ran _) s = subst Sound (sym ran) (
      read_resumed-Sound c
        (record c { pending = before ++ after; input_buffer = c.input_buffer ++ chunk }) now n ec
        (resumes reading before after (c.input_buffer ++ chunk) c e) s)
  Step-Sound c d f g (write_ends now ec sent before after e ran _) s = subst Sound (sym ran) (
      write_resumed-Sound c (record c { pending = before ++ after }) now ec sent
        (resumes (writing sent) before after c.input_buffer c e) s)
  Step-Sound c d f g (heartbeat_ends stack before after e ran) s =
      heartbeat_resumed-Sound stack c (record c { pending = before ++ after }) d f g
        (resumes heartbeat_wait before after c.input_buffer c e) s ran
  Step-Sound c d f g (deadline_ends now before after e ran _) s = subst Sound (sym ran) (
      deadline_resumed-Sound c (record c { pending = before ++ after }) now
        (resumes deadline_wait before after c.input_buffer c e) s)
  Step-Sound c d f g (user_writes packet ran _) s = subst Sound (sym ran) (write-Sound packet c s)
  Step-Sound c d f g (user_reads deque should_clear ran _) s =
      subst Sound (sym ran) (read-Sound deque should_clear c s)
  Step-Sound c d f g (user_stops ran _) s = subst Sound (sym ran) (stop-Sound c c s)

  -- Whatever the library reports and the user calls, as long as nobody calls start again: a client
  -- that was started has, once stopped, its socket closed and no connection; until then it waits
  -- for exactly one connection attempt or read, and for its deadline. It never waits for two of the
  -- former, nor sends while it still connects.
  pub Reaches-Sound :
      (now : ℕ) (endpoints : List ℕ) (expiry : Option ℕ) (f : Factory) (d : TcpClient) (g : Factory)
      → Reaches (start now endpoints (new expiry)) f d g
      → Sound d
  Reaches-Sound now endpoints expiry f d g stays = start-Sound now endpoints expiry
  Reaches-Sound now endpoints expiry f d g (goes {d = m} {g = h} run step) =
      Step-Sound m d h g step (Reaches-Sound now endpoints expiry f m h run)
