-- ===== src/TcpClient/Actors.antt =====
-- The client and the library together: in each step the handler of one pending operation runs, or the
-- user of the client calls it, for anything but `start`, which is taken to be called once.
use socket_cplus_plus.Prelude.{
  ℕ, ◌+◌, ◌≤◌, ◌≡◌, ◌⊎◌, Bool, true, false, some, List, [], ◌∷◌, ◌++◌, arith,
}
use socket_cplus_plus.Serialize.Host.{ByteOrder}
use socket_cplus_plus.PacketFactory.{Pointer, Factory}
use socket_cplus_plus.TcpClient.{
  Operation, connecting, reading, writing, heartbeat_wait, deadline_wait, TcpClient, write, read,
  stop, handle_read, check_deadline, handle_write, start_write, handle_connect,
}

module _ ⦃net : ByteOrder⦄ where
  pub data Step (c : TcpClient) (f : Factory) (d : TcpClient) (g : Factory) : Type 0 where
    connect_ends :
        (now : ℕ) (ec : Bool) (iter stack : List ℕ) (before after : List Operation)
        → c.pending ≡ before ++ (connecting iter ∷ after)
        → handle_connect now ec iter stack (record c { pending = before ++ after }) f ≡ some (d, g)
        → Step c f d g
    read_ends :
        (now : ℕ) (ec : Bool) (n : ℕ) (chunk : List ℕ) (before after : List Operation)
        → c.pending ≡ before ++ (reading ∷ after)
        → d
          ≡ handle_read now ec n
              (record c { pending = before ++ after; input_buffer = c.input_buffer ++ chunk })
        → g ≡ f
        → Step c f d g
    write_ends :
        (now : ℕ) (ec : Bool) (sent : List ℕ) (before after : List Operation)
        → c.pending ≡ before ++ (writing sent ∷ after)
        → d ≡ handle_write now ec (record c { pending = before ++ after })
        → g ≡ f
        → Step c f d g
    heartbeat_ends :
        (stack : List ℕ) (before after : List Operation)
        → c.pending ≡ before ++ (heartbeat_wait ∷ after)
        → start_write stack (record c { pending = before ++ after }) f ≡ some (d, g)
        → Step c f d g
    deadline_ends :
        (now : ℕ) (before after : List Operation)
        → c.pending ≡ before ++ (deadline_wait ∷ after)
        → d ≡ check_deadline now (record c { pending = before ++ after })
        → g ≡ f
        → Step c f d g
    user_writes : (packet : Pointer) → d ≡ write packet c → g ≡ f → Step c f d g
    user_reads :
        (deque : List Pointer) (should_clear : Bool)
        → d ≡ (read deque should_clear c).1
        → g ≡ f
        → Step c f d g
    user_stops : d ≡ stop c → g ≡ f → Step c f d g

  pub data Reaches (c : TcpClient) (f : Factory) : TcpClient → Factory → Type 0 where
    stays : Reaches c f c f
    goes : {d e : TcpClient} {g h : Factory} → Reaches c f d g → Step d g e h → Reaches c f e h

abbrev pub tally : (Operation → ℕ) → List Operation → ℕ
tally w [] = 0
tally w (o ∷ os) = w o + tally w os

pub tally-append :
    (w : Operation → ℕ) (xs ys : List Operation) → tally w (xs ++ ys) ≡ tally w xs + tally w ys
tally-append w [] ys = omega arith
tally-append w (o ∷ xs) ys = omega (arith, tally-append w xs ys)

abbrev pub connects : Operation → ℕ
connects (connecting _) = 1
connects _ = 0

abbrev pub reads : Operation → ℕ
reads reading = 1
reads _ = 0

abbrev pub sends : Operation → ℕ
sends (writing _) = 1
sends heartbeat_wait = 1
sends _ = 0

abbrev pub watches : Operation → ℕ
watches deadline_wait = 1
watches _ = 0

-- A stopped client has its socket closed and is not connected; a running one waits for its deadline,
-- and for one connection attempt or one read.
abbrev pub Standing : TcpClient → Type 0
Standing c =
    ((c.stopped ≡ true) × (c.socket_is_open ≡ false) × (c.is_connected ≡ false))
    ⊎ ((c.stopped ≡ false)
        × (tally connects c.pending + tally reads c.pending ≡ 1)
        × (tally watches c.pending ≡ 1))

-- How the actors stand between two handlers: besides, there is never more than one connection attempt
-- or read, and nothing is sent before the last attempt has ended.
pub record Sound (c : TcpClient) : Type 0 where
  pub once : tally connects c.pending + tally reads c.pending ≤ 1
  pub silent : (tally connects c.pending ≡ 0) ⊎ (tally sends c.pending ≡ 0)
  pub standing : Standing c
