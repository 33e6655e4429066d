-- ===== src/TcpClient/Shutdown.antt =====
-- A client that has stopped.
use socket_cplus_plus.Prelude.{
  ℕ, ◌+◌, ◌≡◌, refl, sym, ap, ◌∙◌, true, false, some, some_inj, List, ◌∷◌, ◌++◌, length,
  length-append, arith,
}
use socket_cplus_plus.Serialize.Host.{ByteOrder}
use socket_cplus_plus.PacketFactory.{Factory}
use socket_cplus_plus.TcpClient.{
  Operation, connecting, reading, writing, heartbeat_wait, deadline_wait, TcpClient, write, read,
  stop, handle_read, check_deadline, handle_write, start_write, handle_connect,
}
use socket_cplus_plus.TcpClient.Actors.{
  Step, connect_ends, read_ends, write_ends, heartbeat_ends, deadline_ends, user_writes, user_reads,
  user_stops, Reaches, stays, goes,
}

one_less :
    (o : Operation) (before after all : List Operation)
    → all ≡ before ++ (o ∷ after)
    → length (before ++ after) + 1 ≡ length all
one_less o before after all e =
    omega (arith, ap length e, length-append before after, length-append before (o ∷ after))

module _ ⦃net : ByteOrder⦄ where
  -- Whether a handler runs in a step, as a number.
  abbrev pub handled : {c d : TcpClient} {f g : Factory} → Step c f d g → ℕ
  handled (connect_ends _ _ _ _ _ _ _ _) = 1
  handled (read_ends _ _ _ _ _ _ _ _ _) = 1
  handled (write_ends _ _ _ _ _ _ _ _) = 1
  handled (heartbeat_ends _ _ _ _ _) = 1
  handled (deadline_ends _ _ _ _ _ _) = 1
  handled (user_writes _ _ _) = 0
  handled (user_reads _ _ _ _) = 0
  handled (user_stops _ _) = 0

  abbrev pub handlers :
      {c : TcpClient} {f : Factory} {d : TcpClient} {g : Factory} → Reaches c f d g → ℕ
  handlers stays = 0
  handlers (goes run step) = handlers run + handled step

  -- What a step of a stopped client does, with `n` handlers in it.
  abbrev pub Unwound : TcpClient → Factory → TcpClient → Factory → ℕ → Type 0
  Unwound c f d g n = (d.stopped ≡ true) × (length d.pending + n ≡ length c.pending) × (g ≡ f)

  returned :
      (c : TcpClient) (o : Operation) (before after : List Operation) (input : List ℕ)
      (d : TcpClient) (f g : Factory)
      → c.pending ≡ before ++ (o ∷ after)
      → c.stopped ≡ true
      → d ≡ record c { pending = before ++ after; input_buffer = input }
      → g ≡ f
      → Unwound c f d g 1
  returned c o before after input d f g e off same kept = (
    ap (λ t. t.stopped) same ∙ off,
    omega (arith, ap (λ t. length t.pending) same, one_less o before after c.pending e),
    kept,
  )

  Step-Unwound :
      (c d : TcpClient) (f g : Factory) (step : Step c f d g)
      → c.stopped ≡ true
      → Unwound c f d g (handled step)
  unfolding handle_connect handle_read handle_write start_write check_deadline write read stop
  Step-Unwound c d f g (connect_ends now ec iter stack before after e ran) off =
      let left : some (record c { pending = before ++ after }, f) ≡ some (d, g) =
        sym (rw (handle_connect, off)) ∙ ran in
      returned c (connecting iter) before after c.input_buffer d f g e off
        (sym (ap (λ r. r.0) (some_inj left))) (sym (ap (λ r. r.1) (some_inj left)))
  Step-Unwound c d f g (read_ends now ec n chunk before after e ran same) off =
      returned c reading before after (c.input_buffer ++ chunk) d f g e off
        (ran ∙ rw (handle_read, off)) same
  Step-Unwound c d f g (write_ends now ec sent before after e ran same) off =
      returned c (writing sent) before after c.input_buffer d f g e off
        (ran ∙ rw (handle_write, off)) same
  Step-Unwound c d f g (heartbeat_ends stack before after e ran) off =
      let left : some (record c { pending = before ++ after }, f) ≡ some (d, g) =
        sym (rw (start_write, off)) ∙ ran in
      returned c heartbeat_wait before after c.input_buffer d f g e off
        (sym (ap (λ r. r.0) (some_inj left))) (sym (ap (λ r. r.1) (some_inj left)))
  Step-Unwound c d f g (deadline_ends now before after e ran same) off =
      returned c deadline_wait before after c.input_buffer d f g e off
        (ran ∙ rw (check_deadline, off)) same
  Step-Unwound c d f g (user_writes packet ran same) off =
      (ap (λ t. t.stopped) ran ∙ off, omega (arith, ap (λ t. length t.pending) ran), same)
  Step-Unwound c d f g (user_reads deque true ran same) off =
      (ap (λ t. t.stopped) ran ∙ off, omega (arith, ap (λ t. length t.pending) ran), same)
  Step-Unwound c d f g (user_reads deque false ran same) off =
      (ap (λ t. t.stopped) ran ∙ off, omega (arith, ap (λ t. length t.pending) ran), same)
  Step-Unwound c d f g (user_stops ran same) off =
      (ap (λ t. t.stopped) ran, omega (arith, ap (λ t. length t.pending) ran), same)

  -- Once a client has stopped, whatever handlers run and whatever the user calls, as long as nobody
  -- calls start again, it stays so, starts nothing and touches no packet: the handlers that still
  -- run are one for each operation that was pending and is no more.
  pub Reaches-Unwound :
      (c : TcpClient) (f : Factory) (d : TcpClient) (g : Factory) (run : Reaches c f d g)
      → c.stopped ≡ true
      → (d.stopped ≡ true) × (length d.pending + handlers run ≡ length c.pending) × (g ≡ f)
  Reaches-Unwound c f d g stays off = (off, omega arith, refl)
  Reaches-Unwound c f d g (goes {d = m} {g = h} run step) off =
      let (stopped, left, kept) = Reaches-Unwound c f m h run off in
      let (stopped', left', kept') = Step-Unwound m d h g step stopped in
      (stopped', omega (arith, left, left'), kept' ∙ kept)
