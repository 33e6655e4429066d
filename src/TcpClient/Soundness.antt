-- ===== src/TcpClient/Soundness.antt =====
-- Every handler and every call keeps the actors as Actors says that they stand.
use socket_cplus_plus.Prelude.{
  ℕ, ◌+◌, ◌-◌, ◌≡◌, refl, sym, ap, subst, ◌∙◌, inl, inr, Bool, true, false, none, some, List, [],
  ◌∷◌, ◌++◌, take, drop, get_elem?, Option-cases, Bool-cases, some_inj, none_ne_some, arith,
}
use socket_cplus_plus.Wire.{Cursor}
use socket_cplus_plus.Serialize.Host.{ByteOrder}
use socket_cplus_plus.PacketFactory.{Pointer, Factory, release}
use socket_cplus_plus.SizePacket.{size_out}
use socket_cplus_plus.TcpClient.{
  Operation, connecting, reading, writing, heartbeat_wait, deadline_wait, TcpClient, initiate, stop,
  start_connect, start_read, print_line, handle_read, check_deadline, handle_write, write_all,
  start_write, handle_connect,
}
use socket_cplus_plus.TcpClient.Actors.{tally, tally-append, connects, reads, sends, watches, Sound}

-- What is still pending when the handler of `o` runs.
removed :
    (w : Operation → ℕ) (o : Operation) (before after pending : List Operation)
    → pending ≡ before ++ (o ∷ after)
    → tally w pending ≡ w o + tally w (before ++ after)
removed w o before after pending e =
    omega (arith, ap (tally w) e, tally-append w before (o ∷ after), tally-append w before after)

-- A client that differs from another only in its queues, its timers, its texts, and what it sends.
record Alike (c d : TcpClient) : Type 0 where
  stopped : d.stopped ≡ c.stopped
  pub socket_is_open : d.socket_is_open ≡ c.socket_is_open
  pub is_connected : d.is_connected ≡ c.is_connected
  as_many_connects : tally connects d.pending ≡ tally connects c.pending
  as_many_reads : tally reads d.pending ≡ tally reads c.pending
  as_many_watches : tally watches d.pending ≡ tally watches c.pending

module _ ⦃net : ByteOrder⦄ where
  write_all-Alike :
      (queue : List Pointer) (buffer : Cursor) (c d : TcpClient) (f g : Factory)
      → write_all queue buffer c f ≡ some (d, g)
      → Alike c d
  unfolding write_all
  write_all-Alike [] buffer c d f g e = ground arith
  write_all-Alike (none ∷ queue) buffer c d f g e = absurd (none_ne_some e)
  write_all-Alike (some a ∷ queue) buffer c d f g e = elim (Option-cases (get_elem? f.heap a)) [
    | inl missing ↦ absurd (none_ne_some (sym (rw (write_all, missing)) ∙ e))
    | inr (packet, there) ↦ elim (Option-cases (size_out packet buffer)) [
      | inl short ↦ absurd (none_ne_some (sym (rw (write_all, there, short)) ∙ e))
      | inr (filled, wrote) ↦ elim (Option-cases (release (some a) f)) [
        | inl failed ↦ absurd (none_ne_some (sym (rw (write_all, there, wrote, failed)) ∙ e))
        | inr ((given, left, f'), released) ↦
            let sent = writing (take filled.offset filled.bytes) in
            let rest =
              write_all-Alike queue filled (initiate sent c) d f' g
                (sym (rw (write_all, there, wrote, released)) ∙ e) in
            record {
              stopped = rest.stopped;
              socket_is_open = rest.socket_is_open;
              is_connected = rest.is_connected;
              as_many_connects =
                  omega (arith, rest.as_many_connects, tally-append connects c.pending (sent ∷ []));
              as_many_reads =
                  omega (arith, rest.as_many_reads, tally-append reads c.pending (sent ∷ []));
              as_many_watches =
                  omega (arith, rest.as_many_watches, tally-append watches c.pending (sent ∷ []));
            }
      ]
    ]
  ]

  start_write-Alike :
      (stack : List ℕ) (c d : TcpClient) (f g : Factory)
      → start_write stack c f ≡ some (d, g)
      → Alike c d
  unfolding start_write
  start_write-Alike stack c d f g e =
      elim (Option-cases (write_all c.packet_out (record { bytes = stack; offset = 0 }) c f)) [
        | inl failed ↦ ground (arith, failed)
        | inr ((c', f'), ran) ↦
            let same =
              write_all-Alike c.packet_out (record { bytes = stack; offset = 0 }) c c' f f' ran in
            ground (arith, ran, same)
      ]

  Alike-Sound : (c d : TcpClient) → Alike c d → tally connects c.pending ≡ 0 → Sound c → Sound d
  Alike-Sound c d a z s = ground arith

-- The client when a handler starts: its operation is no longer pending.
pub record Resumes (o : Operation) (c d : TcpClient) : Type 0 where
  pub stopped : d.stopped ≡ c.stopped
  pub socket_is_open : d.socket_is_open ≡ c.socket_is_open
  pub is_connected : d.is_connected ≡ c.is_connected
  pub less_connects : tally connects c.pending ≡ connects o + tally connects d.pending
  pub less_reads : tally reads c.pending ≡ reads o + tally reads d.pending
  pub less_sends : tally sends c.pending ≡ sends o + tally sends d.pending
  pub less_watches : tally watches c.pending ≡ watches o + tally watches d.pending

pub resumes :
    (o : Operation) (before after : List Operation) (bytes : List ℕ) (c : TcpClient)
    → c.pending ≡ before ++ (o ∷ after)
    → Resumes o c (record c { pending = before ++ after; input_buffer = bytes })
resumes o before after bytes c e = record {
  stopped = refl;
  socket_is_open = refl;
  is_connected = refl;
  less_connects = removed connects o before after c.pending e;
  less_reads = removed reads o before after c.pending e;
  less_sends = removed sends o before after c.pending e;
  less_watches = removed watches o before after c.pending e;
}

pub print_line_alike :
    (line : List ℕ) (c : TcpClient)
    → ((print_line line c).stopped ≡ c.stopped)
      × ((print_line line c).socket_is_open ≡ c.socket_is_open)
      × ((print_line line c).is_connected ≡ c.is_connected)
      × ((print_line line c).pending ≡ c.pending)
      × ((print_line line c).packet_out ≡ c.packet_out)
unfolding print_line
print_line_alike [] c = (refl, refl, refl, refl, refl)
print_line_alike (b ∷ line) c = (refl, refl, refl, refl, refl)

module _ (c d : TcpClient) where
  pub stop-Sound : Sound c → Sound (stop c)
  unfolding stop
  stop-Sound s = ground arith

  pub read_resumed-Sound :
      (now n : ℕ) (ec : Bool) → Resumes reading c d → Sound c → Sound (handle_read now ec n d)
  unfolding handle_read start_read stop
  read_resumed-Sound now n ec r s = ground (
    arith,
    print_line_alike (take (n - 1) d.input_buffer)
        (record d { input_buffer = drop n d.input_buffer }),
    tally-append connects d.pending (reading ∷ []),
    tally-append reads d.pending (reading ∷ []),
    tally-append sends d.pending (reading ∷ []),
    tally-append watches d.pending (reading ∷ []),
  )

  pub write_resumed-Sound :
      (now : ℕ) (ec : Bool) (sent : List ℕ)
      → Resumes (writing sent) c d
      → Sound c
      → Sound (handle_write now ec d)
  unfolding handle_write stop
  write_resumed-Sound now ec sent r s = ground (
    arith,
    tally-append connects d.pending (heartbeat_wait ∷ []),
    tally-append reads d.pending (heartbeat_wait ∷ []),
    tally-append sends d.pending (heartbeat_wait ∷ []),
    tally-append watches d.pending (heartbeat_wait ∷ []),
  )

  pub deadline_resumed-Sound :
      (now : ℕ) → Resumes deadline_wait c d → Sound c → Sound (check_deadline now d)
  unfolding check_deadline
  deadline_resumed-Sound now r s = ground (
    arith,
    tally-append connects d.pending (deadline_wait ∷ []),
    tally-append reads d.pending (deadline_wait ∷ []),
    tally-append sends d.pending (deadline_wait ∷ []),
    tally-append watches d.pending (deadline_wait ∷ []),
  )

  -- A client that has given up on one endpoint goes on with the others.
  start_connect-Sound :
      (now : ℕ) (iter rest : List ℕ)
      → Resumes (connecting iter) c d
      → Sound c
      → d.stopped ≡ false
      → Sound (start_connect now rest d)
  unfolding start_connect stop
  start_connect-Sound now iter [] r s on = ground arith
  start_connect-Sound now iter (x ∷ rest) r s on = ground (
    arith,
    tally-append connects d.pending (connecting (x ∷ rest) ∷ []),
    tally-append reads d.pending (connecting (x ∷ rest) ∷ []),
    tally-append sends d.pending (connecting (x ∷ rest) ∷ []),
    tally-append watches d.pending (connecting (x ∷ rest) ∷ []),
  )

  linked-Sound :
      (now : ℕ) (iter : List ℕ)
      → Resumes (connecting iter) c d
      → Sound c
      → d.stopped ≡ false
      → Sound (start_read now (record d { is_connected = true }))
        × (tally connects (start_read now (record d { is_connected = true })).pending ≡ 0)
  unfolding start_read
  linked-Sound now iter r s on = ground (
    arith,
    tally-append connects d.pending (reading ∷ []),
    tally-append reads d.pending (reading ∷ []),
    tally-append sends d.pending (reading ∷ []),
    tally-append watches d.pending (reading ∷ []),
  )

closed_again :
    (o : Operation) (c d : TcpClient)
    → Resumes o c d
    → Resumes o (record c { socket_is_open = false }) (record d { socket_is_open = false })
closed_again o c d r = record {
  stopped = r.stopped;
  socket_is_open = refl;
  is_connected = r.is_connected;
  less_connects = r.less_connects;
  less_reads = r.less_reads;
  less_sends = r.less_sends;
  less_watches = r.less_watches;
}

module _ ⦃net : ByteOrder⦄ where
  pub connect_resumed-Sound :
      (now : ℕ) (ec : Bool) (iter stack : List ℕ) (c d e : TcpClient) (f g : Factory)
      → Resumes (connecting iter) c d
      → Sound c
      → handle_connect now ec iter stack d f ≡ some (e, g)
      → Sound e
  unfolding handle_connect
  connect_resumed-Sound now ec iter stack c d e f g r s ran = elim (Bool-cases d.stopped) [
    | inl off ↦ ground arith
    | inr on ↦
        let given_up : Factory → TcpClient → TcpClient × Factory =
          λ h t. (start_connect now (drop 1 iter) t, h) in
        elim (Bool-cases d.socket_is_open) [
          | inl up ↦ elim (Bool-cases ec) [
            | inl failed ↦
                let d' = record d { socket_is_open = false } in
                let made : handle_connect now ec iter stack d f ≡ some (given_up f d') =
                  rw (handle_connect, on, up, failed) in
                subst Sound (ap (λ t. t.0) (some_inj (sym made ∙ ran))) (
                  start_connect-Sound (record c { socket_is_open = false }) d' now iter
                    (drop 1 iter) (closed_again (connecting iter) c d r) (ground arith) on)
            | inr good ↦
                let d' = start_read now (record d { is_connected = true }) in
                let made : handle_connect now ec iter stack d f ≡ start_write stack d' f =
                  rw (handle_connect, on, up, good) in
                let (sound, unconnected) = linked-Sound c d now iter r s on in
                Alike-Sound d' e (start_write-Alike stack d' e f g (sym made ∙ ran)) unconnected
                  sound
          ]
          | inr down ↦
              let made : handle_connect now ec iter stack d f ≡ some (given_up f d) =
                rw (handle_connect, on, down) in
              subst Sound (ap (λ t. t.0) (some_inj (sym made ∙ ran)))
                (start_connect-Sound c d now iter (drop 1 iter) r s on)
        ]
  ]

  pub heartbeat_resumed-Sound :
      (stack : List ℕ) (c d e : TcpClient) (f g : Factory)
      → Resumes heartbeat_wait c d
      → Sound c
      → start_write stack d f ≡ some (e, g)
      → Sound e
  heartbeat_resumed-Sound stack c d e f g r s ran =
      Alike-Sound d e (start_write-Alike stack d e f g ran) (ground arith) (ground arith)
