-- ===== src/TcpClient/Silence.antt =====
-- A client whose queue is empty when it connects.
use socket_cplus_plus.Prelude.{
  ℕ, ◌-◌, ◌≡◌, refl, sym, ap, subst, ◌∙◌, Bool, true, false, Option, some, List, [], ◌∷◌, ◌++◌,
  take, drop, append-nil, append_assoc, some_inj, arith,
}
use socket_cplus_plus.Serialize.Host.{ByteOrder}
use socket_cplus_plus.PacketFactory.{Pointer, Factory}
use socket_cplus_plus.TcpClient.{
  Operation, connecting, reading, writing, heartbeat_wait, deadline_wait, TcpClient, new, write,
  read, stop, start, start_read, handle_read, check_deadline, handle_connect,
}
use socket_cplus_plus.TcpClient.Connecting.{handle_connect_idle, linked}
use socket_cplus_plus.TcpClient.Runs.{Reaches-Sound}
use socket_cplus_plus.TcpClient.Actors.{
  Step, connect_ends, read_ends, write_ends, heartbeat_ends, deadline_ends, user_writes, user_reads,
  user_stops, Reaches, stays, goes, tally, tally-append, connects, sends,
}
use socket_cplus_plus.TcpClient.Soundness.{Resumes, resumes, print_line_alike}

-- Neither an attempt to connect nor a write nor a heartbeat is pending.
abbrev pub IsMute : TcpClient → Type 0
IsMute c = (tally connects c.pending ≡ 0) × (tally sends c.pending ≡ 0)

-- It stays so, and the queue has grown at its end.
abbrev pub StillMute : TcpClient → TcpClient → Type 0
StillMute c d = IsMute d × (more : List Pointer) × (d.packet_out ≡ c.packet_out ++ more)

module _ (c d : TcpClient) (mute : IsMute c) (queue : d.packet_out ≡ c.packet_out) where
  read-IsMute :
      (now n : ℕ) (ec : Bool)
      → Resumes reading c d
      → IsMute (handle_read now ec n d) × ((handle_read now ec n d).packet_out ≡ c.packet_out)
  unfolding handle_read start_read stop
  read-IsMute now n ec r = ground (
    arith,
    print_line_alike (take (n - 1) d.input_buffer)
        (record d { input_buffer = drop n d.input_buffer }),
    tally-append connects d.pending (reading ∷ []),
    tally-append sends d.pending (reading ∷ []),
  )

  deadline-IsMute :
      (now : ℕ)
      → Resumes deadline_wait c d
      → IsMute (check_deadline now d) × ((check_deadline now d).packet_out ≡ c.packet_out)
  unfolding check_deadline
  deadline-IsMute now r = ground (
    arith,
    tally-append connects d.pending (deadline_wait ∷ []),
    tally-append sends d.pending (deadline_wait ∷ []),
  )

same_queue : (c d e : TcpClient) → e ≡ d → IsMute d × (d.packet_out ≡ c.packet_out) → StillMute c e
same_queue c d e same (mute, queue) =
    subst (StillMute c) (sym same) (mute, [], queue ∙ sym (append-nil c.packet_out))

read_call-IsMute :
    (deque : List Pointer) (should_clear : Bool) (c : TcpClient)
    → IsMute c
    → IsMute (read deque should_clear c).1
      × ((read deque should_clear c).1.packet_out ≡ c.packet_out)
unfolding read
read_call-IsMute deque true c m = (m, refl)
read_call-IsMute deque false c m = (m, refl)

module _ ⦃net : ByteOrder⦄ where
  Step-StillMute : (c d : TcpClient) (f g : Factory) → Step c f d g → IsMute c → StillMute c d
  unfolding write stop
  Step-StillMute c d f g (connect_ends now ec iter stack before after e ran) m =
      absurd
        (omega (arith, (resumes (connecting iter) before after c.input_buffer c e).less_connects))
  Step-StillMute c d f g (read_ends now ec n chunk before after e ran _) m =
      let c' = record c { pending = before ++ after; input_buffer = c.input_buffer ++ chunk } in
      same_queue c (handle_read now ec n c') d ran
        (read-IsMute c c' m refl now n ec (resumes reading before after c'.input_buffer c e))
  Step-StillMute c d f g (write_ends now ec sent before after e ran _) m =
      absurd (omega (arith, (resumes (writing sent) before after c.input_buffer c e).less_sends))
  Step-StillMute c d f g (heartbeat_ends stack before after e ran) m =
      absurd (omega (arith, (resumes heartbeat_wait before after c.input_buffer c e).less_sends))
  Step-StillMute c d f g (deadline_ends now before after e ran _) m =
      let c' = record c { pending = before ++ after } in
      same_queue c (check_deadline now c') d ran
        (deadline-IsMute c c' m refl now (resumes deadline_wait before after c.input_buffer c e))
  Step-StillMute c d f g (user_writes packet ran _) m =
      (ground arith, packet ∷ [], ap (λ t. t.packet_out) ran)
  Step-StillMute c d f g (user_reads deque should_clear ran _) m =
      same_queue c (read deque should_clear c).1 d ran (read_call-IsMute deque should_clear c m)
  Step-StillMute c d f g (user_stops ran _) m = same_queue c (stop c) d ran (m, refl)

  run_mute :
      (c : TcpClient) (f : Factory) (d : TcpClient) (g : Factory)
      → Reaches c f d g
      → IsMute c
      → StillMute c d
  run_mute c f d g stays m = (m, [], sym (append-nil c.packet_out))
  run_mute c f d g (goes {d = e} {g = h} run step) m =
      let (mute, more, queue) = run_mute c f e h run m in
      let (mute', more', queue') = Step-StillMute e d h g step mute in
      (
        mute',
        more ++ more',
        queue' ∙ ap (λ t. t ++ more') queue ∙ append_assoc c.packet_out more more',
      )

  -- A started client whose queue is empty when its attempt at an endpoint succeeds is connected,
  -- and from then on, whatever the library reports and the user calls, as long as nobody calls
  -- start again, no write and no heartbeat is ever pending and nothing leaves the queue: what the
  -- user writes is never sent.
  pub connect_silent :
      (now : ℕ) (endpoints : List ℕ) (expiry : Option ℕ) (f : Factory) (c : TcpClient) (later : ℕ)
      (iter stack : List ℕ) (before after : List Operation) (d : TcpClient) (g h k : Factory)
      (e : TcpClient)
      → Reaches (start now endpoints (new expiry)) f c g
      → c.stopped ≡ false
      → c.socket_is_open ≡ true
      → c.packet_out ≡ []
      → c.pending ≡ before ++ (connecting iter ∷ after)
      → handle_connect later false iter stack (record c { pending = before ++ after }) g
        ≡ some (d, h)
      → Reaches d h e k
      → (d.is_connected ≡ true) × StillMute d e
  connect_silent now endpoints expiry f c later iter stack before after d g h k e run on up queue p
        made next =
      let c' = record c { pending = before ++ after } in
      let r = resumes (connecting iter) before after c.input_buffer c p in
      let s = Reaches-Sound now endpoints expiry f c g run in
      let same : linked later c' ≡ d =
        ap (λ t. t.0)
          (some_inj (sym (handle_connect_idle later iter stack c' g on up queue) ∙ made)) in
      let mute : IsMute (linked later c') = ground (
        arith,
        r,
        s,
        tally-append connects c'.pending (reading ∷ []),
        tally-append sends c'.pending (reading ∷ []),
      ) in
      (sym (ap (λ t. t.is_connected) same), run_mute d h e k next (subst IsMute same mute))
