-- ===== src/TcpServer/Threader/Rounds.antt =====
-- A round of ThreadRun on a server in whatever state the handlers have left it.
use socket_cplus_plus.Prelude.{ℕ, ◌≡◌, ◌∙◌, ◌⊎◌, refl, sym, ap, subst, true, false, some, [], arith}
use socket_cplus_plus.Serialize.Host.{ByteOrder}
use socket_cplus_plus.PacketFactory.{Factory}
use socket_cplus_plus.TcpServer.{
  TcpServer, new, is_closed, begin_accepting_new_connections, cleanup_closed_connections,
  handle_reschedule,
}
use socket_cplus_plus.TcpServer.Places.{times, times-append, Placed, handle_reschedule_lem}
use socket_cplus_plus.TcpServer.Scheduling.{Reaches, cleanup-Placed}
use socket_cplus_plus.TcpServer.Runs.{Reaches-Placed}
use socket_cplus_plus.TcpServer.Leaving.{cleanup-Gone, Reaches-all_Placed, Reaches-Gone}
use socket_cplus_plus.TcpServer.Threader.{
  TcpThreader, num_connected_clients, begin_service, clean_round, reschedule_round, thread_round,
}

-- A listed connection is listed once; it is open, and its data are waited for by one read, or it is
-- closed, and they are waited for by none.
abbrev pub Attended : TcpServer → ℕ → Type 0
Attended s a =
    (times a s.connections_made ≡ 0)
    ⊎ (((times a s.connections_made ≡ 1)
          × (times a s.reads ≡ 1)
          × (is_closed s.connections a ≡ false))
        ⊎ ((times a s.connections_made ≡ 1)
            × (times a s.reads ≡ 0)
            × (is_closed s.connections a ≡ true)))

attended : (s : TcpServer) (a : ℕ) → Placed s a → Attended (handle_reschedule s) a
attended s a p =
    subst (λ t. Attended t a) (sym (handle_reschedule_lem s))
      (ground (arith, times-append a s.reads s.connections_awaiting_schedule))

module _ ⦃net : ByteOrder⦄ where
  -- Whatever handlers have run on the server before a round of ThreadRun, run in it until the
  -- library returns, and run between its two halves, a round that is not stopped half-way goes
  -- through. It leaves no connection waiting for its turn, and in the list of those made none that
  -- was closed when the library had returned. Each that it leaves there is listed once: it is open
  -- and its data are waited for by exactly one read, or it has been closed since, and they are
  -- waited for by none.
  pub thread_round-Attended :
      (junk : ℕ) (f g h k : Factory) (s : TcpServer) (run between : TcpServer → TcpServer)
      (t : TcpThreader)
      → Reaches (begin_accepting_new_connections junk new) f s g
      → Reaches s g (run s) h
      → Reaches
          (cleanup_closed_connections (run s))
          h
          (between (cleanup_closed_connections (run s)))
          k
      → t.tcp_server ≡ some s
      → t.is_thread_running ≡ true
      → (u : TcpServer) × (thread_round run between false t
          ≡ some (record t { tcp_server = some u }))
        × (u.connections_awaiting_schedule ≡ [])
        × ((a : ℕ) → is_closed (run s).connections a ≡ true → times a u.connections_made ≡ 0)
        × ((a : ℕ) → Attended u a)
  unfolding thread_round clean_round reschedule_round
  thread_round-Attended junk f g h k s run between t before in_run meanwhile server on =
      let c = cleanup_closed_connections (run s) in
      let b = between c in
      let ran_Placed = Reaches-all_Placed s g (run s) h in_run (Reaches-Placed junk f s g before) in
      let c_Placed : (a : ℕ) → Placed c a = λ a. cleanup-Placed a (run s) (ran_Placed a) in
      let b_Placed = Reaches-all_Placed c h b k meanwhile c_Placed in
      (
        handle_reschedule b,
        rw (thread_round, clean_round, on, server, reschedule_round, on),
        ap (λ u. u.connections_awaiting_schedule) (handle_reschedule_lem b),
        λ a closed.
            ap (λ u. times a u.connections_made) (handle_reschedule_lem b)
            ∙ (Reaches-Gone c h b k meanwhile c_Placed a (cleanup-Gone (run s) a closed)).unlisted,
        λ a. attended b a (b_Placed a),
      )

-- A threader that has just begun to serve has no clients.
pub num_connected_clients-begin_service :
    (junk : ℕ) (t : TcpThreader) → num_connected_clients (begin_service junk t) ≡ some 0
unfolding num_connected_clients begin_service begin_accepting_new_connections new
num_connected_clients-begin_service junk t = refl
