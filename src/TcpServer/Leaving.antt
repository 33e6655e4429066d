-- ===== src/TcpServer/Leaving.antt =====
-- The connections that CleanupClosedConnections has taken out of the server's list.
use socket_cplus_plus.Prelude.{
  ℕ, ◌≡◌, ◌∙◌, refl, sym, subst, Bool, true, false, some, List, [], ◌∷◌, ◌++◌, ==-refl, arith,
}
use socket_cplus_plus.Serialize.Host.{ByteOrder}
use socket_cplus_plus.PacketFactory.{Factory}
use socket_cplus_plus.TcpServer.{
  TcpConnection, TcpServer, modify, set_server, create, set_connection_id, is_closed,
  begin_accepting_new_connections, reschedule_me, new_connection_accepted_handler,
  cleanup_closed_connections, handle_receive,
}
use socket_cplus_plus.TcpServer.Places.{
  times, times-append, times_removed, Placed, is_closed-modify, is_closed-close, is_closed-append,
  is_closed-modify_found, handle_reschedule_lem, times-open_ones,
}
use socket_cplus_plus.TcpServer.Scheduling.{
  Step, accept_ends, read_ends, reschedules, cleans, takes_message, Reaches, stays, goes, there,
}
use socket_cplus_plus.TcpServer.Runs.{
  handle_receive-Received, handle_receive_failed, deque_message_kept, Step-Placed,
}

-- Closed, and in the list no more.
pub record Gone (s : TcpServer) (a : ℕ) : Type 0 where
  pub closed : is_closed s.connections a ≡ true
  pub unlisted : times a s.connections_made ≡ 0

-- A connection that is closed when the list is cleaned up.
pub cleanup-Gone :
    (s : TcpServer) (a : ℕ)
    → is_closed s.connections a ≡ true
    → Gone (cleanup_closed_connections s) a
unfolding cleanup_closed_connections
cleanup-Gone s a closed = record {
  closed = closed;
  unlisted = ground (arith, times-open_ones a s.connections s.connections_made);
}

module _ (a : ℕ) where
  begin-Gone :
      (junk : ℕ) (s : TcpServer) → Gone s a → Gone (begin_accepting_new_connections junk s) a
  unfolding begin_accepting_new_connections create set_connection_id
  begin-Gone junk s p =
      let c = set_connection_id s.connection_id_tracking (create junk) in
      record { closed = is_closed-append a s.connections c refl ∙ p.closed; unlisted = p.unlisted }

  accepted-Gone :
      (junk conn : ℕ) (error : Bool) (s : TcpServer) (before after : List ℕ)
      → s.accepts ≡ before ++ (conn ∷ after)
      → Placed s a
      → Gone s a
      → Gone
          (new_connection_accepted_handler junk conn error (record s { accepts = before ++ after }))
          a
  unfolding new_connection_accepted_handler reschedule_me set_server
  accepted-Gone junk conn true s before after e p gone =
      begin-Gone junk (record s { accepts = before ++ after })
        (record { closed = gone.closed; unlisted = gone.unlisted })
  accepted-Gone junk conn false s before after e p gone =
      begin-Gone junk
        (record s {
          accepts = before ++ after;
          connections = modify conn set_server s.connections;
          connections_awaiting_schedule = s.connections_awaiting_schedule ++ (conn ∷ []);
          connections_made = s.connections_made ++ (conn ∷ []);
        })
        (record {
          closed = is_closed-modify conn a set_server s.connections (λ c. refl) ∙ gone.closed;
          unlisted =
              let g1 = gone.closed in
              let g2 = gone.unlisted in
              ground (
                arith,
                times_removed a conn before after s.accepts e,
                times-append a s.connections_made (conn ∷ []),
              );
        })

module _ ⦃net : ByteOrder⦄ where
  read-Gone :
      (a conn : ℕ) (error_code : Bool) (buffer : List ℕ) (total : ℕ) (s t : TcpServer)
      (f g : Factory) (before after : List ℕ)
      → s.reads ≡ before ++ (conn ∷ after)
      → handle_receive conn error_code buffer total (record s { reads = before ++ after }) f
        ≡ some (t, g)
      → Placed s conn
      → Gone s a
      → Gone t a
  unfolding reschedule_me
  read-Gone a conn true buffer total s t f g before after e ran at_conn gone =
      let inside =
        there s conn at_conn
          (ground (arith, ==-refl conn, times_removed conn conn before after s.reads e)) in
      let g1 = gone.closed in
      subst (λ u. Gone u a)
        (sym (
          handle_receive_failed conn buffer total (record s { reads = before ++ after }) t f g ran))
        (record {
          closed = ground (arith, is_closed-close conn a s.connections inside);
          unlisted = gone.unlisted;
        })
  read-Gone a conn false buffer total s t f g before after e ran at_conn gone =
      let r =
        handle_receive-Received conn buffer total (record s { reads = before ++ after }) t f g
          ran in
      subst (λ u. Gone u a) (sym r.after)
        (record {
          closed =
              is_closed-modify conn a
                (λ (c : TcpConnection). record c { inward_packets = r.packets }) s.connections
                (λ c. refl)
              ∙ gone.closed;
          unlisted = gone.unlisted;
        })

  Step-Gone :
      (s t : TcpServer) (f g : Factory)
      → Step s f t g
      → ((a : ℕ) → Placed s a)
      → (a : ℕ) → Gone s a
      → Gone t a
  Step-Gone s t f g (accept_ends junk conn error before after e ran _) all a gone =
      subst (λ u. Gone u a) (sym ran)
        (accepted-Gone a junk conn error s before after e (all a) gone)
  Step-Gone s t f g (read_ends conn error_code buffer total before after e ran) all a gone =
      read-Gone a conn error_code buffer total s t f g before after e ran (all conn) gone
  Step-Gone s t f g (reschedules ran _) all a gone =
      subst (λ u. Gone u a) (sym (ran ∙ handle_reschedule_lem s))
        (record { closed = gone.closed; unlisted = gone.unlisted })
  Step-Gone s t f g (cleans ran _) all a gone =
      subst (λ u. Gone u a) (sym ran) (cleanup-Gone s a gone.closed)
  Step-Gone s t f g (takes_message conn c d found took ran) all a gone =
      subst (λ u. Gone u a) (sym ran)
        (record {
          closed =
              is_closed-modify_found conn a (λ _. d) c s.connections found
                (deque_message_kept c d f g took).0
              ∙ gone.closed;
          unlisted = gone.unlisted;
        })

  pub Reaches-all_Placed :
      (s : TcpServer) (f : Factory) (t : TcpServer) (g : Factory)
      → Reaches s f t g
      → ((a : ℕ) → Placed s a)
      → (a : ℕ) → Placed t a
  Reaches-all_Placed s f t g stays all = all
  Reaches-all_Placed s f t g (goes {t = m} {g = h} run step) all =
      Step-Placed m t h g step (Reaches-all_Placed s f m h run all)

  -- A connection that was taken out of the list never comes back.
  pub Reaches-Gone :
      (s : TcpServer) (f : Factory) (t : TcpServer) (g : Factory)
      → Reaches s f t g
      → ((a : ℕ) → Placed s a)
      → (a : ℕ) → Gone s a
      → Gone t a
  Reaches-Gone s f t g stays all a gone = gone
  Reaches-Gone s f t g (goes {t = m} {g = h} run step) all a gone =
      Step-Gone m t h g step (Reaches-all_Placed s f m h run all) a
        (Reaches-Gone s f m h run all a gone)
