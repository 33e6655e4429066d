-- ===== src/TcpServer/Scheduling.antt =====
-- The server and the library together: in each step a pending handler runs, or one of the two loops of
-- TCPThreader::ThreadRun, or a message is taken.
use socket_cplus_plus.Prelude.{
  ℕ, ◌+◌, ◌<◌, ◌≡◌, refl, sym, subst, Bool, true, false, some, List, [], ◌∷◌, ◌++◌, length,
  length-append, get_elem?, arith,
}
use socket_cplus_plus.Serialize.Host.{ByteOrder}
use socket_cplus_plus.PacketFactory.{Factory}
use socket_cplus_plus.TcpServer.{
  TcpConnection, TcpServer, modify, close, set_server, create, set_connection_id,
  begin_accepting_new_connections, reschedule_me, new_connection_accepted_handler,
  handle_reschedule, cleanup_closed_connections, handle_receive, deque_message,
}
use socket_cplus_plus.TcpServer.Places.{
  times, times-append, times_removed, Placed, length-modify, is_closed-modify, is_closed-close,
  is_closed-append, is_closed-beyond, handle_reschedule_lem, times-open_ones,
}

module _ ⦃net : ByteOrder⦄ where
  pub data Step (s : TcpServer) (f : Factory) (t : TcpServer) (g : Factory) : Type 0 where
    accept_ends :
        (junk conn : ℕ) (error : Bool) (before after : List ℕ)
        → s.accepts ≡ before ++ (conn ∷ after)
        → t
          ≡ new_connection_accepted_handler junk conn error (record s { accepts = before ++ after })
        → g ≡ f
        → Step s f t g
    read_ends :
        (conn : ℕ) (error_code : Bool) (buffer : List ℕ) (total : ℕ) (before after : List ℕ)
        → s.reads ≡ before ++ (conn ∷ after)
        → handle_receive conn error_code buffer total (record s { reads = before ++ after }) f
          ≡ some (t, g)
        → Step s f t g
    reschedules : t ≡ handle_reschedule s → g ≡ f → Step s f t g
    cleans : t ≡ cleanup_closed_connections s → g ≡ f → Step s f t g
    takes_message :
        (conn : ℕ) (c d : TcpConnection)
        → get_elem? s.connections conn ≡ some c
        → deque_message c f ≡ some (d, g)
        → t ≡ record s { connections = modify conn (λ _. d) s.connections }
        → Step s f t g

  pub data Reaches (s : TcpServer) (f : Factory) : TcpServer → Factory → Type 0 where
    stays : Reaches s f s f
    goes : {t u : TcpServer} {g h : Factory} → Reaches s f t g → Step t g u h → Reaches s f u h

-- A connection that is in a list, or pending, exists.
pub there :
    (s : TcpServer) (a : ℕ)
    → Placed s a
    → 0
      < times a s.accepts
        + times a s.connections_awaiting_schedule
        + times a s.reads
        + times a s.connections_made
    → a < length s.connections
there s a p h = ground arith

module _ (a : ℕ) where
  pub begin-Placed :
      (junk : ℕ) (s : TcpServer) → Placed s a → Placed (begin_accepting_new_connections junk s) a
  unfolding begin_accepting_new_connections create set_connection_id
  begin-Placed junk s p =
      let c = set_connection_id s.connection_id_tracking (create junk) in
      ground (
        arith,
        times-append a s.accepts (length s.connections ∷ []),
        length-append s.connections (c ∷ []),
        is_closed-append a s.connections c refl,
        is_closed-beyond a s.connections,
      )

  pub cleanup-Placed : (s : TcpServer) → Placed s a → Placed (cleanup_closed_connections s) a
  unfolding cleanup_closed_connections
  cleanup-Placed s p = ground (arith, times-open_ones a s.connections s.connections_made)

  pub reschedule-Placed : (s : TcpServer) → Placed s a → Placed (handle_reschedule s) a
  reschedule-Placed s p =
      subst (λ t. Placed t a) (sym (handle_reschedule_lem s))
        (ground (arith, times-append a s.reads s.connections_awaiting_schedule))

  pub accepted-Placed :
      (junk conn : ℕ) (error : Bool) (s : TcpServer) (before after : List ℕ)
      → s.accepts ≡ before ++ (conn ∷ after)
      → Placed s a
      → Placed
          (new_connection_accepted_handler junk conn error (record s { accepts = before ++ after }))
          a
  unfolding new_connection_accepted_handler reschedule_me set_server
  accepted-Placed junk conn true s before after e p =
      begin-Placed junk (record s { accepts = before ++ after })
        (ground (arith, times_removed a conn before after s.accepts e))
  accepted-Placed junk conn false s before after e p =
      begin-Placed junk
        (record s {
          accepts = before ++ after;
          connections = modify conn set_server s.connections;
          connections_awaiting_schedule = s.connections_awaiting_schedule ++ (conn ∷ []);
          connections_made = s.connections_made ++ (conn ∷ []);
        })
        (ground (
          arith,
          times_removed a conn before after s.accepts e,
          times-append a s.connections_awaiting_schedule (conn ∷ []),
          times-append a s.connections_made (conn ∷ []),
          is_closed-modify conn a set_server s.connections (λ c. refl),
          length-modify conn set_server s.connections,
        ))

  -- The connection of the read that failed is closed, and waits for nothing.
  pub closed-Placed :
      (conn : ℕ) (s : TcpServer) (before after : List ℕ)
      → s.reads ≡ before ++ (conn ∷ after)
      → conn < length s.connections
      → Placed s a
      → Placed
          (record s { reads = before ++ after; connections = modify conn close s.connections })
          a
  closed-Placed conn s before after e inside p = ground (
    arith,
    times_removed a conn before after s.reads e,
    is_closed-close conn a s.connections inside,
    length-modify conn close s.connections,
  )

  -- The connection of the read that went well waits for its turn.
  pub received-Placed :
      (conn : ℕ) (change : TcpConnection → TcpConnection) (s : TcpServer) (before after : List ℕ)
      → s.reads ≡ before ++ (conn ∷ after)
      → ((c : TcpConnection) → (change c).has_closed ≡ c.has_closed)
      → Placed s a
      → Placed
          (record s {
            reads = before ++ after;
            connections = modify conn change s.connections;
            connections_awaiting_schedule = s.connections_awaiting_schedule ++ (conn ∷ []);
          })
          a
  received-Placed conn change s before after e same p = ground (
    arith,
    times_removed a conn before after s.reads e,
    times-append a s.connections_awaiting_schedule (conn ∷ []),
    is_closed-modify conn a change s.connections same,
    length-modify conn change s.connections,
  )
