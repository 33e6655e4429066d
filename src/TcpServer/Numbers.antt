-- ===== src/TcpServer/Numbers.antt =====
-- The ids of the connections.
use socket_cplus_plus.Prelude.{
  ℕ, zero, suc, ◌+◌, ◌%◌, ◌^◌, ◌≤◌, ◌<◌, ◌≡◌, refl, sym, ap, subst, ◌∙◌, Bool, true, false, some,
  List, [], ◌∷◌, ◌++◌, length, length-append, get_elem?, some_inj, none_ne_some, arith,
}
use socket_cplus_plus.Serialize.Host.{ByteOrder}
use socket_cplus_plus.PacketFactory.{Factory}
use socket_cplus_plus.TcpServer.{
  TcpConnection, TcpServer, new, modify, close, set_server, create, set_connection_id,
  begin_accepting_new_connections, reschedule_me, new_connection_accepted_handler,
  cleanup_closed_connections, handle_receive, connection_id_start,
}
use socket_cplus_plus.TcpServer.Places.{length-modify, handle_reschedule_lem}
use socket_cplus_plus.TcpServer.Scheduling.{
  Step, accept_ends, read_ends, reschedules, cleans, takes_message, Reaches, stays, goes,
}
use socket_cplus_plus.TcpServer.Runs.{
  handle_receive-Received, handle_receive_failed, deque_message_kept,
}

-- From the `start`-th connection on.
abbrev pub IsNumbered : ℕ → List TcpConnection → Type 0
IsNumbered start [] = Unit {0}
IsNumbered start (c ∷ cs) =
    (c.connection_id ≡ (connection_id_start + start) % 2 ^ 16) × IsNumbered (suc start) cs

modify-IsNumbered :
    (i start : ℕ) (f : TcpConnection → TcpConnection) (cs : List TcpConnection)
    → ((c : TcpConnection) → (f c).connection_id ≡ c.connection_id)
    → IsNumbered start cs
    → IsNumbered start (modify i f cs)
modify-IsNumbered i start f [] same n = n
modify-IsNumbered zero start f (c ∷ cs) same (first, rest) = (same c ∙ first, rest)
modify-IsNumbered (suc i) start f (c ∷ cs) same (first, rest) =
    (first, modify-IsNumbered i (suc start) f cs same rest)

replace-IsNumbered :
    (i start : ℕ) (c d : TcpConnection) (cs : List TcpConnection)
    → get_elem? cs i ≡ some c
    → d.connection_id ≡ c.connection_id
    → IsNumbered start cs
    → IsNumbered start (modify i (λ _. d) cs)
replace-IsNumbered i start c d [] found same n = n
replace-IsNumbered zero start c d (x ∷ cs) found same (first, rest) =
    (same ∙ ap (λ t. t.connection_id) (sym (some_inj found)) ∙ first, rest)
replace-IsNumbered (suc i) start c d (x ∷ cs) found same (first, rest) =
    (first, replace-IsNumbered i (suc start) c d cs found same rest)

append-IsNumbered :
    (start : ℕ) (cs : List TcpConnection) (c : TcpConnection)
    → IsNumbered start cs
    → c.connection_id ≡ (connection_id_start + (start + length cs)) % 2 ^ 16
    → IsNumbered start (cs ++ (c ∷ []))
append-IsNumbered start [] c n e =
    (ap (λ t. t) (e ∙ ap (λ k. (connection_id_start + k) % 2 ^ 16) (omega arith)), tt)
append-IsNumbered start (x ∷ cs) c (first, rest) e = (
  first,
  append-IsNumbered (suc start) cs c rest
      (e ∙ ap (λ k. (connection_id_start + k) % 2 ^ 16) (omega arith)),
)

-- The ids go up by one, and the next one is ready.
pub record Numbered (s : TcpServer) : Type 0 where
  pub ids : IsNumbered 0 s.connections
  pub next : s.connection_id_tracking ≡ connection_id_start + length s.connections

begin-Numbered :
    (junk : ℕ) (s : TcpServer) → Numbered s → Numbered (begin_accepting_new_connections junk s)
unfolding begin_accepting_new_connections create set_connection_id
begin-Numbered junk s n = record {
  ids =
      append-IsNumbered 0 s.connections (set_connection_id s.connection_id_tracking (create junk))
        n.ids (ap (λ k. k % 2 ^ 16) (omega (arith, n.next)));
  next = omega (
    arith,
    n.next,
    length-append s.connections (set_connection_id s.connection_id_tracking (create junk) ∷ []),
  );
}

modified-Numbered :
    (i : ℕ) (f : TcpConnection → TcpConnection) (s t : TcpServer)
    → ((c : TcpConnection) → (f c).connection_id ≡ c.connection_id)
    → t.connections ≡ modify i f s.connections
    → t.connection_id_tracking ≡ s.connection_id_tracking
    → Numbered s
    → Numbered t
modified-Numbered i f s t same changed kept n = record {
  ids = subst (IsNumbered 0) (sym changed) (modify-IsNumbered i 0 f s.connections same n.ids);
  next = omega (arith, kept, n.next, ap length changed, length-modify i f s.connections);
}

IsNumbered-get_elem? :
    (start i : ℕ) (c : TcpConnection) (cs : List TcpConnection)
    → IsNumbered start cs
    → get_elem? cs i ≡ some c
    → (c.connection_id ≡ (connection_id_start + (start + i)) % 2 ^ 16) × (i < length cs)
IsNumbered-get_elem? start i c [] n e = absurd (none_ne_some e)
IsNumbered-get_elem? start zero c (x ∷ cs) (first, rest) e = (
  ap (λ t. t.connection_id) (sym (some_inj e))
      ∙ first
      ∙ ap (λ k. (connection_id_start + k) % 2 ^ 16) (omega arith),
  omega arith,
)
IsNumbered-get_elem? start (suc i) c (x ∷ cs) (first, rest) e =
    let (number, inside) = IsNumbered-get_elem? (suc start) i c cs rest e in
    (number ∙ ap (λ k. (connection_id_start + k) % 2 ^ 16) (omega arith), omega arith)

module _ ⦃net : ByteOrder⦄ where
  read-Numbered :
      (conn : ℕ) (error_code : Bool) (buffer : List ℕ) (total : ℕ) (s t : TcpServer) (f g : Factory)
      → handle_receive conn error_code buffer total s f ≡ some (t, g)
      → Numbered s
      → Numbered t
  unfolding close reschedule_me
  read-Numbered conn true buffer total s t f g ran n =
      let e = handle_receive_failed conn buffer total s t f g ran in
      modified-Numbered conn close s t (λ c. refl) (ap (λ u. u.connections) e)
        (ap (λ u. u.connection_id_tracking) e) n
  read-Numbered conn false buffer total s t f g ran n =
      let r = handle_receive-Received conn buffer total s t f g ran in
      modified-Numbered conn (λ (c : TcpConnection). record c { inward_packets = r.packets }) s t
        (λ c. refl) (ap (λ u. u.connections) r.after) (ap (λ u. u.connection_id_tracking) r.after) n

  accepted-Numbered :
      (junk conn : ℕ) (error : Bool) (s : TcpServer)
      → Numbered s
      → Numbered (new_connection_accepted_handler junk conn error s)
  unfolding new_connection_accepted_handler reschedule_me set_server
  accepted-Numbered junk conn true s n = begin-Numbered junk s n
  accepted-Numbered junk conn false s n =
      let t = record s {
        connections = modify conn set_server s.connections;
        connections_awaiting_schedule = s.connections_awaiting_schedule ++ (conn ∷ []);
        connections_made = s.connections_made ++ (conn ∷ []);
      } in
      begin-Numbered junk t (modified-Numbered conn set_server s t (λ c. refl) refl refl n)

  Step-Numbered : (s t : TcpServer) (f g : Factory) → Step s f t g → Numbered s → Numbered t
  unfolding cleanup_closed_connections
  Step-Numbered s t f g (accept_ends junk conn error before after e ran _) n =
      subst Numbered (sym ran) (
        accepted-Numbered junk conn error (record s { accepts = before ++ after })
          (record { ids = n.ids; next = n.next }))
  Step-Numbered s t f g (read_ends conn error_code buffer total before after e ran) n =
      read-Numbered conn error_code buffer total (record s { reads = before ++ after }) t f g ran
        (record { ids = n.ids; next = n.next })
  Step-Numbered s t f g (reschedules ran _) n =
      subst Numbered (sym (ran ∙ handle_reschedule_lem s)) (record { ids = n.ids; next = n.next })
  Step-Numbered s t f g (cleans ran _) n =
      subst Numbered (sym ran) (record { ids = n.ids; next = n.next })
  Step-Numbered s t f g (takes_message conn c d found took ran) n =
      subst Numbered (sym ran) (record {
        ids =
            replace-IsNumbered conn 0 c d s.connections found (deque_message_kept c d f g took).1
              n.ids;
        next = omega (arith, n.next, length-modify conn (λ _. d) s.connections);
      })

  Reaches-Numbered :
      (junk : ℕ) (f : Factory) (t : TcpServer) (g : Factory)
      → Reaches (begin_accepting_new_connections junk new) f t g
      → Numbered t
  unfolding new
  Reaches-Numbered junk f t g stays = begin-Numbered junk new (record { ids = tt; next = refl })
  Reaches-Numbered junk f t g (goes {t = m} {g = h} run step) =
      Step-Numbered m t h g step (Reaches-Numbered junk f m h run)

  -- As long as a server has made no more than 65536 connections, whatever has run, two of them with
  -- the same id are the same connection.
  pub connection_id_unique :
      (junk : ℕ) (f : Factory) (t : TcpServer) (g : Factory) (i j : ℕ) (c d : TcpConnection)
      → Reaches (begin_accepting_new_connections junk new) f t g
      → length t.connections ≤ 2 ^ 16
      → get_elem? t.connections i ≡ some c
      → get_elem? t.connections j ≡ some d
      → c.connection_id ≡ d.connection_id
      → i ≡ j
  connection_id_unique junk f t g i j c d run few at_i at_j same =
      let n = Reaches-Numbered junk f t g run in
      let (first, i_inside) = IsNumbered-get_elem? 0 i c t.connections n.ids at_i in
      let (second, j_inside) = IsNumbered-get_elem? 0 j d t.connections n.ids at_j in omega arith
