-- ===== src/TcpServer/Runs.antt =====
-- What holds of a server after any run.
use socket_cplus_plus.Prelude.{
  ℕ, ◌≡◌, refl, sym, ap, subst, ◌∙◌, inl, inr, Bool, true, false, some, List, [], ◌∷◌, ◌++◌,
  get_elem?, ==-refl, Option-cases, some_inj, none_ne_some, arith,
}
use socket_cplus_plus.Serialize.Host.{ByteOrder}
use socket_cplus_plus.PacketFactory.{Pointer, Factory, release}
use socket_cplus_plus.TcpServer.{
  TcpConnection, TcpServer, new, modify, close, reschedule_me, remove_connection, Outcome,
  unfinished, fault, finished, receive, handle_receive, is_closed, deque_front, deque_message,
  begin_accepting_new_connections,
}
use socket_cplus_plus.TcpServer.Places.{
  times_removed, Placed, length-modify, is_closed-modify_found,
}
use socket_cplus_plus.TcpServer.Scheduling.{
  Step, accept_ends, read_ends, reschedules, cleans, takes_message, Reaches, stays, goes, there,
  begin-Placed, cleanup-Placed, reschedule-Placed, accepted-Placed, closed-Placed, received-Placed,
}

-- The handler of a read changes one connection, keeps its flag and its number, and puts it in line;
-- or it closes the connection.
module _ ⦃net : ByteOrder⦄ where
  pub record Received (conn : ℕ) (buffer : List ℕ) (total : ℕ) (s t : TcpServer) (f g : Factory)
      : Type 0 where
    pub reader : TcpConnection
    pub packets : List Pointer
    pub found : get_elem? s.connections conn ≡ some reader
    pub ran : receive buffer total reader.inward_packets f ≡ finished packets g
    pub after :
        t
        ≡ reschedule_me conn (record s {
          connections =
              modify conn
                (λ (c : TcpConnection). record c { inward_packets = packets })
                s.connections;
        })

  pub handle_receive-Received :
      (conn : ℕ) (buffer : List ℕ) (total : ℕ) (s t : TcpServer) (f g : Factory)
      → handle_receive conn false buffer total s f ≡ some (t, g)
      → Received conn buffer total s t f g
  unfolding handle_receive
  handle_receive-Received conn buffer total s t f g e =
      elim (Option-cases (get_elem? s.connections conn)) [
        | inl missing ↦ absurd (none_ne_some (sym (rw (handle_receive, missing)) ∙ e))
        | inr (c, found) ↦ ended c found (receive buffer total c.inward_packets f) refl
      ]
    where
      ended :
          (c : TcpConnection)
          → get_elem? s.connections conn ≡ some c
          → (o : Outcome) → receive buffer total c.inward_packets f ≡ o
          → Received conn buffer total s t f g
      ended c found unfinished r = absurd (none_ne_some (sym (rw (handle_receive, found, r)) ∙ e))
      ended c found fault r = absurd (none_ne_some (sym (rw (handle_receive, found, r)) ∙ e))
      ended c found (finished packets h) r =
          let changed : TcpServer = reschedule_me conn (record s {
            connections =
                modify conn (λ (t : TcpConnection). record t { inward_packets = packets })
                  s.connections;
          }) in
          let made : handle_receive conn false buffer total s f ≡ some (changed, h) =
            rw (handle_receive, found, r) in
          let same = some_inj (sym e ∙ made) in
          record {
            reader = c;
            packets = packets;
            found = found;
            ran = r ∙ ap (λ p. finished packets p.1) (sym same);
            after = ap (λ p. p.0) same;
          }

  pub handle_receive_failed :
      (conn : ℕ) (buffer : List ℕ) (total : ℕ) (s t : TcpServer) (f g : Factory)
      → handle_receive conn true buffer total s f ≡ some (t, g)
      → t ≡ record s { connections = modify conn close s.connections }
  unfolding handle_receive remove_connection
  handle_receive_failed conn buffer total s t f g e = ap (λ p. p.0) (sym (some_inj e))

module _ ⦃net : ByteOrder⦄ where
  pub handle_receive_failed_factory :
      (conn : ℕ) (buffer : List ℕ) (total : ℕ) (s t : TcpServer) (f g : Factory)
      → handle_receive conn true buffer total s f ≡ some (t, g)
      → g ≡ f
  unfolding handle_receive
  handle_receive_failed_factory conn buffer total s t f g e = ap (λ p. p.1) (sym (some_inj e))

deque_front_kept :
    (queue : List Pointer) (c d : TcpConnection) (f g : Factory)
    → deque_front queue c f ≡ some (d, g)
    → (d.has_closed ≡ c.has_closed) × (d.connection_id ≡ c.connection_id)
unfolding deque_front
deque_front_kept [] c d f g e = absurd (none_ne_some e)
deque_front_kept (p ∷ rest) c d f g e = elim (Option-cases (release p f)) [
  | inl failed ↦ absurd (none_ne_some (sym (rw (deque_front, failed)) ∙ e))
  | inr ((given, left, h), released) ↦
      let made : deque_front (p ∷ rest) c f ≡ some (record c { inward_packets = rest }, h) =
        rw (deque_front, released) in
      let same = ap (λ r. r.0) (some_inj (sym e ∙ made)) in
      (ap (λ t. t.has_closed) same, ap (λ t. t.connection_id) same)
]

-- Taking a message keeps the flag and the number.
pub deque_message_kept :
    (c d : TcpConnection) (f g : Factory)
    → deque_message c f ≡ some (d, g)
    → (d.has_closed ≡ c.has_closed) × (d.connection_id ≡ c.connection_id)
unfolding deque_message
deque_message_kept c d f g e = deque_front_kept c.inward_packets c d f g e

module _ ⦃net : ByteOrder⦄ where
  read-Placed :
      (a conn : ℕ) (error_code : Bool) (buffer : List ℕ) (total : ℕ) (s t : TcpServer)
      (f g : Factory) (before after : List ℕ)
      → s.reads ≡ before ++ (conn ∷ after)
      → handle_receive conn error_code buffer total (record s { reads = before ++ after }) f
        ≡ some (t, g)
      → Placed s conn
      → Placed s a
      → Placed t a
  unfolding reschedule_me
  read-Placed a conn true buffer total s t f g before after e ran at_conn p =
      let inside =
        there s conn at_conn
          (ground (arith, ==-refl conn, times_removed conn conn before after s.reads e)) in
      subst (λ u. Placed u a)
        (sym (
          handle_receive_failed conn buffer total (record s { reads = before ++ after }) t f g ran))
        (closed-Placed a conn s before after e inside p)
  read-Placed a conn false buffer total s t f g before after e ran at_conn p =
      let r =
        handle_receive-Received conn buffer total (record s { reads = before ++ after }) t f g
          ran in
      subst (λ u. Placed u a) (sym r.after)
        (received-Placed a conn (λ (c : TcpConnection). record c { inward_packets = r.packets }) s
          before after e (λ c. refl) p)

  taken-Placed :
      (a conn : ℕ) (c d : TcpConnection) (s : TcpServer) (f g : Factory)
      → get_elem? s.connections conn ≡ some c
      → deque_message c f ≡ some (d, g)
      → Placed s a
      → Placed (record s { connections = modify conn (λ _. d) s.connections }) a
  taken-Placed a conn c d s f g found took p = ground (
    arith,
    is_closed-modify_found conn a (λ _. d) c s.connections found
        (deque_message_kept c d f g took).0,
    length-modify conn (λ _. d) s.connections,
  )

  pub Step-Placed :
      (s t : TcpServer) (f g : Factory)
      → Step s f t g
      → ((a : ℕ) → Placed s a)
      → (a : ℕ) → Placed t a
  Step-Placed s t f g (accept_ends junk conn error before after e ran _) all a =
      subst (λ u. Placed u a) (sym ran) (accepted-Placed a junk conn error s before after e (all a))
  Step-Placed s t f g (read_ends conn error_code buffer total before after e ran) all a =
      read-Placed a conn error_code buffer total s t f g before after e ran (all conn) (all a)
  Step-Placed s t f g (reschedules ran _) all a =
      subst (λ u. Placed u a) (sym ran) (reschedule-Placed a s (all a))
  Step-Placed s t f g (cleans ran _) all a =
      subst (λ u. Placed u a) (sym ran) (cleanup-Placed a s (all a))
  Step-Placed s t f g (takes_message conn c d found took ran) all a =
      subst (λ u. Placed u a) (sym ran) (taken-Placed a conn c d s f g found took (all a))

new-Placed : (a : ℕ) → Placed new a
unfolding new is_closed
new-Placed a = ground arith

module _ ⦃net : ByteOrder⦄ where
  -- In whatever order the handlers run, every connection of a server that has begun to accept is
  -- waiting for a peer, or is listed as made and waits for data or for its turn, once; or it is closed,
  -- listed at most once and waits for nothing; or no pointer leads to it any more. None is listed that
  -- does not exist.
  pub Reaches-Placed :
      (junk : ℕ) (f : Factory) (t : TcpServer) (g : Factory)
      → Reaches (begin_accepting_new_connections junk new) f t g
      → (a : ℕ) → Placed t a
  Reaches-Placed junk f t g stays a = begin-Placed a junk new (new-Placed a)
  Reaches-Placed junk f t g (goes {t = m} {g = h} run step) a =
      Step-Placed m t h g step (Reaches-Placed junk f m h run) a
