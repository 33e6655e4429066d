-- ===== src/TcpServer/Places.antt =====
-- Where a connection stands: in the lists of the server and among the pending handlers.
use socket_cplus_plus.Prelude.{
  ℕ, zero, suc, ◌+◌, ◌≤◌, ◌<◌, ◌≡◌, ◌⊎◌, refl, sym, ap, ◌∙◌, true, false, List, [], ◌∷◌, ◌++◌,
  append-nil, append_assoc, length, get_elem?, some, some_inj, ◌==◌, if◌then◌else◌, arith,
}
use socket_cplus_plus.TcpServer.{
  TcpConnection, TcpServer, modify, close, start, start_all, handle_reschedule, is_closed,
  open_ones,
}

abbrev pub times : ℕ → List ℕ → ℕ
times a [] = 0
times a (b ∷ bs) = (if a == b then 1 else 0) + times a bs

pub times-append : (a : ℕ) (xs ys : List ℕ) → times a (xs ++ ys) ≡ times a xs + times a ys
times-append a [] ys = omega arith
times-append a (x ∷ xs) ys = omega (arith, times-append a xs ys)

pub times_removed :
    (a conn : ℕ) (before after whole : List ℕ)
    → whole ≡ before ++ (conn ∷ after)
    → times a whole ≡ (if a == conn then 1 else 0) + times a (before ++ after)
times_removed a conn before after whole e =
    omega (arith, ap (times a) e, times-append a before (conn ∷ after), times-append a before after)

-- The four places of an address: waiting for a peer; served, that is waiting for data or for its turn;
-- closed; or not in use.
abbrev pub Place : TcpServer → ℕ → Type 0
Place s a =
    ((times a s.accepts ≡ 1)
      × (times a s.connections_awaiting_schedule + times a s.reads ≡ 0)
      × (times a s.connections_made ≡ 0)
      × (is_closed s.connections a ≡ false))
    ⊎ (((times a s.accepts ≡ 0)
          × (times a s.connections_awaiting_schedule + times a s.reads ≡ 1)
          × (times a s.connections_made ≡ 1)
          × (is_closed s.connections a ≡ false))
        ⊎ (((times a s.accepts ≡ 0)
              × (times a s.connections_awaiting_schedule + times a s.reads ≡ 0)
              × (times a s.connections_made ≤ 1)
              × (is_closed s.connections a ≡ true))
            ⊎ ((times a s.accepts ≡ 0)
                × (times a s.connections_awaiting_schedule + times a s.reads ≡ 0)
                × (times a s.connections_made ≡ 0)
                × (is_closed s.connections a ≡ false))))

-- An address that no connection has is in no list.
abbrev pub Known : TcpServer → ℕ → Type 0
Known s a =
    (a < length s.connections)
    ⊎ ((times a s.accepts ≡ 0)
        × (times a s.connections_awaiting_schedule + times a s.reads ≡ 0)
        × (times a s.connections_made ≡ 0))

pub record Placed (s : TcpServer) (a : ℕ) : Type 0 where
  pub known : Known s a
  pub place : Place s a

pub length-modify :
    (i : ℕ) (f : TcpConnection → TcpConnection) (cs : List TcpConnection)
    → length (modify i f cs) ≡ length cs
length-modify i f [] = refl
length-modify zero f (c ∷ cs) = refl
length-modify (suc i) f (c ∷ cs) = ap suc (length-modify i f cs)

pub is_closed-modify :
    (i a : ℕ) (f : TcpConnection → TcpConnection) (cs : List TcpConnection)
    → ((c : TcpConnection) → (f c).has_closed ≡ c.has_closed)
    → is_closed (modify i f cs) a ≡ is_closed cs a
unfolding is_closed
is_closed-modify i a f [] same = refl
is_closed-modify zero zero f (c ∷ cs) same = same c
is_closed-modify zero (suc a) f (c ∷ cs) same = refl
is_closed-modify (suc i) zero f (c ∷ cs) same = refl
is_closed-modify (suc i) (suc a) f (c ∷ cs) same = is_closed-modify i a f cs same

pub is_closed-close :
    (i a : ℕ) (cs : List TcpConnection)
    → i < length cs
    → is_closed (modify i close cs) a ≡ (if a == i then true else is_closed cs a)
unfolding is_closed close
is_closed-close i a [] h = absurd (omega arith)
is_closed-close zero zero (c ∷ cs) h = refl
is_closed-close zero (suc a) (c ∷ cs) h = ground arith
is_closed-close (suc i) zero (c ∷ cs) h = ground arith
is_closed-close (suc i) (suc a) (c ∷ cs) h = ground (arith, is_closed-close i a cs (omega arith))

pub is_closed-append :
    (a : ℕ) (cs : List TcpConnection) (c : TcpConnection)
    → c.has_closed ≡ false
    → is_closed (cs ++ (c ∷ [])) a ≡ is_closed cs a
unfolding is_closed
is_closed-append zero [] c h = h
is_closed-append (suc a) [] c h = refl
is_closed-append zero (x ∷ cs) c h = refl
is_closed-append (suc a) (x ∷ cs) c h = is_closed-append a cs c h

pub is_closed-beyond : (a : ℕ) (cs : List TcpConnection) → length cs ≤ a → is_closed cs a ≡ false
unfolding is_closed
is_closed-beyond a [] h = refl
is_closed-beyond zero (c ∷ cs) h = absurd (omega arith)
is_closed-beyond (suc a) (c ∷ cs) h = is_closed-beyond a cs (omega arith)

start_all_lem :
    (conns : List ℕ) (s : TcpServer) → start_all conns s ≡ record s { reads = s.reads ++ conns }
unfolding start_all start
start_all_lem [] s = ap (λ t. record s { reads = t }) (sym (append-nil s.reads))
start_all_lem (conn ∷ conns) s =
    start_all_lem conns (record s { reads = s.reads ++ (conn ∷ []) })
    ∙ ap (λ t. record s { reads = t }) (append_assoc s.reads (conn ∷ []) conns)

-- Each connection that waits for its turn is started once, and none waits any more.
pub handle_reschedule_lem :
    (s : TcpServer)
    → handle_reschedule s ≡ record s {
      reads = s.reads ++ s.connections_awaiting_schedule;
      connections_awaiting_schedule = [];
    }
unfolding handle_reschedule
handle_reschedule_lem s =
    ap (λ (t : TcpServer). record t { connections_awaiting_schedule = [] })
      (start_all_lem s.connections_awaiting_schedule s)

pub times-open_ones :
    (a : ℕ) (cs : List TcpConnection) (conns : List ℕ)
    → times a (open_ones cs conns) ≡ (if is_closed cs a then 0 else times a conns)
unfolding open_ones
times-open_ones a cs [] = ground arith
times-open_ones a cs (b ∷ conns) = ground (arith, times-open_ones a cs conns)

pub is_closed-modify_found :
    (i a : ℕ) (f : TcpConnection → TcpConnection) (c : TcpConnection) (cs : List TcpConnection)
    → get_elem? cs i ≡ some c
    → (f c).has_closed ≡ c.has_closed
    → is_closed (modify i f cs) a ≡ is_closed cs a
unfolding is_closed
is_closed-modify_found i a f c [] there same = refl
is_closed-modify_found zero zero f c (x ∷ cs) there same = let e = some_inj there in rw e same
is_closed-modify_found zero (suc a) f c (x ∷ cs) there same = refl
is_closed-modify_found (suc i) zero f c (x ∷ cs) there same = refl
is_closed-modify_found (suc i) (suc a) f c (x ∷ cs) there same =
    is_closed-modify_found i a f c cs there same
