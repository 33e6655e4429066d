-- ===== src/TcpClient/Connecting.antt =====
-- The connect actor: start, start_connect and handle_connect over the list of endpoints.
use socket_cplus_plus.Prelude.{
  ℕ, ◌+◌, ◌≡◌, refl, sym, ◌∙◌, append-nil, append_assoc, ap, ap₂, Bool, true, false, Option, none,
  some, List, [], ◌∷◌, ◌++◌, length, drop, arith,
}
use socket_cplus_plus.Serialize.Host.{ByteOrder}
use socket_cplus_plus.PacketFactory.{Factory}
use socket_cplus_plus.TcpClient.{
  Operation, connecting, reading, deadline_wait, TcpClient, initiate, stop, start_connect, start,
  start_read, start_write, write_all, handle_connect,
}

-- How an attempt ends in vain: with an error, or with the socket closed by check_deadline, whatever
-- the library then reports.
pub data Failure : Type 0 where
  refused : Failure
  timed_out : Bool → Failure

module _ ⦃net : ByteOrder⦄ where
  -- The handler's run at the end of such an attempt.
  pub fail : ℕ → Failure → List ℕ → List ℕ → TcpClient → Factory → Option (TcpClient × Factory)
  fail now refused iter stack c f = handle_connect now true iter stack c f
  fail now (timed_out ec) iter stack c f =
      handle_connect now ec iter stack (record c { socket_is_open = false; deadline = none }) f

  -- One attempt after the other fails; each entry is the time and the manner.
  pub fail_all :
      List (ℕ × Failure) → List ℕ → List ℕ → TcpClient → Factory → Option (TcpClient × Factory)
  fail_all [] iter stack c f = some (c, f)
  fail_all ((now, how) ∷ rest) iter stack c f = elim (fail now how iter stack c f) [
    | none ↦ none
    | some (d, g) ↦ fail_all rest (drop 1 iter) stack d g
  ]

-- The attempts at the endpoints of a list, where others stand behind it.
abbrev pub tried : List ℕ → List ℕ → List Operation
tried [] rest = []
tried (endpoint ∷ before) rest = connecting (endpoint ∷ (before ++ rest)) ∷ tried before rest

abbrev pub attempts : List ℕ → List Operation
attempts [] = []
attempts (endpoint ∷ rest) = connecting (endpoint ∷ rest) ∷ attempts rest

tried-nil : (before : List ℕ) → tried before [] ≡ attempts before
tried-nil [] = refl
tried-nil (endpoint ∷ before) =
    ap₂ (λ iter ops. connecting (endpoint ∷ iter) ∷ ops) (append-nil before) (tried-nil before)

-- What a client starts that tries all endpoints: the first attempt, the watch of the deadline, and
-- the other attempts.
abbrev pub opened : List ℕ → List Operation
opened [] = deadline_wait ∷ []
opened (endpoint ∷ rest) = connecting (endpoint ∷ rest) ∷ deadline_wait ∷ attempts rest

-- What a client has started that was started, after failures at the endpoints in front of one: the
-- first attempt, the watch of the deadline, and an attempt at each further endpoint, that one last.
abbrev pub asked : List ℕ → List ℕ → List Operation
asked [] iter = connecting iter ∷ deadline_wait ∷ []
asked (x ∷ before) iter =
    connecting (x ∷ (before ++ iter))
    ∷ deadline_wait
    ∷ (tried before iter ++ (connecting iter ∷ []))

-- A client that goes on from `c` having started `ops`.
abbrev pub GoesOn : TcpClient → List Operation → TcpClient → Type 0
GoesOn c ops d =
    (d.stopped ≡ false)
    × (d.is_connected ≡ c.is_connected)
    × (d.pending ≡ c.pending ++ ops)
    × (d.packet_out ≡ c.packet_out)

module _ ⦃net : ByteOrder⦄ where
  fail_next :
      (now endpoint : ℕ) (how : Failure) (rest stack : List ℕ) (c : TcpClient) (f : Factory)
      → c.stopped ≡ false
      → c.socket_is_open ≡ true
      → (d : TcpClient) × (fail now how (endpoint ∷ rest) stack c f
          ≡ some (start_connect now rest d, f))
        × GoesOn c [] d
  unfolding fail handle_connect
  fail_next now endpoint refused rest stack c f h o = (
    record c { socket_is_open = false },
    rw (handle_connect, h, o),
    (h, refl, sym (append-nil c.pending), refl),
  )
  fail_next now endpoint (timed_out ec) rest stack c f h o = (
    record c { socket_is_open = false; deadline = none },
    rw (handle_connect, h),
    (h, refl, sym (append-nil c.pending), refl),
  )

  fail_all_continues :
      (failures : List (ℕ × Failure)) (before rest stack : List ℕ) (now endpoint : ℕ)
      (how : Failure) (c : TcpClient) (f : Factory)
      → length failures ≡ length before
      → c.stopped ≡ false
      → c.socket_is_open ≡ true
      → (d : TcpClient) × (last : ℕ) × (fail_all
            ((now, how) ∷ failures)
            (endpoint ∷ (before ++ rest))
            stack
            c
            f
          ≡ some (start_connect last rest d, f))
        × GoesOn c (tried before rest) d
  unfolding fail_all start_connect
  fail_all_continues [] [] rest stack now endpoint how c f e h o =
      let (d, ran, kept) = fail_next now endpoint how rest stack c f h o in
      (d, now, rw (fail_all, ran), kept)
  fail_all_continues [] (x ∷ before) rest stack now endpoint how c f e h o = absurd (omega arith)
  fail_all_continues (x ∷ failures) [] rest stack now endpoint how c f e h o = absurd (omega arith)
  fail_all_continues ((later, next) ∷ failures) (x ∷ before) rest stack now endpoint how c f e h o =
      let (d, ran, (on, same, ops, queue)) =
        fail_next now endpoint how (x ∷ (before ++ rest)) stack c f h o in
      let (d', last, ran', (on', same', ops', queue')) =
        fail_all_continues failures before rest stack later x next
          (start_connect now (x ∷ (before ++ rest)) d) f (omega arith) on refl in
      (
        d',
        last,
        rw (fail_all, ran) ran',
        (
          on',
          same' ∙ same,
          ops'
              ∙ append_assoc d.pending (connecting (x ∷ (before ++ rest)) ∷ []) (tried before rest)
              ∙ ap (λ t. t ++ (connecting (x ∷ (before ++ rest)) ∷ tried before rest))
                  (ops ∙ append-nil c.pending),
          queue' ∙ queue,
        ),
      )

  -- A client that is started, and whose attempts all fail, in whatever way, has after as many
  -- attempts as there are endpoints tried each of them once, in their order, and has stopped.
  pub fail_all-start :
      (failures : List (ℕ × Failure)) (endpoints stack : List ℕ) (now : ℕ) (c : TcpClient)
      (f : Factory)
      → length failures ≡ length endpoints
      → c.stopped ≡ false
      → (d : TcpClient) × (fail_all failures endpoints stack (start now endpoints c) f
          ≡ some (d, f))
        × (d.stopped ≡ true)
        × (d.socket_is_open ≡ false)
        × (d.is_connected ≡ false)
        × (d.pending ≡ c.pending ++ opened endpoints)
  unfolding fail_all start start_connect stop
  fail_all-start [] [] stack now c f e h =
      (initiate deadline_wait (stop (record c { endpoints = [] })), refl, refl, refl, refl, refl)
  fail_all-start [] (x ∷ endpoints) stack now c f e h = absurd (omega arith)
  fail_all-start (x ∷ failures) [] stack now c f e h = absurd (omega arith)
  fail_all-start ((at, how) ∷ failures) (endpoint ∷ rest) stack now c f e h =
      let (d, last, ran, (on, same, ops, queue)) =
        fail_all_continues failures rest [] stack at endpoint how (start now (endpoint ∷ rest) c) f
          (omega arith) h refl in
      (
        stop d,
        ap
              (λ iter.
                fail_all ((at, how) ∷ failures) (endpoint ∷ iter) stack
                  (start now (endpoint ∷ rest) c) f)
              (sym (append-nil rest))
            ∙ ran,
        refl,
        refl,
        refl,
        ops
            ∙ ap (λ t. (start now (endpoint ∷ rest) c).pending ++ t) (tried-nil rest)
            ∙ simp append_assoc,
      )

  -- What becomes of a client with nothing to send whose attempt succeeds.
  abbrev pub linked : ℕ → TcpClient → TcpClient
  linked now d = record (initiate reading d) {
    deadline = some (now + 30);
    is_connected = true;
    packet_out = [];
  }

  pub handle_connect_idle :
      (now : ℕ) (iter stack : List ℕ) (d : TcpClient) (f : Factory)
      → d.stopped ≡ false
      → d.socket_is_open ≡ true
      → d.packet_out ≡ []
      → handle_connect now false iter stack d f ≡ some (linked now d, f)
  unfolding handle_connect start_read start_write write_all
  handle_connect_idle now iter stack d f h o q = ground arith
