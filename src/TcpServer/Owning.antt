-- ===== src/TcpServer/Owning.antt =====
-- Who holds the packets of a server: each object that a connection queues is the connection's own,
-- and of the class that it was made of.
use socket_cplus_plus.Prelude.{
  ℕ, zero, suc, ◌+◌, ◌≡◌, refl, ap, subst, inl, inr, some, List, [], ◌∷◌, ◌++◌, get_elem?,
  Bool-cases, Option-cases, some_inj, none_ne_some, arith,
}
use socket_cplus_plus.Serialize.Host.{ByteOrder}
use socket_cplus_plus.PacketFactory.{Pointer, Factory}
use socket_cplus_plus.PacketFactory.Counting.{times, times-append}
use socket_cplus_plus.PacketFactory.Making.{Owned}
use socket_cplus_plus.PacketFactory.Ownership.{held_alike}
use socket_cplus_plus.PacketFactory.Kinds.{Keeps, same-Keeps, then-Keeps}
use socket_cplus_plus.SizePacket.{size_in, is_remaining_buffer_bigenough}
use socket_cplus_plus.SizePacket.Owning.{size_in-Taken}
use socket_cplus_plus.TcpServer.{TcpConnection, finished, modify, receive_packets, receive}

-- The packets of all connections.
abbrev pub queued : List TcpConnection → List Pointer
queued [] = []
queued (c ∷ cs) = c.inward_packets ++ queued cs

-- The factory in order, with the packets of the connections held, and no object changed in class.
abbrev pub Kept : List Pointer → Factory → Factory → Type 0
Kept held f g = Owned held g × Keeps f.heap g.heap

finished_inj :
    (ps qs : List Pointer) (f g : Factory)
    → finished ps f ≡ finished qs g
    → ◌≡◌ {A = List Pointer × Factory} (ps, f) (qs, g)
finished_inj ps qs f g e = cc

module _ ⦃net : ByteOrder⦄ where
  receive_packets-Kept :
      (fuel : ℕ) (buffer : List ℕ) (offset total : ℕ) (packets out held : List Pointer)
      (f g : Factory)
      → Owned (packets ++ held) f
      → receive_packets fuel buffer offset total packets f ≡ finished out g
      → Kept (out ++ held) f g
  unfolding receive_packets
  receive_packets-Kept zero buffer offset total packets out held f g o e = cc
  receive_packets-Kept (suc fuel) buffer offset total packets out held f g o e =
      elim (Option-cases (is_remaining_buffer_bigenough buffer offset total)) [
        | inl beyond ↦ cc (rw (receive_packets, beyond) at e)
        | inr (enough, tested) ↦ elim (Bool-cases enough) [
          | inr stop ↦
              let same = finished_inj packets out f g (rw (receive_packets, tested, stop) at e) in
              subst (λ r. Kept (r.0 ++ held) f r.1) same (o, same-Keeps f.heap)
          | inl go ↦ elim (Option-cases (size_in f buffer offset)) [
            | inl failed ↦ cc (rw (receive_packets, tested, go, failed) at e)
            | inr ((a, next, h), read) ↦
                let (owned, keeps) =
                  size_in-Taken (packets ++ held) f h buffer offset a next o read in
                let later =
                  held_alike (some a ∷ (packets ++ held)) ((packets ++ (some a ∷ [])) ++ held) h
                    (λ b. omega (
                      arith,
                      times-append (some b) packets held,
                      times-append (some b) packets (some a ∷ []),
                      times-append (some b) (packets ++ (some a ∷ [])) held,
                    ))
                    owned in
                let (last, all) =
                  receive_packets-Kept fuel buffer next total (packets ++ (some a ∷ [])) out held h
                    g later (rw (receive_packets, tested, go, read) at e) in
                (last, then-Keeps f.heap h.heap g.heap keeps all)
          ]
        ]
      ]

  pub receive-Kept :
      (buffer : List ℕ) (total : ℕ) (packets out held : List Pointer) (f g : Factory)
      → Owned (packets ++ held) f
      → receive buffer total packets f ≡ finished out g
      → Kept (out ++ held) f g
  unfolding receive
  receive-Kept buffer total packets out held f g o e =
      receive_packets-Kept (suc total) buffer 0 total packets out held f g o e

-- A change of one connection exchanges its packets for others.
pub queued-modify :
    (conn a : ℕ) (change : TcpConnection → TcpConnection) (cs : List TcpConnection)
    (c : TcpConnection)
    → get_elem? cs conn ≡ some c
    → times (some a) (queued (modify conn change cs)) + times (some a) c.inward_packets
      ≡ times (some a) (queued cs) + times (some a) (change c).inward_packets
queued-modify conn a change [] c e = absurd (none_ne_some e)
queued-modify zero a change (d ∷ cs) c e =
    let same = ap (λ (t : TcpConnection). times (some a) t.inward_packets) (some_inj e) in
    let alike = ap (λ t. times (some a) (change t).inward_packets) (some_inj e) in
    omega (
      arith,
      same,
      alike,
      times-append (some a) d.inward_packets (queued cs),
      times-append (some a) (change d).inward_packets (queued cs),
    )
queued-modify (suc conn) a change (d ∷ cs) c e = omega (
  arith,
  queued-modify conn a change cs c e,
  times-append (some a) d.inward_packets (queued cs),
  times-append (some a) d.inward_packets (queued (modify conn change cs)),
)

-- A change that keeps the packets.
pub queued_kept :
    (conn : ℕ) (change : TcpConnection → TcpConnection) (cs : List TcpConnection)
    → ((c : TcpConnection) → (change c).inward_packets ≡ c.inward_packets)
    → queued (modify conn change cs) ≡ queued cs
queued_kept conn change [] same = refl
queued_kept zero change (c ∷ cs) same = ap (λ ps. ps ++ queued cs) (same c)
queued_kept (suc conn) change (c ∷ cs) same =
    ap (λ ps. c.inward_packets ++ ps) (queued_kept conn change cs same)

-- A new connection has none.
pub queued_grown :
    (cs : List TcpConnection) (c : TcpConnection)
    → c.inward_packets ≡ []
    → queued (cs ++ (c ∷ [])) ≡ queued cs
queued_grown [] c e = ap (λ ps. ps ++ []) e
queued_grown (d ∷ cs) c e = ap (λ ps. d.inward_packets ++ ps) (queued_grown cs c e)
