-- ===== src/Exchange.antt =====
-- A client and a server together: what TCPClient::start_write of
-- UDP01/OldCode/Socket/ClientSocket.h sends, and what the handler of TCPConnection::Start in
-- UDP01/OldCode/Socket/Socket.cpp makes of it. Each of the two has a factory of its own.
pub mod Examples
use socket_cplus_plus.Prelude.{
  ℕ, ◌≤◌, ◌≡◌, refl, sym, ap, ◌∙◌, false, some, some_inj, List, [], ◌∷◌, ◌++◌, map, append-nil,
  append_assoc, length,
}
use socket_cplus_plus.Serialize.Host.{ByteOrder}
use socket_cplus_plus.Packets.{Packet}
use socket_cplus_plus.PacketFactory.{Pointer, Factory}
use socket_cplus_plus.SizePacket.Frames.{frame, frames}
use socket_cplus_plus.TcpClient.{
  Operation, connecting, reading, writing, heartbeat_wait, deadline_wait, TcpClient, start_write,
}
use socket_cplus_plus.TcpClient.Writing.{Queued, growing, start_write_lem}
use socket_cplus_plus.TcpServer.{finished, receive}
use socket_cplus_plus.TcpServer.Frames.{Served, receive-frames}

-- The bytes that writes put on the wire.
abbrev pub sent_by : List Operation → List ℕ
sent_by [] = []
sent_by (writing bytes ∷ ops) = bytes ++ sent_by ops
sent_by (connecting _ ∷ ops) = sent_by ops
sent_by (reading ∷ ops) = sent_by ops
sent_by (heartbeat_wait ∷ ops) = sent_by ops
sent_by (deadline_wait ∷ ops) = sent_by ops

-- For each packet, all packets up to it; `before` stands in front of the list.
abbrev pub repeated : List Packet → List Packet → List Packet
repeated before [] = []
repeated before (p ∷ ps) = (before ++ (p ∷ [])) ++ repeated (before ++ (p ∷ [])) ps

frames-append : (ps qs : List Packet) → frames (ps ++ qs) ≡ frames ps ++ frames qs
frames-append [] qs = refl
frames-append (p ∷ ps) qs =
    ap (◌++◌ (frame p)) (frames-append ps qs) ∙ sym (append_assoc (frame p) (frames ps) (frames qs))

frames_behind :
    (before : List Packet) (p : Packet) → frames (before ++ (p ∷ [])) ≡ frames before ++ frame p
frames_behind before p =
    frames-append before (p ∷ []) ∙ ap (◌++◌ (frames before)) (append-nil (frame p))

sent_by-growing :
    (before ps : List Packet) → sent_by (growing (frames before) ps) ≡ frames (repeated before ps)
sent_by-growing before [] = refl
sent_by-growing before (p ∷ ps) =
    let upto = before ++ (p ∷ []) in
    let bytes = frames_behind before p in
    ap (λ t. t ++ sent_by (growing t ps)) (sym bytes)
    ∙ ap (◌++◌ (frames upto)) (sent_by-growing upto ps)
    ∙ sym (frames-append upto (repeated upto ps))

module _ ⦃net : ByteOrder⦄ where
  -- A server that reads, at once and with three bytes or more behind them, the bytes of the writes
  -- that start_write starts for a queue which fits its buffer, and whose factory has objects ready,
  -- takes the first packet, then the first two, and so on to the whole queue.
  pub receive-start_write :
      (addresses : List ℕ) (queue : List Packet) (stack : List ℕ) (c d : TcpClient) (f h : Factory)
      (made : List ℕ) (f' g' : Factory) (post : List ℕ) (packets : List Pointer)
      → c.stopped ≡ false
      → c.packet_out ≡ map some addresses
      → Queued f.heap addresses queue
      → length (frames queue) ≤ length stack
      → start_write stack c f ≡ some (d, h)
      → Served f' (repeated [] queue) made g'
      → 3 ≤ length post
      → (writes : List Operation) × (d.pending ≡ c.pending ++ writes)
        × (receive (sent_by writes ++ post) (length (sent_by writes)) packets f'
            ≡ finished (packets ++ map some made) g')
  receive-start_write addresses queue stack c d f h made f' g' post packets on out q room ran served
        more =
      let (g, wrote, same) = start_write_lem addresses queue stack c f on out q room in
      (
        growing [] queue,
        ap (λ r. r.0.pending) (some_inj (sym ran ∙ wrote)),
        ap (λ t. receive (t ++ post) (length t) packets f') (sent_by-growing [] queue)
            ∙ receive-frames f' g' (repeated [] queue) made post packets served more,
      )
