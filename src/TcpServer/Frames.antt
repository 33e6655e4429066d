-- ===== src/TcpServer/Frames.antt =====
-- The handler of a read on what peers send: the frames of packets, one behind the other.
use socket_cplus_plus.Prelude.{
  ℕ, suc, ◌+◌, ◌-◌, ◌≤◌, ◌<◌, ◌≡◌, refl, sym, ap, ◌∙◌, true, false, some, List, [], ◌∷◌, ◌++◌, map,
  append-nil, append_assoc, not, ltb, length, length-append, get_elem?, set, drop,
  take-append_length, some_inj, arith,
}
use socket_cplus_plus.Serialize.Host.{ByteOrder}
use socket_cplus_plus.Serialize.Extent.{in_u16_total, in_u16_short}
use socket_cplus_plus.Packets.{Packet}
use socket_cplus_plus.Packets.Wire.{Fits, SameClass, wire}
use socket_cplus_plus.PacketFactory.{Pointer, Factory, create_by_type}
use socket_cplus_plus.SizePacket.{size_in, is_remaining_buffer_bigenough}
use socket_cplus_plus.SizePacket.Frames.{frame, frames, size_out_behind}
use socket_cplus_plus.SizePacket.Receiving.{announced, size_in-frame, sized, filled_frame, deliver}
use socket_cplus_plus.SizePacket.Progress.{bigenough_sized, bigenough_beyond}
use socket_cplus_plus.TcpServer.{fault, finished, receive_packets, receive, send_message}

-- The factory has an object of each packet's class ready when its frame comes, and so ends up with
-- the packets in the objects at these addresses.
pub data Served : Factory → List Packet → List ℕ → Factory → Type 0 where
  nothing : {f : Factory} → Served f [] [] f
  another :
      {f g h : Factory} {p q : Packet} {ps : List Packet} {a : ℕ} {rest : List ℕ}
      → create_by_type (announced p) f ≡ (some a, g)
      → get_elem? g.heap a ≡ some q
      → SameClass q p
      → Fits p
      → Served (record g { heap = set g.heap a p }) ps rest h
      → Served f (p ∷ ps) (a ∷ rest) h

module _ ⦃net : ByteOrder⦄ where
  tested :
      (p : Packet) (pre post : List ℕ) (total : ℕ)
      → length (pre ++ frame p) ≤ total
      → is_remaining_buffer_bigenough (pre ++ (frame p ++ post)) (length pre) total ≡ some true
  tested p pre post total room =
      bigenough_sized (pre ++ (frame p ++ post)) (length pre) total (length (wire p))
        (length pre + 3) (sized p pre post)
      ∙ ap some (ground (arith, length-append pre (frame p)))

  taken :
      (p q : Packet) (pre post : List ℕ) (f g : Factory) (a : ℕ)
      → create_by_type (announced p) f ≡ (some a, g)
      → get_elem? g.heap a ≡ some q
      → SameClass q p
      → Fits p
      → size_in f (pre ++ (frame p ++ post)) (length pre)
        ≡ some (a, length (pre ++ frame p), record g { heap = set g.heap a p })
  taken p q pre post f g a made there same fits =
      let bytes = pre ++ (frame p ++ post) in
      let end : length pre + (3 + length (wire p)) ≡ length (pre ++ frame p) =
        omega (arith, length-append pre (frame p)) in
      size_in-frame f p pre post fits
      ∙ ap (deliver bytes (length pre + 3)) made
      ∙ rw (deliver, there, filled_frame q p pre post fits same, end)

  received_one :
      (f g : Factory) (p q : Packet) (a : ℕ) (made : create_by_type (announced p) f ≡ (some a, g))
      (there : get_elem? g.heap a ≡ some q) (same : SameClass q p) (fits : Fits p) (fuel : ℕ)
      (pre post : List ℕ) (total : ℕ) (packets : List Pointer)
      → length (pre ++ frame p) ≤ total
      → receive_packets (suc fuel) (pre ++ (frame p ++ post)) (length pre) total packets f
        ≡ receive_packets fuel
            (pre ++ (frame p ++ post))
            (length (pre ++ frame p))
            total
            (packets ++ (some a ∷ []))
            (record g { heap = set g.heap a p })
  unfolding receive_packets
  received_one f g p q a made there same fits fuel pre post total packets room =
      rw (
        receive_packets,
        tested p pre post total room,
        taken p q pre post f g a made there same fits,
      )

  -- Past the frames, whatever comes behind them.
  received_through :
      {f g : Factory} {ps : List Packet} {addresses : List ℕ} (served : Served f ps addresses g)
      (fuel : ℕ) (buffer sent post : List ℕ) (total : ℕ) (packets : List Pointer)
      → buffer ≡ sent ++ (frames ps ++ post)
      → length (sent ++ frames ps) ≤ total
      → receive_packets (length ps + fuel) buffer (length sent) total packets f
        ≡ receive_packets fuel buffer
            (length (sent ++ frames ps))
            total
            (packets ++ map some addresses)
            g
  received_through (nothing {f}) fuel buffer sent post total packets e room =
      let none_used : 0 + fuel ≡ fuel = omega arith in
      rw (none_used, append-nil sent, append-nil packets)
  received_through (another {f} {g} {h} {p} {q} {ps} {a} {rest} made there same fits later) fuel
        buffer sent post total packets e room =
      let one_used : suc (length ps) + fuel ≡ suc (length ps + fuel) = omega arith in
      let parts : buffer ≡ sent ++ (frame p ++ (frames ps ++ post)) =
        e ∙ ap (◌++◌ sent) (append_assoc (frame p) (frames ps) post) in
      let shifted : buffer ≡ (sent ++ frame p) ++ (frames ps ++ post) =
        parts ∙ sym (append_assoc sent (frame p) (frames ps ++ post)) in
      let whole : (sent ++ frame p) ++ frames ps ≡ sent ++ (frame p ++ frames ps) =
        append_assoc sent (frame p) (frames ps) in
      let g' = record g { heap = set g.heap a p } in
      ap (λ n. receive_packets n buffer (length sent) total packets f) one_used
      ∙ ap (λ t. receive_packets (suc (length ps + fuel)) t (length sent) total packets f) parts
      ∙ received_one f g p q a made there same fits (length ps + fuel) sent (frames ps ++ post)
          total packets
          (omega (arith, ap length whole, length-append (sent ++ frame p) (frames ps)))
      ∙ ap
          (λ t.
            receive_packets (length ps + fuel) t (length (sent ++ frame p)) total
              (packets ++ (some a ∷ [])) g')
          (sym parts)
      ∙ received_through later fuel buffer (sent ++ frame p) post total (packets ++ (some a ∷ []))
          shifted (omega (arith, ap length whole))
      ∙ ap
          (λ t.
            receive_packets fuel buffer (length t) total
              ((packets ++ (some a ∷ [])) ++ map some rest) h)
          whole
      ∙ ap (λ t. receive_packets fuel buffer (length (sent ++ (frame p ++ frames ps))) total t h)
          (append_assoc packets (some a ∷ []) (map some rest))

  frames_longer : (ps : List Packet) → length ps ≤ length (frames ps)
  frames_longer [] = omega arith
  frames_longer (p ∷ ps) = omega (arith, frames_longer ps, length-append (frame p) (frames ps))

  -- What is left when all frames are read: the offset stands at the end of the data.
  received_all :
      (f g : Factory) (ps : List Packet) (addresses : List ℕ) (post : List ℕ)
      (packets : List Pointer)
      → Served f ps addresses g
      → (fuel : ℕ) × (receive (frames ps ++ post) (length (frames ps)) packets f
          ≡ receive_packets
              (suc fuel)
              (frames ps ++ post)
              (length (frames ps))
              (length (frames ps))
              (packets ++ map some addresses)
              g)
  unfolding receive
  received_all f g ps addresses post packets served =
      let n = length (frames ps) in
      let enough : suc n ≡ length ps + suc (n - length ps) = omega (arith, frames_longer ps) in
      (
        n - length ps,
        ap (λ k. receive_packets k (frames ps ++ post) 0 n packets f) enough
            ∙ received_through served (suc (n - length ps)) (frames ps ++ post) [] post n packets
                refl (omega arith),
      )

  -- A read whose data are whole frames, with three bytes or more of the buffer behind them, appends
  -- the packets of the frames to the connection's in their order, and stops at the end of the data,
  -- where the factory has for each frame, when its turn comes, an object of the packet's class to
  -- answer the announced pair.
  pub receive-frames :
      (f g : Factory) (ps : List Packet) (addresses : List ℕ) (post : List ℕ)
      (packets : List Pointer)
      → Served f ps addresses g
      → 3 ≤ length post
      → receive (frames ps ++ post) (length (frames ps)) packets f
        ≡ finished (packets ++ map some addresses) g
  unfolding receive_packets
  receive-frames f g ps addresses post packets served room =
      let n = length (frames ps) in
      let buffer = frames ps ++ post in
      let (fuel, ran) = received_all f g ps addresses post packets served in
      let (size, sized) =
        in_u16_total buffer (n + 1) (omega (arith, length-append (frames ps) post)) in
      let over : not (ltb n (size + (n + 1 + 2))) ≡ false = ground arith in
      ran ∙ rw (receive_packets, bigenough_sized buffer n n size (n + 1 + 2) sized, over)

  -- With fewer than three bytes behind the frames, the test for another frame reads its size outside
  -- the buffer.
  pub receive-frames_full :
      (f g : Factory) (ps : List Packet) (addresses : List ℕ) (post : List ℕ)
      (packets : List Pointer)
      → Served f ps addresses g
      → length post < 3
      → receive (frames ps ++ post) (length (frames ps)) packets f ≡ fault
  unfolding receive_packets
  receive-frames_full f g ps addresses post packets served short =
      let n = length (frames ps) in
      let buffer = frames ps ++ post in
      let (fuel, ran) = received_all f g ps addresses post packets served in
      let outside = in_u16_short buffer (n + 1) (omega (arith, length-append (frames ps) post)) in
      ran ∙ rw (receive_packets, bigenough_beyond buffer n n outside)

  pub send_message-frame :
      (p : Packet) (stack : List ℕ)
      → Fits p
      → length (frame p) ≤ length stack
      → send_message p stack ≡ some (frame p)
  unfolding send_message
  send_message-frame p stack fits room = rw (
    send_message,
    size_out_behind p [] stack fits room,
    take-append_length (frame p) (drop (length (frame p)) stack),
  )

  -- What SendMessage of a packet, with fields in their widths and room in its buffer, puts on the
  -- wire, the handler of a read on the other side takes for that packet, and for nothing else,
  -- where three bytes or more of the buffer stand behind it and the reader's factory answers the
  -- announced pair with an object of the packet's class, into which the packet is read.
  pub receive-send_message :
      (p q : Packet) (stack post sent : List ℕ) (f g : Factory) (a : ℕ) (packets : List Pointer)
      → Fits p
      → length (frame p) ≤ length stack
      → send_message p stack ≡ some sent
      → create_by_type (announced p) f ≡ (some a, g)
      → get_elem? g.heap a ≡ some q
      → SameClass q p
      → 3 ≤ length post
      → receive (sent ++ post) (length sent) packets f
        ≡ finished (packets ++ (some a ∷ [])) (record g { heap = set g.heap a p })
  receive-send_message p q stack post sent f g a packets fits room e made there same more =
      let same_bytes : sent ≡ frame p ++ [] =
        some_inj (sym e ∙ send_message-frame p stack fits room) ∙ sym (append-nil (frame p)) in
      ap (λ t. receive (t ++ post) (length t) packets f) same_bytes
      ∙ receive-frames f (record g { heap = set g.heap a p }) (p ∷ []) (a ∷ []) post packets
          (another made there same fits nothing) more
