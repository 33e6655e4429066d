-- ===== src/TcpClient/Writing.antt =====
-- The write actor, start_write, over a queue of packets.
use socket_cplus_plus.Prelude.{
  ℕ, ◌≤◌, ◌<◌, ◌≡◌, refl, sym, ap, subst, ◌∙◌, false, Option, none, some, List, [], ◌∷◌, ◌++◌, map,
  append-nil, append_assoc, length, take, drop, get_elem?, if◌then◌else◌, length-append,
  length-drop, take-append_length, arith,
}
use native.Mathlib.Decide.{dec_le}
use socket_cplus_plus.Prelude.Maps.{pair_key}
use socket_cplus_plus.Wire.Laws.{emit-short}
use socket_cplus_plus.Serialize.Host.{ByteOrder}
use socket_cplus_plus.Packets.{Packet}
use socket_cplus_plus.Packets.Wire.{Fits}
use socket_cplus_plus.PacketFactory.{Pointer, Factory}
use socket_cplus_plus.PacketFactory.Ownership.{release_there}
use socket_cplus_plus.SizePacket.Frames.{frame, frames, size_out-writes, size_out_behind}
use socket_cplus_plus.TcpClient.{Operation, writing, TcpClient, initiate, write_all, start_write}

-- The addresses lead to the packets, whose fields are in their widths.
abbrev pub Queued : List Packet → List ℕ → List Packet → Type 0
Queued heap [] [] = Unit {0}
Queued heap [] (p ∷ ps) = ⊥
Queued heap (a ∷ addresses) [] = ⊥
Queued heap (a ∷ addresses) (p ∷ ps) =
    (get_elem? heap a ≡ some p) × Fits p × Queued heap addresses ps

-- Writes that each send what is in the buffer up to then.
abbrev pub growing : List ℕ → List Packet → List Operation
growing sent [] = []
growing sent (p ∷ ps) = writing (sent ++ frame p) ∷ growing (sent ++ frame p) ps

module _ ⦃net : ByteOrder⦄ where
  write_all_lem :
      (addresses : List ℕ) (packets : List Packet) (sent rest : List ℕ) (c : TcpClient)
      (f : Factory)
      → Queued f.heap addresses packets
      → length (frames packets) ≤ length rest
      → (g : Factory) × (write_all
            (map some addresses)
            (record { bytes = sent ++ rest; offset = length sent })
            c
            f
          ≡ some (record c { pending = c.pending ++ growing sent packets }, g))
        × (g.heap ≡ f.heap)
  unfolding write_all
  write_all_lem [] [] sent rest c f q room =
      (f, ap (λ t. some (record c { pending = t }, f)) (sym (append-nil c.pending)), refl)
  write_all_lem [] (p ∷ packets) sent rest c f q room = absurd q
  write_all_lem (a ∷ addresses) [] sent rest c f q room = absurd q
  write_all_lem (a ∷ addresses) (p ∷ packets) sent rest c f (there, fits, more) room =
      let (given, left, g, released, same) = release_there a p f there in
      let sent' = sent ++ frame p in
      let rest' = drop (length (frame p)) rest in
      let c' = initiate (writing sent') c in
      let (g', ran, same') =
        write_all_lem addresses packets sent' rest' c' g
          (subst (λ h. Queued h addresses packets) (sym same) more)
          (omega (
            arith,
            length-append (frame p) (frames packets),
            length-drop (length (frame p)) rest,
          )) in
      (
        g',
        rw (
          write_all,
          there,
          size_out_behind p sent rest fits
              (omega (arith, length-append (frame p) (frames packets))),
          released,
          take-append_length sent' rest',
          ran,
          append_assoc c.pending (writing sent' ∷ []) (growing sent' packets),
        ),
        same' ∙ same,
      )

  abbrev emptied : Option (TcpClient × Factory) → Option (TcpClient × Factory)
  emptied r = elim r [ none ↦ none | some (d, g) ↦ some (record d { packet_out = [] }, g) ]

  start_write_running :
      (stack : List ℕ) (queue : List Pointer) (c : TcpClient) (f : Factory)
      → c.stopped ≡ false
      → c.packet_out ≡ queue
      → start_write stack c f ≡ emptied (write_all queue (record { bytes = stack; offset = 0 }) c f)
  unfolding start_write
  start_write_running stack queue c f on e =
      ap
        (λ b.
          if b
          then some (c, f)
          else emptied (write_all c.packet_out (record { bytes = stack; offset = 0 }) c f))
        on
      ∙ ap (λ t. emptied (write_all t (record { bytes = stack; offset = 0 }) c f)) e

  -- A running client whose queue fits the buffer empties the queue and starts one write for each
  -- packet. The offset is not set back between them, so each write sends the frames of all packets
  -- up to its own, from the first on.
  pub start_write_lem :
      (addresses : List ℕ) (packets : List Packet) (stack : List ℕ) (c : TcpClient) (f : Factory)
      → c.stopped ≡ false
      → c.packet_out ≡ map some addresses
      → Queued f.heap addresses packets
      → length (frames packets) ≤ length stack
      → (g : Factory) × (start_write stack c f
          ≡ some (record c { packet_out = []; pending = c.pending ++ growing [] packets }, g))
        × (g.heap ≡ f.heap)
  start_write_lem addresses packets stack c f on queue q room =
      let (g, ran, same) = write_all_lem addresses packets [] stack c f q room in
      (g, start_write_running stack (map some addresses) c f on queue ∙ ap emptied ran, same)

  write_all_overrun :
      (addresses : List ℕ) (packets : List Packet) (sent rest : List ℕ) (c : TcpClient)
      (f : Factory)
      → Queued f.heap addresses packets
      → length rest < length (frames packets)
      → write_all (map some addresses) (record { bytes = sent ++ rest; offset = length sent }) c f
        ≡ none
  unfolding write_all
  write_all_overrun [] [] sent rest c f q short = absurd (omega arith)
  write_all_overrun [] (p ∷ packets) sent rest c f q short = absurd q
  write_all_overrun (a ∷ addresses) [] sent rest c f q short = absurd q
  write_all_overrun (a ∷ addresses) (p ∷ packets) sent rest c f (there, fits, more) short =
      elim (dec_le (length (frame p)) (length rest)) [
        | yes fit ↦
            let (given, left, g, released, same) = release_there a p f there in
            let sent' = sent ++ frame p in
            let rest' = drop (length (frame p)) rest in
            rw (
              write_all,
              there,
              size_out_behind p sent rest fits fit,
              released,
              write_all_overrun addresses packets sent' rest'
                  (initiate (writing (take (length sent') (sent' ++ rest'))) c) g
                  (subst (λ h. Queued h addresses packets) (sym same) more)
                  (omega (
                    arith,
                    length-append (frame p) (frames packets),
                    length-drop (length (frame p)) rest,
                  )),
            )
        | no long ↦ rw (
          write_all,
          there,
          ap (λ o. o (record { bytes = sent ++ rest; offset = length sent }))
                (size_out-writes p fits)
              ∙ emit-short (frame p) (record { bytes = sent ++ rest; offset = length sent })
                  (omega (arith, length-append sent rest)),
        )
      ]

  -- A running client whose queued frames together are longer than the buffer of start_write writes
  -- past its end.
  pub start_write_overrun :
      (addresses : List ℕ) (packets : List Packet) (stack : List ℕ) (c : TcpClient) (f : Factory)
      → c.stopped ≡ false
      → c.packet_out ≡ map some addresses
      → Queued f.heap addresses packets
      → length stack < length (frames packets)
      → start_write stack c f ≡ none
  start_write_overrun addresses packets stack c f on queue q short =
      start_write_running stack (map some addresses) c f on queue
      ∙ ap emptied (write_all_overrun addresses packets [] stack c f q short)
