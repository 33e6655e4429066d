-- ===== src/TcpServer/Receiving.antt =====
-- The rounds of the loop in a read's handler.
use socket_cplus_plus.Prelude.{
  ℕ, zero, suc, ◌+◌, ◌<◌, ◌≢◌, ap, ◌∙◌, inl, inr, some, List, [], ◌∷◌, ◌++◌, Bool-cases,
  Option-cases, arith,
}
use socket_cplus_plus.Serialize.Host.{ByteOrder}
use socket_cplus_plus.PacketFactory.{Pointer, Factory}
use socket_cplus_plus.SizePacket.{size_in, is_remaining_buffer_bigenough}
use socket_cplus_plus.SizePacket.Progress.{size_in_progress, bigenough_lt}
use socket_cplus_plus.TcpServer.{unfinished, receive_packets, receive}

module _ ⦃net : ByteOrder⦄ where
  receive_packets_ends :
      (fuel : ℕ) (buffer : List ℕ) (offset total : ℕ) (packets : List Pointer) (f : Factory)
      → 0 < fuel
      → total < fuel + offset
      → receive_packets fuel buffer offset total packets f ≢ unfinished
  unfolding receive_packets
  receive_packets_ends zero buffer offset total packets f pos h = absurd (omega arith)
  receive_packets_ends (suc fuel) buffer offset total packets f pos h =
      elim (Option-cases (is_remaining_buffer_bigenough buffer offset total)) [
        | inl beyond ↦ rw (receive_packets, beyond) (λ e. cc)
        | inr (enough, tested) ↦ elim (Bool-cases enough) [
          | inl go ↦ elim (Option-cases (size_in f buffer offset)) [
            | inl failed ↦ rw (receive_packets, tested, go, failed) (λ e. cc)
            | inr ((a, next, g), read) ↦
                rw (receive_packets, tested, go, read)
                  (receive_packets_ends fuel buffer next total (packets ++ (some a ∷ [])) g
                    (omega (arith, bigenough_lt buffer offset total (tested ∙ ap some go)))
                    (omega (arith, size_in_progress f g buffer offset a next read)))
          ]
          | inr stop ↦ rw (receive_packets, tested, stop) (λ e. cc)
        ]
      ]

  -- The handler of a read needs no more rounds than it has bytes: it ends with the packets or with a
  -- fault, and never runs on.
  pub receive_ends :
      (buffer : List ℕ) (total : ℕ) (packets : List Pointer) (f : Factory)
      → receive buffer total packets f ≢ unfinished
  unfolding receive
  receive_ends buffer total packets f =
      receive_packets_ends (suc total) buffer 0 total packets f (omega arith) (omega arith)
