-- ===== src/TcpClient/Examples.antt =====
-- Runs of the client: two endpoints, a stream of bytes, and a queue of packets.
use socket_cplus_plus.Prelude.{
  ℕ, zero, suc, ◌+◌, length, ◌≡◌, refl, true, false, none, some, List, [], ◌∷◌, replicate,
}
use socket_cplus_plus.Serialize.Hosts.{little_endian}
use socket_cplus_plus.Packets.Examples.{a_position, a_position-Fits}
use socket_cplus_plus.PacketFactory.{Factory}
use socket_cplus_plus.PacketFactory.Examples.{a_factory}
use socket_cplus_plus.TcpClient.{
  connecting, reading, deadline_wait, TcpClient, new, write, stop, start_connect, start, start_read,
  handle_read, print_line,
}
use socket_cplus_plus.TcpClient.Connecting.{
  Failure, refused, timed_out, fail_all, fail_all-start, opened, linked, handle_connect_idle,
}
use socket_cplus_plus.TcpClient.Reading.{
  Completion, complete_reads, first_lines, arrived, non_empty, line_end, complete_reads_lines,
}
use socket_cplus_plus.TcpClient.Writing.{Queued}
use socket_cplus_plus.TcpClient.Actors.{
  Reaches, read_ends, user_writes, user_stops, stays, goes, Sound,
}
use socket_cplus_plus.TcpClient.Runs.{Reaches-Sound}
use socket_cplus_plus.TcpClient.Shutdown.{handlers, Reaches-Unwound}
use socket_cplus_plus.TcpClient.Silence.{StillMute, connect_silent}

abbrev pub stack : List ℕ
stack = replicate 120 0

abbrev pub a_heap : Factory
a_heap = record a_factory { heap = a_position ∷ [] }

abbrev pub fresh : TcpClient
fresh = record {
  stopped = false;
  endpoints = [];
  socket_is_open = false;
  input_buffer = [];
  deadline = none;
  heartbeat_timer = none;
  is_connected = false;
  packet_out = [];
  packet_in = [];
  pending = [];
  printed = [];
}

abbrev two_failures : List (ℕ × Failure)
two_failures = (5, refused) ∷ (70, timed_out true) ∷ []

fail_all-start_example :
    (d : TcpClient) × (fail_all two_failures
        (1 ∷ 2 ∷ [])
        stack
        (start 0 (1 ∷ 2 ∷ []) fresh)
        a_factory
      ≡ some (d, a_factory))
    × (d.stopped ≡ true)
    × (d.socket_is_open ≡ false)
    × (d.is_connected ≡ false)
    × (d.pending ≡ opened (1 ∷ 2 ∷ []))
fail_all-start_example = fail_all-start two_failures (1 ∷ 2 ∷ []) stack 0 fresh a_factory refl refl

-- "a", an empty line, and "bc" in two portions.
abbrev portions : List Completion
portions = (1, 97 ∷ 10 ∷ 10 ∷ 98 ∷ [], 2) ∷ (2, [], 1) ∷ (3, 99 ∷ 10 ∷ [], 3) ∷ []

complete_reads_lines_example :
    (lines : List (List ℕ)) × (first_lines 3 (arrived portions)
      ≡ some (lines, (complete_reads portions fresh).input_buffer))
    × ((complete_reads portions fresh).printed ≡ non_empty lines)
    × ((complete_reads portions fresh).pending ≡ replicate 3 reading)
    × ((complete_reads portions fresh).stopped ≡ false)
unfolding line_end handle_read start_read print_line
complete_reads_lines_example = complete_reads_lines portions fresh refl (refl, (refl, (refl, tt)))

pub queued : (n : ℕ) → Queued (a_position ∷ []) (replicate n 0) (replicate n a_position)
queued zero = tt
queued (suc n) = (refl, a_position-Fits, queued n)

abbrev pub two_queued : TcpClient
two_queued = record fresh { packet_out = some 0 ∷ some 0 ∷ [] }

Reaches-Sound_example : Sound (stop (start 0 (1 ∷ []) (new none)))
Reaches-Sound_example =
    Reaches-Sound 0 (1 ∷ []) none a_factory (stop (start 0 (1 ∷ []) (new none))) a_factory
      (goes stays (user_stops refl refl))

abbrev waiting : TcpClient
waiting = record fresh {
  endpoints = 1 ∷ [];
  socket_is_open = true;
  deadline = some 60;
  pending = connecting (1 ∷ []) ∷ deadline_wait ∷ [];
}

abbrev online : TcpClient
online = linked 3 (record waiting { pending = deadline_wait ∷ [] })

connect_silent_example : (online.is_connected ≡ true) × StillMute online (write (some 0) online)
unfolding start start_connect new
connect_silent_example =
    connect_silent 0 (1 ∷ []) none a_factory waiting 3 (1 ∷ []) stack [] (deadline_wait ∷ []) online
      a_factory a_factory a_factory (write (some 0) online) stays refl refl refl refl
      (handle_connect_idle 3 (1 ∷ []) stack (record waiting { pending = deadline_wait ∷ [] })
        a_factory refl refl refl)
      (goes stays (user_writes (some 0) refl refl))

-- A stopped client that waits for data and for its deadline; the read ends.
abbrev off : TcpClient
off = record fresh { stopped = true; pending = reading ∷ deadline_wait ∷ [] }

abbrev off_again : TcpClient
off_again = record fresh { stopped = true; pending = deadline_wait ∷ [] }

wound_down : Reaches off a_factory off_again a_factory
unfolding handle_read
wound_down = goes stays (read_ends 5 true 0 [] [] (deadline_wait ∷ []) refl refl refl)

Reaches-Unwound_example :
    (off_again.stopped ≡ true)
    × (length off_again.pending + handlers wound_down ≡ length off.pending)
    × (a_factory ≡ a_factory)
Reaches-Unwound_example = Reaches-Unwound off a_factory off_again a_factory wound_down refl
