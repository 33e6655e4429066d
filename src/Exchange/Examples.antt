-- ===== src/Exchange/Examples.antt =====
-- A client with two packets, and a server that reads what it writes.
use socket_cplus_plus.Prelude.{◌≡◌, refl, none, some, List, [], ◌∷◌, ◌++◌, length, replicate, arith}
use socket_cplus_plus.Prelude.Maps.{pair_key}
use socket_cplus_plus.Serialize.Hosts.{little_endian}
use socket_cplus_plus.CircularBuffer.{CircularBuffer, create, put, get, is_empty, size}
use socket_cplus_plus.Packets.{Packet}
use socket_cplus_plus.Packets.Classes.{position_class, create-SameClass, create as create_object}
use socket_cplus_plus.Packets.Examples.{a_position, a_position-Fits}
use socket_cplus_plus.PacketFactory.{Pointer, Factory, moved, create_by_type}
use socket_cplus_plus.TcpClient.{Operation, start_write, TcpClient}
use socket_cplus_plus.TcpClient.Writing.{growing, start_write_lem}
use socket_cplus_plus.TcpClient.Examples.{fresh, stack, a_heap, two_queued, queued}
use socket_cplus_plus.TcpServer.{finished, receive}
use socket_cplus_plus.TcpServer.Frames.{Served, nothing, another}
use socket_cplus_plus.Exchange.{sent_by, receive-start_write}

abbrev object : Packet
object = create_object 0 position_class

abbrev ring : CircularBuffer Pointer
ring =
    put none moved (put none moved (put none moved (create none moved 4) (some 0)) (some 1))
      (some 2)

abbrev taken_once : CircularBuffer Pointer
taken_once = (get none moved ring).1

abbrev taken_twice : CircularBuffer Pointer
taken_twice = (get none moved taken_once).1

abbrev factory : CircularBuffer Pointer → List Packet → Factory
factory r heap = record {
  methods = [];
  allocation_methods = ((2, 1), position_class) ∷ [];
  creation_pool = ((2, 1), r) ∷ [];
  heap = heap;
}

served :
    Served
      (factory ring (replicate 3 object))
      (replicate 3 a_position)
      (0 ∷ 1 ∷ 2 ∷ [])
      (factory (get none moved taken_twice).1 (replicate 3 a_position))
unfolding create_by_type create put get size is_empty
served = another refl refl (create-SameClass 0 a_position) a_position-Fits (
    another refl refl (create-SameClass 0 a_position) a_position-Fits
      (another refl refl (create-SameClass 0 a_position) a_position-Fits nothing))

abbrev written : TcpClient
written = record fresh { pending = growing [] (replicate 2 a_position) }

two_written :
    (h : Factory) × (start_write stack two_queued a_heap ≡ some (written, h))
    × (h.heap ≡ a_heap.heap)
two_written =
    start_write_lem (0 ∷ 0 ∷ []) (replicate 2 a_position) stack two_queued a_heap refl refl
      (queued 2) (omega arith)

receive-start_write_example :
    (writes : List Operation) × (written.pending ≡ writes)
    × (receive
          (sent_by writes ++ replicate 3 0)
          (length (sent_by writes))
          []
          (factory ring (replicate 3 object))
        ≡ finished
            (some 0 ∷ some 1 ∷ some 2 ∷ [])
            (factory (get none moved taken_twice).1 (replicate 3 a_position)))
receive-start_write_example =
    receive-start_write (0 ∷ 0 ∷ []) (replicate 2 a_position) stack two_queued written a_heap
      two_written.0 (0 ∷ 1 ∷ 2 ∷ []) (factory ring (replicate 3 object))
      (factory (get none moved taken_twice).1 (replicate 3 a_position)) (replicate 3 0) [] refl refl
      (queued 2) (omega arith) two_written.1 served (omega arith)
