-- ===== src/PacketFactory/Examples.antt =====
-- Runs of the factory: a registered class, its pool, and a packet on its way.
use socket_cplus_plus.Prelude.{◌≡◌, refl, ap, true, none, some, List, [], ◌∷◌, arith}
use socket_cplus_plus.Prelude.Maps.{find, pair_key, string_key}
use socket_cplus_plus.CircularBuffer.{CircularBuffer, create, put, get, size, is_empty}
use socket_cplus_plus.Packets.{Packet}
use socket_cplus_plus.CircularBuffer.Queue.{contents}
use socket_cplus_plus.Packets.Classes.{position_class, movement_class}
use socket_cplus_plus.Packets.Classes as classes
use socket_cplus_plus.PacketFactory.{
  Pointer, Factory, moved, type_pair, register, init_factory, init_pools, init_pool, fill, allocate,
  make, is_pool_already_allocated, create_by_type, release,
}
use socket_cplus_plus.PacketFactory.Counting.{times, stored, pooled}
use socket_cplus_plus.PacketFactory.Pools.{Answers, PoolValid, create-PoolValid, put-PoolValid}
use socket_cplus_plus.PacketFactory.Making.{Owned}
use socket_cplus_plus.PacketFactory.Traces.{
  World, unregistered, registers, inits, Reaches, stays, goes, reached-create_by_type_exclusive,
}
use socket_cplus_plus.PacketFactory.Lifecycle.{release-create_by_type}

-- The game's packet registered, and its pool filled.
abbrev registered : World
registered = record unregistered {
  factory = (register "PositionPacket" (2, 1) position_class unregistered.factory).1;
}

abbrev initialised : World
initialised = record registered { factory = init_factory 7 registered.factory }

initialised-Reaches : Reaches 7 unregistered initialised
initialised-Reaches =
    goes unregistered registered initialised
      (registers unregistered "PositionPacket" position_class)
      (goes registered initialised initialised (inits registered) (stays initialised))

first_out : (create_by_type (2, 1) initialised.factory).0 ≡ some 0
unfolding register init_factory init_pools init_pool fill allocate make is_pool_already_allocated
    create_by_type create put get size is_empty
first_out = refl

reached-create_by_type_exclusive_example :
    Answers (create_by_type (2, 1) initialised.factory).1.heap (2, 1) 0
    × (pooled (some 0) (create_by_type (2, 1) initialised.factory).1.creation_pool ≡ 0)
    × (times (some 0) [] ≡ 0)
unfolding register init_factory init_pools init_pool fill allocate make is_pool_already_allocated
    create_by_type create put get size is_empty
reached-create_by_type_exclusive_example =
    reached-create_by_type_exclusive 7 initialised (2, 1) 0 initialised-Reaches first_out

-- A pool of two places with one packet in it.
abbrev pub a_heap : List Packet
a_heap = classes.create 0 position_class ∷ []

abbrev pub a_ring : CircularBuffer Pointer
a_ring = put none moved (create none moved 2) (some 0)

abbrev pub a_factory : Factory
a_factory = record {
  methods = [];
  allocation_methods = ((2, 1), position_class) ∷ [];
  creation_pool = ((2, 1), a_ring) ∷ [];
  heap = a_heap;
}

pub a_ring-PoolValid : PoolValid a_heap (2, 1) a_ring
a_ring-PoolValid =
    put-PoolValid a_heap (2, 1) (create none moved 2) 0
      (create-PoolValid a_heap (2, 1) 2 (omega arith))
      (
        classes.create 0 position_class,
        refl,
        ap type_pair (classes.class_of-create 0 position_class),
      )

pub a_ring-stored : stored a_ring ≡ some 0 ∷ []
unfolding contents create put size
a_ring-stored = refl

pub a_factory-Owned : Owned [] a_factory
a_factory-Owned = record {
  pools = (a_ring-PoolValid, tt);
  methods = (refl, tt);
  once = λ a. ground (arith, ap (times (some a)) a_ring-stored);
  made = λ a h. refl;
}

release-create_by_type_example :
    (c : CircularBuffer Pointer) × (g : Factory) × ((create_by_type (2, 1) a_factory).0 ≡ some 0)
    × (release (some 0) (create_by_type (2, 1) a_factory).1 ≡ some (true, none, g))
    × (find (2, 1) g.creation_pool ≡ some c)
    × (stored c ≡ some 0 ∷ [])
release-create_by_type_example =
    release-create_by_type [] (2, 1) a_factory a_ring 0 [] a_factory-Owned refl a_ring-stored

-- The same pool when its packet is out.
abbrev pub an_empty_ring : CircularBuffer Pointer
an_empty_ring = create none moved 2

pub a_factory_makes :
    create_by_type (2, 1) a_factory
    ≡ (some 0, record a_factory { creation_pool = ((2, 1), (get none moved a_ring).1) ∷ [] })
unfolding create_by_type create put get size is_empty
a_factory_makes = refl
