-- ===== src/PacketFactory.antt =====
-- UDP01/OldCode/Packets/PacketFactory.h and PacketFactory.cpp: PacketMethodFactory, which makes
-- packets by type and sub type, or by name, from pools that are filled in advance.
-- A `shared_ptr` is an address in the list of all objects ever made, or null. An object that no
-- pointer leads to any more stays in that list, where nothing finds it.
pub mod Counting
pub mod Pools
pub mod Making
pub mod Ownership
pub mod Kinds
pub mod Traces
pub mod Lifecycle
pub mod Examples
use Prim.Native.String.{String}
use socket_cplus_plus.Prelude.{
  ℕ, zero, suc, Bool, true, false, Option, none, some, List, [], ◌∷◌, ◌++◌, ◌||◌, not, length,
  get_elem?, if◌then◌else◌,
}
use socket_cplus_plus.Prelude.Maps.{Key, string_key, pair_key, find, has, assign}
use socket_cplus_plus.CircularBuffer.{CircularBuffer, put, get}
use socket_cplus_plus.CircularBuffer as ring
use socket_cplus_plus.Packets.{Packet}
use socket_cplus_plus.Packets.Classes.{Class, class_of, get_type, get_sub_type}
use socket_cplus_plus.Packets.Classes as classes

-- shared_ptr<IPacketSerializable>
abbrev pub Pointer : Type 0
Pointer = Option ℕ

abbrev pub moved : Pointer → Pointer
moved _ = none

abbrev pub TypePair : Type 0
TypePair = ℕ × ℕ

-- The three static maps, and the objects.
pub record Factory : Type 0 where
  pub methods : List (String × Class)
  pub allocation_methods : List (TypePair × Class)
  pub creation_pool : List (TypePair × CircularBuffer Pointer)
  pub heap : List Packet

abbrev pub num_to_create : ℕ
num_to_create = 100

-- The pair that an object of a class answers to GetType and GetSubType.
abbrev pub type_pair : Class → TypePair
type_pair c = (get_type c, get_sub_type c)

pub is_pool_already_allocated : TypePair → Factory → Bool
is_pool_already_allocated key f = has key f.creation_pool

-- Whether the factory took the pair or the name; the first registration of either stays.
pub register : String → TypePair → Class → Factory → Bool × Factory
register name match_pair c f =
    let new_pair = not (has match_pair f.allocation_methods) in
    let new_name = not (has name f.methods) in
    (
      new_pair || new_name,
      record f {
        allocation_methods =
            if new_pair then assign match_pair c f.allocation_methods else f.allocation_methods;
        methods = if new_name then assign name c f.methods else f.methods;
      },
    )

pub shutdown : Factory → Factory
shutdown f = record f { methods = []; creation_pool = []; allocation_methods = [] }

unfoldable pub create_by_type : TypePair → Factory → Pointer × Factory
create_by_type key f = elim (find key f.creation_pool) [
  | none ↦ (none, f)
  | some pool ↦
      let (item, rest) = get none moved pool in
      (item, record f { creation_pool = assign key rest f.creation_pool })
]

-- Whether the pointer went to a pool, what is left in it, and the factory. A null pointer, or one
-- that leads to no object, is an error of the caller: `none`.
pub release : Pointer → Factory → Option (Bool × Pointer × Factory)
release none f = none
release (some a) f = elim (get_elem? f.heap a) [
  | none ↦ none
  | some item ↦ elim (find (type_pair (class_of item)) f.creation_pool) [
    | none ↦ some (false, some a, f)
    | some pool ↦ some (
      true,
      moved (some a),
      record f {
        creation_pool =
            assign (type_pair (class_of item)) (put none moved pool (some a)) f.creation_pool;
      },
    )
  ]
]

-- `junk` is what a member starts with that no constructor sets.
module _ (junk : ℕ) where
  -- make_shared<C>()
  pub make : Class → Factory → Pointer × Factory
  make c f = (some (length f.heap), record f { heap = f.heap ++ (classes.create junk c ∷ []) })

  pub allocate : TypePair → Factory → Pointer × Factory
  allocate key f = elim (find key f.allocation_methods) [ none ↦ (none, f) | some c ↦ make c f ]

  -- The loop of InitFactory that fills one pool.
  pub fill : ℕ → TypePair → CircularBuffer Pointer → Factory → CircularBuffer Pointer × Factory
  fill zero key buff f = (buff, f)
  fill (suc i) key buff f =
      let (pointer, g) = allocate key f in fill i key (put none moved buff pointer) g

  -- The body of the loop over the allocation methods.
  pub init_pool : TypePair → Factory → Factory
  init_pool key f =
      let (buff, g) = fill num_to_create key (ring.create none moved num_to_create) f in
      if is_pool_already_allocated key f
      then f
      else record g { creation_pool = assign key buff g.creation_pool }

  pub init_pools : List (TypePair × Class) → Factory → Factory
  init_pools [] f = f
  init_pools ((key, _) ∷ methods) f = init_pools methods (init_pool key f)

  pub init_factory : Factory → Factory
  init_factory f = init_pools f.allocation_methods f

  -- The object that the method makes only tells its pair, and is given up.
  pub create_by_name : String → Factory → Pointer × Factory
  create_by_name name f = elim (find name f.methods) [
    | none ↦ (none, f)
    | some c ↦ let (temp, g) = make c f in create_by_type (type_pair c) g
  ]
