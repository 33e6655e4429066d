-- ===== src/Observers.antt =====
-- UDP01/OldCode/Socket/PacketObserver.h, which counts packets by their types, and the listeners of
-- ServerSocket in UDP01/OldCode/Socket/ServerSocket.h. A listener is its address.
pub mod Counts
use socket_cplus_plus.Prelude.{
  ℕ, zero, suc, ◌+◌, Bool, true, false, ◌||◌, Option, none, some, List, [], ◌∷◌, ◌++◌, length, ◌==◌,
  if◌then◌else◌,
}
use socket_cplus_plus.Prelude.Maps.{Key, pair_key, find, assign}
use socket_cplus_plus.Packets.{BasePacket}

abbrev pub PacketPair : Type 0
PacketPair = ℕ × ℕ

abbrev pub Observed : Type 0
Observed = List (PacketPair × ℕ)

pub packet_received : BasePacket → Observed → Observed
packet_received bp number_of_each_type =
    let key : PacketPair = (bp.packet_type, bp.packet_sub_type) in
    elim (find key number_of_each_type) [
      | none ↦ assign key 1 number_of_each_type
      | some value ↦ assign key (suc value) number_of_each_type
    ]

-- `none` is the dereference of end().
pub get_count : PacketPair → Observed → Option ℕ
get_count key number_of_each_type = elim (find key number_of_each_type) [
  | none ↦ none
  | some _ ↦ some 0
]

abbrev pub Listeners : Type 0
Listeners = List ℕ

pub listens : ℕ → Listeners → Bool
listens listener [] = false
listens listener (l ∷ listeners) = let rest = listens listener listeners in l == listener || rest

pub register : ℕ → Listeners → Listeners
register listener listeners =
    if listens listener listeners then listeners else listeners ++ (listener ∷ [])

pub unregister : ℕ → Listeners → Listeners
unregister listener [] = []
unregister listener (l ∷ listeners) =
    let rest = unregister listener listeners in if l == listener then listeners else l ∷ rest

pub get_num_listeners : Listeners → ℕ
get_num_listeners listeners = length listeners
