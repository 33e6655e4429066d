-- ===== src/Packets/Classes.antt =====
-- The factory boilerplate of BasePacket.h: what each class answers to GetType and GetSubType, what
-- its default constructor makes, and how many bytes it takes on the wire.
use socket_cplus_plus.Prelude.{ℕ, ◌+◌, ◌≡◌, refl, length}
use socket_cplus_plus.Packets.{
  BasePacket, ServerTickPacket, PositionPacket, Packet, base, comms, server_tick, position,
  movement, new_base, base_size,
}
use socket_cplus_plus.Packets.Wire.{wire, SameClass}

-- The classes that CreateMethod makes objects of.
pub data Class : Type 0 where
  base_class comms_class server_tick_class position_class movement_class : Class

abbrev pub class_of : Packet → Class
class_of (base _) = base_class
class_of (comms _) = comms_class
class_of (server_tick _) = server_tick_class
class_of (position _) = position_class
class_of (movement _) = movement_class

-- Type() and SubType(). ServerTickPacket has no boilerplate of its own and answers as BasePacket.
abbrev pub get_type : Class → ℕ
get_type position_class = 2
get_type movement_class = 2
get_type _ = 0

abbrev pub get_sub_type : Class → ℕ
get_sub_type comms_class = 2
get_sub_type position_class = 1
get_sub_type movement_class = 2
get_sub_type _ = 0

-- The constructors' chains; a member that none of them sets starts as `junk` in the model.
abbrev new_tick : ℕ → ServerTickPacket
new_tick sub_type = unfold new_base in record { base = new_base 2 sub_type; server_tick = 0 }

abbrev new_position : ℕ → PositionPacket
new_position sub_type = record {
  tick = new_tick sub_type;
  position_compressed = 0;
  rotation_compressed = 0;
}

-- CreateMethod: the default constructor. `junk` is what ConnectionCommsPacket leaves in its
-- connectionId, which no constructor sets.
pub create : ℕ → Class → Packet
create junk base_class = base (new_base 0 0)
create junk comms_class = comms (record { base = new_base 0 2; connection_id = junk })
create junk server_tick_class = server_tick (new_tick 0)
create junk position_class = position (new_position 1)
create junk movement_class =
    movement (record { position = new_position 2; movement_dir_compressed = 0 })

-- The packet's header, as SizePacket's probe reads it.
abbrev pub header : Packet → BasePacket
header (base p) = p
header (comms p) = p.base
header (server_tick p) = p.base
header (position p) = p.tick.base
header (movement p) = p.position.tick.base

-- Bytes on the wire: GetSize of the base class, and the fields behind it.
abbrev pub class_size : Class → ℕ
class_size base_class = base_size
class_size comms_class = base_size + 2
class_size server_tick_class = base_size + 2
class_size position_class = base_size + 2 + 8 + 4
class_size movement_class = base_size + 2 + 8 + 4 + 8

pub length-wire : (p : Packet) → length (wire p) ≡ class_size (class_of p)
length-wire (base p) = refl
length-wire (comms p) = refl
length-wire (server_tick p) = refl
length-wire (position p) = refl
length-wire (movement p) = refl

pub create-SameClass : (junk : ℕ) (p : Packet) → SameClass (create junk (class_of p)) p
unfolding create
create-SameClass junk (base p) = tt
create-SameClass junk (comms p) = tt
create-SameClass junk (server_tick p) = tt
create-SameClass junk (position p) = tt
create-SameClass junk (movement p) = tt

pub class_of-create : (junk : ℕ) (c : Class) → class_of (create junk c) ≡ c
unfolding create
class_of-create junk base_class = refl
class_of-create junk comms_class = refl
class_of-create junk server_tick_class = refl
class_of-create junk position_class = refl
class_of-create junk movement_class = refl
