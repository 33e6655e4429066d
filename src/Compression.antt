-- ===== src/Compression.antt =====
-- UDP01/OldCode/NetworkUtils.h (namespaces Utils and Settings) and the packing of
-- UDP01/OldCode/Packets/MovementPacket.cpp: RotationCompressed::Pack and Unpack, and
-- PositionCompressed::Pack and Unpack between the scaled coordinates and the U64.
-- A float is not modelled: a coordinate is its sign and `x0`, its magnitude times `precision` cut to
-- a whole number; an angle is its quantized number.
pub mod Fields
pub mod Angles
pub mod Examples
use socket_cplus_plus.Prelude.{
  ℕ, zero, suc, ◌+◌, ◌-◌, ◌*◌, ◌/◌, ◌%◌, ◌^◌, Bool, true, false, not, Option, none, some, bit_and,
  bit_or, leb, ◌==◌, if◌then◌else◌,
}

-- An `int`.
pub data ℤ : Type 0 where
  pos : ℕ → ℤ
  negsuc : ℕ → ℤ

-- Wrap: the remainder has the sign of `value`, and the range is added to a negative one.
pub wrap : ℤ → ℕ → ℕ
wrap (pos n) range = n % range
wrap (negsuc n) range = let rest = suc n % range in if rest == 0 then 0 else range - rest

pub is_power_of_two : ℕ → Bool
is_power_of_two x = bit_and x (x - 1) == 0

-- The loop of GetBitPosition from bit `i` on, `n` bits long; `none` is its -1.
pub bit_from : ℕ → ℕ → ℕ → Option ℕ
bit_from zero i input = none
bit_from (suc n) i input =
    let rest = bit_from n (suc i) input in if not (bit_and input (2 ^ i) == 0) then some i else rest

pub get_bit_position : ℕ → Option ℕ
get_bit_position input = bit_from 32 0 input

abbrev pub quantization : ℕ
quantization = 1024

-- shiftX and shiftY: GetBitPosition of the quantization.
abbrev pub shift : ℕ
shift = 10

abbrev pub mask : ℕ
mask = quantization - 1

-- RotationCompressed::Pack, of angles that are not negative.
pub rotation_pack : ℕ → ℕ → ℕ → ℕ
rotation_pack x y z = (x * 2 ^ (shift + shift) + y * 2 ^ shift + z) % 2 ^ 32

pub rotation_unpack : ℕ → ℕ × ℕ × ℕ
rotation_unpack value =
    let x = bit_and value (mask * 2 ^ (shift + shift)) in
    let value' = value - x in
    let y = bit_and value' (mask * 2 ^ shift) in
    (x / 2 ^ (shift + shift), y / 2 ^ shift, value' - y)

abbrev pub x_shift : ℕ
x_shift = 43

abbrev pub y_shift : ℕ
y_shift = 23

abbrev pub z_shift : ℕ
z_shift = 3

abbrev pub twenty_bits : ℕ
twenty_bits = 0xfffff

-- A coordinate: whether it is negative, and its scaled magnitude.
abbrev pub Coordinate : Type 0
Coordinate = Bool × ℕ

abbrev pub bit : Bool → ℕ → ℕ
bit b k = if b then 2 ^ k else 0

pub signs : Bool → Bool → Bool → ℕ
signs x_neg y_neg z_neg = bit_or (bit_or (bit x_neg 2) (bit y_neg 1)) (bit z_neg 0)

-- (x0 << shift) & mask, of 64 bits.
pub packed : ℕ → ℕ → ℕ
packed x0 shift = bit_and (x0 * 2 ^ shift % 2 ^ 64) (twenty_bits * 2 ^ shift)

-- PositionCompressed::Pack
pub position_pack : Coordinate → Coordinate → Coordinate → ℕ
position_pack (x_neg, x0) (y_neg, y0) (z_neg, z0) =
    bit_or (bit_or (bit_or (packed x0 x_shift) (packed y0 y_shift)) (packed z0 z_shift))
      (signs x_neg y_neg z_neg)

-- One coordinate of Unpack.
pub field : ℕ → ℕ → ℕ → Coordinate
field position shift sign =
    (not (bit_and position (2 ^ sign) == 0), bit_and position (twenty_bits * 2 ^ shift) / 2 ^ shift)

-- PositionCompressed::Unpack
pub position_unpack : ℕ → Coordinate × Coordinate × Coordinate
position_unpack position =
    (field position x_shift 2, field position y_shift 1, field position z_shift 0)
