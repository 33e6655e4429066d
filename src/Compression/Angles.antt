-- ===== src/Compression/Angles.antt =====
-- Angles: wrapping, the position of a bit, and packing three of them.
use socket_cplus_plus.Prelude.{
  ℕ, ◌+◌, ◌-◌, ◌*◌, ◌/◌, ◌%◌, ◌^◌, ◌<◌, ◌≡◌, refl, ap, ◌∙◌, Bool, true, false, Option, none, some,
  bit_and, ◌==◌, ==_iff, ◌&&◌, every_below, every_below_sound, arith,
}
use socket_cplus_plus.Prelude.Bits.{bit_and-shifted, bit_and-low}
use socket_cplus_plus.Compression.{
  ℤ, pos, negsuc, wrap, is_power_of_two, get_bit_position, bit_from, rotation_pack, rotation_unpack,
  mask,
}

-- Wrap brings any value into the range, and changes it by a multiple of the range.
pub wrap_in_range : (v : ℤ) (range : ℕ) → 0 < range → wrap v range < range
unfolding wrap
wrap_in_range (pos n) range h = ground (arith)
wrap_in_range (negsuc n) range h = ground (arith)

pub masked : (k v : ℕ) → bit_and v (mask * 2 ^ k) ≡ v / 2 ^ k % 1024 * 2 ^ k
masked k v = bit_and-shifted k v mask ∙ ap (λ (t : ℕ). t * 2 ^ k) (bit_and-low 10 (v / 2 ^ k))

-- Three angles below the quantization are unpacked as they were packed.
pub rotation_unpack-rotation_pack :
    (x y z : ℕ) → x < 1024 → y < 1024 → z < 1024 → rotation_unpack (rotation_pack x y z) ≡ (x, y, z)
unfolding rotation_unpack rotation_pack
rotation_unpack-rotation_pack x y z hx hy hz =
    let v : ℕ = x * 1048576 + y * 1024 + z in
    let whole : v % 4294967296 ≡ v = omega arith in
    let top : bit_and v 1072693248 ≡ x * 1048576 = masked 20 v ∙ omega arith in
    let below : v - x * 1048576 ≡ y * 1024 + z = omega arith in
    let middle : bit_and (y * 1024 + z) 1047552 ≡ y * 1024 =
      masked 10 (y * 1024 + z) ∙ omega arith in
    rw (rotation_unpack, whole, top, below, middle) (ground arith)

found_at : ℕ → Option ℕ → Bool
found_at k none = false
found_at k (some i) = i == k

found_at-some : (k : ℕ) (o : Option ℕ) → found_at k o ≡ true → o ≡ some k
unfolding found_at
found_at-some k none h = cc
found_at-some k (some i) h = ap some ((==_iff i k).0 h)

power_test : ℕ → Bool
power_test k = is_power_of_two (2 ^ k) && found_at k (get_bit_position (2 ^ k))

power_table : every_below 31 power_test ≡ true
unfolding every_below power_test is_power_of_two get_bit_position bit_from found_at
power_table = refl

power_parts :
    (k : ℕ)
    → power_test k ≡ true
    → (is_power_of_two (2 ^ k) ≡ true) × (found_at k (get_bit_position (2 ^ k)) ≡ true)
unfolding power_test
power_parts k h = ground arith

-- Of a power of two that an `int` holds, IsPowerOfTwo answers true and GetBitPosition the exponent.
pub power_of_two_found :
    (k : ℕ) → k < 31 → (is_power_of_two (2 ^ k) ≡ true) × (get_bit_position (2 ^ k) ≡ some k)
power_of_two_found k h =
    let (power, at) = power_parts k (every_below_sound 31 power_test k power_table h) in
    (power, found_at-some k (get_bit_position (2 ^ k)) at)
