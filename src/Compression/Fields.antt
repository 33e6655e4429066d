-- ===== src/Compression/Fields.antt =====
-- The three fields and three signs of a packed position do not disturb each other.
use socket_cplus_plus.Prelude.{
  ℕ, ◌+◌, ◌*◌, ◌/◌, ◌%◌, ◌^◌, ◌<◌, ◌≡◌, refl, ap, ◌∙◌, Bool, true, false, not, bit_and, bit_or,
  ◌==◌, if◌then◌else◌, arith,
}
use socket_cplus_plus.Prelude.Bits.{bit_and-shifted, bit_and-low, bit_or-join}
use socket_cplus_plus.Compression.{
  position_pack, position_unpack, packed, field, signs, twenty_bits,
}

masked : (k v : ℕ) → bit_and v (twenty_bits * 2 ^ k) ≡ v / 2 ^ k % 1048576 * 2 ^ k
masked k v =
    bit_and-shifted k v twenty_bits ∙ ap (λ (t : ℕ). t * 2 ^ k) (bit_and-low 20 (v / 2 ^ k))

-- A magnitude of twenty bits is placed as it is.
packed_x : (x0 : ℕ) → x0 < 1048576 → packed x0 43 ≡ x0 * 2 ^ 43
unfolding packed
packed_x x0 h = masked 43 (x0 * 2 ^ 43 % 2 ^ 64) ∙ omega arith

packed_y : (x0 : ℕ) → x0 < 1048576 → packed x0 23 ≡ x0 * 2 ^ 23
unfolding packed
packed_y x0 h = masked 23 (x0 * 2 ^ 23 % 2 ^ 64) ∙ omega arith

packed_z : (x0 : ℕ) → x0 < 1048576 → packed x0 3 ≡ x0 * 2 ^ 3
unfolding packed
packed_z x0 h = masked 3 (x0 * 2 ^ 3 % 2 ^ 64) ∙ omega arith

abbrev weight : Bool → ℕ → ℕ
weight b w = if b then w else 0

signs_lem : (x y z : Bool) → signs x y z ≡ weight x 4 + weight y 2 + weight z 1
unfolding signs
signs_lem true true true = refl
signs_lem true true false = refl
signs_lem true false true = refl
signs_lem true false false = refl
signs_lem false true true = refl
signs_lem false true false = refl
signs_lem false false true = refl
signs_lem false false false = refl

weights_small : (x y z : Bool) → weight x 4 + weight y 2 + weight z 1 < 8
weights_small x y z = ground arith

pack_lem :
    (xn yn zn : Bool) (x0 y0 z0 : ℕ)
    → x0 < 1048576
    → y0 < 1048576
    → z0 < 1048576
    → position_pack (xn, x0) (yn, y0) (zn, z0)
      ≡ x0 * 2 ^ 43 + y0 * 2 ^ 23 + z0 * 2 ^ 3 + (weight xn 4 + weight yn 2 + weight zn 1)
unfolding position_pack
pack_lem xn yn zn x0 y0 z0 hx hy hz =
    let s = weight xn 4 + weight yn 2 + weight zn 1 in
    let small : s < 8 = weights_small xn yn zn in
    let xy : bit_or (x0 * 8796093022208) (y0 * 8388608) ≡ (x0 * 1048576 + y0) * 8388608 =
      bit_or-join 43 x0 (y0 * 8388608) (omega arith) ∙ omega arith in
    let xyz : bit_or ((x0 * 1048576 + y0) * 8388608) (z0 * 8)
        ≡ ((x0 * 1048576 + y0) * 1048576 + z0) * 8 =
      bit_or-join 23 (x0 * 1048576 + y0) (z0 * 8) (omega arith) ∙ omega arith in
    let all : bit_or (((x0 * 1048576 + y0) * 1048576 + z0) * 8) s
        ≡ x0 * 8796093022208 + y0 * 8388608 + z0 * 8 + s =
      bit_or-join 3 ((x0 * 1048576 + y0) * 1048576 + z0) s small ∙ omega arith in
    rw (position_pack, packed_x x0 hx, packed_y y0 hy, packed_z z0 hz, signs_lem xn yn zn, xy, xyz)
      all

single : (k v : ℕ) → bit_and v (2 ^ k) ≡ v / 2 ^ k % 2 * 2 ^ k
single k v =
    ap (bit_and v) (omega arith)
    ∙ bit_and-shifted k v 1
    ∙ ap (λ (t : ℕ). t * 2 ^ k) (bit_and-low 1 (v / 2 ^ k))

-- The three lowest bits are the signs.
signs_read :
    (xn yn zn : Bool) (q : ℕ)
    → (not (bit_and (q * 8 + (weight xn 4 + weight yn 2 + weight zn 1)) 4 == 0) ≡ xn)
      × (not (bit_and (q * 8 + (weight xn 4 + weight yn 2 + weight zn 1)) 2 == 0) ≡ yn)
      × (not (bit_and (q * 8 + (weight xn 4 + weight yn 2 + weight zn 1)) 1 == 0) ≡ zn)
signs_read xn yn zn q =
    let v : ℕ = q * 8 + (weight xn 4 + weight yn 2 + weight zn 1) in
    ground (arith, single 2 v, single 1 v, single 0 v)

-- A position whose scaled coordinates are below 2^20 in magnitude is unpacked as it was packed, its
-- signs included.
pub position_unpack-position_pack :
    (xn yn zn : Bool) (x0 y0 z0 : ℕ)
    → x0 < 2 ^ 20
    → y0 < 2 ^ 20
    → z0 < 2 ^ 20
    → position_unpack (position_pack (xn, x0) (yn, y0) (zn, z0)) ≡ ((xn, x0), (yn, y0), (zn, z0))
unfolding position_unpack field
position_unpack-position_pack xn yn zn x0 y0 z0 hx hy hz =
    let s = weight xn 4 + weight yn 2 + weight zn 1 in
    let v : ℕ = x0 * 8796093022208 + y0 * 8388608 + z0 * 8 + s in
    let small : s < 8 = weights_small xn yn zn in
    let fx : bit_and v 9223363240761753600 / 8796093022208 ≡ x0 =
      ap (λ (t : ℕ). t / 8796093022208) (masked 43 v) ∙ omega arith in
    let fy : bit_and v 8796084633600 / 8388608 ≡ y0 =
      ap (λ (t : ℕ). t / 8388608) (masked 23 v) ∙ omega arith in
    let fz : bit_and v 8388600 / 8 ≡ z0 = ap (λ (t : ℕ). t / 8) (masked 3 v) ∙ omega arith in
    let (sx, sy, sz) = signs_read xn yn zn ((x0 * 1048576 + y0) * 1048576 + z0) in
    let same : v ≡ ((x0 * 1048576 + y0) * 1048576 + z0) * 8 + s = omega arith in
    rw (position_unpack, pack_lem xn yn zn x0 y0 z0 hx hy hz, field, fx, fy, fz, same, sx, sy, sz)
