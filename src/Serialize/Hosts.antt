-- ===== src/Serialize/Hosts.antt =====
-- A host of each byte order, as examples of the functions of the socket library that Serialize.h
-- calls.
use socket_cplus_plus.Prelude.{
  ℕ, ◌+◌, ◌*◌, ◌/◌, ◌%◌, ◌^◌, ◌<◌, ◌≡◌, refl, List, [], ◌∷◌, true, false, All, length, arith,
}
use socket_cplus_plus.Serialize.Host.{ByteOrder, IsByte, le_bytes, be_bytes, le_value, be_value}

-- On a host with the highest byte first there is nothing to convert.
abbrev pub big_endian : ByteOrder
big_endian = record {
  is_little = false;
  htons = λ v. v;
  ntohs = λ v. v;
  htonl = λ v. v;
  ntohl = λ v. v;
  htonl_width = λ v h. h;
  htons_order = λ v h. refl;
  htonl_order = λ v h. refl;
  ntohs_order = λ bs n h. refl;
  ntohl_order = λ bs n h. refl;
}

abbrev pub swap_2 : ℕ → ℕ
swap_2 v = 256 * (v % 256) + v / 256 % 256

abbrev pub swap_4 : ℕ → ℕ
swap_4 v =
    256 * (256 * (256 * (v % 256) + v / 256 % 256) + v / 256 / 256 % 256)
    + v / 256 / 256 / 256 % 256

pub swap_2_order : (v : ℕ) → le_bytes 2 (swap_2 v) ≡ be_bytes 2 v
swap_2_order v = ground arith

pub swap_4_order : (v : ℕ) → le_bytes 4 (swap_4 v) ≡ be_bytes 4 v
swap_4_order v = ground arith

pub swap_4_width : (v : ℕ) → swap_4 v < 2 ^ 32
swap_4_width v = omega arith

pub swap_2_back : (bs : List ℕ) → length bs ≡ 2 → All IsByte bs → swap_2 (le_value bs) ≡ be_value bs
swap_2_back (a ∷ b ∷ []) n h = ground arith
swap_2_back [] n h = ground arith
swap_2_back (a ∷ []) n h = ground arith
swap_2_back (a ∷ b ∷ c ∷ bs) n h = ground arith

pub swap_4_back : (bs : List ℕ) → length bs ≡ 4 → All IsByte bs → swap_4 (le_value bs) ≡ be_value bs
swap_4_back (a ∷ b ∷ c ∷ d ∷ []) n h = ground arith
swap_4_back [] n h = ground arith
swap_4_back (a ∷ []) n h = ground arith
swap_4_back (a ∷ b ∷ []) n h = ground arith
swap_4_back (a ∷ b ∷ c ∷ []) n h = ground arith
swap_4_back (a ∷ b ∷ c ∷ d ∷ e ∷ bs) n h = ground arith

-- On a host with the lowest byte first a conversion swaps the bytes.
instance abbrev pub little_endian : ByteOrder
little_endian = record {
  is_little = true;
  htons = swap_2;
  ntohs = swap_2;
  htonl = swap_4;
  ntohl = swap_4;
  htonl_width = λ v h. swap_4_width v;
  htons_order = λ v h. swap_2_order v;
  htonl_order = λ v h. swap_4_order v;
  ntohs_order = swap_2_back;
  ntohl_order = swap_4_back;
}
