-- ===== src/Serialize/Host.antt =====
-- The memory image of an integer on the host, and what the program relies on of the socket
-- library's htons, ntohs, htonl and ntohl (winsock or arpa/inet.h), which is not part of it.
use socket_cplus_plus.Prelude.{
  ℕ, zero, suc, ◌+◌, ◌*◌, ◌/◌, ◌%◌, ◌^◌, ◌<◌, ◌≡◌, List, [], ◌∷◌, ◌++◌, Bool, if◌then◌else◌, All,
  length,
}

-- The `n` low bytes of a number, lowest first, and highest first.
abbrev pub le_bytes : ℕ → ℕ → List ℕ
le_bytes zero v = []
le_bytes (suc n) v = (v % 256) ∷ le_bytes n (v / 256)

abbrev pub be_bytes : ℕ → ℕ → List ℕ
be_bytes zero v = []
be_bytes (suc n) v = be_bytes n (v / 256) ++ ((v % 256) ∷ [])

abbrev pub le_value : List ℕ → ℕ
le_value [] = 0
le_value (b ∷ bs) = b + 256 * le_value bs

abbrev pub be_value_from : ℕ → List ℕ → ℕ
be_value_from acc [] = acc
be_value_from acc (b ∷ bs) = be_value_from (256 * acc + b) bs

abbrev pub be_value : List ℕ → ℕ
be_value = be_value_from 0

abbrev pub host_bytes : Bool → ℕ → ℕ → List ℕ
host_bytes is_little n v = if is_little then le_bytes n v else be_bytes n v

abbrev pub host_value : Bool → List ℕ → ℕ
host_value is_little bs = if is_little then le_value bs else be_value bs

abbrev pub IsByte : ℕ → Type 0
IsByte b = b < 256

-- The documented behaviour: a value converted to network order lies in memory with its highest byte
-- first, and a value so laid out is converted back to what it stands for.
pub record ByteOrder : Type 0 where
  pub is_little : Bool
  pub htons : ℕ → ℕ
  pub ntohs : ℕ → ℕ
  pub htonl : ℕ → ℕ
  pub ntohl : ℕ → ℕ
  pub htonl_width : (v : ℕ) → v < 2 ^ 32 → htonl v < 2 ^ 32
  pub htons_order : (v : ℕ) → v < 2 ^ 16 → host_bytes is_little 2 (htons v) ≡ be_bytes 2 v
  pub htonl_order : (v : ℕ) → v < 2 ^ 32 → host_bytes is_little 4 (htonl v) ≡ be_bytes 4 v
  pub ntohs_order :
      (bs : List ℕ) → length bs ≡ 2 → All IsByte bs → ntohs (host_value is_little bs) ≡ be_value bs
  pub ntohl_order :
      (bs : List ℕ) → length bs ≡ 4 → All IsByte bs → ntohl (host_value is_little bs) ≡ be_value bs
