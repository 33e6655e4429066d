-- ===== src/Serialize.antt =====
-- UDP01/OldCode/Packets/Serialize.h and Serialize.cpp: the Serializer of each primitive type, of
-- arrays and of std::string. `minorVersion` is only passed on there, and is left out.
-- An unsigned value is a number below its width; an `int` is its 32-bit pattern.
pub mod Host
pub mod Words
pub mod Strings
pub mod Arrays
pub mod Hosts
pub mod Extent
pub mod Examples
use socket_cplus_plus.Prelude.{
  ℕ, zero, suc, ◌+◌, ◌-◌, ◌*◌, ◌/◌, ◌%◌, ◌^◌, List, [], ◌∷◌, Bool, true, false, Option, none, some,
  not, if◌then◌else◌, ltb, ◌==◌, length, take, get_or, bit_or,
}
use socket_cplus_plus.Wire.{Out, In, Cursor, emit, fetch, ◌>>◌, ◌>>=◌, pure}
use Host.{ByteOrder, host_bytes, host_value}

abbrev pub done : Out
done c = some c

unfoldable pub out_u8 : ℕ → Out
out_u8 v = emit (v ∷ [])

pub in_u8 : In ℕ
in_u8 = do bs ← fetch 1; pure (get_or bs 0 0)

-- A U8 that is 1 or 0; any other byte than 0 reads as true.
pub out_bool : Bool → Out
out_bool v = emit ((if v then 1 else 0) ∷ [])

pub in_bool : In Bool
in_bool = do bs ← fetch 1; pure (not (get_or bs 0 0 == 0))

-- The primary template: the value's own bytes, with no change of order.
pub out_raw : List ℕ → Out
out_raw v = emit v

pub in_raw : ℕ → In (List ℕ)
in_raw size = fetch size

module _ ⦃net : ByteOrder⦄ where
  unfoldable pub out_u16 : ℕ → Out
  out_u16 v = emit (host_bytes net.is_little 2 (net.htons v))

  pub in_u16 : In ℕ
  in_u16 = do bs ← fetch 2; pure (net.ntohs (host_value net.is_little bs))

  pub out_u32 : ℕ → Out
  out_u32 v = emit (host_bytes net.is_little 4 (net.htonl v))

  pub in_u32 : In ℕ
  in_u32 = do bs ← fetch 4; pure (net.ntohl (host_value net.is_little bs))

  unfoldable pub out_int : ℕ → Out
  out_int v = emit (host_bytes net.is_little 4 (net.htonl v))

  pub in_int : In ℕ
  in_int = do bs ← fetch 4; pure (net.ntohl (host_value net.is_little bs))

  -- The probe `*(char *)&num == 42` reads the host's order.
  unfoldable pub htonll : ℕ → ℕ
  htonll value =
      let high_part = net.htonl (value / 2 ^ 32) in
      let low_part = net.htonl (value % 2 ^ 32) in
      if net.is_little then bit_or (low_part * 2 ^ 32) high_part else value

  pub ntohll : ℕ → ℕ
  ntohll value = htonll value

  unfoldable pub out_u64 : ℕ → Out
  out_u64 v = emit (host_bytes net.is_little 8 (htonll v))

  pub in_u64 : In ℕ
  in_u64 = do bs ← fetch 8; pure (ntohll (host_value net.is_little bs))

-- T (&value)[N], and the loops of the containers: one element after the other.
module _ {A : Type 0} where
  unfoldable pub out_array : (A → Out) → List A → Out
  out_array out [] = done
  out_array out (v ∷ vs) = out v >> out_array out vs

  pub in_array : In A → ℕ → In (List A)
  in_array read zero = pure []
  in_array read (suc n) = do v ← read; vs ← in_array read n; pure (v ∷ vs)

abbrev pub max_string : ℕ
max_string = 3 * 1024

-- What `value = buffer` takes from a zero-terminated array.
unfoldable pub c_string : List ℕ → List ℕ
c_string [] = []
c_string (c ∷ cs) = let rest = c_string cs in if c == 0 then [] else c ∷ rest

-- A length over the buffer's is cut, and the offset moves by the cut length.
pub in_text : ℕ → In (List ℕ)
in_text len = do
  buffer ← fetch (if ltb (max_string - 1) len then max_string - 1 else len)
  pure (c_string buffer)

module _ ⦃net : ByteOrder⦄ where
  unfoldable pub out_string : List ℕ → Out
  out_string value =
      let len = length value % 2 ^ 16 in
      out_u16 len >> (if len == 0 then done else emit (take len value))

  pub in_string : In (List ℕ)
  in_string = do len ← in_u16; if len == 0 then pure [] else in_text len
