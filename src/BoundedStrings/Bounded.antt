-- ===== src/BoundedStrings/Bounded.antt =====
-- BoundedLengthString, which keeps the length beside its array.
pub mod Laws
pub mod Operators
use socket_cplus_plus.Prelude.{
  ℕ, ◌+◌, ◌%◌, ◌^◌, Bool, false, Option, none, some, List, ◌++◌, length, take, drop, set, get_or,
  ltb, ◌==◌, if◌then◌else◌,
}
use socket_cplus_plus.Wire.{Out, In, emit, fetch, ◌>>◌, ◌>>=◌, pure}
use socket_cplus_plus.Serialize.{c_string, out_u16, in_u16, done}
use socket_cplus_plus.Serialize.Host.{ByteOrder}
use socket_cplus_plus.BoundedStrings.{strcpy, same_text, strstr}

pub record BoundedLengthString : Type 0 where
  pub buffer : List ℕ
  pub m_length : ℕ

module _ (str_length : ℕ) where
  pub max_length : ℕ
  max_length = str_length + 1

  pub clear : BoundedLengthString → BoundedLengthString
  clear s = record { buffer = set s.buffer 0 0; m_length = 0 }

  pub string_length : BoundedLengthString → ℕ
  string_length s = if get_or s.buffer 0 0 == 0 then 0 else length (c_string s.buffer)

  pub empty : BoundedLengthString → Bool
  empty s = string_length s == 0

  pub find : List ℕ → BoundedLengthString → ℕ
  find sub s =
      if get_or s.buffer 0 0 == 0
      then max_length
      else elim (strstr sub (c_string s.buffer)) [ none ↦ max_length | some i ↦ i ]

  pub copy : Option (List ℕ) → BoundedLengthString → BoundedLengthString
  copy none s = record { buffer = set s.buffer 0 0; m_length = 0 }
  copy (some str) s =
      if ltb str_length (length str)
      then record {
        buffer = set (take str_length str ++ drop str_length s.buffer) str_length 0;
        m_length = str_length;
      }
      else record { buffer = set (strcpy str s.buffer) (length str) 0; m_length = length str }

  pub is_equal : (List ℕ → List ℕ → Bool) → Option (List ℕ) → Bool → BoundedLengthString → Bool
  is_equal caseless none compare_caseless s = get_or s.buffer 0 0 == 0
  is_equal caseless (some str) compare_caseless s =
      if ltb str_length (length str)
      then false
      else if compare_caseless
      then caseless (c_string s.buffer) str
      else same_text (c_string s.buffer) str

  -- The length that was read, cut to the array's.
  pub cut_length : ℕ → ℕ
  cut_length size = if ltb str_length size then str_length else size

  -- `size` is not zero.
  pub read_characters : ℕ → BoundedLengthString → In BoundedLengthString
  read_characters size s = do
    characters ← fetch (cut_length size)
    pure (record {
      buffer = set (characters ++ drop (cut_length size) s.buffer) (cut_length size) 0;
      m_length = cut_length size;
    })

  module _ ⦃net : ByteOrder⦄ where
    pub serialize_in : BoundedLengthString → In BoundedLengthString
    serialize_in s = do size ← in_u16; if size == 0 then pure (clear s) else read_characters size s

    unfoldable pub serialize_out : BoundedLengthString → Out
    serialize_out s =
        out_u16 (s.m_length % 2 ^ 16)
        >> (if ltb 0 s.m_length then emit (take s.m_length s.buffer) else done)
