-- ===== src/Wire.antt =====
-- Reading and writing at an offset of a byte buffer: the `U8* data, int& bufferOffset` pair that
-- every serializer of UDP01/OldCode/Packets passes on, with `memcpy` at that offset.
-- An access outside the buffer is undefined in the source; here it is `none`.
pub mod Laws
pub mod Append
pub mod Reads
pub mod Advance
use socket_cplus_plus.Prelude.{
  ℕ, ◌+◌, List, ◌++◌, Option, none, some, leb, if◌then◌else◌, length, take, drop,
}

-- The destination of a serializer. The offset is a C `int`; it stays within the buffer's length.
pub record Cursor : Type 0 where
  pub bytes : List ℕ
  pub offset : ℕ

abbrev pub Out : Type 0
Out = Cursor → Option Cursor

-- A deserializer reads a buffer that stays as it is, and moves the offset.
abbrev pub In : Type 0 → Type 0
In A = List ℕ → ℕ → Option (A × ℕ)

infixl 5 ◌>>◌ ◌>>=◌
abbrev pub ◌>>◌ : Out → Out → Out
◌>>◌ f g c = elim (f c) [ none ↦ none | some d ↦ g d ]

abbrev pub ◌>>=◌ : {A B : Type 0} → In A → (A → In B) → In B
◌>>=◌ m f bytes offset = elim (m bytes offset) [ none ↦ none | some (a, next) ↦ f a bytes next ]

abbrev pub pure : {A : Type 0} → A → In A
pure a bytes offset = some (a, offset)

-- memcpy(destination + offset, source, n); offset += n
unfoldable pub emit : List ℕ → Out
emit source c =
    let last = c.offset + length source in
    if leb last (length c.bytes)
    then some
        (record { bytes = take c.offset c.bytes ++ (source ++ drop last c.bytes); offset = last })
    else none

-- memcpy(&value, source + offset, n); offset += n
pub fetch : ℕ → In (List ℕ)
fetch n bytes offset =
    if leb (offset + n) (length bytes) then some (take n (drop offset bytes), offset + n) else none
