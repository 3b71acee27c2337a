-- ===== src/Protocol/Wire.antt =====
-- src/internal/Channel/Protocol/WireBuffer.h: fields of a message, one after another.
pub mod Laws
use net_link.Common.{
  ℕ, ◌-◌, ◌%◌, min, ◌==◌, ltb, if◌then◌else◌, Bool, true, false, ◌&&◌, ◌||◌, not, List, [], ◌∷◌,
  ◌++◌, length, take, drop,
}
use net_link.Protocol.ByteOrder.{write_uint16, write_uint64, read_uint16, read_uint64}

-- `WireWriter`: the bytes so far are the state, and a write appends to them.
abbrev pub WireWriter : Type 0
WireWriter = List ℕ

unfoldable pub write_u8 : ℕ → WireWriter → WireWriter
write_u8 value bytes = bytes ++ (value ∷ [])

unfoldable pub write_u16 : ℕ → WireWriter → WireWriter
write_u16 value bytes = bytes ++ write_uint16 value

unfoldable pub write_u64 : ℕ → WireWriter → WireWriter
write_u64 value bytes = bytes ++ write_uint64 value

-- One length byte, then the text: cut off at 255 bytes.
unfoldable pub write_text : List ℕ → WireWriter → WireWriter
unfolding write_u8
write_text value bytes = let size = min (length value) 255 in write_u8 size bytes ++ take size value

unfoldable pub write_bytes : List ℕ → WireWriter → WireWriter
write_bytes value bytes = bytes ++ value

-- `WireReader`: what is left to read, and whether a read went past the end.
pub record WireReader : Type 0 where
  pub bytes : List ℕ
  pub has_failed : Bool

abbrev pub Read : Type 0 → Type 0
Read A = WireReader → A × WireReader

infixl 5 ◌>>=◌
abbrev pub ◌>>=◌ : {A B : Type 0} → Read A → (A → Read B) → Read B
◌>>=◌ m f r = let (a, r') = m r in f a r'

abbrev pub return : {A : Type 0} → A → Read A
return a r = (a, r)

abbrev pub reader : List ℕ → WireReader
reader bytes = record { bytes = bytes; has_failed = false }

pub next : ℕ → Read (List ℕ)
next size r =
    if r.has_failed || ltb (length r.bytes) size
    then ([], record r { has_failed = true })
    else (take size r.bytes, record r { bytes = drop size r.bytes })

-- A field that could not be read is empty.
abbrev pub is_empty : List ℕ → Bool
is_empty [] = true
is_empty (x ∷ xs) = false

abbrev pub front : List ℕ → ℕ
front [] = 0
front (x ∷ xs) = x

pub read_u8 : Read ℕ
read_u8 = do field ← next 1; return (if is_empty field then 0 else front field)

pub read_u16 : Read ℕ
read_u16 = do field ← next 2; return (if is_empty field then 0 else read_uint16 field)

pub read_u64 : Read ℕ
read_u64 = do field ← next 8; return (if is_empty field then 0 else read_uint64 field)

pub read_text : Read (List ℕ)
read_text = do size ← read_u8; next size

-- Everything was read and nothing is left over.
pub complete : WireReader → Bool
complete r = not r.has_failed && is_empty r.bytes
