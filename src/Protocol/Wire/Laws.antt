-- ===== src/Protocol/Wire/Laws.antt =====
-- WireBuffer.h: a reader gives back what a writer wrote, and a failed reader stays failed.
use net_link.Common.{
  ℕ, ◌≤◌, ◌<◌, min, ◌≡◌, refl, ap, ◌∙◌, le→ltb, if◌then◌else◌, true, false, List, [], ◌∷◌, ◌++◌,
  append_assoc, append-nil, length, length-append, length-take, take, take-append_of_length,
  drop-append_of_length, take-all, take-append-drop, sym, IsU16, IsU64, arith,
}
use net_link.Protocol.ByteOrder.{
  write_uint16, write_uint64, read_uint16, read_uint64, read-write_uint16, read-write_uint64,
  length-write_uint16, length-write_uint64,
}
use net_link.Protocol.Wire.{
  WireReader, reader, next, read_u8, read_u16, read_u64, read_text, write_text, is_empty, front,
  complete,
}

-- A field at the front of what is left.
pub next-append :
    (n : ℕ) (field rest : List ℕ)
    → length field ≡ n
    → next n (reader (field ++ rest)) ≡ (field, reader rest)
unfolding next
next-append n field rest e = rw (
  le→ltb (length (field ++ rest)) n (omega (arith, length-append field rest)),
  take-append_of_length n field rest e,
  drop-append_of_length n field rest e,
)

pub is_empty_of_length : (xs : List ℕ) → 0 < length xs → is_empty xs ≡ false
is_empty_of_length [] h = absurd (omega arith)
is_empty_of_length (x ∷ xs) h = refl

pub read_u8-cons : (b : ℕ) (rest : List ℕ) → read_u8 (reader (b ∷ rest)) ≡ (b, reader rest)
unfolding read_u8
read_u8-cons b rest = rw (next-append 1 (b ∷ []) rest refl)

pub read_u16-append :
    (v : ℕ) (rest : List ℕ)
    → IsU16 v
    → read_u16 (reader (write_uint16 v ++ rest)) ≡ (v, reader rest)
unfolding read_u16
read_u16-append v rest h =
    rw
      (
        next-append 2 (write_uint16 v) rest (length-write_uint16 v),
        is_empty_of_length (write_uint16 v) (omega (arith, length-write_uint16 v)),
      )
      (ap (λ t. (t, reader rest))
        (ap read_uint16 (sym (append-nil (write_uint16 v))) ∙ read-write_uint16 v [] h))

pub read_u64-append :
    (v : ℕ) (rest : List ℕ)
    → IsU64 v
    → read_u64 (reader (write_uint64 v ++ rest)) ≡ (v, reader rest)
unfolding read_u64
read_u64-append v rest h =
    rw
      (
        next-append 8 (write_uint64 v) rest (length-write_uint64 v),
        is_empty_of_length (write_uint64 v) (omega (arith, length-write_uint64 v)),
      )
      (ap (λ t. (t, reader rest))
        (ap read_uint64 (sym (append-nil (write_uint64 v))) ∙ read-write_uint64 v [] h))

-- What `text` writes of a text, and how it stands on the wire.
abbrev pub cut_text : List ℕ → List ℕ
cut_text value = take (min (length value) 255) value

abbrev pub text_bytes : List ℕ → List ℕ
text_bytes value = min (length value) 255 ∷ cut_text value

pub write_text_lem : (value bytes : List ℕ) → write_text value bytes ≡ bytes ++ text_bytes value
unfolding write_text
write_text_lem value bytes = append_assoc bytes (min (length value) 255 ∷ []) (cut_text value)

pub read_text-append :
    (value rest : List ℕ)
    → read_text (reader (text_bytes value ++ rest)) ≡ (cut_text value, reader rest)
unfolding read_text
read_text-append value rest = rw (
  read_u8-cons (min (length value) 255) (cut_text value ++ rest),
  next-append (min (length value) 255) (cut_text value) rest
      (omega (arith, length-take (min (length value) 255) value)),
)

-- A text of at most 255 bytes is written whole.
pub cut_text_short : (value : List ℕ) → length value ≤ 255 → cut_text value ≡ value
cut_text_short value h = take-all (min (length value) 255) value (omega arith)

-- A read that did not fail took the bytes at the front, and nothing failed before it.
pub next_inv :
    (n : ℕ) (r : WireReader)
    → (next n r).1.has_failed ≡ false
    → (r.has_failed ≡ false)
      × (length (next n r).0 ≡ n)
      × (r.bytes ≡ (next n r).0 ++ (next n r).1.bytes)
unfolding next
next_inv n r h = ground (arith, length-take n r.bytes, take-append-drop n r.bytes)

pub read_u8_inv :
    (r : WireReader)
    → (read_u8 r).1.has_failed ≡ false
    → (r.has_failed ≡ false) × (r.bytes ≡ (read_u8 r).0 ∷ (read_u8 r).1.bytes)
unfolding read_u8
read_u8_inv r h =
    let (ok, size, whole) = next_inv 1 r h in
    (ok, whole ∙ ap (λ t. t ++ (next 1 r).1.bytes) (single (next 1 r).0 size))
  where
    single : (xs : List ℕ) → length xs ≡ 1 → xs ≡ (if is_empty xs then 0 else front xs) ∷ []
    single [] e = absurd (omega arith)
    single (x ∷ []) e = refl
    single (x ∷ y ∷ xs) e = absurd (omega arith)

-- What failed once goes on failing.
pub next_failed : (n : ℕ) (r : WireReader) → r.has_failed ≡ true → next n r ≡ ([], r)
unfolding next
next_failed n r h = ground arith

pub complete-reader : (bytes : List ℕ) → complete (reader bytes) ≡ is_empty bytes
unfolding complete
complete-reader bytes = refl

pub complete_inv : (r : WireReader) → complete r ≡ true → (r.has_failed ≡ false) × (r.bytes ≡ [])
unfolding complete
complete_inv r h = ground arith
