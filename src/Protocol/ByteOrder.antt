-- ===== src/Protocol/ByteOrder.antt =====
-- src/internal/Channel/Protocol/ByteOrder.h. A pointer into a buffer is the list from there on; a
-- write is the list of the bytes that it puts there.
pub mod Reading
use net_link.Common.{
  ℕ, ◌+◌, ◌*◌, ◌/◌, ◌%◌, ◌^◌, ◌≤◌, ◌<◌, ◌≡◌, refl, sym, ap, ap₂, ◌∙◌, List, [], ◌∷◌, ◌++◌, arith,
  bit_or, bit_or_shifted, get_or, length, take, drop, All, IsByte, IsU16, IsU32, IsU64,
  append_assoc, All-drop, length-drop,
}

unfoldable pub write_uint16 : ℕ → List ℕ
write_uint16 value = (value / 2 ^ 8 % 256) ∷ (value % 256) ∷ []

unfoldable pub write_uint32 : ℕ → List ℕ
write_uint32 value =
    (value / 2 ^ 24 % 256) ∷ (value / 2 ^ 16 % 256) ∷ (value / 2 ^ 8 % 256) ∷ (value % 256) ∷ []

unfoldable pub write_uint64 : ℕ → List ℕ
unfolding write_uint32
write_uint64 value = write_uint32 (value / 2 ^ 32 % 2 ^ 32) ++ write_uint32 (value % 2 ^ 32)

unfoldable pub read_uint16 : List ℕ → ℕ
read_uint16 from = bit_or (get_or from 0 0 * 2 ^ 8) (get_or from 1 0) % 2 ^ 16

unfoldable pub read_uint32 : List ℕ → ℕ
read_uint32 from =
    bit_or
      (bit_or (bit_or (get_or from 0 0 * 2 ^ 24 % 2 ^ 32) (get_or from 1 0 * 2 ^ 16))
        (get_or from 2 0 * 2 ^ 8))
      (get_or from 3 0)

unfoldable pub read_uint64 : List ℕ → ℕ
unfolding read_uint32
read_uint64 from = bit_or (read_uint32 from * 2 ^ 32 % 2 ^ 64) (read_uint32 (drop 4 from))

-- The shifted bytes share no bit.
pub read_uint16_sum :
    (a b : ℕ) (rest : List ℕ) → IsByte a → IsByte b → read_uint16 (a ∷ b ∷ rest) ≡ a * 256 + b
unfolding read_uint16
read_uint16_sum a b rest ha hb = omega (arith, bit_or_shifted 8 a b)

pub read_uint32_sum :
    (a b c d : ℕ) (rest : List ℕ)
    → IsByte a
    → IsByte b
    → IsByte c
    → IsByte d
    → read_uint32 (a ∷ b ∷ c ∷ d ∷ rest) ≡ ((a * 256 + b) * 256 + c) * 256 + d
unfolding read_uint32
read_uint32_sum a b c d rest ha hb hc hd = joined ∙ omega arith
  where
    first : bit_or (a * 2 ^ 24 % 2 ^ 32) (b * 2 ^ 16) ≡ (a * 256 + b) * 2 ^ 16
    first = omega (
      arith,
      bit_or_shifted 24 a (b * 2 ^ 16) (omega arith),
      ap (λ t. bit_or t (b * 2 ^ 16)) (let e : a * 2 ^ 24 % 2 ^ 32 ≡ a * 2 ^ 24 = omega arith in e),
    )

    second :
        bit_or (bit_or (a * 2 ^ 24 % 2 ^ 32) (b * 2 ^ 16)) (c * 2 ^ 8)
        ≡ ((a * 256 + b) * 256 + c) * 2 ^ 8
    second =
        ap (λ t. bit_or t (c * 2 ^ 8)) first
        ∙ omega (arith, bit_or_shifted 16 (a * 256 + b) (c * 2 ^ 8) (omega arith))

    joined :
        bit_or (bit_or (bit_or (a * 2 ^ 24 % 2 ^ 32) (b * 2 ^ 16)) (c * 2 ^ 8)) d
        ≡ ((a * 256 + b) * 256 + c) * 2 ^ 8 + d
    joined = ap (λ t. bit_or t d) second ∙ bit_or_shifted 8 ((a * 256 + b) * 256 + c) d hd

-- Reading gives back what was written, whatever follows it.
pub read-write_uint16 : (v : ℕ) (rest : List ℕ) → IsU16 v → read_uint16 (write_uint16 v ++ rest) ≡ v
unfolding write_uint16
read-write_uint16 v rest h =
    read_uint16_sum (v / 2 ^ 8 % 256) (v % 256) rest (omega arith) (omega arith) ∙ omega arith

pub read-write_uint32 : (v : ℕ) (rest : List ℕ) → IsU32 v → read_uint32 (write_uint32 v ++ rest) ≡ v
unfolding write_uint32
read-write_uint32 v rest h =
    read_uint32_sum (v / 2 ^ 24 % 256) (v / 2 ^ 16 % 256) (v / 2 ^ 8 % 256) (v % 256) rest
      (omega arith) (omega arith) (omega arith) (omega arith)
    ∙ omega arith

-- Every number of 64 bits is read as it was written, whatever follows it.
pub read-write_uint64 : (v : ℕ) (rest : List ℕ) → IsU64 v → read_uint64 (write_uint64 v ++ rest) ≡ v
unfolding read_uint64 write_uint64
read-write_uint64 v rest h =
    ap₂ (λ a b. bit_or (a * 2 ^ 32 % 2 ^ 64) b)
      (read-write_uint32 (v / 2 ^ 32 % 2 ^ 32) (write_uint32 (v % 2 ^ 32) ++ rest) (omega arith))
      (read-write_uint32 (v % 2 ^ 32) rest (omega arith))
    ∙ ap (λ t. bit_or t (v % 2 ^ 32)) high
    ∙ bit_or_shifted 32 (v / 2 ^ 32) (v % 2 ^ 32) (omega arith)
    ∙ omega arith
  where
    high : v / 2 ^ 32 % 2 ^ 32 * 2 ^ 32 % 2 ^ 64 ≡ v / 2 ^ 32 * 2 ^ 32
    high = omega arith

pub length-write_uint16 : (v : ℕ) → length (write_uint16 v) ≡ 2
unfolding write_uint16
length-write_uint16 v = refl

pub length-write_uint32 : (v : ℕ) → length (write_uint32 v) ≡ 4
unfolding write_uint32
length-write_uint32 v = refl

pub length-write_uint64 : (v : ℕ) → length (write_uint64 v) ≡ 8
unfolding write_uint64
length-write_uint64 v = refl

pub write_uint16-IsByte : (v : ℕ) → All IsByte (write_uint16 v)
unfolding write_uint16
write_uint16-IsByte v = omega arith

pub write_uint32-IsByte : (v : ℕ) → All IsByte (write_uint32 v)
unfolding write_uint32
write_uint32-IsByte v = omega arith

pub write_uint64-IsByte : (v : ℕ) → All IsByte (write_uint64 v)
unfolding write_uint64
write_uint64-IsByte v = omega arith
