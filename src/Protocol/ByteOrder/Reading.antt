-- ===== src/Protocol/ByteOrder/Reading.antt =====
-- src/internal/Channel/Protocol/ByteOrder.h, the other way round: writing what was read.
use net_link.Common.{
  ℕ, ◌+◌, ◌*◌, ◌/◌, ◌%◌, ◌^◌, ◌≤◌, ◌<◌, ◌≡◌, refl, ap, ap₂, ◌∙◌, List, [], ◌∷◌, ◌++◌, arith, bit_or,
  bit_or_shifted, length, take, drop, All, IsByte, IsU16, IsU32, IsU64, All-drop, length-drop,
}
use net_link.Protocol.ByteOrder.{
  write_uint16, write_uint32, write_uint64, read_uint16, read_uint32, read_uint64, read_uint16_sum,
  read_uint32_sum,
}

pub write-read_uint16 :
    (xs : List ℕ) → All IsByte xs → 2 ≤ length xs → write_uint16 (read_uint16 xs) ≡ take 2 xs
unfolding write_uint16
write-read_uint16 [] h l = absurd (omega arith)
write-read_uint16 (a ∷ []) h l = absurd (omega arith)
write-read_uint16 (a ∷ b ∷ xs) h l =
    let e : read_uint16 (a ∷ b ∷ xs) ≡ a * 256 + b = read_uint16_sum a b xs h.0 h.1.0 in
    ap₂ (λ s t. s ∷ t ∷ []) (omega arith) (omega arith)

pub read_uint16-IsU16 : (xs : List ℕ) → IsU16 (read_uint16 xs)
unfolding read_uint16
read_uint16-IsU16 xs = omega arith

pub read_uint32-IsU32 : (xs : List ℕ) → All IsByte xs → 4 ≤ length xs → IsU32 (read_uint32 xs)
read_uint32-IsU32 [] h l = absurd (omega arith)
read_uint32-IsU32 (a ∷ []) h l = absurd (omega arith)
read_uint32-IsU32 (a ∷ b ∷ []) h l = absurd (omega arith)
read_uint32-IsU32 (a ∷ b ∷ c ∷ []) h l = absurd (omega arith)
read_uint32-IsU32 (a ∷ b ∷ c ∷ d ∷ xs) h l =
    omega (arith, read_uint32_sum a b c d xs h.0 h.1.0 h.1.1.0 h.1.1.1.0)

pub write-read_uint32 :
    (xs : List ℕ) → All IsByte xs → 4 ≤ length xs → write_uint32 (read_uint32 xs) ≡ take 4 xs
unfolding write_uint32
write-read_uint32 [] h l = absurd (omega arith)
write-read_uint32 (a ∷ []) h l = absurd (omega arith)
write-read_uint32 (a ∷ b ∷ []) h l = absurd (omega arith)
write-read_uint32 (a ∷ b ∷ c ∷ []) h l = absurd (omega arith)
write-read_uint32 (a ∷ b ∷ c ∷ d ∷ xs) h l =
    ap₂ (λ s t. s ++ t) {x = (v / 2 ^ 24 % 256) ∷ (v / 2 ^ 16 % 256) ∷ []} {y = a ∷ b ∷ []}
      (ap₂ (λ s t. s ∷ t ∷ []) (omega (arith, e)) (omega (arith, e)))
      (ap₂ (λ s t. s ∷ t ∷ []) (omega (arith, e)) (omega (arith, e)))
  where
    v : ℕ
    v = read_uint32 (a ∷ b ∷ c ∷ d ∷ xs)

    e : read_uint32 (a ∷ b ∷ c ∷ d ∷ xs) ≡ ((a * 256 + b) * 256 + c) * 256 + d
    e = read_uint32_sum a b c d xs h.0 h.1.0 h.1.1.0 h.1.1.1.0

read_uint64_sum :
    (xs : List ℕ)
    → All IsByte xs
    → 8 ≤ length xs
    → read_uint64 xs ≡ read_uint32 xs * 2 ^ 32 + read_uint32 (drop 4 xs)
unfolding read_uint64
read_uint64_sum xs h l =
    ap (λ t. bit_or t (read_uint32 (drop 4 xs))) high
    ∙ bit_or_shifted 32 (read_uint32 xs) (read_uint32 (drop 4 xs)) low
  where
    high : read_uint32 xs * 2 ^ 32 % 2 ^ 64 ≡ read_uint32 xs * 2 ^ 32
    high = omega (arith, read_uint32-IsU32 xs h (omega arith))

    low : read_uint32 (drop 4 xs) < 2 ^ 32
    low = read_uint32-IsU32 (drop 4 xs) (All-drop IsByte 4 xs h) (omega (arith, length-drop 4 xs))

pub read_uint64-IsU64 : (xs : List ℕ) → All IsByte xs → 8 ≤ length xs → IsU64 (read_uint64 xs)
read_uint64-IsU64 xs h l = omega (
  arith,
  read_uint64_sum xs h l,
  read_uint32-IsU32 xs h (omega arith),
  read_uint32-IsU32 (drop 4 xs) (All-drop IsByte 4 xs h) (omega (arith, length-drop 4 xs)),
)

take-eight : {A : Type 0} (xs : List A) → take 4 xs ++ take 4 (drop 4 xs) ≡ take 8 xs
take-eight [] = refl
take-eight (a ∷ []) = refl
take-eight (a ∷ b ∷ []) = refl
take-eight (a ∷ b ∷ c ∷ []) = refl
take-eight (a ∷ b ∷ c ∷ d ∷ xs) = refl

-- Any eight bytes are written as they were read.
pub write-read_uint64 :
    (xs : List ℕ) → All IsByte xs → 8 ≤ length xs → write_uint64 (read_uint64 xs) ≡ take 8 xs
unfolding write_uint64
write-read_uint64 xs h l =
    ap₂ (λ s t. write_uint32 s ++ write_uint32 t) high low
    ∙ ap₂ ◌++◌ (write-read_uint32 xs h (omega arith)) (write-read_uint32 (drop 4 xs) h' l')
    ∙ take-eight xs
  where
    h' : All IsByte (drop 4 xs)
    h' = All-drop IsByte 4 xs h

    l' : 4 ≤ length (drop 4 xs)
    l' = omega (arith, length-drop 4 xs)

    high : read_uint64 xs / 2 ^ 32 % 2 ^ 32 ≡ read_uint32 xs
    high = omega (
      arith,
      read_uint64_sum xs h l,
      read_uint32-IsU32 xs h (omega arith),
      read_uint32-IsU32 (drop 4 xs) h' l',
    )

    low : read_uint64 xs % 2 ^ 32 ≡ read_uint32 (drop 4 xs)
    low = omega (arith, read_uint64_sum xs h l, read_uint32-IsU32 (drop 4 xs) h' l')
