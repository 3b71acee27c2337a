-- ===== src/Common/Bits.antt =====
-- Facts about `bit_and`, `bit_or` and `bit_xor` at variables, and checks by table over one byte.
use Prim.Native.Nat.{
  ℕ, zero, suc, ◌+◌, ◌-◌, ◌*◌, ◌/◌, ◌%◌, ◌^◌, ◌≤◌, ◌<◌, min, max, bit_and, bit_or, digits,
  bit_and-bitwise, bit_or-bitwise,
}
use mathlib.Core.Path.{◌≡◌, refl, sym, ap, ◌∙◌}
use mathlib.Core.Bool.{Bool, true, ◌&&◌}
use native.Mathlib.Omega.{arith}
use native.Mathlib.Nat.{pow-suc}

-- A table of the values below a bound.
unfoldable pub all_below : ℕ → (ℕ → Bool) → Bool
all_below zero row = true
all_below (suc n) row = row n && all_below n row

pub all_below_sound :
    (bound : ℕ) (row : ℕ → Bool) (v : ℕ) → all_below bound row ≡ true → v < bound → row v ≡ true
unfolding all_below
all_below_sound zero row v table below = absurd (omega arith)
all_below_sound (suc bound) row v table below = ground (arith, all_below_sound bound row v)

-- A native operation on bits goes through the binary digits of its first number, with that number
-- as the fuel. More fuel makes no difference, so the lowest digit splits off.
module _ (rest : ℕ → ℕ) (op : ℕ → ℕ → ℕ) where
  at_zero : (fuel b : ℕ) → digits rest op fuel 0 b ≡ rest b
  at_zero zero b = refl
  at_zero (suc fuel) b = refl

  spare_fuel :
      (a b enough more : ℕ)
      → a ≤ enough
      → a ≤ more
      → digits rest op more a b ≡ digits rest op enough a b
  spare_fuel zero b enough more le le' = at_zero more b ∙ sym (at_zero enough b)
  spare_fuel (suc a) b zero more le le' = absurd (omega arith)
  spare_fuel (suc a) b (suc enough) zero le le' = absurd (omega arith)
  spare_fuel (suc a) b (suc enough) (suc more) le le' =
      ap (λ high. high * 2 + op (suc a % 2) (b % 2))
        (spare_fuel (suc a / 2) (b / 2) enough more (omega arith) (omega arith))

  lowest_digit :
      (a b : ℕ)
      → digits rest op (suc a) (suc a) b
        ≡ digits rest op (suc a / 2) (suc a / 2) (b / 2) * 2 + op (suc a % 2) (b % 2)
  lowest_digit a b =
      ap (λ high. high * 2 + op (suc a % 2) (b % 2))
        (spare_fuel (suc a / 2) (b / 2) (suc a / 2) a (omega arith) (omega arith))

and_lowest : (a b : ℕ) → bit_and a b ≡ bit_and (a / 2) (b / 2) * 2 + min (a % 2) (b % 2)
and_lowest zero b = omega (arith, bit_and-bitwise 0 b, bit_and-bitwise 0 (b / 2))
and_lowest (suc a) b =
    bit_and-bitwise (suc a) b
    ∙ lowest_digit (λ b. zero) min a b
    ∙ ap (λ high. high * 2 + min (suc a % 2) (b % 2)) (sym (bit_and-bitwise (suc a / 2) (b / 2)))

or_lowest : (a b : ℕ) → bit_or a b ≡ bit_or (a / 2) (b / 2) * 2 + max (a % 2) (b % 2)
or_lowest zero b = omega (arith, bit_or-bitwise 0 b, bit_or-bitwise 0 (b / 2))
or_lowest (suc a) b =
    bit_or-bitwise (suc a) b
    ∙ lowest_digit (λ b. b) max a b
    ∙ ap (λ high. high * 2 + max (suc a % 2) (b % 2)) (sym (bit_or-bitwise (suc a / 2) (b / 2)))

no_bits : (bound a : ℕ) → a ≤ bound → (bit_and a 0 ≡ 0) × (bit_or a 0 ≡ a)
no_bits bound zero le = (bit_and-bitwise 0 0, bit_or-bitwise 0 0)
no_bits zero (suc a) le = absurd (omega arith)
no_bits (suc bound) (suc a) le =
    let half = no_bits bound (suc a / 2) (omega arith) in
    (omega (arith, and_lowest (suc a) 0, half.0), omega (arith, or_lowest (suc a) 0, half.1))

-- Fields that share no bit: `(a << k) | b` is their sum.
pub bit_or_shifted : (k a b : ℕ) → b < 2 ^ k → bit_or (a * 2 ^ k) b ≡ a * 2 ^ k + b
bit_or_shifted zero a b h =
    omega (arith, (no_bits (a * 2 ^ 0) (a * 2 ^ 0) (omega arith)).1, ap (bit_or (a * 2 ^ 0)) b0)
  where
    b0 : b ≡ 0
    b0 = omega arith
bit_or_shifted (suc k) a b h = omega (
  arith,
  ap (λ (t : ℕ). a * t) (pow-suc 2 k),
  or_lowest (a * 2 ^ suc k) b,
  ap (λ t. bit_or t (b / 2)) halved,
  bit_or_shifted k a (b / 2) (omega (arith, pow-suc 2 k)),
)
  where
    halved : a * 2 ^ suc k / 2 ≡ a * 2 ^ k
    halved = omega (arith, ap (λ (t : ℕ). a * t) (pow-suc 2 k))

pub pow-two_pos : (k : ℕ) → 0 < 2 ^ k
pow-two_pos zero = omega arith
pow-two_pos (suc k) = omega (arith, pow-suc 2 k, pow-two_pos k)

mod-double : (a m : ℕ) → 0 < m → a % (m * 2) ≡ a / 2 % m * 2 + a % 2
mod-double a m h = grind arith

-- A mask of k ones.
pub bit_and_mask : (k a : ℕ) → bit_and a (2 ^ k - 1) ≡ a % 2 ^ k
bit_and_mask zero a = omega (arith, (no_bits a a (omega arith)).0)
bit_and_mask (suc k) a = omega (
  arith,
  pow-suc 2 k,
  pow-two_pos k,
  and_lowest a (2 ^ suc k - 1),
  ap (bit_and (a / 2)) halved,
  bit_and_mask k (a / 2),
  mod-double a (2 ^ k) (pow-two_pos k),
  ap (λ t. a % t) (pow-suc 2 k),
)
  where
    halved : (2 ^ suc k - 1) / 2 ≡ 2 ^ k - 1
    halved = omega (arith, pow-suc 2 k, pow-two_pos k)
