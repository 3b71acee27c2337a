-- ===== src/Double.antt =====
-- What src/internal/Channel/Reliability/ReliableLink.cpp and src/internal/Channel/SendScheduler.h do
-- with a `double`: it is the type of the congestion window, and of the tokens of the send budget.
use net_link.Common.{ℕ, ◌+◌, ◌-◌, ◌*◌, ◌/◌, ◌≡◌, ltb, leb, if◌then◌else◌, Bool, true, false, arith}

-- `floor` is the conversion to size_t.
pub record Double {ℓ} (W : Type ℓ) : Type ℓ where
  pub of_ℕ : ℕ → W
  pub add : W → W → W
  pub sub : W → W → W
  pub mul : W → W → W
  pub div : W → W → W
  pub lt : W → W → Bool
  pub le : W → W → Bool
  pub floor : W → ℕ

-- `std::min` and `std::max`.
module _ {ℓ} {W : Type ℓ} ⦃d : Double W⦄ where
  abbrev pub min_of : W → W → W
  min_of a b = if d.lt b a then b else a

  abbrev pub max_of : W → W → W
  max_of a b = if d.lt a b then b else a

-- Laws that hold for NaN and the infinities too: two values that are `<` one way are not `<` the other
-- way, and what is taken away makes nothing greater.
pub record Laws {ℓ} (W : Type ℓ) ⦃d : Double W⦄ : Type ℓ where
  pub asym : (a b : W) → d.lt a b ≡ true → d.lt b a ≡ false
  pub irrefl : (a : W) → d.lt a a ≡ false
  pub sub_less : (a b : W) (n : ℕ) → d.lt a b ≡ false → d.lt a (d.sub b (d.of_ℕ n)) ≡ false
  pub sub_zero : (a : W) → d.sub a (d.of_ℕ 0) ≡ a

-- The laws can be met: whole numbers, for examples.
instance abbrev pub numbers : Double ℕ
numbers = record {
  of_ℕ = λ n. n;
  add = λ a b. a + b;
  sub = λ a b. a - b;
  mul = λ a b. a * b;
  div = λ a b. a / b;
  lt = ltb;
  le = leb;
  floor = λ n. n;
}

pub numbers_laws : Laws ℕ
numbers_laws = record {
  asym = λ a b h. ground arith;
  irrefl = λ a. ground arith;
  sub_less = λ a b n h. ground arith;
  sub_zero = λ a. omega arith;
}
