-- ===== src/SendScheduler/Budget.antt =====
-- SendScheduler.h, refill and spend: the tokens.
use net_link.Common.{ℕ, ◌≡◌, ◌==◌, ltb, false, Option, none, some, Bool-cases, inl, inr}
use net_link.Double.{Double, Laws, min_of}
use net_link.SendScheduler.{SendScheduler, set_rate, refilled, refill, spend, burst_of}

module _ {W : Type 0} ⦃d : Double W⦄ where
  min_of_bound : Laws W → (a b : W) → d.lt a (min_of a b) ≡ false
  min_of_bound laws a b = elim (Bool-cases (d.lt b a)) [
    | inl e ↦ rw e (laws.asym b a e)
    | inr e ↦ rw e (laws.irrefl a)
  ]

  -- Not more tokens than the burst.
  unfoldable pub IsWithinBurst : SendScheduler W → Type 0
  IsWithinBurst b = d.lt (d.of_ℕ b.burst) b.tokens ≡ false

  refilled_bound :
      Laws W
      → (now : ℕ) (at : Option ℕ) (b : SendScheduler W) → d.lt (d.of_ℕ b.burst) b.tokens ≡ false
      → d.lt (d.of_ℕ b.burst) (refilled now at b) ≡ false
  unfolding refilled
  refilled_bound laws now none b within = within
  refilled_bound laws now (some at) b within = elim (Bool-cases (ltb at now)) [
    | inl e ↦ rw e (min_of_bound laws (d.of_ℕ b.burst) _)
    | inr e ↦ rw e within
  ]

  spent_bound :
      Laws W
      → (n : ℕ) (b : SendScheduler W) → d.lt (d.of_ℕ b.burst) b.tokens ≡ false
      → d.lt (d.of_ℕ (spend n b).burst) (spend n b).tokens ≡ false
  unfolding spend
  spent_bound laws n b within = elim (Bool-cases (b.rate == 0)) [
    | inl e ↦ rw e within
    | inr e ↦ rw e (laws.sub_less (d.of_ℕ b.burst) b.tokens n within)
  ]

  -- There are never more tokens than the burst: no wait is long enough to save up more, what is sent only
  -- takes tokens, and a new rate starts with its own burst.
  pub refill-IsWithinBurst :
      Laws W
      → (now n rate : ℕ) (b : SendScheduler W) → IsWithinBurst b
      → IsWithinBurst (refill now b) × IsWithinBurst (spend n b) × IsWithinBurst (set_rate rate b)
  unfolding IsWithinBurst refill set_rate
  refill-IsWithinBurst laws now n rate b within = (
    refilled_bound laws now b.refilled_at b within,
    spent_bound laws n b within,
    laws.irrefl (d.of_ℕ (burst_of rate)),
  )
