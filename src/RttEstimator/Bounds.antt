-- ===== src/RttEstimator/Bounds.antt =====
-- RttEstimator.h: the timeout stays between its bounds and doubles; the estimate stays among the
-- samples.
use net_link.Common.{
  ℕ, zero, suc, ◌*◌, ◌^◌, ◌≤◌, min, ◌≡◌, ltb, true, Bool-cases, inl, inr, List, [], ◌∷◌, ℤ, pos,
  negsuc, arith,
}
use net_link.RttEstimator.{
  RttEstimator, clamp, new_estimator, smoothed, add_sample, reset_estimator, back_off, timeout_for,
}
use native.Mathlib.Nat.{pow-suc}

pub record IsBounded (r : RttEstimator) : Type 0 where
  pub ordered : r.min_rto ≤ r.max_rto
  pub low : r.min_rto ≤ r.rto
  pub high : r.rto ≤ r.max_rto

new_estimator-IsBounded :
    (initial_ms min_ms max_ms : ℕ)
    → min_ms ≤ max_ms
    → IsBounded (new_estimator initial_ms min_ms max_ms)
unfolding new_estimator clamp
new_estimator-IsBounded initial_ms min_ms max_ms h = ground arith

add_sample-IsBounded : (rtt : ℤ) (r : RttEstimator) → IsBounded r → IsBounded (add_sample rtt r)
unfolding add_sample smoothed clamp
add_sample-IsBounded (negsuc n) r v = v
add_sample-IsBounded (pos rtt) r v = ground arith

reset_estimator-IsBounded : (r : RttEstimator) → IsBounded r → IsBounded (reset_estimator r)
unfolding reset_estimator clamp
reset_estimator-IsBounded r v = ground arith

-- What an estimator goes through.
pub data Step : Type 0 where
  sample : ℤ → Step
  restart : Step

pub run_steps : List Step → RttEstimator → RttEstimator
run_steps [] r = r
run_steps (sample rtt ∷ steps) r = run_steps steps (add_sample rtt r)
run_steps (restart ∷ steps) r = run_steps steps (reset_estimator r)

steps-IsBounded :
    (steps : List Step) (r : RttEstimator) → IsBounded r → IsBounded (run_steps steps r)
unfolding run_steps
steps-IsBounded [] r v = v
steps-IsBounded (sample rtt ∷ steps) r v =
    steps-IsBounded steps (add_sample rtt r) (add_sample-IsBounded rtt r v)
steps-IsBounded (restart ∷ steps) r v =
    steps-IsBounded steps (reset_estimator r) (reset_estimator-IsBounded r v)

-- Of an estimator whose minimum is not above its maximum the timeout stays between the two, whatever
-- samples it is given, negative ones too, and however often it is reset.
pub run_steps-IsBounded :
    (initial_ms min_ms max_ms : ℕ) (steps : List Step)
    → min_ms ≤ max_ms
    → IsBounded (run_steps steps (new_estimator initial_ms min_ms max_ms))
run_steps-IsBounded initial_ms min_ms max_ms steps h =
    steps-IsBounded steps (new_estimator initial_ms min_ms max_ms)
      (new_estimator-IsBounded initial_ms min_ms max_ms h)

doubled : (n t : ℕ) → t * 2 * 2 ^ n ≡ t * 2 ^ suc n
doubled n t = grind (arith, pow-suc 2 n)

grows : (n t : ℕ) → t ≤ t * 2 ^ n
grows zero t = omega arith
grows (suc n) t = omega (arith, doubled n t, grows n (t * 2))

back_off_lem :
    (n limit t : ℕ)
    → (min (back_off n limit t) limit ≡ min (t * 2 ^ n) limit) × (t ≤ back_off n limit t)
unfolding back_off
back_off_lem zero limit t = omega arith
back_off_lem (suc n) limit t =
    let (same, more) = back_off_lem n limit (t * 2) in
    elim (Bool-cases (ltb t limit)) [
      | inl below ↦ rw below (omega (arith, same, doubled n t), omega (arith, more))
      | inr above ↦ rw above (ground (arith, grows (suc n) t), omega arith)
    ]

-- With the bounds in order, a retransmission waits the timeout, doubled for every attempt before it,
-- but never longer than the maximum.
pub timeout_for_lem :
    (r : RttEstimator) (attempt : ℕ)
    → IsBounded r
    → timeout_for (pos attempt) r ≡ min (r.rto * 2 ^ attempt) r.max_rto
unfolding timeout_for clamp
timeout_for_lem r attempt v = ground (arith, back_off_lem attempt r.max_rto r.rto)

-- The estimate, once there is one.
abbrev pub IsWithin : ℕ → ℕ → RttEstimator → Type 0
IsWithin low high r = r.has_sample ≡ true → (low ≤ r.srtt) × (r.srtt ≤ high)

abbrev pub InRange : ℕ → ℕ → ℤ → Type 0
InRange low high (pos rtt) = (low ≤ rtt) × (rtt ≤ high)
InRange low high (negsuc n) = Unit

-- The smoothed round-trip time stays between the smallest and the largest of the samples, of which
-- negative ones are ignored; and it is there after a sample that is not negative.
add_sample-IsWithin :
    (low high : ℕ) (rtt : ℤ) (r : RttEstimator)
    → InRange low high rtt
    → IsWithin low high r
    → IsWithin low high (add_sample rtt r)
      × ((n : ℕ) → rtt ≡ pos n → (add_sample rtt r).has_sample ≡ true)
unfolding add_sample smoothed
add_sample-IsWithin low high (negsuc k) r h w = (w, λ n e. absurd cc)
add_sample-IsWithin low high (pos rtt) r h w = (ground arith, λ n e. ground arith)
