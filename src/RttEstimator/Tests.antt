-- ===== src/RttEstimator/Tests.antt =====
-- RttEstimator.h: an estimator at work.
use net_link.Common.{◌*◌, ◌^◌, min, ◌≡◌, true, List, [], ◌∷◌, pos, negsuc, arith}
use net_link.RttEstimator.{RttEstimator, new_estimator, timeout_for}
use net_link.RttEstimator.Bounds.{
  IsBounded, Step, sample, restart, run_steps, run_steps-IsBounded, timeout_for_lem,
}

abbrev measured : List Step
measured =
    sample (pos 5000) ∷ sample (negsuc 3) ∷ sample (pos 90000) ∷ restart ∷ sample (pos 7) ∷ []

run_steps-IsBounded_example : IsBounded (run_steps measured (new_estimator 500 50 2000))
run_steps-IsBounded_example = run_steps-IsBounded 500 50 2000 measured (omega arith)

abbrev estimator : RttEstimator
estimator = record {
  initial_rto = 500000;
  min_rto = 50000;
  max_rto = 2000000;
  rto = 80000;
  srtt = 40000;
  rtt_var = 10000;
  has_sample = true;
}

timeout_for_lem_example : timeout_for (pos 3) estimator ≡ min (80000 * 2 ^ 3) 2000000
timeout_for_lem_example =
    timeout_for_lem estimator 3
      (record { ordered = omega arith; low = omega arith; high = omega arith })
