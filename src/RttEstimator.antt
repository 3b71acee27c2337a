-- ===== src/RttEstimator.antt =====
-- src/internal/Channel/Reliability/RttEstimator.h: the round-trip time and the timeout of a
-- retransmission. A duration is its number of microseconds; only a sample may be negative.
pub mod Bounds
mod Tests
use net_link.Common.{
  ℕ, zero, suc, ◌+◌, ◌-◌, ◌*◌, ◌/◌, max, ltb, if◌then◌else◌, Bool, true, false, not, ℤ, pos, negsuc,
}

pub record RttEstimator : Type 0 where
  pub initial_rto : ℕ
  pub min_rto : ℕ
  pub max_rto : ℕ
  pub rto : ℕ
  pub srtt : ℕ
  pub rtt_var : ℕ
  pub has_sample : Bool

-- `std::clamp`.
unfoldable pub clamp : ℕ → ℕ → ℕ → ℕ
clamp value low high = if ltb value low then low else if ltb high value then high else value

-- `std::chrono::milliseconds` as microseconds.
abbrev pub milliseconds : ℕ → ℕ
milliseconds count = count * 1000

pub new_estimator : ℕ → ℕ → ℕ → RttEstimator
unfolding clamp
new_estimator initial_ms min_ms max_ms = record {
  initial_rto = milliseconds initial_ms;
  min_rto = milliseconds min_ms;
  max_rto = milliseconds max_ms;
  rto = clamp (milliseconds initial_ms) (milliseconds min_ms) (milliseconds max_ms);
  srtt = 0;
  rtt_var = 0;
  has_sample = false;
}

-- The smoothed values after a sample.
unfoldable pub smoothed : ℕ → RttEstimator → RttEstimator
smoothed rtt r =
    let delta = if ltb rtt r.srtt then r.srtt - rtt else rtt - r.srtt in
    if not r.has_sample
    then record r { srtt = rtt; rtt_var = rtt / 2; has_sample = true }
    else record r { rtt_var = (r.rtt_var * 3 + delta) / 4; srtt = (r.srtt * 7 + rtt) / 8 }

pub add_sample : ℤ → RttEstimator → RttEstimator
unfolding smoothed clamp
add_sample (negsuc n) r = r
add_sample (pos rtt) r =
    let r' = smoothed rtt r in
    record r' {
      rto = clamp (r'.srtt + max (milliseconds 1) (r'.rtt_var * 4)) r'.min_rto r'.max_rto;
    }

pub reset_estimator : RttEstimator → RttEstimator
unfolding clamp
reset_estimator r = record r {
  has_sample = false;
  srtt = 0;
  rtt_var = 0;
  rto = clamp r.initial_rto r.min_rto r.max_rto;
}

-- The loop of `timeoutFor`, by the attempts that are left.
unfoldable pub back_off : ℕ → ℕ → ℕ → ℕ
back_off zero limit timeout = timeout
back_off (suc attempts) limit timeout =
    let later = back_off attempts limit (timeout * 2) in
    if ltb timeout limit then later else timeout

-- A negative attempt does not enter the loop.
pub timeout_for : ℤ → RttEstimator → ℕ
unfolding back_off clamp
timeout_for (negsuc n) r = clamp r.rto r.min_rto r.max_rto
timeout_for (pos attempt) r = clamp (back_off attempt r.max_rto r.rto) r.min_rto r.max_rto
