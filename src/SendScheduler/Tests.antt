-- ===== src/SendScheduler/Tests.antt =====
-- SendScheduler.h: a scheduler at work, with two peers. The caller has a number of datagrams left.
use net_link.Common.{ℕ, zero, suc, ◌+◌, ◌^◌, ◌<◌, ◌≡◌, ◌≢◌, refl, length, arith}
use net_link.Double.{numbers, numbers_laws}
use net_link.Protocol.Flags.{Lane, control, reliable, bulk, media}
use net_link.SendScheduler.{
  Result, was_sent, nothing_left, SendScheduler, finished, unfinished, new_scheduler, add_peer,
  remove_peer, refill, spend, set_rate, run_scheduler,
}
use net_link.SendScheduler.Rings.{
  AreValid, AreValid-add_peer, empty_ring-IsValid, turn_of, turn_of-remove_peer,
}
use net_link.SendScheduler.Runs.{Settled, run_scheduler-Settled, run_scheduler-AreValid}
use net_link.SendScheduler.Ends.{Uses, run_scheduler-ends}
use net_link.SendScheduler.Budget.{IsWithinBurst, refill-IsWithinBurst}

send : Lane → ℕ → ℕ → Result × ℕ
send l peer zero = (nothing_left, 0)
send l peer (suc n) = (was_sent, n)

send-Uses : (l : Lane) (peer n : ℕ) → Uses (send l peer n).0 n (send l peer n).1
unfolding send
send-Uses l peer zero = omega arith
send-Uses l peer (suc n) = omega arith

-- An unlimited rate, and two peers that wait on Bulk.
abbrev busy : SendScheduler ℕ
unfolding new_scheduler add_peer
busy = add_peer bulk 9 (add_peer bulk 7 (new_scheduler 0))

one_peer_few : suc (length ((add_peer {W = ℕ} bulk 7 (new_scheduler 0)).rings bulk).peers) < 2 ^ 64
unfolding add_peer new_scheduler
one_peer_few = omega arith

busy-AreValid : AreValid busy
unfolding busy new_scheduler
busy-AreValid =
    AreValid-add_peer {W = ℕ} bulk 9 (add_peer bulk 7 (new_scheduler 0)) one_peer_few
      (AreValid-add_peer {W = ℕ} bulk 7 (new_scheduler 0) (omega arith) (λ l. empty_ring-IsValid))

busy_run : (run_scheduler send 10 busy 3).0 ≡ finished
unfolding run_scheduler send busy
busy_run = refl

run_scheduler-Settled_example :
    Settled numbers_laws.sub_zero send bulk (run_scheduler send 10 busy 3).1
run_scheduler-Settled_example =
    run_scheduler-Settled numbers_laws.sub_zero send 10 busy 3 busy_run bulk

run_scheduler-AreValid_example : AreValid (run_scheduler send 10 busy 3).1.scheduler
run_scheduler-AreValid_example =
    run_scheduler-AreValid numbers_laws.sub_zero send 10 busy 3 busy-AreValid

few_rounds : (l : Lane) → 3 + length (busy.rings l).peers < 10
unfolding busy
few_rounds control = omega arith
few_rounds reliable = omega arith
few_rounds bulk = omega arith
few_rounds media = omega arith

run_scheduler-ends_example : (run_scheduler send 10 busy 3).0 ≢ unfinished
run_scheduler-ends_example =
    run_scheduler-ends numbers_laws.sub_zero send (λ n. n) send-Uses 10 busy 3 few_rounds

turn_of-remove_peer_example : turn_of ((remove_peer 9 busy).rings bulk) ≡ turn_of (busy.rings bulk)
unfolding busy
turn_of-remove_peer_example = turn_of-remove_peer 9 bulk busy (omega arith) (λ e. omega (arith, e))

abbrev limited : SendScheduler ℕ
unfolding new_scheduler
limited = new_scheduler 8000

limited-IsWithinBurst : IsWithinBurst limited
unfolding IsWithinBurst limited
limited-IsWithinBurst = numbers_laws.irrefl 16

refill-IsWithinBurst_example :
    IsWithinBurst (refill 5 limited)
    × IsWithinBurst (spend 3 limited)
    × IsWithinBurst (set_rate 100 limited)
refill-IsWithinBurst_example =
    refill-IsWithinBurst numbers_laws 5 3 100 limited limited-IsWithinBurst
