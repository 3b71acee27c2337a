-- ===== src/SendScheduler/Runs.antt =====
-- SendScheduler.h, run: what the run of all lanes leaves behind, and that it ends.
use net_link.Common.{
  ℕ, ◌≡◌, ◌⊎◌, inl, inr, refl, sym, ap, ◌∙◌, ◌==◌, Bool, true, false, ◌&&◌, ◌||◌, not,
}
use net_link.Double.{Double}
use net_link.Protocol.Flags.{Lane, control, reliable, bulk, media, lane_eq}
use net_link.Protocol.Flags.Lanes.{lane_eq_sound}
use net_link.SendScheduler.{
  Result, SendScheduler, is_none_left, has_tokens, is_unlimited, Work, Ending, finished, stopped,
  unfinished, is_capped, goes_on, and_then, run_lanes, allowance_of, run_scheduler,
}
use net_link.SendScheduler.Rings.{AreValid}
use net_link.SendScheduler.Turns.{IsRun, lane_rounds-IsRun}

module _ {W T : Type 0} ⦃d : Double W⦄ (sub_zero : (a : W) → d.sub a (d.of_ℕ 0) ≡ a)
    (send : Lane → ℕ → T → Result × T) where
  -- Nobody waits in the lane, there are no tokens, or Media has used up its share.
  abbrev pub Settled : Lane → Work W T → Type 0
  Settled l x =
      (is_none_left (x.scheduler.rings l).peers ≡ true)
      ⊎ ((has_tokens x.scheduler ≡ false)
          ⊎ ((is_capped send l x ≡ true) × (d.le (d.of_ℕ 1) x.allowance ≡ false)))

  settled_of : (l : Lane) (x : Work W T) → goes_on send l x ≡ false → Settled l x
  unfolding goes_on
  settled_of l x e =
      cases (is_none_left (x.scheduler.rings l).peers) (has_tokens x.scheduler) (is_capped send l x)
        (d.le (d.of_ℕ 1) x.allowance) e
    where
      cases :
          (a b c e : Bool)
          → (not a && b && (not c || e)) ≡ false
          → (a ≡ true) ⊎ ((b ≡ false) ⊎ ((c ≡ true) × (e ≡ false)))
      cases true b c e h = inl refl
      cases false false c e h = inr (inl refl)
      cases false true true false h = inr (inr (refl, refl))
      cases false true true true h = absurd (cc)
      cases false true false e h = absurd (cc)

  idle_of : (l : Lane) (x : Work W T) → has_tokens x.scheduler ≡ false → goes_on send l x ≡ false
  unfolding goes_on
  idle_of l x e = rw e (
      cases (is_none_left (x.scheduler.rings l).peers)
        (not (is_capped send l x) || d.le (d.of_ℕ 1) x.allowance))
    where
      cases : (a c : Bool) → (not a && false && c) ≡ false
      cases true c = refl
      cases false c = refl

  -- A later lane changes nothing of that.
  kept :
      (l l' : Lane) (x : Work W T) (r : Ending × Work W T)
      → lane_eq l' l ≡ false
      → IsRun sub_zero send l' x r
      → Settled l x
      → Settled l r.1
  kept l l' x r e run (inl gone) =
      inl (ap (λ r. is_none_left r.peers) (run.frame.others l e) ∙ gone)
  kept l l' x r e run (inr (inl out)) =
      inr (inl (ap (λ y. has_tokens y.scheduler) (run.idle (idle_of l' x out)) ∙ out))
  kept l l' x r e run (inr (inr (capped, low))) = inr (
      inr (
        ap (λ rate. lane_eq l media && not (rate == 0)) run.frame.rate ∙ capped,
        ap (λ a. d.le (d.of_ℕ 1) a) (run.frame.allowance other) ∙ low,
      ))
    where
      both : (a b : Bool) → (a && b) ≡ true → a ≡ true
      both true b e = refl
      both false b e = absurd (cc)

      is_media : l ≡ media
      is_media =
          lane_eq_sound l media (both (lane_eq l media) (not (is_unlimited x.scheduler)) capped)

      other : lane_eq l' media ≡ false
      other = ap (lane_eq l') (sym is_media) ∙ e

  pub and_then_lem :
      (rounds : ℕ) (l : Lane) (r : Ending × Work W T)
      → (and_then send rounds l r).0 ≡ finished
      → (r.0 ≡ finished) × IsRun sub_zero send l r.1 (and_then send rounds l r)
  unfolding and_then
  and_then_lem rounds l (finished, x) e = (refl, lane_rounds-IsRun sub_zero send rounds l x)
  and_then_lem rounds l (stopped, x) e = absurd (cc)
  and_then_lem rounds l (unfinished, x) e = absurd (cc)

  chained :
      (r1 r2 r3 r4 : Ending × Work W T)
      → Settled control r1.1
      → Settled media r2.1
      → Settled reliable r3.1
      → Settled bulk r4.1
      → IsRun sub_zero send media r1.1 r2
      → IsRun sub_zero send reliable r2.1 r3
      → IsRun sub_zero send bulk r3.1 r4
      → (l : Lane) → Settled l r4.1
  chained r1 r2 r3 r4 s1 s2 s3 s4 run2 run3 run4 control =
      kept control bulk r3.1 r4 refl run4
        (kept control reliable r2.1 r3 refl run3 (kept control media r1.1 r2 refl run2 s1))
  chained r1 r2 r3 r4 s1 s2 s3 s4 run2 run3 run4 reliable = kept reliable bulk r3.1 r4 refl run4 s3
  chained r1 r2 r3 r4 s1 s2 s3 s4 run2 run3 run4 bulk = s4
  chained r1 r2 r3 r4 s1 s2 s3 s4 run2 run3 run4 media =
      kept media bulk r3.1 r4 refl run4 (kept media reliable r2.1 r3 refl run3 s2)

  run_lanes-Settled :
      (rounds : ℕ) (x : Work W T)
      → (run_lanes send rounds x).0 ≡ finished
      → (l : Lane) → Settled l (run_lanes send rounds x).1
  unfolding run_lanes
  run_lanes-Settled rounds x e =
      let first = and_then send rounds control (finished, x) in
      let second = and_then send rounds media first in
      let third = and_then send rounds reliable second in
      let fourth = and_then send rounds bulk third in
      let (e3, run4) = and_then_lem rounds bulk third e in
      let (e2, run3) = and_then_lem rounds reliable second e3 in
      let (e1, run2) = and_then_lem rounds media first e2 in
      let (e0, run1) = and_then_lem rounds control (finished, x) e1 in
      chained first second third fourth (settled_of control first.1 (run1.done e1))
        (settled_of media second.1 (run2.done e2)) (settled_of reliable third.1 (run3.done e3))
        (settled_of bulk fourth.1 (run4.done e)) run2 run3 run4

  -- A run that is not blocked uses what it may: when it ends, no lane has a peer that waits, or there are
  -- no tokens, or the lane is Media and has used up its share of a limited rate.
  pub run_scheduler-Settled :
      (rounds : ℕ) (b : SendScheduler W) (t : T)
      → (run_scheduler send rounds b t).0 ≡ finished
      → (l : Lane) → Settled l (run_scheduler send rounds b t).1
  unfolding run_scheduler
  run_scheduler-Settled rounds b t =
      run_lanes-Settled rounds (record { scheduler = b; allowance = allowance_of b; caller = t })

  and_then-AreValid :
      (rounds : ℕ) (l : Lane) (r : Ending × Work W T)
      → AreValid r.1.scheduler
      → AreValid (and_then send rounds l r).1.scheduler
  unfolding and_then
  and_then-AreValid rounds l (finished, x) v = (lane_rounds-IsRun sub_zero send rounds l x).valid v
  and_then-AreValid rounds l (stopped, x) v = v
  and_then-AreValid rounds l (unfinished, x) v = v

  -- However far a run comes, every ring keeps its cursor at a peer or behind the last one, and a peer
  -- whose turn it is has datagrams of its quantum left.
  pub run_scheduler-AreValid :
      (rounds : ℕ) (b : SendScheduler W) (t : T)
      → AreValid b
      → AreValid (run_scheduler send rounds b t).1.scheduler
  unfolding run_scheduler run_lanes
  run_scheduler-AreValid rounds b t v = and_then-AreValid rounds bulk _ (
      and_then-AreValid rounds reliable _ (
        and_then-AreValid rounds media _ (
          and_then-AreValid rounds control
            (finished, record { scheduler = b; allowance = allowance_of b; caller = t }) v)))
