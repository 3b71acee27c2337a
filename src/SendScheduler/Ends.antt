-- ===== src/SendScheduler/Ends.antt =====
-- SendScheduler.h, run: a run ends, if its callers run out of datagrams.
use net_link.Common.{
  ℕ, zero, suc, ◌+◌, ◌%◌, ◌≤◌, ◌<◌, ◌≡◌, ◌≢◌, inl, inr, refl, ap, leb, true, false, Bool-cases,
  length, arith,
}
use net_link.Double.{Double}
use net_link.Protocol.Flags.{Lane, control, reliable, bulk, media, lane_eq}
use net_link.SendScheduler.{
  Result, was_sent, was_lost, nothing_left, is_blocked, Ring, SendScheduler, next_peer, Work,
  Ending, finished, stopped, unfinished, at_peer, after_sent, after_nothing, goes_on,
  unless_blocked, turn, lane_rounds, and_then, run_lanes, allowance_of, run_scheduler,
}
use net_link.SendScheduler.Rings.{length-erase_at}
use net_link.SendScheduler.Turns.{
  asked, turn_lem, lane_rounds-IsRun, ring_after, inside, some_peers,
}

-- What `send` does to the number of datagrams that are left.
abbrev pub Uses : Result → ℕ → ℕ → Type 0
Uses was_sent left left' = suc left' ≤ left
Uses was_lost left left' = suc left' ≤ left
Uses nothing_left left left' = left' ≤ left
Uses is_blocked left left' = left' ≤ left

length-at_peer : (r : Ring) → length (at_peer r).peers ≡ length r.peers
length-at_peer r = elim (Bool-cases (leb (length r.peers) r.cursor)) [
  | inl e ↦ rw e refl
  | inr e ↦ rw e refl
]

length-after_sent : (r : Ring) → length (after_sent r).peers ≡ length r.peers
unfolding after_sent next_peer
length-after_sent r = elim (Bool-cases (leb 4 ((r.used + 1) % 18446744073709551616))) [
  | inl e ↦ rw e refl
  | inr e ↦ rw e refl
]

-- A turn that does not end the run takes a datagram or a peer away.
used_up :
    (result : Result) (r : Ring) (n n' : ℕ)
    → r.cursor < length r.peers
    → result ≢ is_blocked
    → Uses result n n'
    → (suc (n' + length (ring_after result r).peers) ≤ n + length r.peers) × (n' ≤ n)
unfolding ring_after next_peer after_nothing
used_up was_sent r n n' h e u = (omega (arith, length-after_sent r), omega arith)
used_up was_lost r n n' h e u = (omega arith, omega arith)
used_up nothing_left r n n' h e u = (omega (arith, length-erase_at r.cursor r.peers h), u)
used_up is_blocked r n n' h e u = absurd (e refl)

used_less : (result : Result) (n n' : ℕ) → Uses result n n' → n' ≤ n
used_less was_sent n n' u = omega arith
used_less was_lost n n' u = omega arith
used_less nothing_left n n' u = u
used_less is_blocked n n' u = u

module _ {W T : Type 0} ⦃d : Double W⦄ (sub_zero : (a : W) → d.sub a (d.of_ℕ 0) ≡ a)
    (send : Lane → ℕ → T → Result × T) (left : T → ℕ)
    (uses : (l : Lane) (p : ℕ) (t : T) → Uses (send l p t).0 (left t) (left (send l p t).1)) where
  -- More than the rounds that a lane takes.
  abbrev work_of : Lane → Work W T → ℕ
  work_of l x = left x.caller + length (x.scheduler.rings l).peers

  turn_less :
      (l : Lane) (x : Work W T)
      → goes_on send l x ≡ true
      → (asked sub_zero send l x).0 ≢ is_blocked
      → suc (work_of l (turn send l x).1) ≤ work_of l x
  turn_less l x on ne =
      let r = at_peer (x.scheduler.rings l) in
      let (less, few) =
        used_up (asked sub_zero send l x).0 r (left x.caller) (left (asked sub_zero send l x).1)
          (inside (x.scheduler.rings l) (some_peers sub_zero send l x on)) ne (uses l _ x.caller) in
      omega (
        arith,
        less,
        length-at_peer (x.scheduler.rings l),
        ap (λ r. length r.peers) (turn_lem sub_zero send l x).0,
        ap left (turn_lem sub_zero send l x).1,
      )

  -- How a lane ends.
  record Ends (x : Work W T) (r : Ending × Work W T) : Type 0 where
    ends : r.0 ≢ unfinished
    less : left r.1.caller ≤ left x.caller

  later :
      (x y : Work W T) (rest : Ending × Work W T)
      → left y.caller ≤ left x.caller
      → Ends y rest
      → Ends x rest
  later x y rest h e = record { ends = e.ends; less = omega (arith, h, e.less) }

  Ends-cases :
      (result : Result) (x y : Work W T) (rest : Ending × Work W T)
      → left y.caller ≤ left x.caller
      → (result ≢ is_blocked → Ends y rest)
      → Ends x (unless_blocked send result rest y)
  Ends-cases is_blocked x y rest h e = record { ends = λ q. cc; less = h }
  Ends-cases was_sent x y rest h e = later x y rest h (e (λ q. cc))
  Ends-cases was_lost x y rest h e = later x y rest h (e (λ q. cc))
  Ends-cases nothing_left x y rest h e = later x y rest h (e (λ q. cc))

  lane-Ends :
      (rounds : ℕ) (l : Lane) (x : Work W T)
      → work_of l x < rounds
      → Ends x (lane_rounds send rounds l x)
  unfolding lane_rounds
  lane-Ends zero l x h = absurd (omega arith)
  lane-Ends (suc rounds) l x h = elim (Bool-cases (goes_on send l x)) [
    | inl on ↦ rw on (
        Ends-cases (asked sub_zero send l x).0 x (turn send l x).1
          (lane_rounds send rounds l (turn send l x).1)
          (omega
            (arith, ap left (turn_lem sub_zero send l x).1, used_less _ _ _ (uses l _ x.caller)))
          (λ ne. lane-Ends rounds l (turn send l x).1 (omega (arith, turn_less l x on ne, h))))
    | inr off ↦ rw off (record { ends = λ q. cc; less = omega arith })
  ]

  -- A lane, once the lanes before it have ended, and what it leaves to the others.
  record EndsLane (l : Lane) (r r' : Ending × Work W T) : Type 0 where
    ends : r'.0 ≢ unfinished
    less : (l' : Lane) → lane_eq l l' ≡ false → work_of l' r'.1 ≤ work_of l' r.1

  and_then-Ends :
      (rounds : ℕ) (l : Lane) (r : Ending × Work W T)
      → r.0 ≢ unfinished
      → work_of l r.1 < rounds
      → EndsLane l r (and_then send rounds l r)
  unfolding and_then
  and_then-Ends rounds l (unfinished, x) e h = absurd (e refl)
  and_then-Ends rounds l (stopped, x) e h = record { ends = e; less = λ l' ne. omega arith }
  and_then-Ends rounds l (finished, x) e h =
      let a = lane-Ends rounds l x h in
      let f = (lane_rounds-IsRun sub_zero send rounds l x).frame in
      record {
        ends = a.ends;
        less = λ l' ne. omega (arith, a.less, ap (λ r. length r.peers) (f.others l' ne));
      }

  -- A run ends, if every datagram that is sent or lost is one less for its callers: so many rounds are
  -- enough as datagrams are left, and peers wait in a lane, and one more.
  pub run_scheduler-ends :
      (rounds : ℕ) (b : SendScheduler W) (t : T)
      → ((l : Lane) → left t + length (b.rings l).peers < rounds)
      → (run_scheduler send rounds b t).0 ≢ unfinished
  unfolding run_scheduler run_lanes
  run_scheduler-ends rounds b t enough =
      let x : Work W T = record { scheduler = b; allowance = allowance_of b; caller = t } in
      let one = and_then-Ends rounds control (finished, x) (λ q. cc) (enough control) in
      let two =
        and_then-Ends rounds media (and_then send rounds control (finished, x)) one.ends
          (omega (arith, one.less media refl, enough media)) in
      let three =
        and_then-Ends rounds reliable
          (and_then send rounds media (and_then send rounds control (finished, x))) two.ends
          (omega (arith, two.less reliable refl, one.less reliable refl, enough reliable)) in
      (and_then-Ends rounds bulk _ three.ends (
        omega
          (arith, three.less bulk refl, two.less bulk refl, one.less bulk refl, enough bulk))).ends
