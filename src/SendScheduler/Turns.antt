-- ===== src/SendScheduler/Turns.antt =====
-- SendScheduler.h, run: one turn, and the loop over a lane.
use net_link.Common.{
  ℕ, zero, suc, ◌<◌, ◌≡◌, inl, inr, refl, sym, ap, ◌∙◌, subst, ◌==◌, leb, Bool, true, false, ◌&&◌,
  ◌||◌, not, Bool-cases, List, [], ◌∷◌, length, get_or, arith,
}
use net_link.Double.{Double}
use net_link.Protocol.Flags.{Lane, media, lane_eq}
use net_link.Protocol.Flags.Lanes.{lane_eq_refl, lane_eq_sound}
use net_link.SendScheduler.{
  Result, was_sent, was_lost, nothing_left, is_blocked, Ring, SendScheduler, is_none_left,
  next_peer, has_tokens, spend, Work, Ending, finished, stopped, at_peer, after_sent, after_nothing,
  is_capped, goes_on, pay, store_ring, take_turn, unless_blocked, turn, lane_rounds,
}
use net_link.SendScheduler.Rings.{
  IsValid, AreValid, at_peer-IsValid, after_sent-IsValid, next_peer-IsValid, after_nothing-IsValid,
}

-- The ring after the turn.
unfoldable pub ring_after : Result → Ring → Ring
unfolding after_sent
ring_after was_sent r = after_sent r
ring_after was_lost r = next_peer r
ring_after nothing_left r = after_nothing r
ring_after is_blocked r = r

ring_after-IsValid :
    (result : Result) (r : Ring)
    → IsValid r
    → r.cursor < length r.peers
    → IsValid (ring_after result r)
unfolding ring_after
ring_after-IsValid was_sent r v h = after_sent-IsValid r v h
ring_after-IsValid was_lost r v h = next_peer-IsValid r v h
ring_after-IsValid nothing_left r v h = after_nothing-IsValid r v h
ring_after-IsValid is_blocked r v h = v

pub inside :
    (r : Ring) → is_none_left r.peers ≡ false → (at_peer r).cursor < length (at_peer r).peers
inside r e = elim (Bool-cases (leb (length r.peers) r.cursor)) [
  | inl behind ↦ rw behind (some_left r.peers e)
  | inr at ↦ rw at (ground (arith, at))
]
  where
    some_left : (xs : List ℕ) → is_none_left xs ≡ false → 0 < length xs
    some_left [] e = absurd (cc)
    some_left (x ∷ xs) e = omega arith

module _ {W : Type 0} ⦃d : Double W⦄ where
  spend_lem :
      (n : ℕ) (b : SendScheduler W) → ((spend n b).rings ≡ b.rings) × ((spend n b).rate ≡ b.rate)
  unfolding spend
  spend_lem n b = elim (Bool-cases (b.rate == 0)) [
    | inl e ↦ rw e (refl, refl)
    | inr e ↦ rw e (refl, refl)
  ]

module _ {W T : Type 0} ⦃d : Double W⦄ where
  -- What a turn of a lane leaves as it is.
  pub record IsFrame (l : Lane) (x x' : Work W T) : Type 0 where
    pub others : (l' : Lane) → lane_eq l l' ≡ false → x'.scheduler.rings l' ≡ x.scheduler.rings l'
    pub rate : x'.scheduler.rate ≡ x.scheduler.rate
    pub allowance : lane_eq l media ≡ false → x'.allowance ≡ x.allowance

  pub IsFrame-refl : (l : Lane) (x : Work W T) → IsFrame l x x
  IsFrame-refl l x = record { others = λ l' e. refl; rate = refl; allowance = λ e. refl }

  pub IsFrame-trans : (l : Lane) (x y z : Work W T) → IsFrame l x y → IsFrame l y z → IsFrame l x z
  IsFrame-trans l x y z f g = record {
    others = λ l' e. g.others l' e ∙ f.others l' e;
    rate = g.rate ∙ f.rate;
    allowance = λ e. g.allowance e ∙ f.allowance e;
  }

module _ {W T : Type 0} ⦃d : Double W⦄ (sub_zero : (a : W) → d.sub a (d.of_ℕ 0) ≡ a)
    (send : Lane → ℕ → T → Result × T) where
  store-IsFrame :
      (l : Lane) (r : Ring) (x y : Work W T)
      → y.scheduler.rings ≡ x.scheduler.rings
      → y.scheduler.rate ≡ x.scheduler.rate
      → (lane_eq l media ≡ false → y.allowance ≡ x.allowance)
      → IsFrame l x (store_ring send l r y)
  store-IsFrame l r x y rings rate allowance = record {
    others = λ l' e. rw e (ap (λ f. f l') rings);
    rate = rate;
    allowance = allowance;
  }

  pay_allowance :
      (l : Lane) (x : Work W T) → lane_eq l media ≡ false → (pay send l x).allowance ≡ x.allowance
  unfolding pay
  pay_allowance l x e = rw e (sub_zero x.allowance)

  pay_lem :
      (l : Lane) (x : Work W T)
      → ((pay send l x).scheduler.rings ≡ x.scheduler.rings)
        × ((pay send l x).scheduler.rate ≡ x.scheduler.rate)
        × ((pay send l x).caller ≡ x.caller)
  unfolding pay
  pay_lem l x = ((spend_lem 1 x.scheduler).0, (spend_lem 1 x.scheduler).1, refl)

  take_turn-IsFrame :
      (l : Lane) (result : Result) (r : Ring) (x : Work W T)
      → IsFrame l x (take_turn send l result r x)
  unfolding take_turn
  take_turn-IsFrame l was_sent r x =
      store-IsFrame l (after_sent r) x (pay send l x) (pay_lem l x).0 (pay_lem l x).1
        (pay_allowance l x)
  take_turn-IsFrame l was_lost r x =
      store-IsFrame l (next_peer r) x (pay send l x) (pay_lem l x).0 (pay_lem l x).1
        (pay_allowance l x)
  take_turn-IsFrame l nothing_left r x = store-IsFrame l (after_nothing r) x x refl refl (λ e. refl)
  take_turn-IsFrame l is_blocked r x = store-IsFrame l r x x refl refl (λ e. refl)

  take_turn_lem :
      (l : Lane) (result : Result) (r : Ring) (x : Work W T)
      → ((take_turn send l result r x).scheduler.rings l ≡ ring_after result r)
        × ((take_turn send l result r x).caller ≡ x.caller)
  unfolding take_turn ring_after
  take_turn_lem l was_sent r x = (rw (lane_eq_refl l) refl, (pay_lem l x).2)
  take_turn_lem l was_lost r x = (rw (lane_eq_refl l) refl, (pay_lem l x).2)
  take_turn_lem l nothing_left r x = (rw (lane_eq_refl l) refl, refl)
  take_turn_lem l is_blocked r x = (rw (lane_eq_refl l) refl, refl)

  -- What the caller was asked for, and what it made of it.
  abbrev pub asked : Lane → Work W T → Result × T
  asked l x = let r = at_peer (x.scheduler.rings l) in send l (get_or r.peers r.cursor 0) x.caller

  -- The ring and the caller after a turn.
  pub turn_lem :
      (l : Lane) (x : Work W T)
      → ((turn send l x).1.scheduler.rings l
          ≡ ring_after (asked l x).0 (at_peer (x.scheduler.rings l)))
        × ((turn send l x).1.caller ≡ (asked l x).1)
  turn_lem l x =
      take_turn_lem l (asked l x).0 (at_peer (x.scheduler.rings l))
        (record x { caller = (asked l x).1 })

  pub turn-IsFrame : (l : Lane) (x : Work W T) → IsFrame l x (turn send l x).1
  turn-IsFrame l x =
      let f =
        take_turn-IsFrame l (asked l x).0 (at_peer (x.scheduler.rings l))
          (record x { caller = (asked l x).1 }) in
      record { others = f.others; rate = f.rate; allowance = f.allowance }

  pub some_peers :
      (l : Lane) (x : Work W T)
      → goes_on send l x ≡ true
      → is_none_left (x.scheduler.rings l).peers ≡ false
  unfolding goes_on
  some_peers l x e =
      first (is_none_left (x.scheduler.rings l).peers) (has_tokens x.scheduler)
        (not (is_capped send l x) || d.le (d.of_ℕ 1) x.allowance) e
    where
      first : (a b c : Bool) → (not a && b && c) ≡ true → a ≡ false
      first true b c e = absurd (cc)
      first false b c e = refl

  turn-AreValid :
      (l : Lane) (x : Work W T)
      → goes_on send l x ≡ true
      → AreValid x.scheduler
      → AreValid (turn send l x).1.scheduler
  turn-AreValid l x on v l' = elim (Bool-cases (lane_eq l l')) [
    | inl e ↦
        subst (λ l'. IsValid ((turn send l x).1.scheduler.rings l')) (lane_eq_sound l l' e)
          (subst IsValid (sym (turn_lem l x).0) (
            ring_after-IsValid (asked l x).0 (at_peer (x.scheduler.rings l))
              (at_peer-IsValid (x.scheduler.rings l) (v l))
              (inside (x.scheduler.rings l) (some_peers l x on))))
    | inr e ↦ subst IsValid (sym ((turn-IsFrame l x).others l' e)) (v l')
  ]

  -- The loop over a lane.
  pub record IsRun (l : Lane) (x : Work W T) (r : Ending × Work W T) : Type 0 where
    pub frame : IsFrame l x r.1
    pub done : r.0 ≡ finished → goes_on send l r.1 ≡ false
    pub idle : goes_on send l x ≡ false → r.1 ≡ x
    pub valid : AreValid x.scheduler → AreValid r.1.scheduler

  pub unless_cases :
      (P : Ending × Work W T → Type 0) (result : Result) (rest : Ending × Work W T) (x : Work W T)
      → P (stopped, x)
      → P rest
      → P (unless_blocked send result rest x)
  unless_cases P was_sent rest x s r = r
  unless_cases P was_lost rest x s r = r
  unless_cases P nothing_left rest x s r = r
  unless_cases P is_blocked rest x s r = s

  -- Behind a turn.
  record IsBehind (l : Lane) (x : Work W T) (r : Ending × Work W T) : Type 0 where
    frame : IsFrame l x r.1
    done : r.0 ≡ finished → goes_on send l r.1 ≡ false
    valid : AreValid x.scheduler → AreValid r.1.scheduler

  pub lane_rounds-IsRun :
      (rounds : ℕ) (l : Lane) (x : Work W T) → IsRun l x (lane_rounds send rounds l x)
  unfolding lane_rounds
  lane_rounds-IsRun zero l x = record {
    frame = IsFrame-refl l x;
    done = λ e. absurd (cc);
    idle = λ e. refl;
    valid = λ v. v;
  }
  lane_rounds-IsRun (suc rounds) l x = elim (Bool-cases (goes_on send l x)) [
    | inl on ↦
        let x' = (turn send l x).1 in
        let rest = lane_rounds-IsRun rounds l x' in
        let b =
          unless_cases (IsBehind l x) (asked l x).0 (lane_rounds send rounds l x') x'
            (record {
              frame = turn-IsFrame l x;
              done = λ e. absurd (cc);
              valid = turn-AreValid l x on;
            })
            (record {
              frame = IsFrame-trans l x x' _ (turn-IsFrame l x) rest.frame;
              done = rest.done;
              valid = λ v. rest.valid (turn-AreValid l x on v);
            }) in
        rw on (record { frame = b.frame; done = b.done; idle = λ e. absurd (cc); valid = b.valid })
    | inr off ↦
        rw off
          (record { frame = IsFrame-refl l x; done = λ e. off; idle = λ e. refl; valid = λ v. v })
  ]
