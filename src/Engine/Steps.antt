-- ===== src/Engine/Steps.antt =====
-- NetworkEngine.cpp: the functions that change a session, besides advance.
use net_link.Common.{
  ℕ, ◌≡◌, ◌⊎◌, inl, inr, refl, subst, if◌then◌else◌, Bool, true, false, ◌||◌, not,
}
use net_link.Protocol.Flags.{Lane, control, lane_eq}
use net_link.Engine.{
  State, connecting, awaiting_decision, connected, closing, Peer, NetworkEngine, is_connecting,
  is_awaiting, transfers_data, local_end, shut_down,
}
use net_link.Engine.Ending.{
  report, send_accept, send_close, end_in_state, end_session, shut_down_in_state, shut_down_peer,
}
use net_link.Engine.Advancing.{accept_command, decline_command, open_if_used}
use net_link.Engine.Phases.{
  Phase, fresh, opened, over, fits, is_over, IsSession, Follows, Follows-refl, if_cases, silent,
  Moves-trans,
}
use net_link.Engine.Reports.{reported_shut, report_lem, report-Follows_close, send_decline-Follows}
use net_link.Engine.Sessions.{set_connected-Follows}

drained :
    (ph : Phase) (ended close_sent : Bool)
    → (ended || fits ph connected close_sent) ≡ true
    → (ended || fits ph closing close_sent) ≡ true
drained ph true close_sent e = refl
drained fresh false close_sent e = absurd (cc)
drained opened false true e = refl
drained opened false false e = refl
drained over false close_sent e = absurd (cc)

shut_of :
    (ph : Phase) (ended : Bool) (state : State) (close_sent : Bool)
    → close_sent ≡ true
    → (ended || fits ph state close_sent) ≡ true
    → (ended ≡ true) ⊎ ((state ≡ closing) × (close_sent ≡ true))
shut_of ph true state close_sent sent e = inl refl
shut_of ph false closing close_sent sent e = inr (refl, sent)
shut_of ph false state false sent e = absurd (cc)
shut_of fresh false connecting true sent e = absurd (cc)
shut_of fresh false awaiting_decision true sent e = absurd (cc)
shut_of fresh false connected true sent e = absurd (cc)
shut_of opened false connecting true sent e = absurd (cc)
shut_of opened false awaiting_decision true sent e = absurd (cc)
shut_of opened false connected true sent e = absurd (cc)
shut_of over false connecting true sent e = absurd (cc)
shut_of over false awaiting_decision true sent e = absurd (cc)
shut_of over false connected true sent e = absurd (cc)

taken_up :
    (ph : Phase) (ended : Bool) (state : State) (close_sent : Bool)
    → is_awaiting state ≡ true
    → (ended || fits ph state close_sent) ≡ true
    → (ended || fits ph connecting close_sent) ≡ true
taken_up ph true state close_sent a e = refl
taken_up fresh false awaiting_decision false a e = refl
taken_up fresh false awaiting_decision true a e = absurd (cc)
taken_up opened false awaiting_decision close_sent a e = absurd (cc)
taken_up over false awaiting_decision close_sent a e = absurd (cc)
taken_up ph false connecting close_sent a e = absurd (cc)
taken_up ph false connected close_sent a e = absurd (cc)
taken_up ph false closing close_sent a e = absurd (cc)

may_connect : (a b c : Bool) → (not a || b || not c) ≡ false → a ≡ true
may_connect true b c e = refl
may_connect false b c e = absurd (cc)

module _ {W : Type 0} where
  end_in_state-Follows :
      (state : State) (now : ℕ) (ph : Phase) (x : Peer W × NetworkEngine)
      → x.0.state ≡ state
      → IsSession ph x.0
      → Follows ph x (end_in_state state now x)
  unfolding end_in_state
  end_in_state-Follows connecting now ph (p, k) is s =
      report-Follows_close local_end now ph (p, k) s
  end_in_state-Follows awaiting_decision now ph (p, k) is s =
      send_decline-Follows now ph (p, k) s.told
  end_in_state-Follows connected now ph (p, k) is s = (
    ph,
    silent ph k _ refl,
    record {
      told = s.told;
      shape =
          drained ph p.ended p.close_sent
            (subst (λ state. (p.ended || fits ph state p.close_sent) ≡ true) is s.shape);
    },
  )
  end_in_state-Follows closing now ph (p, k) is s = Follows-refl ph (p, k) s

  pub end_session-Follows :
      (now : ℕ) (ph : Phase) (x : Peer W × NetworkEngine)
      → IsSession ph x.0
      → Follows ph x (end_session now x)
  unfolding end_session
  end_session-Follows now ph (p, k) s = end_in_state-Follows p.state now ph (p, k) refl s

  -- A report, and then what shuts the peer.
  told_then :
      (ph : Phase) (x y : Peer W × NetworkEngine)
      → is_over ph ≡ x.0.reported
      → ((ph' : Phase)
          → is_over ph' ≡ (report shut_down x).0.reported
          → Follows ph' (report shut_down x) y)
      → Follows ph x y
  told_then ph x y told f =
      let (ph', m, told') = report_lem shut_down ph x told in
      let (ph'', m', s) = f ph' told' in
      (ph'', Moves-trans ph ph' ph'' x.1 (report shut_down x).1 y.1 m m', s)

  report_same :
      (x : Peer W × NetworkEngine)
      → ((report shut_down x).0.ended ≡ x.0.ended)
        × ((report shut_down x).0.state ≡ x.0.state)
        × ((report shut_down x).0.close_sent ≡ x.0.close_sent)
  unfolding report
  report_same (p, k) =
      if_cases
        (λ (y : Peer W × NetworkEngine).
          (y.0.ended ≡ p.ended) × (y.0.state ≡ p.state) × (y.0.close_sent ≡ p.close_sent))
        (not p.announced || p.reported) _ _ (λ e. (refl, refl, refl)) (λ e. (refl, refl, refl))

  -- With the goodbye on its way already, or without it.
  close_unless_sent :
      (now : ℕ) (ph : Phase) (x : Peer W × NetworkEngine)
      → IsSession ph x.0
      → Follows ph x (
          if (report shut_down x).0.close_sent
          then report shut_down x
          else send_close now (report shut_down x))
  close_unless_sent now ph x s =
      let (ended, state, sent) = report_same x in
      if_cases (Follows ph x) (report shut_down x).0.close_sent _ _
        (λ e. reported_shut shut_down ph x (report shut_down x) s.told refl refl (
          shut_of ph (report shut_down x).0.ended (report shut_down x).0.state
            (report shut_down x).0.close_sent e (rw (ended, state, sent) s.shape)))
        (λ e. report-Follows_close shut_down now ph x s)

  shut_down_in_state-Follows :
      (state : State) (now : ℕ) (ph : Phase) (x : Peer W × NetworkEngine)
      → IsSession ph x.0
      → Follows ph x (shut_down_in_state state now (report shut_down x))
  unfolding shut_down_in_state
  shut_down_in_state-Follows awaiting_decision now ph x s =
      told_then ph x _ s.told (λ ph' told. send_decline-Follows now ph' (report shut_down x) told)
  shut_down_in_state-Follows connecting now ph x s = close_unless_sent now ph x s
  shut_down_in_state-Follows connected now ph x s = close_unless_sent now ph x s
  shut_down_in_state-Follows closing now ph x s = close_unless_sent now ph x s

  pub shut_down-Follows :
      (now : ℕ) (ph : Phase) (x : Peer W × NetworkEngine)
      → IsSession ph x.0
      → Follows ph x (shut_down_peer now x)
  unfolding shut_down_peer
  shut_down-Follows now ph (p, k) s = shut_down_in_state-Follows p.state now ph (p, k) s

  pub send_accept-Follows :
      (ph : Phase) (x : Peer W × NetworkEngine)
      → is_over ph ≡ x.0.reported
      → (x.0.ended || fits ph connecting x.0.close_sent) ≡ true
      → Follows ph x (send_accept x)
  unfolding send_accept
  send_accept-Follows ph (p, k) told shape =
      (ph, silent ph k _ refl, record { told = told; shape = shape })

  pub accept_command-Follows :
      (ph : Phase) (x : Peer W × NetworkEngine) → IsSession ph x.0 → Follows ph x (accept_command x)
  unfolding accept_command
  accept_command-Follows ph (p, k) s =
      if_cases (Follows ph (p, k)) (is_awaiting p.state) _ _
        (λ e.
          send_accept-Follows ph (p, k) s.told (taken_up ph p.ended p.state p.close_sent e s.shape))
        (λ e. Follows-refl ph (p, k) s)

  pub decline_command-Follows :
      (now : ℕ) (ph : Phase) (x : Peer W × NetworkEngine)
      → IsSession ph x.0
      → Follows ph x (decline_command now x)
  unfolding decline_command
  decline_command-Follows now ph (p, k) s =
      if_cases (Follows ph (p, k)) (is_awaiting p.state) _ _
        (λ e. send_decline-Follows now ph (p, k) s.told) (λ e. Follows-refl ph (p, k) s)

  pub open_if_used-Follows :
      (l : Lane) (ph : Phase) (x : Peer W × NetworkEngine)
      → IsSession ph x.0
      → Follows ph x ((open_if_used l x).1, (open_if_used l x).2)
  unfolding open_if_used
  open_if_used-Follows l ph (p, k) s =
      let P = λ (r : Bool × Peer W × NetworkEngine). Follows ph (p, k) (r.1, r.2) in
      if_cases P p.ended _ _ (λ e. Follows-refl ph (p, k) s)
        (λ live.
          if_cases P (lane_eq l control || transfers_data p) _ _ (λ e. Follows-refl ph (p, k) s)
            (λ e.
              if_cases P (not (is_connecting p.state) || p.initiator || not p.accept_sent) _ _
                (λ e. Follows-refl ph (p, k) s)
                (λ e.
                  set_connected-Follows ph (p, k) live
                    (may_connect (is_connecting p.state) p.initiator p.accept_sent e) s)))
