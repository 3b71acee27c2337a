-- ===== src/Engine/Reports.antt =====
-- NetworkEngine.cpp: report, and the functions that end a session with one.
use net_link.Common.{
  ℕ, ◌≡◌, inl, inr, refl, sym, ◌∙◌, Bool, true, false, ◌||◌, not, Bool-cases, [], some,
}
use net_link.Session
use net_link.Session.{encode_decline}
use net_link.Engine.{DisconnectReason, session_over, Peer, NetworkEngine, is_nobody, local_end}
use net_link.Engine.Ending.{report, end_peer, send_close, send_decline, queue_control}
use net_link.Engine.Phases.{
  Phase, next_phase, is_over, IsSession, Moves, if_cases, silent, one_event, Moves-trans, Follows,
  IsShut, shut_fits, fresh, opened, over,
}

ends_with : (ph : Phase) → is_over ph ≡ false → next_phase ph session_over ≡ some over
unfolding next_phase
ends_with fresh e = refl
ends_with opened e = refl
ends_with over e = absurd (cc)

neither : (a b : Bool) → (not a || b) ≡ false → b ≡ false
neither true b e = e
neither false b e = absurd (cc)

module _ {W : Type 0} where
  -- The end is told once, and only of a session that the application knows.
  pub report_lem :
      (reason : DisconnectReason) (ph : Phase) (x : Peer W × NetworkEngine)
      → is_over ph ≡ x.0.reported
      → (ph' : Phase) × Moves ph ph' x.1 (report reason x).1
        × (is_over ph' ≡ (report reason x).0.reported)
  unfolding report
  report_lem reason ph (p, k) told = elim (Bool-cases (not p.announced || p.reported)) [
    | inl e ↦ rw e (ph, silent ph k k refl, told)
    | inr e ↦ rw e (
      over,
      one_event ph over k _ _ refl (ends_with ph (told ∙ neither p.announced p.reported e)),
      refl,
    )
  ]

  -- What follows a report with a peer that is shut.
  pub reported_shut :
      (reason : DisconnectReason) (ph : Phase) (x y : Peer W × NetworkEngine)
      → is_over ph ≡ x.0.reported
      → y.1.events ≡ (report reason x).1.events
      → y.0.reported ≡ (report reason x).0.reported
      → IsShut y.0
      → Follows ph x y
  reported_shut reason ph x y told events reported shut =
      let (ph', m, told') = report_lem reason ph x told in
      (
        ph',
        Moves-trans ph ph' ph' x.1 (report reason x).1 y.1 m
            (silent ph' (report reason x).1 y.1 events),
        record { told = told' ∙ sym reported; shape = shut_fits ph' y.0 shut },
      )

  pub end_peer_lem :
      (x : Peer W × NetworkEngine)
      → ((end_peer x).1.events ≡ x.1.events)
        × ((end_peer x).0.reported ≡ x.0.reported)
        × ((end_peer x).0.ended ≡ true)
  unfolding end_peer
  end_peer_lem (p, k) =
      if_cases
        (λ (y : Peer W × NetworkEngine).
          (y.1.events ≡ k.events) × (y.0.reported ≡ p.reported) × (y.0.ended ≡ true))
        p.ended _ _ (λ e. (refl, refl, e)) (λ e. (refl, refl, refl))

  pub send_close_lem :
      (now : ℕ) (x : Peer W × NetworkEngine)
      → ((send_close now x).1.events ≡ x.1.events)
        × ((send_close now x).0.reported ≡ x.0.reported)
        × IsShut (send_close now x).0
  unfolding send_close
  send_close_lem now (p, k) = elim (Bool-cases (is_nobody p.link.remote_stream_id)) [
    | inl e ↦ rw e ((end_peer_lem (p, _)).0, (end_peer_lem (p, _)).1, inl (end_peer_lem (p, _)).2)
    | inr e ↦ rw e (refl, refl, inr (refl, refl))
  ]

  pub report-Follows_close :
      (reason : DisconnectReason) (now : ℕ) (ph : Phase) (x : Peer W × NetworkEngine)
      → IsSession ph x.0
      → Follows ph x (send_close now (report reason x))
  report-Follows_close reason now ph x s =
      let (events, told, shut) = send_close_lem now (report reason x) in
      reported_shut reason ph x (send_close now (report reason x)) s.told events told shut

  pub report-Follows_end :
      (reason : DisconnectReason) (ph : Phase) (x : Peer W × NetworkEngine)
      → IsSession ph x.0
      → Follows ph x (end_peer (report reason x))
  report-Follows_end reason ph x s =
      let (events, told, ended) = end_peer_lem (report reason x) in
      reported_shut reason ph x (end_peer (report reason x)) s.told events told (inl ended)

  pub send_decline-Follows :
      (now : ℕ) (ph : Phase) (x : Peer W × NetworkEngine)
      → is_over ph ≡ x.0.reported
      → Follows ph x (send_decline now x)
  unfolding send_decline
  send_decline-Follows now ph (p, k) s =
      let (ph', m, told) =
        report_lem local_end ph
          (
            queue_control Session.decline
                (encode_decline (record { reason = Session.declined; text = [] })) p,
            k,
          )
          s in
      (
        ph',
        Moves-trans ph ph' ph' k _ _ m (silent ph' _ _ refl),
        record {
          told = told;
          shape = shut_fits ph' (send_decline now (p, k)).0 (inr (refl, refl));
        },
      )
