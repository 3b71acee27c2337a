-- ===== src/Engine/Settling.antt =====
-- NetworkEngine.cpp: advance, and what it does by the state of the peer.
use net_link.Common.{
  ℕ, ◌≡◌, inl, refl, sym, ap, ◌∙◌, if◌then◌else◌, Bool, false, ◌||◌, ◌&&◌, not, [],
}
use net_link.Protocol.Flags.{control, reliable, bulk}
use net_link.Mailbox.{settle}
use net_link.ReliableLink.Link.{take_delivered, has_pending}
use net_link.Engine.{
  State, connecting, awaiting_decision, connected, closing, Peer, NetworkEngine, is_connecting,
  local_end, lost_peer, none_waits, is_past,
}
use net_link.Engine.Ending.{end_peer, send_close}
use net_link.Engine.Advancing.{on_messages, settle_state, advance}
use net_link.Engine.Phases.{
  Phase, IsSession, Follows, Follows-trans, Follows-refl, if_cases, silent, Moves-trans, shut_fits,
}
use net_link.Engine.Reports.{
  send_close_lem, report-Follows_close, report-Follows_end, send_decline-Follows, end_peer_lem,
}
use net_link.Engine.Sessions.{set_connected-Follows, on_messages-Follows}

module _ {W : Type 0} where
  end_peer-Follows :
      (ph : Phase) (x : Peer W × NetworkEngine) → IsSession ph x.0 → Follows ph x (end_peer x)
  end_peer-Follows ph x s =
      let (events, told, ended) = end_peer_lem x in
      (
        ph,
        silent ph x.1 (end_peer x).1 events,
        record { told = s.told ∙ sym told; shape = shut_fits ph (end_peer x).0 (inl ended) },
      )

  send_close-Follows :
      (now : ℕ) (ph : Phase) (x : Peer W × NetworkEngine)
      → IsSession ph x.0
      → Follows ph x (send_close now x)
  send_close-Follows now ph x s =
      let (events, told, shut) = send_close_lem now x in
      (
        ph,
        silent ph x.1 (send_close now x).1 events,
        record { told = s.told ∙ sym told; shape = shut_fits ph (send_close now x).0 shut },
      )

  -- Another mailbox is no event.
  from_mailbox :
      (ph : Phase) (p : Peer W) (k k' : NetworkEngine) (y : Peer W × NetworkEngine)
      → k'.events ≡ k.events
      → Follows ph (p, k') y
      → Follows ph (p, k) y
  from_mailbox ph p k k' y e (ph', m, s) =
      (ph', Moves-trans ph ph ph' k k' y.1 (silent ph k k' e) m, s)

  settle_state-Follows :
      (state : State) (now : ℕ) (ph : Phase) (x : Peer W × NetworkEngine)
      → x.0.ended ≡ false
      → x.0.state ≡ state
      → IsSession ph x.0
      → Follows ph x (settle_state state now x)
  unfolding settle_state
  settle_state-Follows connecting now ph (p, k) live is s =
      if_cases (Follows ph (p, k))
        (not p.initiator
          && p.accept_sent
          && (none_waits p.control && not (has_pending control p.link)))
        _ _ (λ e. set_connected-Follows ph (p, k) live (ap is_connecting is) s)
        (λ e. Follows-refl ph (p, k) s)
  settle_state-Follows awaiting_decision now ph (p, k) live is s =
      if_cases (Follows ph (p, k)) (is_past now p.state_deadline) _ _
        (λ e. send_decline-Follows now ph (p, k) s.told) (λ e. Follows-refl ph (p, k) s)
  settle_state-Follows connected now ph (p, k) live is s = Follows-refl ph (p, k) s
  settle_state-Follows closing now ph (p, k) live is s =
      if_cases (Follows ph (p, k)) p.close_sent _ _
        (λ e.
          if_cases (Follows ph (p, k))
            ((none_waits p.control && not (has_pending control p.link))
              || is_past now p.state_deadline)
            _ _ (λ e. end_peer-Follows ph (p, k) s) (λ e. Follows-refl ph (p, k) s))
        (λ e. from_mailbox ph p k k' _ same (
          if_cases (Follows ph (p, k'))
            (is_past now p.state_deadline || (all_sent && (settle p.info.id k.mailbox).0)) _ _
            (λ e. report-Follows_close local_end now ph (p, k') s)
            (λ e. Follows-refl ph (p, k') s)))
    where
      all_sent : Bool
      all_sent = not (has_pending reliable p.link) && not (has_pending bulk p.link)

      k' : NetworkEngine
      k' =
          if not (is_past now p.state_deadline) && all_sent
          then record k { mailbox = (settle p.info.id k.mailbox).1 }
          else k

      same : k'.events ≡ k.events
      same =
          if_cases (λ (q : NetworkEngine). q.events ≡ k.events)
            (not (is_past now p.state_deadline) && all_sent) _ _ (λ e. refl) (λ e. refl)

  pub advance-Follows :
      (now : ℕ) (ph : Phase) (x : Peer W × NetworkEngine)
      → IsSession ph x.0
      → Follows ph x (advance now x)
  unfolding advance take_delivered
  advance-Follows now ph (p, k) s =
      let y =
        on_messages p.link.delivered (record p { link = record p.link { delivered = [] } }, k) in
      let heard =
        on_messages-Follows p.link.delivered ph
          (record p { link = record p.link { delivered = [] } }, k)
          (record { told = s.told; shape = s.shape }) in
      if_cases (Follows ph (p, k)) p.ended _ _ (λ e. Follows-refl ph (p, k) s)
        (λ live.
          if_cases (Follows ph (p, k)) p.link.failed _ _
            (λ e. report-Follows_end lost_peer ph (p, k) s)
            (λ e.
              if_cases (Follows ph (p, k)) y.0.ended _ _ (λ e. heard)
                (λ live.
                  Follows-trans ph (p, k) y (settle_state y.0.state now y) heard
                    (λ ph' s'. settle_state-Follows y.0.state now ph' y live refl s'))))
