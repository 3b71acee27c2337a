-- ===== src/Engine/Sessions.antt =====
-- NetworkEngine.cpp: each function of a session emits what the session may emit next.
use net_link.Common.{
  ◌≡◌, refl, sym, ap, ◌∙◌, subst, Bool, true, false, ◌||◌, ◌&&◌, not, ◌==◌, leb, length, List, [],
  ◌∷◌, Option, none, some,
}
use net_link.Session
use net_link.Session.{Accept, control_value, decode_accept, decode_decline}
use net_link.Protocol.Flags.{control, media, lane_eq}
use net_link.Discovery.Logic.{max_display_name}
use net_link.ReliableLink.{DeliveredMessage}
use net_link.Engine.{
  session_connected, message_came, State, connecting, awaiting_decision, connected, closing, Peer,
  NetworkEngine, is_connecting, transfers, transfers_data, with_name, remote_end, reason_of,
}
use net_link.Engine.Ending.{set_connected}
use net_link.Engine.Advancing.{on_control, hand_over, on_message, on_messages}
use net_link.Engine.Phases.{
  Phase, fresh, opened, over, next_phase, fits, is_over, IsSession, Follows, Follows-trans,
  Follows-refl, if_cases, one_event,
}
use net_link.Engine.Reports.{report-Follows_end}

pub or_false : (a b : Bool) → a ≡ false → (a || b) ≡ true → b ≡ true
or_false true b e h = absurd (cc)
or_false false b e h = h

-- A session that waits for its answer was not connected before.
fresh_of :
    (ph : Phase) (state : State) (close_sent : Bool)
    → is_connecting state ≡ true
    → fits ph state close_sent ≡ true
    → next_phase ph session_connected ≡ some opened
unfolding next_phase
fresh_of fresh state close_sent e h = refl
fresh_of opened connecting close_sent e h = absurd (cc)
fresh_of opened awaiting_decision close_sent e h = absurd (cc)
fresh_of opened connected close_sent e h = absurd (cc)
fresh_of opened closing close_sent e h = absurd (cc)
fresh_of over connecting close_sent e h = absurd (cc)
fresh_of over awaiting_decision close_sent e h = absurd (cc)
fresh_of over connected close_sent e h = absurd (cc)
fresh_of over closing close_sent e h = absurd (cc)

unsent :
    (ph : Phase) (state : State) (close_sent : Bool)
    → is_connecting state ≡ true
    → fits ph state close_sent ≡ true
    → close_sent ≡ false
unsent ph state false e h = refl
unsent fresh connecting true e h = absurd (cc)
unsent opened connecting true e h = absurd (cc)
unsent over connecting true e h = absurd (cc)
unsent ph awaiting_decision true e h = absurd (cc)
unsent ph connected true e h = absurd (cc)
unsent ph closing true e h = absurd (cc)

-- Messages come in a session that is connected.
opened_of :
    (ph : Phase) (state : State) (close_sent : Bool)
    → transfers state close_sent ≡ true
    → fits ph state close_sent ≡ true
    → is_over ph ≡ false
    → (ph ≡ opened) × (next_phase opened message_came ≡ some opened)
unfolding next_phase
opened_of fresh state close_sent e h o = absurd (cc)
opened_of opened state close_sent e h o = (refl, refl)
opened_of over state close_sent e h o = absurd (cc)

not_over : (ph : Phase) → next_phase ph session_connected ≡ some opened → is_over ph ≡ false
unfolding next_phase
not_over fresh e = refl
not_over opened e = refl
not_over over e = absurd (cc)

pub and_left : (a b : Bool) → (a && b) ≡ true → a ≡ true
and_left true b e = refl
and_left false b e = absurd (cc)

not_any : (a b c : Bool) → (a || b || not c) ≡ false → (a ≡ false) × (b ≡ false) × (c ≡ true)
not_any false false true e = (refl, refl, refl)
not_any false false false e = absurd (cc)
not_any false true c e = absurd (cc)
not_any true b c e = absurd (cc)

module _ {W : Type 0} where
  pub set_connected-Follows :
      (ph : Phase) (x : Peer W × NetworkEngine)
      → x.0.ended ≡ false
      → is_connecting x.0.state ≡ true
      → IsSession ph x.0
      → Follows ph x (set_connected x)
  unfolding set_connected
  set_connected-Follows ph (p, k) live asks s =
      let next =
        fresh_of ph p.state p.close_sent asks
          (or_false p.ended (fits ph p.state p.close_sent) live s.shape) in
      (
        opened,
        one_event ph opened k _ _ refl next,
        record {
          told = sym (not_over ph next) ∙ s.told;
          shape = each p.ended p.close_sent (
              unsent ph p.state p.close_sent asks
                (or_false p.ended (fits ph p.state p.close_sent) live s.shape));
        },
      )
    where
      each :
          (ended close_sent : Bool)
          → close_sent ≡ false
          → (ended || fits opened connected close_sent) ≡ true
      each true close_sent e = refl
      each false true e = absurd (cc)
      each false false e = refl

  -- A peer of another name.
  with_name_lem :
      (a : Option Accept) (p : Peer W)
      → ((with_name a p).ended ≡ p.ended)
        × ((with_name a p).state ≡ p.state)
        × ((with_name a p).reported ≡ p.reported)
        × ((with_name a p).close_sent ≡ p.close_sent)
  with_name_lem none p = (refl, refl, refl, refl)
  with_name_lem (some a) p =
      if_cases
        (λ (q : Peer W).
          (q.ended ≡ p.ended)
          × (q.state ≡ p.state)
          × (q.reported ≡ p.reported)
          × (q.close_sent ≡ p.close_sent))
        (not (length a.name == 0) && leb (length a.name) max_display_name) _ _
        (λ e. (refl, refl, refl, refl)) (λ e. (refl, refl, refl, refl))

  named_connected :
      (m : DeliveredMessage) (ph : Phase) (x : Peer W × NetworkEngine)
      → x.0.ended ≡ false
      → is_connecting x.0.state ≡ true
      → IsSession ph x.0
      → Follows ph x (set_connected (with_name (decode_accept m.body) x.0, x.1))
  named_connected m ph x live asks s =
      let (ended, state, reported, sent) = with_name_lem (decode_accept m.body) x.0 in
      set_connected-Follows ph (with_name (decode_accept m.body) x.0, x.1) (ended ∙ live)
        (ap is_connecting state ∙ asks)
        (record { told = s.told ∙ sym reported; shape = rw (ended, state, sent) s.shape })

  on_control-Follows :
      (m : DeliveredMessage) (ph : Phase) (x : Peer W × NetworkEngine)
      → IsSession ph x.0
      → Follows ph x (on_control m x)
  unfolding on_control
  on_control-Follows m ph (p, k) s =
      if_cases (Follows ph (p, k)) p.ended _ _ (λ e. Follows-refl ph (p, k) s)
        (λ live.
          if_cases (Follows ph (p, k)) (m.tag == control_value Session.accept) _ _
            (λ e.
              if_cases (Follows ph (p, k)) (is_connecting p.state && p.initiator) _ _
                (λ asks.
                  named_connected m ph (p, k) live
                    (and_left (is_connecting p.state) p.initiator asks) s)
                (λ e. Follows-refl ph (p, k) s))
            (λ e.
              if_cases (Follows ph (p, k)) (m.tag == control_value Session.decline) _ _
                (λ e.
                  if_cases (Follows ph (p, k)) (is_connecting p.state && p.initiator) _ _
                    (λ asks. report-Follows_end (reason_of (decode_decline m.body)) ph (p, k) s)
                    (λ e. Follows-refl ph (p, k) s))
                (λ e.
                  if_cases (Follows ph (p, k)) (m.tag == control_value Session.close) _ _
                    (λ e. report-Follows_end remote_end ph (p, k) s)
                    (λ e. Follows-refl ph (p, k) s))))

  hand_over-Follows :
      (m : DeliveredMessage) (ph : Phase) (x : Peer W × NetworkEngine)
      → x.0.ended ≡ false
      → x.0.reported ≡ false
      → transfers_data x.0 ≡ true
      → IsSession ph x.0
      → Follows ph x (hand_over m x)
  hand_over-Follows m ph (p, k) live untold transfers s =
      let (is_open, next) =
        opened_of ph p.state p.close_sent transfers
          (or_false p.ended (fits ph p.state p.close_sent) live s.shape) (s.told ∙ untold) in
      subst
        (λ ph.
          next_phase ph message_came ≡ some ph
          → IsSession ph p
          → Follows ph (p, k) (hand_over m (p, k)))
        (sym is_open)
        (λ next s.
          if_cases (Follows opened (p, k)) (lane_eq m.lane media) _ _
            (λ e. (
              opened,
              one_event opened opened k _ _ refl next,
              record { told = s.told; shape = s.shape },
            ))
            (λ e. (opened, one_event opened opened k _ _ refl next, s)))
        (rw is_open next) s

  on_message-Follows :
      (m : DeliveredMessage) (ph : Phase) (x : Peer W × NetworkEngine)
      → IsSession ph x.0
      → Follows ph x (on_message m x)
  unfolding on_message
  on_message-Follows m ph (p, k) s =
      if_cases (Follows ph (p, k)) (lane_eq m.lane control) _ _
        (λ e. on_control-Follows m ph (p, k) s)
        (λ e.
          if_cases (Follows ph (p, k)) (p.ended || p.reported || not (transfers_data p)) _ _
            (λ e. Follows-refl ph (p, k) s)
            (λ e.
              let (live, untold, carries) = not_any p.ended p.reported (transfers_data p) e in
              hand_over-Follows m ph (p, k) live untold carries s))

  pub on_messages-Follows :
      (ms : List DeliveredMessage) (ph : Phase) (x : Peer W × NetworkEngine)
      → IsSession ph x.0
      → Follows ph x (on_messages ms x)
  unfolding on_messages
  on_messages-Follows [] ph (p, k) s = Follows-refl ph (p, k) s
  on_messages-Follows (m ∷ ms) ph (p, k) s =
      Follows-trans ph (p, k) (on_message m (p, k)) _ (on_message-Follows m ph (p, k) s)
        (λ ph' s'. on_messages-Follows ms ph' (on_message m (p, k)) s')
