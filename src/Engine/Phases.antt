-- ===== src/Engine/Phases.antt =====
-- NetworkEngine.cpp: what the application hears of a session, in which order.
use net_link.Common.{
  ◌≡◌, ◌⊎◌, inl, inr, refl, sym, ap, ◌∙◌, if◌then◌else◌, Bool, true, false, ◌||◌, ◌&&◌, not, List,
  [], ◌∷◌, ◌++◌, append-nil, append_assoc, Option, none, some,
}
use net_link.Engine.{
  Kind, peer_discovered, peer_lost, connection_request, session_connected, session_over,
  message_came, adapter_changed, EngineEvent, State, connecting, awaiting_decision, connected,
  closing, Peer, NetworkEngine, is_connecting, is_awaiting, transfers,
}

-- The application hears of a session that is connected, then its messages, then its end. A request
-- comes before.
pub data Phase : Type 0 where
  fresh opened over : Phase

unfoldable pub next_phase : Phase → Kind → Option Phase
next_phase fresh connection_request = some fresh
next_phase fresh session_connected = some opened
next_phase fresh session_over = some over
next_phase fresh message_came = none
next_phase fresh peer_discovered = none
next_phase fresh peer_lost = none
next_phase fresh adapter_changed = none
next_phase opened message_came = some opened
next_phase opened session_over = some over
next_phase opened connection_request = none
next_phase opened session_connected = none
next_phase opened peer_discovered = none
next_phase opened peer_lost = none
next_phase opened adapter_changed = none
next_phase over kind = none

pub and_on : Option Phase → (Phase → Option Phase) → Option Phase
and_on none f = none
and_on (some ph) f = f ph

pub replay : List EngineEvent → Phase → Option Phase
unfolding and_on
replay [] ph = some ph
replay (e ∷ es) ph = and_on (next_phase ph e.kind) (replay es)

abbrev pub is_over : Phase → Bool
is_over fresh = false
is_over opened = false
is_over over = true

abbrev pub is_closing : State → Bool
is_closing connecting = false
is_closing awaiting_decision = false
is_closing connected = false
is_closing closing = true

-- What the state of a peer says of its phase, unless the peer has ended. The goodbye is sent by a peer
-- that is closing.
abbrev pub fits : Phase → State → Bool → Bool
fits fresh state close_sent =
    not (transfers state close_sent) && (not close_sent || is_closing state)
fits opened state close_sent =
    not (is_connecting state) && not (is_awaiting state) && (not close_sent || is_closing state)
fits over connecting close_sent = false
fits over awaiting_decision close_sent = false
fits over connected close_sent = false
fits over closing close_sent = close_sent

pub record IsSession {W : Type 0} (ph : Phase) (p : Peer W) : Type 0 where
  pub told : is_over ph ≡ p.reported
  pub shape : (p.ended || fits ph p.state p.close_sent) ≡ true

pub record Moves (ph ph' : Phase) (k k' : NetworkEngine) : Type 0 where
  pub heard : List EngineEvent
  pub emitted : k'.events ≡ k.events ++ heard
  pub legal : replay heard ph ≡ some ph'

replay-append :
    (es es' : List EngineEvent) (ph : Phase)
    → replay (es ++ es') ph ≡ and_on (replay es ph) (replay es')
unfolding replay and_on
replay-append [] es' ph = refl
replay-append (e ∷ es) es' ph = go (next_phase ph e.kind) (replay-append es es')
  where
    go :
        (o : Option Phase)
        → ((ph' : Phase) → replay (es ++ es') ph' ≡ and_on (replay es ph') (replay es'))
        → and_on o (replay (es ++ es')) ≡ and_on (and_on o (replay es)) (replay es')
    go none h = refl
    go (some ph') h = h ph'

-- A test, by its cases.
pub if_cases :
    {A : Type 0} (P : A → Type 0) (c : Bool) (x y : A)
    → (c ≡ true → P x)
    → (c ≡ false → P y)
    → P (if c then x else y)
if_cases P true x y f g = f refl
if_cases P false x y f g = g refl

pub silent : (ph : Phase) (k k' : NetworkEngine) → k'.events ≡ k.events → Moves ph ph k k'
unfolding replay
silent ph k k' e = record { heard = []; emitted = e ∙ sym (append-nil k.events); legal = refl }

pub one_event :
    (ph ph' : Phase) (k k' : NetworkEngine) (event : EngineEvent)
    → k'.events ≡ k.events ++ (event ∷ [])
    → next_phase ph event.kind ≡ some ph'
    → Moves ph ph' k k'
unfolding replay and_on
one_event ph ph' k k' event e n = record { heard = event ∷ []; emitted = e; legal = rw n refl }

pub Moves-trans :
    (ph ph' ph'' : Phase) (k k' k'' : NetworkEngine)
    → Moves ph ph' k k'
    → Moves ph' ph'' k' k''
    → Moves ph ph'' k k''
unfolding and_on
Moves-trans ph ph' ph'' k k' k'' m m' = record {
  heard = m.heard ++ m'.heard;
  emitted =
      m'.emitted ∙ ap (λ es. es ++ m'.heard) m.emitted ∙ append_assoc k.events m.heard m'.heard;
  legal =
      replay-append m.heard m'.heard ph ∙ ap (λ o. and_on o (replay m'.heard)) m.legal ∙ m'.legal;
}

module _ {W : Type 0} where
  -- Nothing but legal events was emitted, and the peer is what they say.
  abbrev pub Follows : Phase → Peer W × NetworkEngine → Peer W × NetworkEngine → Type 0
  Follows ph x y = (ph' : Phase) × Moves ph ph' x.1 y.1 × IsSession ph' y.0

  pub Follows-trans :
      (ph : Phase) (x y z : Peer W × NetworkEngine)
      → Follows ph x y
      → ((ph' : Phase) → IsSession ph' y.0 → Follows ph' y z)
      → Follows ph x z
  Follows-trans ph x y z (ph', m, s) f =
      let (ph'', m', s') = f ph' s in (ph'', Moves-trans ph ph' ph'' x.1 y.1 z.1 m m', s')

  pub Follows-refl : (ph : Phase) (x : Peer W × NetworkEngine) → IsSession ph x.0 → Follows ph x x
  Follows-refl ph x s = (ph, silent ph x.1 x.1 refl, s)

  -- A peer that has ended, or whose goodbye is on its way, fits every phase.
  abbrev pub IsShut : Peer W → Type 0
  IsShut p = (p.ended ≡ true) ⊎ ((p.state ≡ closing) × (p.close_sent ≡ true))

  pub shut_fits :
      (ph : Phase) (p : Peer W) → IsShut p → (p.ended || fits ph p.state p.close_sent) ≡ true
  shut_fits ph p (inl e) = rw e refl
  shut_fits ph p (inr (state, sent)) = rw (state, sent) (each ph p.ended)
    where
      each : (ph : Phase) (ended : Bool) → (ended || fits ph closing true) ≡ true
      each fresh true = refl
      each fresh false = refl
      each opened true = refl
      each opened false = refl
      each over true = refl
      each over false = refl
