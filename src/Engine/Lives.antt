-- ===== src/Engine/Lives.antt =====
-- NetworkEngine.cpp: a session from its first to its last step.
use net_link.Common.{ℕ, ◌≡◌, refl, Bool, ◌||◌, List}
use net_link.Protocol.Flags.{Lane}
use net_link.Session.{Hello}
use net_link.Socket.Address.{SocketAddress}
use net_link.Discovery.Logic.{PeerInfo}
use net_link.ReliableLink.{ReliableLink, OutboundMessage}
use net_link.Mailbox.{publish_session, pending}
use net_link.Engine.{Peer, NetworkEngine}
use net_link.Engine.Ending.{end_session, shut_down_peer}
use net_link.Engine.Advancing.{
  new_peer, ask_peer, answer_hello, advance, accept_command, decline_command, open_if_used,
}
use net_link.Engine.Phases.{
  Phase, fresh, next_phase, IsSession, Moves, Follows, if_cases, silent, one_event, Moves-trans,
}
use net_link.Engine.Settling.{advance-Follows}
use net_link.Engine.Steps.{
  end_session-Follows, shut_down-Follows, send_accept-Follows, accept_command-Follows,
  decline_command-Follows, open_if_used-Follows,
}

module _ {W : Type 0} where
  -- What may happen to a peer that was added: both ways in which a session starts, each function that
  -- changes the session, in any order and at any time, and what the link, the source of its messages and
  -- other threads change in between.
  pub data Life (k0 : NetworkEngine) : Peer W × NetworkEngine → Type 0 where
    asked :
        (info : PeerInfo) (address : SocketAddress) (link : ReliableLink W) (hello : Hello)
        → Life k0 (ask_peer hello (new_peer info address link, k0))
    answered :
        (info : PeerInfo) (address : SocketAddress) (link : ReliableLink W)
        (crossing auto_accept : Bool) (now : ℕ)
        → Life k0 (answer_hello crossing auto_accept now (new_peer info address link, k0))
    advanced : (now : ℕ) (x : Peer W × NetworkEngine) → Life k0 x → Life k0 (advance now x)
    disconnected : (now : ℕ) (x : Peer W × NetworkEngine) → Life k0 x → Life k0 (end_session now x)
    stopped : (now : ℕ) (x : Peer W × NetworkEngine) → Life k0 x → Life k0 (shut_down_peer now x)
    accepted : (x : Peer W × NetworkEngine) → Life k0 x → Life k0 (accept_command x)
    refused : (now : ℕ) (x : Peer W × NetworkEngine) → Life k0 x → Life k0 (decline_command now x)
    used :
        (l : Lane) (x : Peer W × NetworkEngine)
        → Life k0 x
        → Life k0 ((open_if_used l x).1, (open_if_used l x).2)
    linked :
        (link : ReliableLink W) (control : List OutboundMessage) (x : Peer W × NetworkEngine)
        → Life k0 x
        → Life k0 (record x.0 { link = link; control = control }, x.1)
    meanwhile :
        (k : NetworkEngine) (x : Peer W × NetworkEngine)
        → k.events ≡ x.1.events
        → Life k0 x
        → Life k0 (x.0, k)

  -- What the application heard so far is legal, and the peer is what it says.
  abbrev pub IsHeard : NetworkEngine → Peer W × NetworkEngine → Type 0
  IsHeard k0 x = (ph : Phase) × Moves fresh ph k0 x.1 × IsSession ph x.0

  and_then-IsHeard :
      (k0 : NetworkEngine) (x y : Peer W × NetworkEngine)
      → IsHeard k0 x
      → ((ph : Phase) → IsSession ph x.0 → Follows ph x y)
      → IsHeard k0 y
  and_then-IsHeard k0 x y (ph, m, s) f =
      let (ph', m', s') = f ph s in (ph', Moves-trans fresh ph ph' k0 x.1 y.1 m m', s')

  from_start :
      (k0 k : NetworkEngine) (y : Peer W × NetworkEngine)
      → k.events ≡ k0.events
      → IsHeard k y
      → IsHeard k0 y
  from_start k0 k y e (ph, m, s) =
      (ph, Moves-trans fresh fresh ph k0 k y.1 (silent fresh k0 k e) m, s)

  started :
      (info : PeerInfo) (address : SocketAddress) (link : ReliableLink W)
      (crossing auto_accept : Bool) (now : ℕ) (k0 : NetworkEngine)
      → IsHeard k0 (answer_hello crossing auto_accept now (new_peer info address link, k0))
  unfolding answer_hello next_phase
  started info address link crossing auto_accept now k0 =
      if_cases (IsHeard k0) (crossing || auto_accept) _ _
        (λ e.
          let k = record k0 { mailbox = publish_session info.id pending k0.mailbox } in
          from_start k0 k _ refl (
            send_accept-Follows fresh
              (record (new_peer info address link) { announced = crossing }, k) refl refl))
        (λ e. (fresh, one_event fresh fresh k0 _ _ refl refl, record { told = refl; shape = refl }))

  -- The application hears of a session in order: requests, if it is asked, before anything else, then that
  -- the session is connected, once, then messages, and at last that it is over, once; a session that is
  -- never connected may be over as well, and nothing comes after that. This holds whatever packets come,
  -- the application asks for and the timers do, in any order. A session that was told to be over has ended
  -- or only waits for its goodbye to be acknowledged.
  pub Life-IsHeard : (k0 : NetworkEngine) (x : Peer W × NetworkEngine) → Life k0 x → IsHeard k0 x
  unfolding ask_peer
  Life-IsHeard k0 _ (asked info address link hello) =
      (fresh, silent fresh k0 _ refl, record { told = refl; shape = refl })
  Life-IsHeard k0 _ (answered info address link crossing auto_accept now) =
      started info address link crossing auto_accept now k0
  Life-IsHeard k0 _ (advanced now x l) =
      and_then-IsHeard k0 x _ (Life-IsHeard k0 x l) (λ ph s. advance-Follows now ph x s)
  Life-IsHeard k0 _ (disconnected now x l) =
      and_then-IsHeard k0 x _ (Life-IsHeard k0 x l) (λ ph s. end_session-Follows now ph x s)
  Life-IsHeard k0 _ (stopped now x l) =
      and_then-IsHeard k0 x _ (Life-IsHeard k0 x l) (λ ph s. shut_down-Follows now ph x s)
  Life-IsHeard k0 _ (accepted x l) =
      and_then-IsHeard k0 x _ (Life-IsHeard k0 x l) (λ ph s. accept_command-Follows ph x s)
  Life-IsHeard k0 _ (refused now x l) =
      and_then-IsHeard k0 x _ (Life-IsHeard k0 x l) (λ ph s. decline_command-Follows now ph x s)
  Life-IsHeard k0 _ (used lane x l) =
      and_then-IsHeard k0 x _ (Life-IsHeard k0 x l) (λ ph s. open_if_used-Follows lane ph x s)
  Life-IsHeard k0 _ (linked link control x l) =
      and_then-IsHeard k0 x _ (Life-IsHeard k0 x l)
        (λ ph s. (ph, silent ph x.1 x.1 refl, record { told = s.told; shape = s.shape }))
  Life-IsHeard k0 _ (meanwhile k x e l) =
      and_then-IsHeard k0 x _ (Life-IsHeard k0 x l) (λ ph s. (ph, silent ph x.1 k e, s))
