-- ===== src/Mailbox.antt =====
-- src/internal/Channel/Mailbox.h: what applications hand to the thread of the engine. The mutex makes
-- each operation one step. A push that waits is two steps: `push`, and `push_woken` when the wait is
-- over. An operation that may ring the doorbell returns whether it does; `notify_all` has no effect on
-- the state.
pub mod Queues
pub mod Steps
pub mod Fifo
pub mod Flush
mod Tests
use net_link.Common.{
  ℕ, zero, suc, ◌+◌, ◌-◌, ◌%◌, ◌^◌, ◌==◌, ltb, leb, if◌then◌else◌, Bool, true, false, ◌&&◌, ◌||◌,
  not, List, [], ◌∷◌, ◌++◌, length, Option, none, some,
}
use net_link.Constants.{max_message_payload, max_media_payload}
use net_link.Protocol.Flags.{Lane, control, reliable, bulk, media, lane_eq}
use net_link.Discovery.Table.{lookup, put, keep_if}

pub data Push : Type 0 where
  queued full too_large closed stopped : Push

pub data Command : Type 0 where
  connect accept decline disconnect announce stop_announcing check_interface resume_receiving
        shutdown :
      Command

pub data SessionState : Type 0 where
  no_session requested pending connected : SessionState

pub record PostedCommand : Type 0 where
  pub command : Command
  pub peer : ℕ

pub record Mail : Type 0 where
  pub tag : ℕ
  pub body : List ℕ

pub record Work : Type 0 where
  pub commands : List PostedCommand
  pub ready : List ℕ

pub record LaneQueue : Type 0 where
  pub queue : List Mail
  pub bytes : ℕ

abbrev pub empty_lane : LaneQueue
empty_lane = record { queue = []; bytes = 0 }

pub record Peer : Type 0 where
  pub lanes : Lane → LaneQueue
  pub accepted : ℕ
  pub done : ℕ
  pub epoch : ℕ
  pub media_dropped : ℕ
  pub listed : Bool
  pub sealed : Bool

-- `Peer{}`.
abbrev pub new_peer : Peer
new_peer = record {
  lanes = λ l. empty_lane;
  accepted = 0;
  done = 0;
  epoch = 0;
  media_dropped = 0;
  listed = false;
  sealed = false;
}

pub record Mailbox : Type 0 where
  pub queue_bytes : ℕ
  pub peers : List (ℕ × Peer)
  pub commands : List PostedCommand
  pub ready : List ℕ
  pub epochs : ℕ
  pub signalled : Bool
  pub running : Bool
  pub sessions : List (ℕ × SessionState)

abbrev pub media_queue_messages : ℕ
media_queue_messages = 32

abbrev pub max_size : Lane → ℕ
max_size l = if lane_eq l media then max_media_payload else max_message_payload

-- `peer.lane(lane) = queue`.
abbrev pub with_lane : Lane → LaneQueue → Peer → Peer
with_lane l q p = record p { lanes = λ l'. if lane_eq l l' then q else p.lanes l' }

abbrev pub less : ℕ → ℕ → ℕ
less a b = (a + 2 ^ 64 - b) % 2 ^ 64

-- Media: the oldest message makes room; whether one did.
unfoldable pub make_room : Lane → List Mail → ℕ → LaneQueue × Bool
make_room l [] bytes = (record { queue = []; bytes = bytes }, false)
make_room l (m ∷ ms) bytes =
    if lane_eq l media && leb media_queue_messages (length (m ∷ ms))
    then (record { queue = ms; bytes = less bytes (length m.body) }, true)
    else (record { queue = m ∷ ms; bytes = bytes }, false)

unfoldable pub append_mail : Mail → LaneQueue → LaneQueue
append_mail m q = record { queue = q.queue ++ (m ∷ []); bytes = (q.bytes + length m.body) % 2 ^ 64 }

-- What `enqueue` makes of the peer.
unfoldable pub enqueue_peer : Lane → Mail → Peer → Peer
unfolding make_room append_mail
enqueue_peer l m p =
    let (room, dropped) = make_room l (p.lanes l).queue (p.lanes l).bytes in
    record (with_lane l (append_mail m room) p) {
      media_dropped = if dropped then (p.media_dropped + 1) % 2 ^ 64 else p.media_dropped;
      accepted = if lane_eq l media then p.accepted else (p.accepted + 1) % 2 ^ 64;
      listed = true;
    }

pub enqueue : ℕ → Peer → Lane → Mail → Mailbox → Bool × Mailbox
unfolding enqueue_peer
enqueue id p l m b = (
  not b.signalled,
  record b {
    peers = put id (enqueue_peer l m p) b.peers;
    ready = if p.listed then b.ready else b.ready ++ (id ∷ []);
    signalled = true;
  },
)

pub set_queue_bytes : ℕ → Mailbox → Mailbox
set_queue_bytes bytes b = record b { queue_bytes = bytes }

pub set_running : Bool → Mailbox → Mailbox
set_running running b = record b { running = running }

pub post : Command → ℕ → Mailbox → Bool × Mailbox
post command peer b = (
  not b.signalled,
  record b {
    commands = b.commands ++ (record { command = command; peer = peer } ∷ []);
    signalled = true;
  },
)

abbrev pub is_nil : List Mail → Bool
is_nil [] = true
is_nil (m ∷ ms) = false

unfoldable pub has_room : Lane → ℕ → ℕ → Peer → Bool
has_room l size queue_bytes p =
    is_nil (p.lanes l).queue || leb (((p.lanes l).bytes + size) % 2 ^ 64) queue_bytes

-- With the peer that is found; a push that has to wait returns the epoch of the session.
pub data Pushed : Type 0 where
  answered : Push → Bool → Pushed
  waits : ℕ → Pushed

unfoldable pub push_found : ℕ → Lane → Mail → Bool → Option Peer → Mailbox → Pushed × Mailbox
unfolding has_room enqueue
push_found id l m may_wait none b = (answered closed false, b)
push_found id l m may_wait (some p) b =
    let (ring, b') = enqueue id p l m b in
    if p.sealed
    then (answered closed false, b)
    else if not (lane_eq l media) && not (has_room l (length m.body) b.queue_bytes p)
    then (if may_wait then (waits p.epoch, b) else (answered full false, b))
    else (answered queued ring, b')

pub push : ℕ → Lane → Mail → Bool → Mailbox → Pushed × Mailbox
unfolding push_found
push id l m may_wait b =
    if ltb (max_size l) (length m.body)
    then (answered too_large false, b)
    else if not b.running
    then (answered stopped false, b)
    else push_found id l m may_wait (lookup id b.peers) b

-- When the wait is over, of a push that waits for the session of that epoch.
unfoldable pub push_woken_found : ℕ → Lane → Mail → ℕ → Option Peer → Mailbox → Pushed × Mailbox
unfolding has_room enqueue
push_woken_found id l m epoch none b = (answered closed false, b)
push_woken_found id l m epoch (some p) b =
    let (ring, b') = enqueue id p l m b in
    if not (p.epoch == epoch) || p.sealed
    then (answered closed false, b)
    else if not b.running
    then (answered stopped false, b)
    else if not (has_room l (length m.body) b.queue_bytes p)
    then (answered full false, b)
    else (answered queued ring, b')

pub push_woken : ℕ → Lane → Mail → ℕ → Mailbox → Pushed × Mailbox
unfolding push_woken_found
push_woken id l m epoch b = push_woken_found id l m epoch (lookup id b.peers) b

-- `pushToAll` from the given peers on: how many took it, and whether the doorbell rings.
unfoldable pub push_each : Lane → Mail → List (ℕ × Peer) → ℕ → Bool → Mailbox → ℕ × Bool × Mailbox
unfolding enqueue
push_each l m [] taken ring b = (taken, ring, b)
push_each l m ((id, p) ∷ rest) taken ring b =
    let (rang, b') = enqueue id p l m b in
    let is_left_out =
      p.sealed
      || (not (lane_eq l media)
          && not (is_nil (p.lanes l).queue)
          && ltb b.queue_bytes (((p.lanes l).bytes + length m.body) % 2 ^ 64)) in
    push_each l m rest (if is_left_out then taken else (taken + 1) % 2 ^ 64)
      (if is_left_out then ring else ring || rang) (if is_left_out then b else b')

pub push_to_all : Lane → Mail → Mailbox → ℕ × Bool × Mailbox
unfolding push_each
push_to_all l m b =
    if ltb (max_size l) (length m.body)
    then (0, false, b)
    else if not b.running
    then (0, false, b)
    else push_each l m b.peers 0 false b

-- What `flush` waits for: the epoch of the session, and the number of messages.
abbrev pub flush_target : Option Peer → Option (ℕ × ℕ)
flush_target none = none
flush_target (some p) = some (p.epoch, p.accepted)

abbrev pub is_flushed_found : ℕ → ℕ → Option Peer → Bool
is_flushed_found epoch target none = true
is_flushed_found epoch target (some p) = not (p.epoch == epoch) || leb target p.done

-- What `flush` returns when the wait is over.
abbrev pub is_flushed : ℕ → ℕ → ℕ → Mailbox → Bool
is_flushed id epoch target b = is_flushed_found epoch target (lookup id b.peers)

-- When the wait is over, apart from the timeout.
abbrev pub is_flush_over : ℕ → ℕ → ℕ → Mailbox → Bool
is_flush_over id epoch target b = not b.running || is_flushed id epoch target b

abbrev pub state_or_none : Option SessionState → SessionState
state_or_none none = no_session
state_or_none (some s) = s

abbrev pub session : ℕ → Mailbox → SessionState
session id b = state_or_none (lookup id b.sessions)

abbrev pub is_connected : SessionState → Bool
is_connected connected = true
is_connected other = false

abbrev pub connected_of : List (ℕ × SessionState) → List ℕ
connected_of [] = []
connected_of ((id, s) ∷ rest) = if is_connected s then id ∷ connected_of rest else connected_of rest

abbrev pub connected_peers : Mailbox → List ℕ
connected_peers b = connected_of b.sessions

-- The oldest message that waits in the lane.
unfoldable pub take_front : ℕ → Lane → Peer → List Mail → ℕ → Mailbox → Option Mail × Mailbox
take_front id l p [] bytes b = (none, b)
take_front id l p (m ∷ ms) bytes b = (
  some m,
  record b {
    peers =
        put id (with_lane l (record { queue = ms; bytes = less bytes (length m.body) }) p) b.peers;
  },
)

unfoldable pub take_found : ℕ → Lane → Option Peer → Mailbox → Option Mail × Mailbox
unfolding take_front
take_found id l none b = (none, b)
take_found id l (some p) b = take_front id l p (p.lanes l).queue (p.lanes l).bytes b

pub take_mail : ℕ → Lane → Mailbox → Option Mail × Mailbox
unfolding take_found
take_mail id l b = take_found id l (lookup id b.peers) b

unfoldable pub settle_found : ℕ → Option Peer → Mailbox → Bool × Mailbox
settle_found id none b = (true, b)
settle_found id (some p) b =
    if not (is_nil (p.lanes reliable).queue) || not (is_nil (p.lanes bulk).queue)
    then (false, b)
    else if p.done == p.accepted
    then (true, b)
    else (true, record b { peers = put id (record p { done = p.accepted }) b.peers })

pub settle : ℕ → Mailbox → Bool × Mailbox
unfolding settle_found
settle id b = settle_found id (lookup id b.peers) b

pub open_session : ℕ → Mailbox → Mailbox
open_session id b =
    let epoch = (b.epochs + 1) % 2 ^ 64 in
    record b {
      peers = put id (record new_peer { epoch = epoch }) b.peers;
      epochs = epoch;
      sessions = put id connected b.sessions;
    }

-- `std::erase`.
abbrev pub without : ℕ → List ℕ → List ℕ
without id [] = []
without id (x ∷ xs) = if x == id then without id xs else x ∷ without id xs

pub close_session : ℕ → Mailbox → Mailbox
close_session id b = record b {
  peers = keep_if (λ k p. not (k == id)) b.peers;
  sessions = keep_if (λ k s. not (k == id)) b.sessions;
  ready = without id b.ready;
}

unfoldable pub seal_found : ℕ → Option Peer → Mailbox → Mailbox
seal_found id none b = b
seal_found id (some p) b = record b {
  peers = put id (record (with_lane media empty_lane p) { sealed = true }) b.peers;
  sessions = put id pending b.sessions;
}

pub seal : ℕ → Mailbox → Mailbox
unfolding seal_found
seal id b = seal_found id (lookup id b.peers) b

pub publish_session : ℕ → SessionState → Mailbox → Mailbox
publish_session id s b = record b { sessions = put id s b.sessions }

-- `listed = false` of a peer that is there.
unfoldable pub unlist_one : ℕ → Option Peer → List (ℕ × Peer) → List (ℕ × Peer)
unlist_one id none peers = peers
unlist_one id (some p) peers = put id (record p { listed = false }) peers

unfoldable pub unlist : List ℕ → List (ℕ × Peer) → List (ℕ × Peer)
unfolding unlist_one
unlist [] peers = peers
unlist (id ∷ ids) peers = unlist ids (unlist_one id (lookup id peers) peers)

pub drain : Mailbox → Work × Mailbox
unfolding unlist
drain b = (
  record { commands = b.commands; ready = b.ready },
  record b { commands = []; ready = []; peers = unlist b.ready b.peers; signalled = false },
)
