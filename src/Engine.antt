-- ===== src/Engine.antt =====
-- src/internal/Engine/NetworkEngine.h and .cpp: the session of one peer. NetworkEngine is the part of the
-- engine that these functions use. A function that the code calls with a reference to a peer gets the
-- peer next to the engine. The events of a session are kept here, as one list: takeBatch, which hands them over,
-- is left out. Times are microseconds, the constants milliseconds.
pub mod Ending
pub mod Advancing
pub mod Phases
pub mod Reports
pub mod Sessions
pub mod Settling
pub mod Steps
pub mod Lives
mod Tests
use net_link.Common.{
  ℕ, ◌+◌, ◌%◌, ◌^◌, ◌==◌, ltb, leb, if◌then◌else◌, Bool, true, false, ◌&&◌, ◌||◌, not, List, [],
  ◌∷◌, ◌++◌, length, Option, none, some,
}
use net_link.Double.{Double}
use net_link.RttEstimator.{milliseconds}
use net_link.Protocol.Flags.{Lane, control, reliable, bulk, media, lane_eq}
use net_link.Session.{
  ControlType, control_value, DeclineReason, reason_value, incompatible, Accept, Decline,
  encode_accept, decode_accept, encode_decline, decode_decline, encode_close, Hello, encode_hello,
}
use net_link.Session
use net_link.Socket.Address.{SocketAddress}
use net_link.Discovery.Logic.{PeerInfo, max_display_name}
use net_link.Mailbox.{
  Mailbox, Mail, pending, requested, media_queue_messages, open_session, close_session,
  publish_session, settle,
}
use net_link.ReliableLink.{OutboundMessage, DeliveredMessage, ReliableLink}
use net_link.ReliableLink.Link.{take_delivered, has_pending}

abbrev pub drain_timeout : ℕ
drain_timeout = 1000

abbrev pub decision_timeout : ℕ
decision_timeout = 30000

abbrev pub close_linger : ℕ
close_linger = 250

pub data DisconnectReason : Type 0 where
  local_end remote_end was_declined not_compatible lost_peer network_error shut_down :
      DisconnectReason

pub data Kind : Type 0 where
  peer_discovered peer_lost connection_request session_connected session_over message_came
        adapter_changed :
      Kind

-- A Media message waits in the inbox of its peer instead of in the event.
pub record EngineEvent : Type 0 where
  pub kind : Kind
  pub peer : ℕ
  pub info : Option PeerInfo
  pub reason : DisconnectReason
  pub lane : Lane
  pub message : Option Mail
  pub in_inbox : Bool

pub data State : Type 0 where
  connecting awaiting_decision connected closing : State

-- What the session of a peer needs; `stats` and the schedule are left out.
pub record Peer (W : Type 0) : Type 0 where
  pub info : PeerInfo
  pub address : SocketAddress
  pub state : State
  pub link : ReliableLink W
  pub control : List OutboundMessage
  pub state_deadline : Option ℕ
  pub initiator : Bool
  pub accept_sent : Bool
  pub close_sent : Bool
  pub announced : Bool
  pub reported : Bool
  pub ended : Bool
  pub inbox : Option (List Mail)

-- `name` is the one of mDiscovery.identity().
pub record NetworkEngine : Type 0 where
  pub name : List ℕ
  pub mailbox : Mailbox
  pub events : List EngineEvent
  pub touched : List ℕ
  pub ended : List ℕ

abbrev pub is_connecting : State → Bool
is_connecting connecting = true
is_connecting awaiting_decision = false
is_connecting connected = false
is_connecting closing = false

abbrev pub new_event : Kind → ℕ → EngineEvent
new_event kind peer = record {
  kind = kind;
  peer = peer;
  info = none;
  reason = local_end;
  lane = reliable;
  message = none;
  in_inbox = false;
}

abbrev pub emit : EngineEvent → NetworkEngine → NetworkEngine
emit event k = record k { events = k.events ++ (event ∷ []) }

abbrev pub touch : ℕ → NetworkEngine → NetworkEngine
touch id k = record k { touched = k.touched ++ (id ∷ []) }

abbrev pub public_lane : Lane → Lane
public_lane l = if lane_eq l bulk then bulk else if lane_eq l media then media else reliable

abbrev pub inbox_of : Option (List Mail) → List Mail
inbox_of none = []
inbox_of (some mails) = mails

-- The oldest message makes room.
abbrev pub without_oldest : List Mail → List Mail
without_oldest [] = []
without_oldest (m ∷ mails) = mails

abbrev pub into_inbox : Mail → List Mail → List Mail
into_inbox m mails =
    (if leb media_queue_messages (length mails) then without_oldest mails else mails) ++ (m ∷ [])

abbrev pub is_past : ℕ → Option ℕ → Bool
is_past now none = false
is_past now (some deadline) = leb deadline now

abbrev pub is_nobody : Option ℕ → Bool
is_nobody none = true
is_nobody (some id) = false

abbrev pub none_waits : List OutboundMessage → Bool
none_waits [] = true
none_waits (m ∷ ms) = false

abbrev pub reason_of : Option Decline → DisconnectReason
reason_of none = was_declined
reason_of (some d) =
    if reason_value d.reason == reason_value incompatible then not_compatible else was_declined

-- The name of an Accept is taken unless it is empty or too long.
abbrev pub with_name : {W : Type 0} → Option Accept → Peer W → Peer W
with_name none p = p
with_name (some a) p =
    if not (length a.name == 0) && leb (length a.name) max_display_name
    then record p { info = record p.info { display_name = a.name } }
    else p

abbrev pub transfers : State → Bool → Bool
transfers connecting close_sent = false
transfers awaiting_decision close_sent = false
transfers connected close_sent = true
transfers closing close_sent = not close_sent

abbrev pub is_awaiting : State → Bool
is_awaiting awaiting_decision = true
is_awaiting connecting = false
is_awaiting connected = false
is_awaiting closing = false

module _ {W : Type 0} where
  abbrev pub transfers_data : Peer W → Bool
  transfers_data p = transfers p.state p.close_sent
