-- ===== src/Engine/Advancing.antt =====
-- NetworkEngine.cpp: onControl, advance, the commands, and how a session starts.
use net_link.Common.{
  ℕ, ◌+◌, ◌==◌, if◌then◌else◌, Bool, true, false, ◌&&◌, ◌||◌, not, List, [], ◌∷◌, Option, none,
  some,
}
use net_link.RttEstimator.{milliseconds}
use net_link.Protocol.Flags.{Lane, control, reliable, bulk, media, lane_eq}
use net_link.Session.{
  ControlType, control_value, DeclineReason, reason_value, incompatible, Accept, Decline,
  encode_accept, decode_accept, encode_decline, decode_decline, encode_close, Hello, encode_hello,
}
use net_link.Session
use net_link.Socket.Address.{SocketAddress}
use net_link.Discovery.Logic.{PeerInfo}
use net_link.Mailbox.{Mail, pending, requested, publish_session, settle, take_mail}
use net_link.ReliableLink.{OutboundMessage, DeliveredMessage, ReliableLink}
use net_link.ReliableLink.Link.{take_delivered, has_pending}
use net_link.Engine.{
  NetworkEngine, Peer, State, awaiting_decision, closing, connected, connecting, connection_request,
  decision_timeout, emit, inbox_of, into_inbox, is_awaiting, is_connecting, is_past, local_end,
  lost_peer, message_came, new_event, none_waits, public_lane, reason_of, remote_end,
  transfers_data, with_name,
}
use net_link.Engine.Ending.{
  report, end_peer, set_connected, queue_control, send_accept, send_decline, send_close,
}

abbrev pub outbound : Option Mail → Option OutboundMessage
outbound none = none
outbound (some m) = some (record { tag = m.tag; body = m.body })

module _ {W : Type 0} where
  -- `onControl`; an unknown message is dropped.
  unfoldable pub on_control : DeliveredMessage → Peer W × NetworkEngine → Peer W × NetworkEngine
  unfolding set_connected report end_peer
  on_control m (p, k) =
      let asks = is_connecting p.state && p.initiator in
      if p.ended
      then (p, k)
      else if m.tag == control_value Session.accept
      then (if asks then set_connected (with_name (decode_accept m.body) p, k) else (p, k))
      else if m.tag == control_value Session.decline
      then (if asks then end_peer (report (reason_of (decode_decline m.body)) (p, k)) else (p, k))
      else if m.tag == control_value Session.close
      then end_peer (report remote_end (p, k))
      else (p, k)

  abbrev pub hand_over : DeliveredMessage → Peer W × NetworkEngine → Peer W × NetworkEngine
  hand_over m (p, k) =
      let event = record (new_event message_came p.info.id) { lane = public_lane m.lane } in
      let mail : Mail = record { tag = m.tag; body = m.body } in
      if lane_eq m.lane media
      then (
        record p { inbox = some (into_inbox mail (inbox_of p.inbox)) },
        emit (record event { in_inbox = true }) k,
      )
      else (p, emit (record event { message = some mail }) k)

  -- The loop of `advance` over the messages that the link delivered.
  unfoldable pub on_message : DeliveredMessage → Peer W × NetworkEngine → Peer W × NetworkEngine
  unfolding on_control
  on_message m (p, k) =
      if lane_eq m.lane control
      then on_control m (p, k)
      else if p.ended || p.reported || not (transfers_data p)
      then (p, k)
      else hand_over m (p, k)

  unfoldable pub on_messages :
      List DeliveredMessage → Peer W × NetworkEngine → Peer W × NetworkEngine
  unfolding on_message
  on_messages [] (p, k) = (p, k)
  on_messages (m ∷ ms) (p, k) = on_messages ms (on_message m (p, k))

  -- The end of `advance`, by the state.
  unfoldable pub settle_state : State → ℕ → Peer W × NetworkEngine → Peer W × NetworkEngine
  unfolding set_connected send_decline end_peer send_close report
  settle_state connecting now (p, k) =
      let control_settled = none_waits p.control && not (has_pending control p.link) in
      if not p.initiator && p.accept_sent && control_settled then set_connected (p, k) else (p, k)
  settle_state awaiting_decision now (p, k) =
      if is_past now p.state_deadline then send_decline now (p, k) else (p, k)
  settle_state connected now (p, k) = (p, k)
  settle_state closing now (p, k) =
      let control_settled = none_waits p.control && not (has_pending control p.link) in
      let expired = is_past now p.state_deadline in
      let all_sent = not (has_pending reliable p.link) && not (has_pending bulk p.link) in
      let (settled, mailbox) = settle p.info.id k.mailbox in
      let k' = if not expired && all_sent then record k { mailbox = mailbox } else k in
      if p.close_sent
      then (if control_settled || expired then end_peer (p, k) else (p, k))
      else if expired || (all_sent && settled)
      then send_close now (report local_end (p, k'))
      else (p, k')

  unfoldable pub advance : ℕ → Peer W × NetworkEngine → Peer W × NetworkEngine
  unfolding report end_peer on_messages settle_state
  advance now (p, k) =
      let (messages, link) = take_delivered p.link in
      let (p', k') = on_messages messages (record p { link = link }, k) in
      if p.ended
      then (p, k)
      else if p.link.failed
      then end_peer (report lost_peer (p, k))
      else if p'.ended
      then (p', k')
      else settle_state p'.state now (p', k')

  -- The commands `Accept` and `Decline` for a peer that is there.
  unfoldable pub accept_command : Peer W × NetworkEngine → Peer W × NetworkEngine
  unfolding send_accept
  accept_command (p, k) = if is_awaiting p.state then send_accept (p, k) else (p, k)

  unfoldable pub decline_command : ℕ → Peer W × NetworkEngine → Peer W × NetworkEngine
  unfolding send_decline
  decline_command now (p, k) = if is_awaiting p.state then send_decline now (p, k) else (p, k)

  -- `handleDatagram`, what opens a session before the packet goes to its link.
  unfoldable pub open_if_used : Lane → Peer W × NetworkEngine → Bool × Peer W × NetworkEngine
  unfolding set_connected
  open_if_used l (p, k) =
      let (p', k') = set_connected (p, k) in
      if p.ended
      then (false, p, k)
      else if lane_eq l control || transfers_data p
      then (true, p, k)
      else if not (is_connecting p.state) || p.initiator || not p.accept_sent
      then (false, p, k)
      else (true, p', k')

  -- `addPeer`; the link is given, supervised and paused as the code does it.
  abbrev pub new_peer : PeerInfo → SocketAddress → ReliableLink W → Peer W
  new_peer info address link = record {
    info = info;
    address = address;
    state = connecting;
    link = link;
    control = [];
    state_deadline = none;
    initiator = false;
    accept_sent = false;
    close_sent = false;
    announced = false;
    reported = false;
    ended = false;
    inbox = none;
  }

  -- `startSession`, with the peer that was added.
  unfoldable pub ask_peer : Hello → Peer W × NetworkEngine → Peer W × NetworkEngine
  ask_peer hello (p, k) = (
    queue_control Session.hello (encode_hello hello)
        (record p { initiator = true; announced = true }),
    record k { mailbox = publish_session p.info.id pending k.mailbox },
  )

  -- `onHello`, with the peer that was added.
  unfoldable pub answer_hello : Bool → Bool → ℕ → Peer W × NetworkEngine → Peer W × NetworkEngine
  unfolding send_accept
  answer_hello crossing auto_accept now (p, k) =
      if crossing || auto_accept
      then send_accept (
        record p { announced = crossing },
        record k { mailbox = publish_session p.info.id pending k.mailbox },
      )
      else (
        record p {
          state = awaiting_decision;
          state_deadline = some (now + milliseconds decision_timeout);
          announced = true;
        },
        emit (record (new_event connection_request p.info.id) { info = some p.info })
            (record k { mailbox = publish_session p.info.id requested k.mailbox }),
      )

  abbrev pub take_control :
      List OutboundMessage
      → Peer W × NetworkEngine
      → Option OutboundMessage × Peer W × NetworkEngine
  take_control [] (p, k) = (none, p, k)
  take_control (m ∷ ms) (p, k) = (some m, record p { control = ms }, k)

  -- `PeerSource::next`: what the link of the peer takes its messages from.
  unfoldable pub next_message :
      Lane → Peer W × NetworkEngine → Option OutboundMessage × Peer W × NetworkEngine
  next_message l (p, k) =
      let (mail, mailbox) = take_mail p.info.id l k.mailbox in
      if lane_eq l control
      then take_control p.control (p, k)
      else if not (transfers_data p)
      then (none, p, k)
      else (outbound mail, p, record k { mailbox = mailbox })
