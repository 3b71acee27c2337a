-- ===== src/Engine/Ending.antt =====
-- NetworkEngine.cpp: report, end, setConnected, and what a side sends: an Accept, a Decline or a Close.
use net_link.Common.{ℕ, ◌+◌, if◌then◌else◌, true, ◌||◌, not, List, [], ◌∷◌, ◌++◌, none, some}
use net_link.RttEstimator.{milliseconds}
use net_link.Session.{
  ControlType, control_value, DeclineReason, reason_value, incompatible, Accept, Decline,
  encode_accept, decode_accept, encode_decline, decode_decline, encode_close, Hello, encode_hello,
}
use net_link.Session
use net_link.Mailbox.{pending, open_session, close_session, publish_session}
use net_link.Engine.{
  DisconnectReason, NetworkEngine, Peer, State, awaiting_decision, close_linger, closing, connected,
  connecting, drain_timeout, emit, is_nobody, local_end, new_event, session_connected, session_over,
  shut_down, touch,
}

module _ {W : Type 0} where
  unfoldable pub report : DisconnectReason → Peer W × NetworkEngine → Peer W × NetworkEngine
  report reason (p, k) = if not p.announced || p.reported then (p, k) else (
    record p { reported = true },
    emit (record (new_event session_over p.info.id) { reason = reason }) k,
  )

  unfoldable pub end_peer : Peer W × NetworkEngine → Peer W × NetworkEngine
  end_peer (p, k) = if p.ended then (p, k) else (
    record p { ended = true },
    record k { mailbox = close_session p.info.id k.mailbox; ended = k.ended ++ (p.info.id ∷ []) },
  )

  unfoldable pub set_connected : Peer W × NetworkEngine → Peer W × NetworkEngine
  set_connected (p, k) = (
    record p { state = connected; announced = true; state_deadline = none },
    emit (record (new_event session_connected p.info.id) { info = some p.info })
        (record k { mailbox = open_session p.info.id k.mailbox }),
  )

  abbrev pub queue_control : ControlType → List ℕ → Peer W → Peer W
  queue_control type body p = record p {
    control = p.control ++ (record { tag = control_value type; body = body } ∷ []);
  }

  unfoldable pub send_accept : Peer W × NetworkEngine → Peer W × NetworkEngine
  send_accept (p, k) = (
    record (queue_control Session.accept (encode_accept (record { name = k.name })) p) {
      state = connecting;
      accept_sent = true;
      state_deadline = none;
    },
    touch p.info.id (record k { mailbox = publish_session p.info.id pending k.mailbox }),
  )

  unfoldable pub send_decline : ℕ → Peer W × NetworkEngine → Peer W × NetworkEngine
  unfolding report
  send_decline now (p, k) =
      let (p', k') = report local_end (
        queue_control Session.decline
            (encode_decline (record { reason = Session.declined; text = [] })) p,
        k,
      ) in
      (
        record p' {
          state = closing;
          close_sent = true;
          state_deadline = some (now + milliseconds close_linger);
        },
        touch p.info.id (record k' { mailbox = close_session p.info.id k'.mailbox }),
      )

  unfoldable pub send_close : ℕ → Peer W × NetworkEngine → Peer W × NetworkEngine
  unfolding end_peer
  send_close now (p, k) =
      let closed = record k { mailbox = close_session p.info.id k.mailbox } in
      if is_nobody p.link.remote_stream_id then end_peer (p, closed) else (
        record (queue_control Session.close (encode_close 0) p) {
          state = closing;
          close_sent = true;
          state_deadline = some (now + milliseconds close_linger);
        },
        touch p.info.id closed,
      )

  -- `endSession`, by the state.
  unfoldable pub end_in_state : State → ℕ → Peer W × NetworkEngine → Peer W × NetworkEngine
  unfolding send_decline send_close report
  end_in_state connected now (p, k) = (
    record p { state = closing; state_deadline = some (now + milliseconds drain_timeout) },
    touch p.info.id k,
  )
  end_in_state awaiting_decision now (p, k) = send_decline now (p, k)
  end_in_state connecting now (p, k) = send_close now (report local_end (p, k))
  end_in_state closing now (p, k) = (p, k)

  unfoldable pub end_session : ℕ → Peer W × NetworkEngine → Peer W × NetworkEngine
  unfolding end_in_state
  end_session now (p, k) = end_in_state p.state now (p, k)

  -- `beginShutdown`, for one peer.
  unfoldable pub shut_down_in_state : State → ℕ → Peer W × NetworkEngine → Peer W × NetworkEngine
  unfolding send_decline send_close
  shut_down_in_state awaiting_decision now (p, k) = send_decline now (p, k)
  shut_down_in_state connecting now (p, k) = if p.close_sent then (p, k) else send_close now (p, k)
  shut_down_in_state connected now (p, k) = if p.close_sent then (p, k) else send_close now (p, k)
  shut_down_in_state closing now (p, k) = if p.close_sent then (p, k) else send_close now (p, k)

  unfoldable pub shut_down_peer : ℕ → Peer W × NetworkEngine → Peer W × NetworkEngine
  unfolding shut_down_in_state report
  shut_down_peer now (p, k) = shut_down_in_state p.state now (report shut_down (p, k))
