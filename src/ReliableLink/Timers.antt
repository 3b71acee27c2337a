-- ===== src/ReliableLink/Timers.antt =====
-- ReliableLink.cpp, timers, and onPacket, which hands every packet to its lane.
use net_link.Common.{
  ℕ, ◌+◌, ◌*◌, min, max, ◌==◌, ltb, leb, if◌then◌else◌, Bool, true, false, ◌&&◌, ◌||◌, not, List,
  [], ◌∷◌, bit_or, Option, none, some, pos,
}
use net_link.Double.{Double}
use net_link.Protocol.Flags.{
  data_kind, ack_kind, ping_kind, beacon_kind, PacketKind, Lane, control, reliable, bulk, media,
  lane_eq, kind, lane,
}
use net_link.Protocol.Header.{PacketHeader, DecodedPacket}
use net_link.RttEstimator.{timeout_for, milliseconds}
use net_link.ReliableLink.{InFlight, SentRecord, Stream, ReliableLink, bit_of, with_stream, next}
use net_link.ReliableLink.Receiving.{mark_ack_due, handle_data, handle_media}
use net_link.ReliableLink.Losses.{entry_of, mark_lost, fail}
use net_link.ReliableLink.Acks.{handle_ack}

abbrev pub max_backoff_steps : ℕ
max_backoff_steps = 16

-- `since && now - *since >= timeout`, of a timeout in milliseconds.
abbrev pub is_over : ℕ → Option ℕ → ℕ → Bool
is_over now none timeout = false
is_over now (some since) timeout = leb (since + milliseconds timeout) now

abbrev pub is_some_id : Option ℕ → Bool
is_some_id none = false
is_some_id (some id) = true

abbrev pub later_of : Option ℕ → ℕ → Option ℕ
later_of none t = none
later_of (some since) t = some (max since t)

-- The probe of a lane that the remote paused.
abbrev pub is_probe_due : ℕ → Option Stream → Bool
is_probe_due now none = false
is_probe_due now (some s) = s.peer_paused && is_over now s.probe_at 0

abbrev pub is_other_id : ℕ → Option ℕ → Bool
is_other_id id none = false
is_other_id id (some remote) = not (remote == id)

abbrev pub heard : ℕ → Option ℕ → Option ℕ
heard now none = none
heard now (some t) = some now

module _ {W : Type 0} where
  abbrev pub is_stale : PacketHeader → ReliableLink W → Bool
  is_stale h k =
      (not (h.dst_stream_id == 0) && not (h.dst_stream_id == k.local_stream_id))
      || is_other_id h.src_stream_id k.remote_stream_id

  abbrev pub is_dead : ℕ → ReliableLink W → Bool
  is_dead now k =
      is_over now k.stalled_since k.timings.peer_timeout
      || is_over now k.last_received k.timings.peer_timeout

  unfoldable pub ask_if_silent : ℕ → ReliableLink W → ReliableLink W
  ask_if_silent now k =
      if is_some_id k.remote_stream_id
        && is_over now (later_of k.last_received k.pinged_at) k.timings.keep_alive
      then record k { ping_due = bit_or k.ping_due (bit_of control); pinged_at = now }
      else k

  unfoldable pub probe_stream : Lane → ℕ → Option Stream → ReliableLink W → ReliableLink W
  probe_stream l now none k = k
  probe_stream l now (some s) k =
      let interval = min (s.probe_interval * 2) k.timings.max_rto in
      if is_probe_due now (some s)
      then with_stream l
          (record s { probe_interval = interval; probe_at = some (now + milliseconds interval) })
          (record k { ping_due = bit_or k.ping_due (bit_of l) })
      else k

  unfoldable pub probe : Lane → ℕ → ReliableLink W → ReliableLink W
  unfolding probe_stream
  probe l now k = probe_stream l now (k.streams l) k

  abbrev pub looked_at : ReliableLink W → ReliableLink W
  looked_at k = record k { stats = record k.stats { timer_work = next k.stats.timer_work } }

module _ {W : Type 0} ⦃d : Double W⦄ where
  -- One round of the loop of `onTimer`, with the entry of the record in front; `again` is what follows
  -- the round.
  unfoldable pub expire_one :
      ℕ
      → ℕ
      → (ReliableLink W → Bool × ReliableLink W)
      → SentRecord
      → List SentRecord
      → Option (Stream × InFlight)
      → ReliableLink W
      → Bool × ReliableLink W
  unfolding mark_lost
  expire_one now timeout again r rest none k = again (looked_at k)
  expire_one now timeout again r rest (some (s, e)) k =
      if ltb now (e.sent_at + timeout)
      then (false, record (looked_at k) { sent = r ∷ rest })
      else (true, (again (mark_lost r (s, e) true (looked_at k))).1)

  unfoldable pub expire_rounds : ℕ → ℕ → List SentRecord → ReliableLink W → Bool × ReliableLink W
  unfolding expire_one
  expire_rounds now timeout [] k = (false, record k { sent = [] })
  expire_rounds now timeout (r ∷ rest) k =
      expire_one now timeout (expire_rounds now timeout rest) r rest (entry_of r k) k

  unfoldable pub back_off_more : Bool → ReliableLink W → ReliableLink W
  back_off_more expired k =
      if expired && ltb k.timeouts_in_a_row max_backoff_steps
      then record k { timeouts_in_a_row = k.timeouts_in_a_row + 1 }
      else k

  -- The packets that are overdue, by the timeout of the time when the timer runs.
  unfoldable pub expire : ℕ → ReliableLink W → ReliableLink W
  unfolding expire_rounds back_off_more
  expire now k =
      let (expired, k') =
        expire_rounds now (timeout_for (pos k.timeouts_in_a_row) k.rtt) k.sent k in
      back_off_more expired k'

  unfoldable pub on_timer : ℕ → ReliableLink W → ReliableLink W
  unfolding fail ask_if_silent expire probe
  on_timer now k =
      if k.failed
      then k
      else if is_dead now k
      then fail k
      else probe bulk now
          (probe reliable now (probe control now (expire now (ask_if_silent now k))))

  -- An Ack for a lane that nothing was ever sent on is dropped.
  unfoldable pub ack_stream :
      Lane → PacketHeader → List ℕ → ℕ → Option Stream → ReliableLink W → ReliableLink W
  unfolding handle_ack
  ack_stream l h body now none k = k
  ack_stream l h body now (some s) k = handle_ack l h body now (s, k)

  unfoldable pub dispatch :
      PacketKind → Lane → PacketHeader → List ℕ → ℕ → ReliableLink W → ReliableLink W
  unfolding ack_stream
  dispatch data_kind l h body now k =
      if lane_eq l media then handle_media h body k else handle_data l h body k
  dispatch ack_kind l h body now k = ack_stream l h body now (k.streams l) k
  dispatch ping_kind l h body now k = mark_ack_due l k
  dispatch beacon_kind l h body now k = k

  unfoldable pub on_packet : DecodedPacket → ℕ → ReliableLink W → ReliableLink W
  unfolding dispatch
  on_packet p now k =
      let h = p.header in
      if k.failed
      then k
      else if is_stale h k
      then record k { stats = record k.stats { stale_dropped = next k.stats.stale_dropped } }
      else dispatch (kind h.flags) (lane h.flags) h p.body now (record k {
        remote_stream_id = some h.src_stream_id;
        last_received = heard now k.last_received;
      })
