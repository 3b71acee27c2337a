-- ===== src/ReliableLink/Link.antt =====
-- ReliableLink.cpp and .h: a new link, what is taken out of it, and what it says of itself.
use net_link.Common.{
  ℕ, ◌+◌, ◌%◌, ◌^◌, max, ◌==◌, ltb, if◌then◌else◌, Bool, true, false, ◌||◌, not, List, [], ◌∷◌,
  Option, none, some, pos,
}
use net_link.Double.{Double}
use net_link.Protocol.Flags.{Lane, control, reliable, bulk, media, lane_eq}
use net_link.SequenceBuffer.{find}
use net_link.Fragmentation.Message.{AssemblyBudget}
use net_link.Fragmentation.Media.{MediaAssembler}
use net_link.RttEstimator.{new_estimator, timeout_for, milliseconds}
use net_link.ReliableLink.{
  OutgoingDatagram, DeliveredMessage, InFlight, FragmentCursor, LinkStats, LinkTimings, SentRecord,
  Stream, ReliableLink, no_flight,
}
use net_link.ReliableLink.Losses.{initial_window}
use net_link.ReliableLink.Timers.{is_some_id}

abbrev pub no_datagram : OutgoingDatagram
no_datagram = record { head = []; message = none; offset = 0; length = 0; owned = [] }

abbrev pub no_stats : LinkStats
no_stats = record {
  data_sent = 0;
  retransmissions = 0;
  fast_retransmissions = 0;
  acks_sent = 0;
  pings_sent = 0;
  duplicates_received = 0;
  stale_dropped = 0;
  out_of_window_dropped = 0;
  delivered = 0;
  bytes_sent = 0;
  bytes_received = 0;
  media_sent = 0;
  media_received = 0;
  media_received_by_peer = 0;
  timer_work = 0;
}

-- `consider`: the earlier time.
abbrev pub consider : ℕ → Option ℕ → Option ℕ
consider t none = some t
consider t (some next) = if ltb t next then some t else some next

abbrev pub consider_some : Option ℕ → ℕ → Option ℕ → Option ℕ
consider_some none more next = next
consider_some (some t) more next = consider (t + more) next

abbrev pub consider_entry : Option InFlight → ℕ → Option ℕ → Option ℕ
consider_entry none timeout next = next
consider_entry (some e) timeout next = consider (e.sent_at + timeout) next

abbrev pub entry_at : ℕ → Option Stream → Option InFlight
entry_at seq none = none
entry_at seq (some s) = find no_flight seq s.in_flight

-- The probe of a lane that is paused.
abbrev pub consider_probe : Option Stream → Option ℕ → Option ℕ
consider_probe none next = next
consider_probe (some s) next = if s.peer_paused then consider_some s.probe_at 0 next else next

abbrev pub is_some_cursor : Option FragmentCursor → Bool
is_some_cursor none = false
is_some_cursor (some c) = true

abbrev pub is_pending : Option Stream → Bool
is_pending none = false
is_pending (some s) = not (s.in_flight.size == 0) || is_some_cursor s.cursor

abbrev pub in_flight_of : Option Stream → ℕ
in_flight_of none = 0
in_flight_of (some s) = s.in_flight.size

abbrev pub abandoned_of : Option MediaAssembler → ℕ
abandoned_of none = 0
abandoned_of (some a) = a.abandoned

module _ {W : Type 0} where
  unfoldable pub take_delivered : ReliableLink W → List DeliveredMessage × ReliableLink W
  take_delivered k = (k.delivered, record k { delivered = [] })

  -- The timeout of the oldest transmission, if it is the first record.
  unfoldable pub consider_sent : List SentRecord → ReliableLink W → Option ℕ → Option ℕ
  consider_sent [] k next = next
  consider_sent (r ∷ rest) k next =
      consider_entry (entry_at r.seq (k.streams r.lane))
        (timeout_for (pos k.timeouts_in_a_row) k.rtt) next

  unfoldable pub consider_received : Option ℕ → ReliableLink W → Option ℕ → Option ℕ
  consider_received none k next = next
  consider_received (some t) k next =
      let fails = consider (t + milliseconds k.timings.peer_timeout) next in
      if is_some_id k.remote_stream_id
      then consider (max t k.pinged_at + milliseconds k.timings.keep_alive) fails
      else fails

  pub next_deadline : ReliableLink W → Option ℕ
  unfolding consider_sent consider_received
  next_deadline k =
      let stalled =
        consider_some k.stalled_since (milliseconds k.timings.peer_timeout)
          (consider_sent k.sent k none) in
      let heard = consider_received k.last_received k stalled in
      consider_probe (k.streams bulk)
        (consider_probe (k.streams reliable) (consider_probe (k.streams control) heard))

  pub has_pending_reliable : ReliableLink W → Bool
  has_pending_reliable k =
      is_pending (k.streams control)
      || is_pending (k.streams reliable)
      || is_pending (k.streams bulk)

  pub has_pending : Lane → ReliableLink W → Bool
  has_pending l k =
      if lane_eq l media then is_some_cursor k.media_cursor else is_pending (k.streams l)

  pub in_flight_count : ReliableLink W → ℕ
  in_flight_count k =
      (in_flight_of (k.streams control)
        + in_flight_of (k.streams reliable)
        + in_flight_of (k.streams bulk))
      % 2 ^ 64

  pub media_incomplete : ReliableLink W → ℕ
  media_incomplete k = abandoned_of k.media_assembler

module _ {W : Type 0} ⦃d : Double W⦄ where
  -- `drawn` is what `makeStreamID` returns, a random number that is not 0.
  unfoldable pub new_link : LinkTimings → ℕ → ℕ → Option AssemblyBudget → ReliableLink W
  unfolding initial_window
  new_link timings id drawn budget = record {
    timings = timings;
    local_stream_id = if id == 0 then drawn else id;
    remote_stream_id = none;
    rtt = new_estimator timings.initial_rto timings.min_rto timings.max_rto;
    budget = budget;
    streams = λ l. none;
    media_cursor = none;
    next_media_seq = 1;
    media_assembler = none;
    media_received = 0;
    sent = [];
    transmissions = 0;
    largest_acked = 0;
    stalled_since = none;
    last_received = none;
    pinged_at = 0;
    timeouts_in_a_row = 0;
    congestion_window = initial_window timings;
    recovery_start = 0;
    paused = false;
    ack_serial = 0;
    ack_due = 0;
    ping_due = 0;
    pending_acks = [];
    peeked = no_datagram;
    delivered = [];
    failed = false;
    stats = no_stats;
  }
