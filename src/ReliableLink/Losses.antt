-- ===== src/ReliableLink/Losses.antt =====
-- ReliableLink.cpp, loss and congestion, without handleAck.
use net_link.Common.{
  ℕ, ◌+◌, ◌-◌, ◌/◌, ◌%◌, ◌^◌, max, ◌==◌, ltb, leb, if◌then◌else◌, Bool, true, false, ◌&&◌, ◌||◌,
  not, List, [], ◌∷◌, ◌++◌, Option, none, some,
}
use net_link.Constants.{
  min_congestion_window, max_congestion_window, fast_retransmit_threshold, min_pause_probe_interval,
}
use net_link.Double.{Double, max_of}
use net_link.Protocol.Flags.{Lane, control, reliable, bulk, lane_eq}
use net_link.SequenceBuffer.{find, insert}
use net_link.RttEstimator.{clamp, milliseconds, reset_estimator}
use net_link.ReliableLink.{
  InFlight, LinkTimings, SentRecord, Stream, ReliableLink, no_flight, with_stream, next,
}

abbrev pub shares_congestion_window : Lane → Bool
shares_congestion_window l = lane_eq l reliable || lane_eq l bulk

-- A decrement of a 64-bit counter.
abbrev pub prev : ℕ → ℕ
prev n = (n + 2 ^ 64 - 1) % 2 ^ 64

-- A lane that expects an acknowledgement.
abbrev pub awaits : Option Stream → Bool
awaits none = false
awaits (some s) = not s.peer_paused && not (s.in_flight.size == 0)

abbrev pub or_now : ℕ → Option ℕ → Option ℕ
or_now now none = some now
or_now now (some t) = some t

abbrev pub entry_in : SentRecord → Stream → Option InFlight → Option (Stream × InFlight)
entry_in r s none = none
entry_in r s (some e) = if not e.lost && e.transmission == r.transmission then some (s, e) else none

-- With the stream of the entry.
abbrev pub entry_on : SentRecord → Option Stream → Option (Stream × InFlight)
entry_on r none = none
entry_on r (some s) = entry_in r s (find no_flight r.seq s.in_flight)

module _ {W : Type 0} where
  abbrev pub is_waiting : ReliableLink W → Bool
  is_waiting k =
      awaits (k.streams control) || awaits (k.streams reliable) || awaits (k.streams bulk)

  unfoldable pub update_progress_clock : ℕ → Bool → ReliableLink W → ReliableLink W
  update_progress_clock now progress k = record k {
    stalled_since =
        if not (is_waiting k)
        then none
        else if progress
        then some now
        else or_now now k.stalled_since;
  }

  abbrev pub entry_of : SentRecord → ReliableLink W → Option (Stream × InFlight)
  entry_of r k = entry_on r (k.streams r.lane)

  unfoldable pub set_peer_paused :
      Lane → Bool → ℕ → Stream × ReliableLink W → Stream × ReliableLink W
  unfolding update_progress_clock
  set_peer_paused l paused now (s, k) =
      let interval = max (k.rtt.rto / 1000) min_pause_probe_interval in
      let s' = record s {
        peer_paused = paused;
        probe_at = if paused then some (now + milliseconds interval) else none;
        probe_interval = if paused then interval else s.probe_interval;
      } in
      if (s.peer_paused && paused) || (not s.peer_paused && not paused)
      then (s, k)
      else (s', update_progress_clock now false (with_stream l s' k))

module _ {W : Type 0} ⦃d : Double W⦄ where
  unfoldable pub initial_window : LinkTimings → W
  unfolding clamp
  initial_window t = d.of_ℕ (
      if ltb 0 t.fixed_cwnd
      then t.fixed_cwnd
      else clamp t.initial_cwnd min_congestion_window max_congestion_window)

  -- The reduction of the window, once for a round of losses.
  unfoldable pub reduce_window : Lane → InFlight → ReliableLink W → ReliableLink W
  reduce_window l e k =
      if not (shares_congestion_window l)
        || ltb 0 k.timings.fixed_cwnd
        || leb e.transmission k.recovery_start
      then k
      else record k {
        congestion_window =
            max_of (d.div k.congestion_window (d.of_ℕ 2)) (d.of_ℕ min_congestion_window);
        recovery_start = k.transmissions;
      }

  unfoldable pub mark_lost : SentRecord → Stream × InFlight → Bool → ReliableLink W → ReliableLink W
  unfolding reduce_window
  mark_lost r (s, e) timed_out k = reduce_window r.lane e (
      with_stream r.lane
        (record s {
          in_flight = insert no_flight r.seq (record e { lost = true }) s.in_flight;
          on_the_wire = prev s.on_the_wire;
          lost = s.lost ++ (r.seq ∷ []);
        })
        (record k {
          stats = record k.stats {
            fast_retransmissions =
                if timed_out
                then k.stats.fast_retransmissions
                else next k.stats.fast_retransmissions;
          };
        }))

  -- One round of the loop of `detectLosses`, with the entry of the record in front; `again` is what
  -- follows the round.
  unfoldable pub detect_one :
      (ReliableLink W → Bool × ReliableLink W)
      → SentRecord
      → List SentRecord
      → Option (Stream × InFlight)
      → ReliableLink W
      → Bool × ReliableLink W
  unfolding mark_lost
  detect_one again r rest none k = again k
  detect_one again r rest (some found) k =
      if ltb k.largest_acked ((r.transmission + fast_retransmit_threshold) % 2 ^ 64)
      then (false, record k { sent = r ∷ rest })
      else (true, (again (mark_lost r found false k)).1)

  unfoldable pub detect_rounds : List SentRecord → ReliableLink W → Bool × ReliableLink W
  unfolding detect_one
  detect_rounds [] k = (false, record k { sent = [] })
  detect_rounds (r ∷ rest) k = detect_one (detect_rounds rest) r rest (entry_of r k) k

  unfoldable pub detect_losses : ReliableLink W → Bool × ReliableLink W
  unfolding detect_rounds
  detect_losses k = detect_rounds k.sent k

  unfoldable pub reset_streams : ReliableLink W → ReliableLink W
  unfolding initial_window
  reset_streams k = record k {
    streams = λ l. none;
    media_cursor = none;
    media_assembler = none;
    next_media_seq = 1;
    media_received = 0;
    rtt = reset_estimator k.rtt;
    sent = [];
    congestion_window = initial_window k.timings;
    transmissions = 0;
    largest_acked = 0;
    recovery_start = 0;
    timeouts_in_a_row = 0;
    stalled_since = none;
    pending_acks = [];
    ack_due = 0;
    ping_due = 0;
  }

  unfoldable pub fail : ReliableLink W → ReliableLink W
  unfolding reset_streams
  fail k = record (reset_streams k) { last_received = none; failed = true }
