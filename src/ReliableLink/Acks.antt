-- ===== src/ReliableLink/Acks.antt =====
-- ReliableLink.cpp, handleAck.
use net_link.Common.{
  ℕ, zero, suc, ◌+◌, ◌-◌, ◌%◌, ◌^◌, min, max, ◌==◌, ltb, leb, if◌then◌else◌, Bool, true, ◌&&◌, not,
  List, [], ◌∷◌, Option, none, some, ℤ, pos, negsuc,
}
use net_link.Constants.{max_congestion_window}
use net_link.Double.{Double, min_of}
use net_link.Protocol.Flags.{Lane, is_paused}
use net_link.Protocol.Header.{PacketHeader}
use net_link.Protocol.Ack.{SeqRange, AckBody, decode_ack, last}
use net_link.SequenceBuffer.{SequenceBuffer, contains, take_entry}
use net_link.RttEstimator.{RttEstimator, add_sample}
use net_link.ReliableLink.{InFlight, Stream, ReliableLink, no_flight, with_stream, next}
use net_link.ReliableLink.Losses.{
  shares_congestion_window, prev, update_progress_clock, set_peer_paused, detect_losses,
}

-- What `handleAck` counts: `sample` is when the packet of the sample was sent.
pub record Acked : Type 0 where
  pub acked : ℕ
  pub counted : ℕ
  pub sample : Option ℕ
  pub largest : ℕ

-- `static_cast<int32_t>(serial - before) > 0`.
abbrev pub is_later : ℕ → Option ℕ → Bool
is_later serial none = true
is_later serial (some before) =
    let d = (serial + 2 ^ 32 - before) % 2 ^ 32 in ltb 0 d && ltb d (2 ^ 31)

abbrev pub later_sample : ℕ → Option ℕ → Option ℕ
later_sample sent_at none = some sent_at
later_sample sent_at (some t) = if ltb t sent_at then some sent_at else some t

-- `release`: an entry that is acknowledged; `recovery` is `mRecoveryStart`.
unfoldable pub count_entry : ℕ → InFlight → Acked → Acked
count_entry recovery e a = record {
  acked = next a.acked;
  counted = if ltb recovery e.transmission then next a.counted else a.counted;
  sample = if e.transmissions == 1 then later_sample e.sent_at a.sample else a.sample;
  largest = max a.largest e.transmission;
}

unfoldable pub release_found :
    ℕ → Option InFlight × SequenceBuffer InFlight → Stream × Acked → Stream × Acked
unfolding count_entry
release_found recovery (none, b) (s, a) = (s, a)
release_found recovery (some e, b) (s, a) = (
  record s { in_flight = b; on_the_wire = if e.lost then s.on_the_wire else prev s.on_the_wire },
  count_entry recovery e a,
)

unfoldable pub release : ℕ → ℕ → Stream × Acked → Stream × Acked
unfolding release_found
release recovery seq (s, a) = release_found recovery (take_entry no_flight seq s.in_flight) (s, a)

-- `for (seq = from; seq <= to; ++seq)`, by the rounds.
abbrev pub rounds_of : ℕ → ℕ → ℕ
rounds_of from to = if leb from to then suc (to - from) else 0

unfoldable pub release_from : ℕ → ℕ → ℕ → Stream × Acked → Stream × Acked
unfolding release
release_from recovery zero seq (s, a) = (s, a)
release_from recovery (suc rounds) seq (s, a) =
    release_from recovery rounds (next seq) (release recovery seq (s, a))

unfoldable pub release_range : ℕ → ℕ → SeqRange → Stream × Acked → Stream × Acked
unfolding release_from last
release_range recovery last_sent r (s, a) =
    let from = max r.first s.send_base in
    if ltb last_sent r.first
    then (s, a)
    else release_from recovery (rounds_of from (min (last r) last_sent)) from (s, a)

unfoldable pub release_ranges : ℕ → ℕ → List SeqRange → Stream × Acked → Stream × Acked
unfolding release_range
release_ranges recovery last_sent [] (s, a) = (s, a)
release_ranges recovery last_sent (r ∷ rs) (s, a) =
    release_ranges recovery last_sent rs (release_range recovery last_sent r (s, a))

-- The loop that moves `sendBase`, by the rounds to `nextSendSeq`.
unfoldable pub advance_base : SequenceBuffer InFlight → ℕ → ℕ → ℕ
advance_base b zero base = base
advance_base b (suc rounds) base =
    let more = advance_base b rounds (next base) in if contains no_flight base b then base else more

-- All that an Ack releases, and the new `sendBase`.
unfoldable pub release_acked : ℕ → ℕ → List SeqRange → Stream × Acked → Stream × Acked
unfolding release_from release_ranges advance_base
release_acked recovery seq ranges (s, a) =
    let last_sent = prev s.next_send_seq in
    let (s', a') =
      release_ranges recovery last_sent ranges
        (release_from recovery (rounds_of s.send_base (min seq last_sent)) s.send_base (s, a)) in
    (
      record s' {
        send_base = advance_base s'.in_flight (s'.next_send_seq - s'.send_base) s'.send_base;
      },
      a',
    )

-- `now - sampleSentAt`.
abbrev pub elapsed : ℕ → ℕ → ℤ
elapsed now sent_at = if leb sent_at now then pos (now - sent_at) else negsuc (sent_at - now - 1)

abbrev pub with_sample : ℕ → Option ℕ → RttEstimator → RttEstimator
with_sample now none r = r
with_sample now (some t) r = add_sample (elapsed now t) r

module _ {W : Type 0} where
  -- The pause state, of an Ack that no later one has overtaken.
  unfoldable pub take_serial :
      Lane → PacketHeader → AckBody → ℕ → Stream × ReliableLink W → Stream × ReliableLink W
  unfolding set_peer_paused
  take_serial l h ack now (s, k) =
      if is_later ack.serial s.ack_serial
      then set_peer_paused l (is_paused h.flags) now (
        record s { ack_serial = some ack.serial },
        record k { stats = record k.stats { media_received_by_peer = ack.media_received } },
      )
      else (s, k)

  -- The link, once the entries are released and the stream is stored.
  unfoldable pub count_acked : Lane → ℕ → Stream × Acked → ReliableLink W → ReliableLink W
  count_acked l now (s, a) k = with_stream l s (record k {
    largest_acked = a.largest;
    rtt = if ltb 0 a.acked then with_sample now a.sample k.rtt else k.rtt;
    timeouts_in_a_row = if ltb 0 a.acked then 0 else k.timeouts_in_a_row;
  })

module _ {W : Type 0} ⦃d : Double W⦄ where
  unfoldable pub grow_window : Lane → Bool → ℕ → ReliableLink W → ReliableLink W
  grow_window l losses counted k =
      if shares_congestion_window l && not losses && ltb 0 counted && k.timings.fixed_cwnd == 0
      then record k {
        congestion_window =
            min_of (d.add k.congestion_window (d.div (d.of_ℕ counted) k.congestion_window))
              (d.of_ℕ max_congestion_window);
      }
      else k

  -- What follows the release.
  unfoldable pub settle_ack : Lane → ℕ → Stream × Acked → ReliableLink W → ReliableLink W
  unfolding count_acked detect_losses update_progress_clock grow_window
  settle_ack l now (s, a) k =
      let (losses, k') = detect_losses (count_acked l now (s, a) k) in
      grow_window l losses a.counted (update_progress_clock now (ltb 0 a.acked) k')

  unfoldable pub apply_ack :
      Lane → PacketHeader → AckBody → ℕ → Stream × ReliableLink W → ReliableLink W
  unfolding take_serial release_acked settle_ack
  apply_ack l h ack now (s, k) =
      let (s', k') = take_serial l h ack now (s, k) in
      settle_ack l now
        (release_acked k'.recovery_start h.seq ack.ranges
          (s', record { acked = 0; counted = 0; sample = none; largest = k'.largest_acked }))
        k'

  unfoldable pub handle_decoded_ack :
      Lane → PacketHeader → Option AckBody → ℕ → Stream × ReliableLink W → ReliableLink W
  unfolding apply_ack
  handle_decoded_ack l h none now (s, k) = k
  handle_decoded_ack l h (some ack) now (s, k) = apply_ack l h ack now (s, k)

  unfoldable pub handle_ack :
      Lane → PacketHeader → List ℕ → ℕ → Stream × ReliableLink W → ReliableLink W
  unfolding handle_decoded_ack
  handle_ack l h body now (s, k) = handle_decoded_ack l h (decode_ack body) now (s, k)
