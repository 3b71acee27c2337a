-- ===== src/ReliableLink/Sending.antt =====
-- ReliableLink.cpp, sending. `offered` is what `source.next(lane)` returns; a peek says whether it
-- called that.
use net_link.Common.{
  ℕ, ◌+◌, ◌-◌, ◌*◌, ◌%◌, ◌^◌, min, ◌==◌, ltb, leb, if◌then◌else◌, Bool, true, false, ◌&&◌, ◌||◌,
  not, List, [], ◌∷◌, ◌++◌, length, take, drop, Option, none, some,
}
use net_link.Double.{Double}
use net_link.Protocol.Flags.{
  PacketFlags, Lane, control, reliable, bulk, media, lane_eq, data_flags, set_fragment,
}
use net_link.Protocol.Header.{PacketHeader, encode_header, fragments_of, max_fragment_body}
use net_link.SequenceBuffer.{SequenceBuffer, find, insert}
use net_link.ReliableLink.{
  MessageBody, OutboundMessage, OutgoingDatagram, InFlight, FragmentCursor, Stream, ReliableLink,
  no_flight, no_header, new_stream, with_stream, next,
}
use net_link.ReliableLink.Losses.{shares_congestion_window, update_progress_clock}

abbrev pub or_zero : Option ℕ → ℕ
or_zero none = 0
or_zero (some n) = n

unfoldable pub make_datagram : PacketHeader → OutgoingDatagram
make_datagram h = record {
  head = encode_header h;
  message = none;
  offset = 0;
  length = 0;
  owned = [];
}

-- `body()` of a datagram.
abbrev pub slice : ℕ → ℕ → List ℕ → List ℕ
slice offset size bytes = take size (drop offset bytes)

abbrev pub body_with : OutgoingDatagram → Option MessageBody → List ℕ
body_with d none = d.owned
body_with d (some message) = slice d.offset d.length message

abbrev pub body_of : OutgoingDatagram → List ℕ
body_of d = body_with d d.message

abbrev pub is_lost : Option InFlight → Bool
is_lost none = false
is_lost (some e) = e.lost

-- The loop of `nextLost`: the entry, and the seqs that still wait.
unfoldable pub next_lost : SequenceBuffer InFlight → List ℕ → Option InFlight × List ℕ
next_lost b [] = (none, [])
next_lost b (seq ∷ rest) =
    if is_lost (find no_flight seq b) then (find no_flight seq b, seq ∷ rest) else next_lost b rest

-- `front` and `pop_front`.
abbrev pub front : List ℕ → ℕ
front [] = 0
front (x ∷ xs) = x

abbrev pub behind_front {ℓ} : {A : Type ℓ} → List A → List A
behind_front [] = []
behind_front (x ∷ xs) = xs

unfoldable pub cursor_for : OutboundMessage → FragmentCursor
cursor_for m = record { message = m; count = fragments_of (length m.body); next = 0 }

unfoldable pub fragment_at : FragmentCursor → InFlight
fragment_at c =
    let size = length c.message.body in
    let offset = c.next * max_fragment_body % 2 ^ 64 in
    record no_flight {
      message = c.message.body;
      offset = offset % 2 ^ 32;
      length = min max_fragment_body ((size + 2 ^ 64 - offset) % 2 ^ 64) % 2 ^ 32;
      tag = c.message.tag;
      total_length = size % 2 ^ 32;
      frag_index = c.next % 2 ^ 16;
      frag_count = c.count % 2 ^ 16;
    }

-- `if (++cursor->next >= cursor->count) cursor.reset()`.
abbrev pub advanced : FragmentCursor → Option FragmentCursor
advanced c = if leb c.count (next c.next) then none else some (record c { next = next c.next })

abbrev pub on_the_wire_of : Option Stream → ℕ
on_the_wire_of none = 0
on_the_wire_of (some s) = s.on_the_wire

module _ {W : Type 0} where
  abbrev pub supervise : ℕ → ReliableLink W → ReliableLink W
  supervise now k = record k { last_received = some now; pinged_at = now }

  unfoldable pub make_header : PacketFlags → ℕ → ReliableLink W → PacketHeader
  make_header flags seq k = record no_header {
    flags = flags;
    src_stream_id = k.local_stream_id;
    dst_stream_id = or_zero k.remote_stream_id;
    seq = seq;
  }

  unfoldable pub header_of : Lane → ℕ → InFlight → ReliableLink W → PacketHeader
  unfolding make_header
  header_of l seq e k =
      let h = record (make_header (data_flags l) seq k) { tag = e.tag } in
      if ltb 1 e.frag_count
      then record h {
        flags = set_fragment true (e.frag_index + 1 == e.frag_count) h.flags;
        frag_index = e.frag_index;
        frag_count = e.frag_count;
        total_length = e.total_length;
      }
      else h

  unfoldable pub offer :
      PacketHeader → InFlight → ReliableLink W → Option OutgoingDatagram × ReliableLink W
  unfolding make_datagram
  offer h e k =
      let datagram = record (make_datagram h) {
        message = some e.message;
        offset = e.offset;
        length = e.length;
      } in
      (some datagram, record k { peeked = datagram })

  -- With the message that is being cut: its next fragment.
  unfoldable pub offer_fragment :
      Lane → ℕ → FragmentCursor → ReliableLink W → Option OutgoingDatagram × ReliableLink W
  unfolding header_of offer fragment_at
  offer_fragment l seq c k = offer (header_of l seq (fragment_at c) k) (fragment_at c) k

  -- The end of `peek`; the stream is stored with the cursor.
  unfoldable pub peek_next :
      Lane
      → Option FragmentCursor
      → Stream
      → Option OutboundMessage
      → ReliableLink W
      → Bool × (Option OutgoingDatagram × ReliableLink W)
  unfolding offer_fragment cursor_for
  peek_next l (some c) s offered k = (false, offer_fragment l s.next_send_seq c k)
  peek_next l none s none k = (true, (none, k))
  peek_next l none s (some m) k = (
    true,
    offer_fragment l s.next_send_seq (cursor_for m)
        (with_stream l (record s { cursor = some (cursor_for m) }) k),
  )

  unfoldable pub peek_media :
      Option FragmentCursor
      → Option OutboundMessage
      → ReliableLink W
      → Bool × (Option OutgoingDatagram × ReliableLink W)
  unfolding offer_fragment cursor_for
  peek_media (some c) offered k = (false, offer_fragment media k.next_media_seq c k)
  peek_media none none k = (true, (none, k))
  peek_media none (some m) k = (
    true,
    offer_fragment media k.next_media_seq (cursor_for m)
        (record k { media_cursor = some (cursor_for m) }),
  )

  unfoldable pub transmit : Lane → ℕ → InFlight → ℕ → Stream × ReliableLink W → ReliableLink W
  unfolding update_progress_clock
  transmit l seq e now (s, k) =
      let transmission = next k.transmissions in
      let again = (e.transmissions + 1) % 2 ^ 16 in
      update_progress_clock now false (
        with_stream l
          (record s {
            on_the_wire = next s.on_the_wire;
            in_flight =
                insert no_flight seq
                  (record e {
                    lost = false;
                    sent_at = now;
                    transmission = transmission;
                    transmissions = again;
                  })
                  s.in_flight;
          })
          (record k {
            transmissions = transmission;
            sent = k.sent ++ (record { transmission = transmission; seq = seq; lane = l } ∷ []);
            stats = record k.stats {
              data_sent =
                  if e.transmissions == 0 then next k.stats.data_sent else k.stats.data_sent;
              retransmissions =
                  if e.transmissions == 0
                  then k.stats.retransmissions
                  else next k.stats.retransmissions;
              bytes_sent =
                  if again == 1 && not (lane_eq l control)
                  then (k.stats.bytes_sent + e.length) % 2 ^ 64
                  else k.stats.bytes_sent;
            };
          }))

  -- `commit` of an acknowledged lane behind the retransmissions.
  unfoldable pub commit_next :
      Lane → Option FragmentCursor → ℕ → Stream × ReliableLink W → ReliableLink W
  unfolding transmit fragment_at
  commit_next l none now (s, k) = with_stream l s k
  commit_next l (some c) now (s, k) =
      transmit l s.next_send_seq (fragment_at c) now
        (record s { next_send_seq = next s.next_send_seq; cursor = advanced c }, k)

  unfoldable pub commit_lost : Lane → Option InFlight → ℕ → Stream × ReliableLink W → ReliableLink W
  unfolding transmit commit_next
  commit_lost l (some e) now (s, k) =
      transmit l (front s.lost) e now (record s { lost = behind_front s.lost }, k)
  commit_lost l none now (s, k) = commit_next l s.cursor now (s, k)

  unfoldable pub commit_stream : Lane → Option Stream → ℕ → ReliableLink W → ReliableLink W
  unfolding next_lost commit_lost
  commit_stream l none now k = k
  commit_stream l (some s) now k =
      let (lost, waiting) = next_lost s.in_flight s.lost in
      commit_lost l lost now (record s { lost = waiting }, k)

  unfoldable pub commit_media : Option FragmentCursor → ReliableLink W → ReliableLink W
  commit_media none k = k
  commit_media (some c) k = record k {
    next_media_seq = next k.next_media_seq;
    media_cursor = advanced c;
    stats = record k.stats {
      media_sent = next k.stats.media_sent;
      bytes_sent = (k.stats.bytes_sent + k.peeked.length) % 2 ^ 64;
    };
  }

  unfoldable pub commit : Lane → ℕ → ReliableLink W → ReliableLink W
  unfolding commit_stream commit_media
  commit l now k =
      if lane_eq l media then commit_media k.media_cursor k else commit_stream l (k.streams l) now k

module _ {W : Type 0} ⦃d : Double W⦄ where
  unfoldable pub congestion_window_open : Lane → ReliableLink W → Bool
  congestion_window_open l k =
      not (shares_congestion_window l)
      || ltb ((on_the_wire_of (k.streams reliable) + on_the_wire_of (k.streams bulk)) % 2 ^ 64)
          (d.floor k.congestion_window)

  -- `peek` with what `nextLost` found; the stream is stored without the seqs that it dropped.
  unfoldable pub peek_found :
      Lane
      → Option InFlight
      → Stream
      → Option OutboundMessage
      → ReliableLink W
      → Bool × (Option OutgoingDatagram × ReliableLink W)
  unfolding congestion_window_open header_of offer peek_next
  peek_found l (some e) s offered k =
      if s.peer_paused || not (congestion_window_open l k)
      then (false, (none, k))
      else (false, offer (header_of l (front s.lost) e k) e k)
  peek_found l none s offered k =
      if leb (length s.in_flight.slots) ((s.next_send_seq + 2 ^ 64 - s.send_base) % 2 ^ 64)
      then (false, (none, k))
      else if s.peer_paused || not (congestion_window_open l k)
      then (false, (none, k))
      else peek_next l s.cursor s offered k

  unfoldable pub peek_stream :
      Lane
      → Option Stream
      → Option OutboundMessage
      → ReliableLink W
      → Bool × (Option OutgoingDatagram × ReliableLink W)
  unfolding next_lost peek_found
  peek_stream l none offered k =
      if not (congestion_window_open l k)
      then (false, (none, k))
      else peek_next l none (new_stream l) offered k
  peek_stream l (some s) offered k =
      let (lost, waiting) = next_lost s.in_flight s.lost in
      let s' = record s { lost = waiting } in peek_found l lost s' offered (with_stream l s' k)

  unfoldable pub peek :
      Lane
      → Option OutboundMessage
      → ReliableLink W
      → Bool × (Option OutgoingDatagram × ReliableLink W)
  unfolding peek_media peek_stream
  peek l offered k =
      if k.failed
      then (false, (none, k))
      else if lane_eq l media
      then peek_media k.media_cursor offered k
      else peek_stream l (k.streams l) offered k
