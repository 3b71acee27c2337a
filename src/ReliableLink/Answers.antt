-- ===== src/ReliableLink/Answers.antt =====
-- ReliableLink.cpp: the Acks and Pings of a link, makeAck, peekAck, commitAck and setPaused.
use net_link.Common.{
  ℕ, ◌+◌, ◌%◌, ◌^◌, ◌==◌, if◌then◌else◌, Bool, true, false, ◌&&◌, ◌||◌, not, List, [], ◌∷◌, ◌++◌,
  bit_and, Option, none, some,
}
use net_link.Protocol.Flags.{Lane, control, reliable, bulk, lane_eq, ack_flags, ping_flags}
use net_link.Protocol.Ack.{SeqRange, AckBody, encode_ack, to_ranges, max_ack_ranges}
use net_link.SequenceBuffer.{for_each}
use net_link.ReliableLink.{
  OutgoingDatagram, Stream, ReliableLink, no_data, bit_of, with_stream, next,
}
use net_link.ReliableLink.Receiving.{retry_refused, mark_ack_due}
use net_link.ReliableLink.Losses.{prev}
use net_link.ReliableLink.Sending.{make_datagram, make_header, behind_front}

-- The seqs that wait behind a gap; `forEach` leaves the buffer as it is.
unfoldable pub waiting_seqs : Stream → List ℕ
waiting_seqs s = (for_each no_data (λ seq b acc. (true, b, acc ++ (seq ∷ []))) [] s.reorder).1

-- What an Ack says of the stream.
abbrev pub ranges_of : Option Stream → List SeqRange
ranges_of none = []
ranges_of (some s) = if s.reorder.size == 0 then [] else to_ranges (waiting_seqs s)

abbrev pub last_in_order : Option Stream → ℕ
last_in_order none = 0
last_in_order (some s) = prev s.next_expected

abbrev pub is_budget_paused : Option Stream → Bool
is_budget_paused none = false
is_budget_paused (some s) = s.budget_paused

abbrev pub head_of : List OutgoingDatagram → Option OutgoingDatagram
head_of [] = none
head_of (x ∷ xs) = some x

abbrev pub is_empty : List OutgoingDatagram → Bool
is_empty [] = true
is_empty (x ∷ xs) = false

-- The lanes of the bits.
abbrev pub is_due : Lane → ℕ → Bool
is_due l bits = not (bit_and bits (bit_of l) == 0)

abbrev pub same : Bool → Bool → Bool
same a b = (a && b) || (not a && not b)

module _ {W : Type 0} where
  unfoldable pub retry_stream : Lane → Option Stream → ReliableLink W → ReliableLink W
  unfolding retry_refused
  retry_stream l none k = k
  retry_stream l (some s) k = let (s', k') = retry_refused l (s, k) in with_stream l s' k'

  -- `makeAck` behind `retryRefused`.
  unfoldable pub build_ack : Lane → ReliableLink W → OutgoingDatagram × ReliableLink W
  unfolding make_datagram make_header waiting_seqs
  build_ack l k =
      let stream = k.streams l in
      let serial = (k.ack_serial + 1) % 2 ^ 32 in
      let ack : AckBody = record {
        serial = serial;
        media_received = k.media_received;
        ranges = ranges_of stream;
      } in
      let is_paused = (k.paused && not (lane_eq l control)) || is_budget_paused stream in
      (
        record (make_datagram (make_header (ack_flags l is_paused) (last_in_order stream) k)) {
          owned = encode_ack ack max_ack_ranges;
        },
        record k {
          ack_serial = serial;
          stats = record k.stats { acks_sent = next k.stats.acks_sent };
        },
      )

  unfoldable pub make_ack : Lane → ReliableLink W → OutgoingDatagram × ReliableLink W
  unfolding retry_stream build_ack
  make_ack l k = build_ack l (retry_stream l (k.streams l) k)

  abbrev pub pend : OutgoingDatagram → ReliableLink W → ReliableLink W
  pend datagram k = record k { pending_acks = k.pending_acks ++ (datagram ∷ []) }

  -- One round of the loop of `peekAck`: the Ack and the Ping of a lane.
  unfoldable pub answer : Lane → ReliableLink W → ReliableLink W
  unfolding make_ack make_datagram make_header
  answer l k =
      let (ack, acked) = make_ack l k in
      let k' = if is_due l k.ack_due then pend ack acked else k in
      if is_due l k'.ping_due
      then pend (make_datagram (make_header (ping_flags l) 0 k'))
          (record k' { stats = record k'.stats { pings_sent = next k'.stats.pings_sent } })
      else k'

  unfoldable pub answer_all : ReliableLink W → ReliableLink W
  unfolding answer
  answer_all k = record (answer bulk (answer reliable (answer control k))) {
    ack_due = 0;
    ping_due = 0;
  }

  unfoldable pub peek_ack : ReliableLink W → Option OutgoingDatagram × ReliableLink W
  unfolding answer_all
  peek_ack k =
      let k' = if is_empty k.pending_acks then answer_all k else k in
      if k.failed then (none, k) else (head_of k'.pending_acks, k')

  unfoldable pub commit_ack : ReliableLink W → ReliableLink W
  commit_ack k = record k { pending_acks = behind_front k.pending_acks }

  abbrev pub due_if : Lane → Option Stream → ReliableLink W → ReliableLink W
  due_if l none k = k
  due_if l (some s) k = mark_ack_due l k

  unfoldable pub set_paused : Bool → ReliableLink W → ReliableLink W
  set_paused paused k =
      if same k.paused paused
      then k
      else due_if bulk (k.streams bulk)
          (due_if reliable (k.streams reliable) (record k { paused = paused }))
