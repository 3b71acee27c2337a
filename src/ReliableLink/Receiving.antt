-- ===== src/ReliableLink/Receiving.antt =====
-- ReliableLink.cpp, receiving: acceptInOrder, drainReorderBuffer, retryRefused, handleData,
-- handleMedia.
use net_link.Common.{
  ℕ, zero, suc, ◌+◌, ◌%◌, ◌^◌, ◌==◌, ltb, leb, if◌then◌else◌, Bool, true, false, ◌||◌, not, List,
  [], ◌∷◌, ◌++◌, length, bit_or, Option, none, some,
}
use net_link.Protocol.Flags.{Lane, control, media, lane_eq}
use net_link.Protocol.Header.{PacketHeader}
use net_link.SequenceBuffer.{find, contains, insert, erase}
use net_link.Fragmentation.Message.{AssembledMessage, has_room_for, accept, fits_in}
use net_link.Fragmentation.Media.{MediaAssembler, new_assembler, accept_media}
use net_link.ReliableLink.{
  BufferedData, Stream, ReliableLink, no_data, bit_of, stream_for, with_stream, next,
}

abbrev pub media_or_new : Option MediaAssembler → MediaAssembler
media_or_new none = new_assembler
media_or_new (some a) = a

module _ {W : Type 0} where
  abbrev pub mark_ack_due : Lane → ReliableLink W → ReliableLink W
  mark_ack_due l k = record k { ack_due = bit_or k.ack_due (bit_of l) }

  -- `if (auto message = …)`: a message that is complete is delivered.
  unfoldable pub deliver : Lane → Option AssembledMessage → ReliableLink W → ReliableLink W
  deliver l none k = k
  deliver l (some m) k = record k {
    stats = record k.stats {
      bytes_received =
          (k.stats.bytes_received + (if lane_eq l control then 0 else length m.body)) % 2 ^ 64;
      delivered = next k.stats.delivered;
    };
    delivered = k.delivered ++ (record { lane = l; tag = m.tag; body = m.body } ∷ []);
  }

  unfoldable pub accept_in_order :
      Lane → PacketHeader → List ℕ → Stream × ReliableLink W → Bool × Stream × ReliableLink W
  accept_in_order l h body (s, k) =
      let (message, (budget, assembler)) = accept h body (k.budget, s.assembler) in
      if not (has_room_for h k.budget)
      then (false, record s { budget_paused = true; refused_length = h.total_length }, k)
      else (
        true,
        record s { assembler = assembler },
        deliver l message (record k { budget = budget }),
      )

  -- One round of the loop of `drainReorderBuffer`, with what is buffered under the next seq; `again` is
  -- what follows the round.
  unfoldable pub drain_one :
      (Stream × ReliableLink W → Stream × ReliableLink W)
      → Lane
      → Option BufferedData
      → Stream × ReliableLink W
      → Stream × ReliableLink W
  unfolding accept_in_order
  drain_one again l none (s, k) = (s, k)
  drain_one again l (some b) (s, k) =
      let (taken, s', k') = accept_in_order l b.header b.body (s, k) in
      if taken
      then again (
        record s' {
          reorder = (erase no_data s'.next_expected s'.reorder).1;
          next_expected = next s'.next_expected;
        },
        k',
      )
      else (s', k')

  -- The loop, by the rounds that it may take.
  unfoldable pub drain_rounds : ℕ → Lane → Stream × ReliableLink W → Stream × ReliableLink W
  unfolding drain_one
  drain_rounds zero l (s, k) = (s, k)
  drain_rounds (suc rounds) l (s, k) =
      drain_one (drain_rounds rounds l) l (find no_data s.next_expected s.reorder) (s, k)

  -- Each round takes an entry out, so one round more than there are entries is enough.
  unfoldable pub drain_reorder_buffer : Lane → Stream × ReliableLink W → Stream × ReliableLink W
  unfolding drain_rounds
  drain_reorder_buffer l (s, k) = drain_rounds (suc s.reorder.size) l (s, k)

  unfoldable pub retry_refused : Lane → Stream × ReliableLink W → Stream × ReliableLink W
  unfolding drain_reorder_buffer
  retry_refused l (s, k) =
      let (s', k') = drain_reorder_buffer l (record s { budget_paused = false }, k) in
      if not s.budget_paused || not (fits_in s.refused_length k.budget)
      then (s, k)
      else (s', mark_ack_due l k')

  -- What follows `acceptInOrder`.
  unfoldable pub taken_in_order : Lane → Bool × Stream × ReliableLink W → Stream × ReliableLink W
  unfolding drain_reorder_buffer
  taken_in_order l (taken, s, k) =
      if not taken
      then (s, k)
      else drain_reorder_buffer l (record s { next_expected = next s.next_expected }, k)

  -- `handleData` behind `retryRefused`.
  unfoldable pub place_data :
      Lane → PacketHeader → List ℕ → Stream × ReliableLink W → Stream × ReliableLink W
  unfolding accept_in_order taken_in_order
  place_data l h body (s, k) =
      let answered = mark_ack_due l k in
      if leb ((s.next_expected + length s.reorder.slots) % 2 ^ 64) h.seq
      then (
        s,
        record k {
          stats = record k.stats { out_of_window_dropped = next k.stats.out_of_window_dropped };
        },
      )
      else if ltb h.seq s.next_expected || contains no_data h.seq s.reorder
      then (
        s,
        record answered {
          stats = record k.stats { duplicates_received = next k.stats.duplicates_received };
        },
      )
      else if not (h.seq == s.next_expected)
      then (
        record s { reorder = insert no_data h.seq (record { header = h; body = body }) s.reorder },
        answered,
      )
      else taken_in_order l (accept_in_order l h body (s, answered))

  abbrev pub store : Lane → Stream × ReliableLink W → ReliableLink W
  store l (s, k) = with_stream l s k

  unfoldable pub handle_data : Lane → PacketHeader → List ℕ → ReliableLink W → ReliableLink W
  unfolding retry_refused place_data
  handle_data l h body k = store l (place_data l h body (retry_refused l (stream_for l k, k)))

  unfoldable pub handle_media : PacketHeader → List ℕ → ReliableLink W → ReliableLink W
  unfolding deliver
  handle_media h body k =
      let (message, a) = accept_media h body (media_or_new k.media_assembler) in
      deliver media message (record k {
        media_received = (k.media_received + 1) % 2 ^ 32;
        media_assembler = some a;
        stats = record k.stats { media_received = next k.stats.media_received };
      })
