-- ===== src/Fragmentation/Media/Tests.antt =====
-- MediaAssembler.cpp: the first of two fragments.
use net_link.Common.{ℕ, ◌+◌, ◌*◌, ◌≤◌, ◌≡◌, refl, true, false, List, length, replicate, some, arith}
use net_link.Protocol.Flags.{from_raw, has, is_fragmented, is_last_fragment}
use net_link.Protocol.Header.{PacketHeader, max_fragment_body}
use net_link.Fragmentation.Message.{AssembledMessage}
use net_link.Fragmentation.Media.{
  new_assembler, slot_at, slot_for, search_from, choose, take_free, is_refused, accept_media,
}
use net_link.Fragmentation.Media.Slots.{
  IsValid, copy-slot_for, accept_media-IsValid, new_assembler-IsValid,
}

-- On the media lane.
abbrev first_header : PacketHeader
first_header = record {
  flags = from_raw 0x1C;
  src_stream_id = 7;
  dst_stream_id = 9;
  seq = 11;
  frag_index = 0;
  frag_count = 2;
  tag = 5;
  total_length = 1171;
}

abbrev first_body : List ℕ
first_body = replicate 1168 7

first_kept : is_refused first_header first_body ≡ false
unfolding is_refused is_last_fragment has
first_kept = refl

first_part : is_fragmented first_header.flags ≡ true
unfolding is_fragmented has
first_part = refl

accept_media-IsValid_example :
    IsValid (accept_media first_header first_body new_assembler).1
    × ((m : AssembledMessage)
        → (accept_media first_header first_body new_assembler).0 ≡ some m
        → length m.body ≤ 2 * max_fragment_body)
accept_media-IsValid_example =
    accept_media-IsValid first_header first_body new_assembler new_assembler-IsValid (omega arith)
      first_part

-- The last free slot is taken.
slot_three : (slot_for 11 2 new_assembler).0 ≡ some 3
unfolding slot_for new_assembler search_from choose take_free
slot_three = refl

two_fragments : (slot_at (slot_for 11 2 new_assembler).1.slots 3).count ≡ 2
unfolding slot_for new_assembler search_from choose take_free
two_fragments = refl

copy-slot_for_example :
    0 * max_fragment_body + length first_body
    ≤ length (slot_at (slot_for 11 2 new_assembler).1.slots 3).body
copy-slot_for_example =
    copy-slot_for first_header first_body new_assembler 3 new_assembler-IsValid first_kept
      (omega arith) slot_three two_fragments
