-- ===== src/Protocol/Ack/Tests.antt =====
-- AckRanges.h: acknowledgements at work.
use net_link.Common.{ℕ, ◌≡◌, ◌↔◌, min, length, take, List, [], ◌∷◌, All, IsByte, some, arith}
use net_link.Protocol.ByteOrder.{write_uint16, write_uint32, write_uint64}
use net_link.Protocol.Ack.{
  AckBody, encode_ranges, encode_ack, decode_ack, max_ack_ranges, to_ranges,
}
use net_link.Protocol.Ack.Codec.{IsRange, decode-encode_ack, encode-decode_ack}
use net_link.Protocol.Ack.Sorting.{Elem}
use net_link.Protocol.Ack.Ranges.{InRanges, Ascending, to_ranges_lem}

-- Seqs 1, 2 and 9.
abbrev three_seqs : AckBody
three_seqs = record {
  serial = 3;
  media_received = 4;
  ranges = record { first = 1; count = 2 } ∷ record { first = 9; count = 1 } ∷ [];
}

three_seqs-IsRange : All IsRange three_seqs.ranges
three_seqs-IsRange = (
  record {
    first_pos = omega arith;
    count_pos = omega arith;
    count_fits = omega arith;
    no_wrap = omega arith;
  },
  (
    record {
      first_pos = omega arith;
      count_pos = omega arith;
      count_fits = omega arith;
      no_wrap = omega arith;
    },
    tt,
  ),
)

abbrev ack_bytes : List ℕ
ack_bytes = encode_ack three_seqs max_ack_ranges

ack_bytes-IsByte : All IsByte ack_bytes
unfolding encode_ack encode_ranges write_uint16 write_uint32 write_uint64
ack_bytes-IsByte = omega arith

decode-encode_ack_example :
    decode_ack (encode_ack three_seqs max_ack_ranges)
    ≡ some (record three_seqs {
      ranges = take (min (length three_seqs.ranges) max_ack_ranges) three_seqs.ranges;
    })
decode-encode_ack_example =
    decode-encode_ack three_seqs max_ack_ranges (omega arith) (omega arith) three_seqs-IsRange

encode-decode_ack_example :
    All IsRange three_seqs.ranges × (encode_ack three_seqs (length three_seqs.ranges) ≡ ack_bytes)
encode-decode_ack_example =
    encode-decode_ack ack_bytes ack_bytes-IsByte
      (decode-encode_ack three_seqs max_ack_ranges (omega arith) (omega arith) three_seqs-IsRange)

to_ranges_example :
    Ascending (to_ranges (5 ∷ 1 ∷ 2 ∷ 2 ∷ []))
    × ((t : ℕ) → InRanges t (to_ranges (5 ∷ 1 ∷ 2 ∷ 2 ∷ [])) ↔ Elem t (5 ∷ 1 ∷ 2 ∷ 2 ∷ []))
to_ranges_example = to_ranges_lem (5 ∷ 1 ∷ 2 ∷ 2 ∷ []) (omega arith)
