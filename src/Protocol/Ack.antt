-- ===== src/Protocol/Ack.antt =====
-- src/internal/Channel/Protocol/AckRanges.h: the body of an Ack.
pub mod Codec
pub mod Sorting
pub mod Ranges
mod Tests
use net_link.Common.{
  ℕ, zero, suc, ◌+◌, ◌-◌, ◌/◌, ◌%◌, ◌^◌, min, ◌==◌, ltb, leb, if◌then◌else◌, Bool, true, false,
  ◌&&◌, ◌||◌, not, List, [], ◌∷◌, ◌++◌, length, take, drop, Option, none, some, ◌>>=◌,
}
use net_link.Constants.{max_datagram_size}
use net_link.Protocol.ByteOrder.{
  write_uint16, write_uint32, write_uint64, read_uint16, read_uint32, read_uint64,
}
use net_link.Protocol.Header.{base_header_size}

abbrev pub ack_fields_size : ℕ
ack_fields_size = 8

abbrev pub seq_range_size : ℕ
seq_range_size = 10

-- Ranges that fit into one Ack (`ReliableLink::MaxAckRanges`).
abbrev pub max_ack_ranges : ℕ
max_ack_ranges = (max_datagram_size - base_header_size - ack_fields_size) / seq_range_size

pub record SeqRange : Type 0 where
  pub first : ℕ
  pub count : ℕ

-- In uint64_t arithmetic.
unfoldable pub last : SeqRange → ℕ
last r = (r.first + r.count + 2 ^ 64 - 1) % 2 ^ 64

pub record AckBody : Type 0 where
  pub serial : ℕ
  pub media_received : ℕ
  pub ranges : List SeqRange

encode_ranges : List SeqRange → List ℕ
encode_ranges [] = []
encode_ranges (r ∷ rs) = (write_uint64 r.first ++ write_uint16 r.count) ++ encode_ranges rs

pub encode_ack : AckBody → ℕ → List ℕ
unfolding encode_ranges
encode_ack ack max_ranges =
    let count = min (length ack.ranges) max_ranges in
    write_uint32 ack.serial
    ++ (write_uint32 ack.media_received ++ encode_ranges (take count ack.ranges))

-- The loop over the ranges: its rounds, and the body from `offset` on.
decode_ranges : ℕ → List ℕ → Option (List SeqRange)
unfolding last
decode_ranges zero from = some []
decode_ranges (suc rounds) from =
    let range : SeqRange = record { first = read_uint64 from; count = read_uint16 (drop 8 from) } in
    let more = decode_ranges rounds (drop seq_range_size from) in
    if range.count == 0 || range.first == 0 || ltb (last range) range.first
    then none
    else more >>= λ ranges. some (range ∷ ranges)

pub decode_ack : List ℕ → Option AckBody
decode_ack body =
    if ltb (length body) ack_fields_size
      || not ((length body - ack_fields_size) % seq_range_size == 0)
    then none
    else do
      ranges ←
          decode_ranges ((length body - ack_fields_size) / seq_range_size)
            (drop ack_fields_size body)
      some (record {
        serial = read_uint32 body;
        media_received = read_uint32 (drop 4 body);
        ranges = ranges;
      })

pub is_sorted : List ℕ → Bool
is_sorted [] = true
is_sorted (x ∷ []) = true
is_sorted (x ∷ y ∷ xs) = leb x y && is_sorted (y ∷ xs)

-- `std::ranges::sort`.
insert_sorted : ℕ → List ℕ → List ℕ
insert_sorted x [] = x ∷ []
insert_sorted x (y ∷ ys) = if leb x y then x ∷ y ∷ ys else y ∷ insert_sorted x ys

pub sort : List ℕ → List ℕ
unfolding insert_sorted
sort [] = []
sort (x ∷ xs) = insert_sorted x (sort xs)

-- One round of the loop of `toRanges`: `ranges.back()` is the end of the list.
add_seq : List SeqRange → ℕ → List SeqRange
unfolding last
add_seq [] seq = record { first = seq; count = 1 } ∷ []
add_seq (r ∷ []) seq =
    if leb seq (last r)
    then r ∷ []
    else if seq == (last r + 1) % 2 ^ 64 && ltb r.count (2 ^ 16 - 1)
    then record r { count = r.count + 1 } ∷ []
    else r ∷ record { first = seq; count = 1 } ∷ []
add_seq (r ∷ r' ∷ rs) seq = r ∷ add_seq (r' ∷ rs) seq

add_seqs : List SeqRange → List ℕ → List SeqRange
unfolding add_seq
add_seqs ranges [] = ranges
add_seqs ranges (seq ∷ seqs) = add_seqs (add_seq ranges seq) seqs

pub to_ranges : List ℕ → List SeqRange
unfolding add_seqs sort is_sorted
to_ranges seqs = add_seqs [] (if is_sorted seqs then seqs else sort seqs)
