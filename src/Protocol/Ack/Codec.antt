-- ===== src/Protocol/Ack/Codec.antt =====
-- AckRanges.h: `encodeAck` and `decodeAck`.
use net_link.Common.{
  ℕ, zero, suc, ◌+◌, ◌-◌, ◌*◌, ◌/◌, ◌%◌, ◌^◌, ◌≤◌, ◌<◌, min, ◌≡◌, refl, ap, ap₂, ◌∙◌, List, [], ◌∷◌,
  ◌++◌, append_assoc, length, length-append, length-take, length-drop, take, drop, take-all,
  drop-add, drop-append_of_length, take-append-drop, All, All-take, All-drop, IsByte, IsU16, IsU32,
  some, ◌>>=◌, Option-cases, inl, inr, arith,
}
use mathlib.Core.Option.{some-injective}
use net_link.Constants.{max_datagram_size}
use net_link.Protocol.ByteOrder.{
  write_uint16, write_uint32, write_uint64, read_uint16, read_uint32, read_uint64,
  read-write_uint16, read-write_uint32, read-write_uint64, length-write_uint16, length-write_uint32,
  length-write_uint64,
}
use net_link.Protocol.ByteOrder.Reading.{
  write-read_uint16, write-read_uint32, write-read_uint64, read_uint16-IsU16, read_uint64-IsU64,
}
use net_link.Protocol.Ack.{
  SeqRange, AckBody, last, encode_ranges, encode_ack, decode_ranges, decode_ack, max_ack_ranges,
}

-- A range of seqs that does not wrap: seqs start at 1.
pub record IsRange (r : SeqRange) : Type 0 where
  pub first_pos : 0 < r.first
  pub count_pos : 0 < r.count
  pub count_fits : IsU16 r.count
  pub no_wrap : r.first + r.count ≤ 2 ^ 64

pub last_of_range : (r : SeqRange) → IsRange r → last r + 1 ≡ r.first + r.count
unfolding last
last_of_range r v = omega arith

length-encode_ranges : (rs : List SeqRange) → length (encode_ranges rs) ≡ 10 * length rs
unfolding encode_ranges
length-encode_ranges [] = omega arith
length-encode_ranges (r ∷ rs) = omega (
  arith,
  length-append (write_uint64 r.first ++ write_uint16 r.count) (encode_ranges rs),
  length-append (write_uint64 r.first) (write_uint16 r.count),
  length-write_uint64 r.first,
  length-write_uint16 r.count,
  length-encode_ranges rs,
)

-- The body of an Ack with as many ranges as the code puts in fits behind the header of one datagram.
length-encode_ack :
    (ack : AckBody) → length (encode_ack ack max_ack_ranges) ≤ max_datagram_size - 20
unfolding encode_ack
length-encode_ack ack = omega (
  arith,
  length-append (write_uint32 ack.serial) (
      write_uint32 ack.media_received
      ++ encode_ranges (take (min (length ack.ranges) max_ack_ranges) ack.ranges)),
  length-append (write_uint32 ack.media_received)
      (encode_ranges (take (min (length ack.ranges) max_ack_ranges) ack.ranges)),
  length-write_uint32 ack.serial,
  length-write_uint32 ack.media_received,
  length-encode_ranges (take (min (length ack.ranges) max_ack_ranges) ack.ranges),
  length-take (min (length ack.ranges) max_ack_ranges) ack.ranges,
)

decode-encode_range :
    (r : SeqRange) (rounds : ℕ) (rest : List ℕ)
    → IsRange r
    → decode_ranges (suc rounds) ((write_uint64 r.first ++ write_uint16 r.count) ++ rest)
      ≡ (decode_ranges rounds rest >>= λ rs. some (r ∷ rs))
unfolding decode_ranges
decode-encode_range r rounds rest v = ground (arith, first, count, later)
  where
    d : List ℕ
    d = (write_uint64 r.first ++ write_uint16 r.count) ++ rest

    first : read_uint64 ((write_uint64 r.first ++ write_uint16 r.count) ++ rest) ≡ r.first
    first =
        ap read_uint64 (append_assoc (write_uint64 r.first) (write_uint16 r.count) rest)
        ∙ read-write_uint64 r.first (write_uint16 r.count ++ rest) (omega arith)

    count : read_uint16 (drop 8 ((write_uint64 r.first ++ write_uint16 r.count) ++ rest)) ≡ r.count
    count =
        ap (λ xs. read_uint16 (drop 8 xs))
          (append_assoc (write_uint64 r.first) (write_uint16 r.count) rest)
        ∙ ap read_uint16
            (drop-append_of_length 8 (write_uint64 r.first) _ (length-write_uint64 r.first))
        ∙ read-write_uint16 r.count rest v.count_fits

    later : drop 10 ((write_uint64 r.first ++ write_uint16 r.count) ++ rest) ≡ rest
    later = drop-append_of_length 10 (write_uint64 r.first ++ write_uint16 r.count) rest (
        omega (
          arith,
          length-append (write_uint64 r.first) (write_uint16 r.count),
          length-write_uint64 r.first,
          length-write_uint16 r.count,
        ))

decode-encode_ranges :
    (rs : List SeqRange) → All IsRange rs → decode_ranges (length rs) (encode_ranges rs) ≡ some rs
unfolding encode_ranges
decode-encode_ranges [] h = unfold decode_ranges in refl
decode-encode_ranges (r ∷ rs) h =
    rw (decode-encode_range r (length rs) (encode_ranges rs) h.0, decode-encode_ranges rs h.1)

-- `decodeAck` gives back what `encodeAck` put in: both counters, and the lowest ranges up to the limit.
pub decode-encode_ack :
    (ack : AckBody) (max_ranges : ℕ)
    → IsU32 ack.serial
    → IsU32 ack.media_received
    → All IsRange ack.ranges
    → decode_ack (encode_ack ack max_ranges)
      ≡ some (record ack { ranges = take (min (length ack.ranges) max_ranges) ack.ranges })
unfolding decode_ack encode_ack
decode-encode_ack ack max_ranges hs hm hr =
    let size = long in
    let rounds : (10 * length kept + 8 - 8) / 10 ≡ length kept = omega arith in
    rw (size, rounds, ranges, serial, received) (ground arith)
  where
    kept : List SeqRange
    kept = take (min (length ack.ranges) max_ranges) ack.ranges

    tail : List ℕ
    tail = write_uint32 ack.media_received ++ encode_ranges kept

    long : length (write_uint32 ack.serial ++ tail) ≡ 10 * length kept + 8
    long = omega (
      arith,
      length-append (write_uint32 ack.serial) tail,
      length-append (write_uint32 ack.media_received) (encode_ranges kept),
      length-write_uint32 ack.serial,
      length-write_uint32 ack.media_received,
      length-encode_ranges kept,
    )

    serial : read_uint32 (write_uint32 ack.serial ++ tail) ≡ ack.serial
    serial = read-write_uint32 ack.serial tail hs

    behind : drop 4 (write_uint32 ack.serial ++ tail) ≡ tail
    behind = drop-append_of_length 4 (write_uint32 ack.serial) tail (length-write_uint32 ack.serial)

    received : read_uint32 (drop 4 (write_uint32 ack.serial ++ tail)) ≡ ack.media_received
    received = ap read_uint32 behind ∙ read-write_uint32 ack.media_received (encode_ranges kept) hm

    listed : drop 8 (write_uint32 ack.serial ++ tail) ≡ encode_ranges kept
    listed =
        drop-add 4 4 (write_uint32 ack.serial ++ tail)
        ∙ ap (drop 4) behind
        ∙ drop-append_of_length 4 (write_uint32 ack.media_received) (encode_ranges kept)
            (length-write_uint32 ack.media_received)

    ranges : decode_ranges (length kept) (drop 8 (write_uint32 ack.serial ++ tail)) ≡ some kept
    ranges =
        ap (decode_ranges (length kept)) listed
        ∙ decode-encode_ranges kept (All-take IsRange _ ack.ranges hr)

abbrev range_at : List ℕ → SeqRange
range_at d = record { first = read_uint64 d; count = read_uint16 (drop 8 d) }

decode_ranges_inv :
    (rounds : ℕ) (d : List ℕ) (rs : List SeqRange)
    → decode_ranges (suc rounds) d ≡ some rs
    → (rest : List SeqRange) × (rs ≡ range_at d ∷ rest)
      × (0 < (range_at d).count)
      × (0 < (range_at d).first)
      × ((range_at d).first ≤ last (range_at d))
      × (decode_ranges rounds (drop 10 d) ≡ some rest)
unfolding decode_ranges
decode_ranges_inv rounds d rs e = elim (Option-cases (decode_ranges rounds (drop 10 d))) [
  | inl nothing ↦ ground arith
  | inr (rest, later) ↦ (rest, ground arith, ground arith, ground arith, ground arith, later)
]

range_at-IsRange :
    (d : List ℕ)
    → All IsByte d
    → 10 ≤ length d
    → 0 < (range_at d).count
    → 0 < (range_at d).first
    → (range_at d).first ≤ last (range_at d)
    → IsRange (range_at d)
unfolding last
range_at-IsRange d b long count first ordered = record {
  first_pos = first;
  count_pos = count;
  count_fits = read_uint16-IsU16 (drop 8 d);
  no_wrap = omega (arith, read_uint16-IsU16 (drop 8 d), read_uint64-IsU64 d b (omega arith));
}

encode-range_at :
    (d : List ℕ)
    → All IsByte d
    → 10 ≤ length d
    → (write_uint64 (range_at d).first ++ write_uint16 (range_at d).count) ++ drop 10 d ≡ d
encode-range_at d b long =
    append_assoc (write_uint64 (read_uint64 d)) (write_uint16 (read_uint16 (drop 8 d))) (drop 10 d)
    ∙ ap (λ t. write_uint64 (read_uint64 d) ++ t)
        (ap₂ ◌++◌
            (write-read_uint16 (drop 8 d) (All-drop IsByte 8 d b) (omega (arith, length-drop 8 d)))
            (drop-add 8 2 d)
          ∙ take-append-drop 2 (drop 8 d))
    ∙ ap (λ t. t ++ drop 8 d) (write-read_uint64 d b (omega arith))
    ∙ take-append-drop 8 d

encode-decode_ranges :
    (rounds : ℕ) (d : List ℕ) (rs : List SeqRange)
    → All IsByte d
    → length d ≡ 10 * rounds
    → decode_ranges rounds d ≡ some rs
    → All IsRange rs × (encode_ranges rs ≡ d)
unfolding encode_ranges
encode-decode_ranges zero [] rs b size e =
    let e' : [] ≡ rs = some-injective _ _ (unfold decode_ranges in e) in rw (← e') (tt, refl)
encode-decode_ranges zero (x ∷ d) rs b size e = absurd (omega arith)
encode-decode_ranges (suc rounds) d rs b size e =
    let (rest, whole, count, first, ordered, later) = decode_ranges_inv rounds d rs e in
    let (valid, same) =
      encode-decode_ranges rounds (drop 10 d) rest (All-drop IsByte 10 d b)
        (omega (arith, length-drop 10 d)) later in
    rw whole (
      (range_at-IsRange d b (omega arith) count first ordered, valid),
      rw same (encode-range_at d b (omega arith)),
    )

decode_ack_inv :
    (d : List ℕ) (ack : AckBody)
    → decode_ack d ≡ some ack
    → (8 ≤ length d)
      × ((length d - 8) % 10 ≡ 0)
      × (ack.serial ≡ read_uint32 d)
      × (ack.media_received ≡ read_uint32 (drop 4 d))
      × (decode_ranges ((length d - 8) / 10) (drop 8 d) ≡ some ack.ranges)
unfolding decode_ack
decode_ack_inv d ack e = ground arith

encode-ack_fields :
    (d : List ℕ)
    → All IsByte d
    → 8 ≤ length d
    → write_uint32 (read_uint32 d) ++ (write_uint32 (read_uint32 (drop 4 d)) ++ drop 8 d) ≡ d
encode-ack_fields d b long =
    ap₂ ◌++◌ (write-read_uint32 d b (omega arith)) (
      ap₂ ◌++◌
        (write-read_uint32 (drop 4 d) (All-drop IsByte 4 d b) (omega (arith, length-drop 4 d)))
        (drop-add 4 4 d)
      ∙ take-append-drop 4 (drop 4 d))
    ∙ take-append-drop 4 d

-- And it takes nothing else: the ranges of a body that it takes are well formed, and encoding what it
-- read gives back the body.
pub encode-decode_ack :
    (d : List ℕ) {ack : AckBody}
    → All IsByte d
    → decode_ack d ≡ some ack
    → All IsRange ack.ranges × (encode_ack ack (length ack.ranges) ≡ d)
unfolding encode_ack
encode-decode_ack d {ack} b e =
    let (long, aligned, serial, received, ranges) = decode_ack_inv d ack e in
    let (valid, same) =
      encode-decode_ranges ((length d - 8) / 10) (drop 8 d) ack.ranges (All-drop IsByte 8 d b)
        (omega (arith, length-drop 8 d)) ranges in
    (valid, rw (all_kept ack.ranges, same, serial, received) (encode-ack_fields d b long))
  where
    all_kept : (rs : List SeqRange) → take (min (length rs) (length rs)) rs ≡ rs
    all_kept rs = take-all (min (length rs) (length rs)) rs (omega arith)
