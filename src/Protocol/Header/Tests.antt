-- ===== src/Protocol/Header/Tests.antt =====
-- PacketHeader.h: packets at work.
use net_link.Common.{ℕ, ◌≡◌, ◌≤◌, refl, true, List, [], ◌∷◌, ◌++◌, length, All, IsByte, arith}
use net_link.Constants.{max_datagram_size}
use net_link.Protocol.ByteOrder.{write_uint16, write_uint32, write_uint64}
use net_link.Protocol.Flags.{from_raw, kind, lane, has, is_fragmented, is_last_fragment, is_valid}
use net_link.Protocol.Header.{
  PacketHeader, base_header, fragment_extension, tag_extension, length_extension, encode_header,
  encode_packet, is_body_size_valid, starts_message, starts_fragmented_message, fragments_of,
  max_message_size,
}
use net_link.Protocol.Header.Valid.{IsWellFormed}
use net_link.Protocol.Header.Packets.{decode-encode_packet, encode-decode_packet}

-- The last of two fragments, on the reliable lane.
abbrev last_of_two : PacketHeader
last_of_two = record {
  flags = from_raw 0x34;
  src_stream_id = 7;
  dst_stream_id = 9;
  seq = 12;
  frag_index = 1;
  frag_count = 2;
  tag = 0;
  total_length = 0;
}

-- The first of two.
abbrev first_of_two : PacketHeader
first_of_two = record {
  flags = from_raw 0x14;
  src_stream_id = 7;
  dst_stream_id = 9;
  seq = 11;
  frag_index = 0;
  frag_count = 2;
  tag = 5;
  total_length = 1171;
}

last_of_two-IsWellFormed : IsWellFormed last_of_two
unfolding is_valid kind lane is_fragmented is_last_fragment has starts_message
    starts_fragmented_message fragments_of max_message_size
last_of_two-IsWellFormed = record {
  byte = omega arith;
  valid = refl;
  not_beacon = cc;
  src = omega arith;
  src_pos = omega arith;
  dst = omega arith;
  seq_fits = omega arith;
  data_seq = λ e. omega arith;
  fragment = (omega arith, omega arith, omega arith, refl);
  tagged = refl;
  total = refl;
}

first_of_two-IsWellFormed : IsWellFormed first_of_two
unfolding is_valid kind lane is_fragmented is_last_fragment has starts_message
    starts_fragmented_message fragments_of max_message_size
first_of_two-IsWellFormed = record {
  byte = omega arith;
  valid = refl;
  not_beacon = cc;
  src = omega arith;
  src_pos = omega arith;
  dst = omega arith;
  seq_fits = omega arith;
  data_seq = λ e. omega arith;
  fragment = (omega arith, omega arith, omega arith, refl);
  tagged = omega arith;
  total = (omega arith, refl);
}

abbrev three_bytes : List ℕ
three_bytes = 1 ∷ 2 ∷ 3 ∷ []

abbrev two_bytes : List ℕ
two_bytes = 1 ∷ 2 ∷ []

last_body_fits : is_body_size_valid last_of_two (length three_bytes) ≡ true
unfolding is_body_size_valid kind is_fragmented is_last_fragment has
last_body_fits = refl

-- Its datagram.
abbrev datagram : List ℕ
datagram = encode_packet last_of_two three_bytes

datagram-IsByte : All IsByte datagram
unfolding encode_packet encode_header base_header fragment_extension tag_extension length_extension
    write_uint16 write_uint32 write_uint64 starts_message starts_fragmented_message is_fragmented
    kind has
datagram-IsByte = omega arith

encode-decode_packet_example :
    (length datagram ≤ max_datagram_size)
    × IsWellFormed last_of_two
    × (is_body_size_valid last_of_two (length three_bytes) ≡ true)
    × (encode_packet last_of_two three_bytes ≡ datagram)
encode-decode_packet_example = encode-decode_packet datagram datagram-IsByte (
    decode-encode_packet last_of_two three_bytes last_of_two-IsWellFormed (λ e. omega arith)
      last_body_fits)

-- The header of the first, with a short body.
abbrev first_datagram : List ℕ
first_datagram = encode_header first_of_two ++ two_bytes

first_datagram-IsByte : All IsByte first_datagram
unfolding encode_header base_header fragment_extension tag_extension length_extension write_uint16
    write_uint32 write_uint64 starts_message starts_fragmented_message is_fragmented kind has
first_datagram-IsByte = omega arith
