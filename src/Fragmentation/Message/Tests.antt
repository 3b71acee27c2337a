-- ===== src/Fragmentation/Message/Tests.antt =====
-- MessageAssembler.cpp: a message of two fragments.
use net_link.Common.{◌≡◌, refl, true, List, [], ◌∷◌, replicate, some, arith}
use net_link.Protocol.Flags.{from_raw, kind, lane, has, is_fragmented, is_last_fragment, is_valid}
use net_link.Protocol.Header.{
  PacketHeader, starts_message, starts_fragmented_message, fragments_of, max_message_size,
}
use net_link.Protocol.Header.Valid.{IsWellFormed}
use net_link.Fragmentation.Message.{AssembledMessage, idle, State, reset, fits, accept}
use net_link.Fragmentation.Message.Invariant.{
  IsBalanced, IsConsistent, Whole, accept-IsBalanced, accept-IsConsistent,
}
use net_link.Fragmentation.Message.Assembly.{
  Packet, Fragments, accept_all, only_last, accept_all-Fragments,
}

abbrev message : AssembledMessage
message = record { tag = 5; body = replicate 1171 7 }

abbrev first_header : PacketHeader
first_header = record {
  flags = from_raw 0x14;
  src_stream_id = 7;
  dst_stream_id = 9;
  seq = 11;
  frag_index = 0;
  frag_count = 2;
  tag = 5;
  total_length = 1171;
}

abbrev last_header : PacketHeader
last_header = record first_header {
  flags = from_raw 0x34;
  seq = 12;
  frag_index = 1;
  tag = 0;
  total_length = 0;
}

abbrev both : List Packet
both = (first_header, replicate 1168 7) ∷ (last_header, replicate 3 7) ∷ []

-- A budget of which other streams hold 100 bytes.
abbrev shared : State
shared = (some (record { limit = 5000; used = 100 }), idle)

both-Fragments : Fragments message 0 both
unfolding fragments_of is_fragmented is_last_fragment has
both-Fragments = (
  omega arith,
  record {
    fragmented = refl;
    index = refl;
    count = refl;
    is_last = refl;
    start_tag = λ e. refl;
    start_length = λ e. refl;
    part = refl;
  },
  (
    omega arith,
    record {
      fragmented = refl;
      index = refl;
      count = refl;
      is_last = refl;
      start_tag = λ e. absurd (omega arith);
      start_length = λ e. absurd (omega arith);
      part = refl;
    },
    refl,
  ),
)

shared_room : fits 1171 (record { limit = 5000; used = 100 }) ≡ true
unfolding fits
shared_room = refl

accept_all-Fragments_example : accept_all both shared ≡ (only_last message both, reset shared)
unfolding reset
accept_all-Fragments_example =
    accept_all-Fragments message both 100 shared (omega arith) (omega arith) shared_room
      both-Fragments

accept-IsBalanced_example : IsBalanced 100 (accept first_header (replicate 1168 7) shared).1
accept-IsBalanced_example =
    accept-IsBalanced 100 first_header (replicate 1168 7) shared (omega arith)

first_header-IsWellFormed : IsWellFormed first_header
unfolding is_valid kind lane is_fragmented is_last_fragment has starts_message
    starts_fragmented_message fragments_of max_message_size
first_header-IsWellFormed = record {
  byte = omega arith;
  valid = refl;
  not_beacon = cc;
  src = omega arith;
  src_pos = omega arith;
  dst = omega arith;
  seq_fits = omega arith;
  data_seq = λ e. omega arith;
  fragment = (omega arith, omega arith, omega arith, refl);
  tagged = omega arith;
  total = (omega arith, refl);
}

accept-IsConsistent_example :
    IsConsistent (accept first_header (replicate 1168 7) shared).1.1
    × (is_fragmented first_header.flags ≡ true
        → Whole first_header (accept first_header (replicate 1168 7) shared).0)
accept-IsConsistent_example =
    accept-IsConsistent first_header (replicate 1168 7) shared first_header-IsWellFormed
      (refl, refl, refl, refl, refl)
