-- ===== src/ReliableLink.antt =====
-- src/internal/Channel/Reliability/ReliableLink.h: the state of a link. A time is its number of
-- microseconds; the timings of a link are in milliseconds, as the code has them.
pub mod Receiving
pub mod Delivery
pub mod InOrder
pub mod Losses
pub mod Sending
pub mod Answers
pub mod Acks
pub mod Timers
pub mod Quiet
pub mod QuietSends
pub mod Orderly
pub mod Link
pub mod Runs
pub mod Reached
pub mod Cutting
pub mod Failure
pub mod Draining
pub mod Messages
pub mod Released
mod Tests
use net_link.Common.{
  ℕ, ◌+◌, ◌%◌, ◌^◌, if◌then◌else◌, Bool, true, false, List, [], Option, none, some,
}
use net_link.Constants.{control_window, reliable_window, bulk_window}
use net_link.Protocol.Flags.{Lane, control, reliable, bulk, media, lane_eq, lane_value, from_raw}
use net_link.Protocol.Header.{PacketHeader}
use net_link.SequenceBuffer.{SequenceBuffer, empty_buffer}
use net_link.Fragmentation.Message.{AssemblyBudget, MessageAssembler, idle}
use net_link.Fragmentation.Media.{MediaAssembler}
use net_link.RttEstimator.{RttEstimator}

-- `shared_ptr<const vector<uint8_t>>`: nothing changes the bytes.
abbrev pub MessageBody : Type 0
MessageBody = List ℕ

pub record OutboundMessage : Type 0 where
  pub tag : ℕ
  pub body : MessageBody

pub record DeliveredMessage : Type 0 where
  pub lane : Lane
  pub tag : ℕ
  pub body : List ℕ

-- `head` is the first `headSize` bytes.
pub record OutgoingDatagram : Type 0 where
  pub head : List ℕ
  pub message : Option MessageBody
  pub offset : ℕ
  pub length : ℕ
  pub owned : List ℕ

pub record LinkStats : Type 0 where
  pub data_sent : ℕ
  pub retransmissions : ℕ
  pub fast_retransmissions : ℕ
  pub acks_sent : ℕ
  pub pings_sent : ℕ
  pub duplicates_received : ℕ
  pub stale_dropped : ℕ
  pub out_of_window_dropped : ℕ
  pub delivered : ℕ
  pub bytes_sent : ℕ
  pub bytes_received : ℕ
  pub media_sent : ℕ
  pub media_received : ℕ
  pub media_received_by_peer : ℕ
  pub timer_work : ℕ

pub record LinkTimings : Type 0 where
  pub initial_rto : ℕ
  pub min_rto : ℕ
  pub max_rto : ℕ
  pub peer_timeout : ℕ
  pub keep_alive : ℕ
  pub initial_cwnd : ℕ
  pub fixed_cwnd : ℕ

-- A Data packet that is not acknowledged: `length` bytes of the message from `offset` on.
pub record InFlight : Type 0 where
  pub message : MessageBody
  pub offset : ℕ
  pub length : ℕ
  pub tag : ℕ
  pub total_length : ℕ
  pub frag_index : ℕ
  pub frag_count : ℕ
  pub transmissions : ℕ
  pub lost : Bool
  pub sent_at : ℕ
  pub transmission : ℕ

pub record BufferedData : Type 0 where
  pub header : PacketHeader
  pub body : List ℕ

pub record FragmentCursor : Type 0 where
  pub message : OutboundMessage
  pub count : ℕ
  pub next : ℕ

pub record SentRecord : Type 0 where
  pub transmission : ℕ
  pub seq : ℕ
  pub lane : Lane

pub record Stream : Type 0 where
  pub cursor : Option FragmentCursor
  pub in_flight : SequenceBuffer InFlight
  pub lost : List ℕ
  pub next_send_seq : ℕ
  pub send_base : ℕ
  pub on_the_wire : ℕ
  pub peer_paused : Bool
  pub ack_serial : Option ℕ
  pub probe_at : Option ℕ
  pub probe_interval : ℕ
  pub reorder : SequenceBuffer BufferedData
  pub next_expected : ℕ
  pub budget_paused : Bool
  pub refused_length : ℕ
  pub assembler : MessageAssembler

-- `W` is the type `double`. A stream is none until its first use. The budget, which the link only
-- points to, is shared with other links.
pub record ReliableLink (W : Type 0) : Type 0 where
  pub timings : LinkTimings
  pub local_stream_id : ℕ
  pub remote_stream_id : Option ℕ
  pub rtt : RttEstimator
  pub budget : Option AssemblyBudget
  pub streams : Lane → Option Stream
  pub media_cursor : Option FragmentCursor
  pub next_media_seq : ℕ
  pub media_assembler : Option MediaAssembler
  pub media_received : ℕ
  pub sent : List SentRecord
  pub transmissions : ℕ
  pub largest_acked : ℕ
  pub stalled_since : Option ℕ
  pub last_received : Option ℕ
  pub pinged_at : ℕ
  pub timeouts_in_a_row : ℕ
  pub congestion_window : W
  pub recovery_start : ℕ
  pub paused : Bool
  pub ack_serial : ℕ
  pub ack_due : ℕ
  pub ping_due : ℕ
  pub pending_acks : List OutgoingDatagram
  pub peeked : OutgoingDatagram
  pub delivered : List DeliveredMessage
  pub failed : Bool
  pub stats : LinkStats

-- `InFlight{}`, `BufferedData{}` and `PacketHeader{}`.
abbrev pub no_flight : InFlight
no_flight = record {
  message = [];
  offset = 0;
  length = 0;
  tag = 0;
  total_length = 0;
  frag_index = 0;
  frag_count = 1;
  transmissions = 0;
  lost = false;
  sent_at = 0;
  transmission = 0;
}

abbrev pub no_header : PacketHeader
no_header = record {
  flags = from_raw 0;
  src_stream_id = 0;
  dst_stream_id = 0;
  seq = 0;
  frag_index = 0;
  frag_count = 0;
  tag = 0;
  total_length = 0;
}

abbrev pub no_data : BufferedData
no_data = record { header = no_header; body = [] }

abbrev pub window_of : Lane → ℕ
window_of l =
    if lane_eq l control
    then control_window
    else if lane_eq l reliable
    then reliable_window
    else bulk_window

abbrev pub bit_of : Lane → ℕ
bit_of l = 2 ^ lane_value l

abbrev pub new_stream : Lane → Stream
new_stream l = record {
  cursor = none;
  in_flight = empty_buffer no_flight (window_of l);
  lost = [];
  next_send_seq = 1;
  send_base = 1;
  on_the_wire = 0;
  peer_paused = false;
  ack_serial = none;
  probe_at = none;
  probe_interval = 0;
  reorder = empty_buffer no_data (window_of l);
  next_expected = 1;
  budget_paused = false;
  refused_length = 0;
  assembler = idle;
}

-- What `streamFor` returns; it is stored by `with_stream`.
abbrev pub or_new : Lane → Option Stream → Stream
or_new l none = new_stream l
or_new l (some s) = s

abbrev pub stream_for : {W : Type 0} → Lane → ReliableLink W → Stream
stream_for l k = or_new l (k.streams l)

-- A function that the code calls with a reference to a stream gets the stream next to the link, and
-- what it makes of it is stored.
abbrev pub with_stream : {W : Type 0} → Lane → Stream → ReliableLink W → ReliableLink W
with_stream l s k = record k { streams = λ l'. if lane_eq l l' then some s else k.streams l' }

-- An increment of a 64-bit counter.
abbrev pub next : ℕ → ℕ
next n = (n + 1) % 2 ^ 64
