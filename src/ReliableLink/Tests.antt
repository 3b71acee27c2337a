-- ===== src/ReliableLink/Tests.antt =====
-- ReliableLink.cpp: links at work. The congestion window is a natural number here.
use net_link.Common.{
  ℕ, ◌^◌, ◌≡◌, inl, refl, ◌==◌, if◌then◌else◌, ◌&&◌, List, [], ◌∷◌, ◌++◌, Option, none, some, arith,
}
use net_link.Double.{numbers}
use net_link.Protocol.Flags.{Lane, reliable, lane_eq, from_raw, kind, lane, is_fragmented, has}
use net_link.Protocol.Header.{PacketHeader, DecodedPacket}
use net_link.SequenceBuffer.{SequenceBuffer, empty_buffer, find, insert}
use net_link.SequenceBuffer.Slots.{IsValid}
use net_link.SequenceBuffer.Lookup.{empty_buffer-IsValid, insert_lem}
use net_link.Fragmentation.Message.{AssembledMessage, idle, reset}
use net_link.Fragmentation.Message.Assembly.{accept_all, only_last}
use net_link.ReliableLink.{
  OutboundMessage, BufferedData, InFlight, LinkTimings, Stream, ReliableLink, no_flight, no_data,
  no_header, new_stream,
}
use net_link.ReliableLink.Receiving.{drain_reorder_buffer}
use net_link.ReliableLink.Acks.{Acked, release_acked}
use net_link.ReliableLink.Link.{new_link}
use net_link.ReliableLink.Delivery.{Packet, on_lane}
use net_link.ReliableLink.Orderly.{IsOrderly}
use net_link.ReliableLink.Runs.{Event, arrives, run, run-IsOrderly}
use net_link.ReliableLink.Reached.{Reached, start, later, Reached-IsOrderly}
use net_link.ReliableLink.Cutting.{cut, accept_all-cut}
use net_link.ReliableLink.Messages.{delivered_as, delivered-prefix}
use net_link.ReliableLink.Draining.{IsDrained, drain-IsDrained}
use net_link.ReliableLink.Released.{is_named, release_acked_lem}

abbrev timings : LinkTimings
timings = record {
  initial_rto = 100;
  min_rto = 20;
  max_rto = 1000;
  peer_timeout = 5000;
  keep_alive = 1000;
  initial_cwnd = 32;
  fixed_cwnd = 0;
}

abbrev message : AssembledMessage
message = record { tag = 5; body = 7 ∷ 8 ∷ [] }

-- Data on Reliable, seq 1, of the stream 9 to the stream 3.
abbrev header : PacketHeader
header = record no_header {
  flags = from_raw 0x04;
  src_stream_id = 9;
  dst_stream_id = 3;
  seq = 1;
  tag = 5;
}

abbrev packet : DecodedPacket
packet = record { header = header; body = 7 ∷ 8 ∷ [] }

-- A remote that sends one message, on Reliable.
abbrev remote : Lane → ℕ → Option Packet
remote l seq = if lane_eq l reliable && seq == 1 then some (header, 7 ∷ 8 ∷ []) else none

abbrev link : ReliableLink ℕ
unfolding new_link
link = new_link timings 3 11 none

link-Reached : Reached remote ([], link)
unfolding new_link
link-Reached = start timings 3 11 none

abbrev arrival : Event
arrival = arrives packet 1000

arrived : Reached remote (run arrival ([], link))
unfolding new_link kind lane
arrived = later link-Reached arrival (λ fresh t l. (refl, omega arith))

run-IsOrderly_example : IsOrderly remote (run arrival ([], link)).0 (run arrival ([], link)).1
unfolding kind lane
run-IsOrderly_example =
    run-IsOrderly remote arrival [] link (λ fresh t l. (refl, omega arith))
      (Reached-IsOrderly remote link-Reached)

delivered-prefix_example :
    (finished : List AssembledMessage) × (rest : List AssembledMessage) × ((message ∷ [])
      ≡ finished ++ rest)
    × (on_lane reliable ((run arrival ([], link)).0 ++ (run arrival ([], link)).1.delivered)
        ≡ delivered_as reliable finished)
unfolding is_fragmented has
delivered-prefix_example = delivered-prefix remote reliable (message ∷ []) arrived refl (
  (header, 7 ∷ 8 ∷ []) ∷ [],
  (omega arith, inl ((header, 7 ∷ 8 ∷ []), refl, (refl, refl, refl))),
  (refl, tt),
  refl,
)

abbrev outbound : OutboundMessage
outbound = record { tag = 5; body = 7 ∷ 8 ∷ [] }

accept_all-cut_example :
    accept_all (cut link reliable 1 outbound) (none, idle)
    ≡ (only_last message (cut link reliable 1 outbound), reset (none, idle))
unfolding reset
accept_all-cut_example =
    accept_all-cut link reliable outbound (omega arith) 1 0 (none, idle) tt refl

abbrev buffered : BufferedData
buffered = record { header = header; body = 7 ∷ 8 ∷ [] }

-- The two slots of a stream, with an early packet in one.
abbrev early : SequenceBuffer BufferedData
early = insert no_data 1 buffered (empty_buffer no_data (2 ^ 1))

early-IsValid : IsValid no_data 1 early
early-IsValid =
    (insert_lem no_data 1 0 1 buffered (empty_buffer no_data (2 ^ 1))
      (empty_buffer-IsValid no_data 1 (omega arith))).1

drain-IsDrained_example :
    IsDrained
      (drain_reorder_buffer reliable (record (new_stream reliable) { reorder = early }, link))
drain-IsDrained_example =
    drain-IsDrained reliable 1 (omega arith) (record (new_stream reliable) { reorder = early }) link
      early-IsValid

-- The packets 1 and 2 of a stream are in flight.
abbrev flights : SequenceBuffer InFlight
flights =
    insert no_flight 2 no_flight (insert no_flight 1 no_flight (empty_buffer no_flight (2 ^ 2)))

flights-IsValid : IsValid no_flight 2 flights
flights-IsValid =
    (insert_lem no_flight 2 0 2 no_flight
      (insert no_flight 1 no_flight (empty_buffer no_flight (2 ^ 2)))
      (insert_lem no_flight 2 0 1 no_flight (empty_buffer no_flight (2 ^ 2))
        (empty_buffer-IsValid no_flight 2 (omega arith))).1).1

abbrev sending : Stream
sending = record (new_stream reliable) { in_flight = flights; next_send_seq = 3; on_the_wire = 2 }

abbrev nothing_acked : Acked
nothing_acked = record { acked = 0; counted = 0; sample = none; largest = 0 }

release_acked_lem_example :
    (find no_flight 2 (release_acked 0 1 [] (sending, nothing_acked)).0.in_flight
      ≡ (if is_named 1 [] sending 2 then none else find no_flight 2 flights))
    × IsValid no_flight 2 (release_acked 0 1 [] (sending, nothing_acked)).0.in_flight
release_acked_lem_example =
    release_acked_lem 2 0 1 [] sending nothing_acked 2 flights-IsValid (omega arith) (omega arith)
      (omega arith)
