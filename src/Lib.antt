-- ===== src/Lib.antt =====
-- NetLink connects applications of a local network: an engine announces itself with beacons, opens
-- sessions with control messages, and carries the messages of a session over links of datagrams. The
-- files follow the parts of the program:
--
--   Constants    internal/TransportConstants.h: the sizes that the protocol checks.
--   Protocol     internal/Channel/Protocol: what a datagram of a link looks like.
--     ByteOrder    ByteOrder.h: numbers in network byte order. A pointer into a buffer is the list
--                  from there on, and a write is the list of the bytes that it puts there.
--     Flags        PacketFlags.h: the flags byte: kind, lane and flag bits.
--     Header       PacketHeader.h: encodeHeader, encodePacket, decodeHeader, isBodySizeValid and
--                  decodePacket. decodeHeader is the chain of its stages decode_base,
--                  decode_fragment, decode_tag and decode_length; each gets the header so far and
--                  the offset, and an early return of nullopt is none.
--     Ack          AckRanges.h: the body of an Ack, and toRanges.
--     Wire         WireBuffer.h: WireWriter is the bytes so far; WireReader is the bytes that are
--                  left and the failure flag, threaded through a state monad.
--   SequenceBuffer
--                internal/Channel/Queue/SequenceBuffer.h: a ring of slots keyed by a sequence number.
--                The callback of forEach is a function that threads what it refers to.
--   Fragmentation
--     Message      internal/Channel/Fragmentation/MessageAssembler: fragments back to messages. The
--                  budget that streams share is threaded next to the assembler; a null pointer is
--                  none. A theorem about it counts what the other assemblers hold as `others`.
--     Media        MediaAssembler: a few messages at a time, without acknowledgement. A pointer to a
--                  slot is its index.
--   Mailbox      internal/Channel/Mailbox.h: what applications hand to the thread of the engine. The
--                mutex makes each operation one step, and Step is what any thread may do next. A push
--                that waits is two steps, push and push_woken, and so is flush, with is_flushed for
--                what it returns. Each operation returns whether it rings the doorbell. The
--                statistics and the list of the discovered peers are left out. The names take, open and
--                close are take_mail, open_session and close_session.
--   RttEstimator internal/Channel/Reliability/RttEstimator.h: durations are microseconds.
--   Double       the type `double`, as a parameter: what the link does with its congestion window, and
--                the scheduler with its tokens. Laws holds what is used of it, for NaN too.
--   SendScheduler
--                internal/Channel/SendScheduler.h: the send budget of a socket, and the rings of peers
--                that share it. The function that run is given is a parameter, on a state of its own;
--                the loop over a lane takes rounds, and a run may end unfinished in the model only.
--   ReliableLink internal/Channel/Reliability/ReliableLink: a link to one peer, of lanes that are
--                acknowledged and ordered, and Media that is not. The files follow the code: Receiving,
--                Losses, Sending, Answers (peekAck, makeAck), Acks (handleAck), Timers (onTimer,
--                onPacket) and Link (the constructor, nextDeadline and what the link says of itself).
--                A reference to a stream is the stream next to the link, and with_stream stores it; a
--                stream that was not used yet is none. What source.next returns is an argument of peek,
--                and peek says whether it was called; the number of makeStreamID is one of new_link. The
--                budget that links share is a field, and an Event of a run may change it between two
--                operations, as another link does. The logging is left out.
--   Engine       internal/Engine/NetworkEngine: the session of one peer, from startSession or onHello on:
--                advance, onControl, endSession, beginShutdown, the commands, and what handleDatagram
--                does before a packet goes to its link; PeerSource is next_message. The peer is next to
--                the engine, of which NetworkEngine has what a session uses. The events are those that the functions of this
--                peer emit. A Life is any order of these steps. Which peers there are, the checks before
--                a session starts, the steps of the loop, the adapter and the threads are left out.
--   Session      internal/Session/ControlMessage.h: Hello, Accept, Decline, Close, and the
--                extension that later versions of the protocol add to them.
--   Discovery    internal/Discovery.
--     Beacon       Beacon.h: the beacon and the version of an application.
--     Table        a std::map, as the list of its entries in the order of their keys.
--     Logic        DiscoveryLogic: the peers that announced themselves. Times are milliseconds.
--   Socket       internal/Socket/IPv4Address.h, and SocketAddress of SocketTypes.h.
--   Text         std::to_string and std::from_chars, which Beacon.h and IPv4Address.h use.
--   Common       lists, Boolean tests, bits and machine words that all of them share.
--
-- The paths are below src/. Beacons and control messages use the reader and the writer of Wire; a
-- beacon starts as every datagram of Header does. Each part has its theorems in child modules, and its
-- examples in a child Tests.
--
-- Numbers are natural numbers; where the code computes in uint64_t the remainder of 2 ^ 64 is written
-- out, and a theorem says which numbers fit. Bytes are numbers below 256. The loop of skipExt runs on
-- fuel, one more than the bytes of the extension: every round takes at least two of them. The loop of
-- decodeAck runs for the number of ranges that the size of the body gives. The loop of
-- drainReorderBuffer runs for one round more than there are entries, since each round takes one out; a
-- loop over seqs runs for their number; and the loops of detectLosses and onTimer are recursion on the
-- records of what was sent. Times of a link are microseconds, its timings milliseconds. to_string has
-- 20 digits at most, enough for 64 bits. std::ranges::sort is an insertion sort.
--
-- The sockets, the network adapters, the threads and the logging are input and output and are not
-- modelled.
pub mod Common
pub mod Constants
pub mod Protocol
pub mod SequenceBuffer
pub mod Fragmentation
pub mod Mailbox
pub mod RttEstimator
pub mod Double
pub mod SendScheduler
pub mod ReliableLink
pub mod Engine
pub mod Session
pub mod Text
pub mod Socket
pub mod Discovery
