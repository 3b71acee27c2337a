-- ===== src/Protocol/Header/Packets.antt =====
-- PacketHeader.h: whole datagrams, `encodePacket` and `decodePacket`.
use net_link.Common.{
  ℕ, ◌-◌, ◌≤◌, ◌≡◌, true, List, ◌++◌, length, length-append, All, IsByte, some, le→ltb, arith,
}
use net_link.Constants.{max_datagram_size}
use net_link.Protocol.Flags.{ack_kind, kind}
use net_link.Protocol.Flags.Validity.{fragmented_data}
use net_link.Protocol.Header.{
  PacketHeader, DecodedPacket, encode_header, encode_packet, decode_header, is_body_size_valid,
  decode_packet, encoded_size, starts_message, starts_fragmented_message, base_header_size,
}
use net_link.Protocol.Header.Valid.{IsWellFormed, length-encode_header}
use net_link.Protocol.Header.RoundTrip.{decode-encode_header}
use net_link.Protocol.Header.Canonical.{encode-decode_header}

-- A packet with a body of a valid size fits into one datagram; an Ack's body has what is left of it
-- behind the header.
length-encode_packet :
    (h : PacketHeader) (body : List ℕ)
    → IsWellFormed h
    → (kind h.flags ≡ ack_kind → length body ≤ max_datagram_size - base_header_size)
    → is_body_size_valid h (length body) ≡ true
    → length (encode_packet h body) ≤ max_datagram_size
unfolding encode_packet is_body_size_valid encoded_size starts_message starts_fragmented_message
length-encode_packet h body w ack valid = ground (
  arith,
  length-append (encode_header h) body,
  length-encode_header h,
  w.not_beacon,
  fragmented_data h.flags w.valid,
)

pub decode-encode_packet :
    (h : PacketHeader) (body : List ℕ)
    → IsWellFormed h
    → (kind h.flags ≡ ack_kind → length body ≤ max_datagram_size - base_header_size)
    → is_body_size_valid h (length body) ≡ true
    → decode_packet (encode_packet h body) ≡ some (record { header = h; body = body })
unfolding decode_packet encode_packet
decode-encode_packet h body w ack valid = rw (
  le→ltb max_datagram_size (length (encode_header h ++ body))
      (length-encode_packet h body w ack valid),
  decode-encode_header h body w,
  valid,
)

packet_inv :
    (d : List ℕ) (p : DecodedPacket)
    → decode_packet d ≡ some p
    → (length d ≤ max_datagram_size)
      × (decode_header d ≡ some p)
      × (is_body_size_valid p.header (length p.body) ≡ true)
unfolding decode_packet
packet_inv d p e = ground arith

-- It takes nothing else: no longer datagram, no other header, no body of another size.
pub encode-decode_packet :
    (d : List ℕ) {p : DecodedPacket}
    → All IsByte d
    → decode_packet d ≡ some p
    → (length d ≤ max_datagram_size)
      × IsWellFormed p.header
      × (is_body_size_valid p.header (length p.body) ≡ true)
      × (encode_packet p.header p.body ≡ d)
unfolding encode_packet
encode-decode_packet d {p} b e =
    let (short, decoded, valid) = packet_inv d p e in
    let (well, whole) = encode-decode_header d b decoded in (short, well, valid, whole)
