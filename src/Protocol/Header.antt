-- ===== src/Protocol/Header.antt =====
-- src/internal/Channel/Protocol/PacketHeader.h: the header of a datagram and its encoding.
pub mod Valid
pub mod Parts
pub mod RoundTrip
pub mod Inversion
pub mod Canonical
pub mod Packets
pub mod Foreign
mod Tests
use net_link.Common.{
  ℕ, suc, ◌+◌, ◌-◌, ◌/◌, ◌==◌, ltb, leb, if◌then◌else◌, Bool, true, false, ◌&&◌, ◌||◌, not, List,
  [], ◌∷◌, ◌++◌, length, drop, get_or, Option, none, some, ◌>>=◌,
}
use net_link.Constants.{max_message_payload, max_media_payload, max_datagram_size}
use net_link.Protocol.ByteOrder.{
  write_uint16, write_uint32, write_uint64, read_uint16, read_uint32, read_uint64,
}
use net_link.Protocol.Flags.{
  PacketFlags, PacketKind, data_kind, ack_kind, ping_kind, beacon_kind, kind_eq, Lane, media,
  lane_eq, from_raw, kind, lane, is_fragmented, is_last_fragment, is_valid,
}

abbrev pub protocol_magic : ℕ
protocol_magic = 0x4E4C

abbrev pub protocol_version : ℕ
protocol_version = 3

abbrev pub base_header_size : ℕ
base_header_size = 20

abbrev pub fragment_extension_size : ℕ
fragment_extension_size = 4

abbrev pub tag_extension_size : ℕ
tag_extension_size = 4

abbrev pub length_extension_size : ℕ
length_extension_size = 4

abbrev pub max_header_size : ℕ
max_header_size =
    base_header_size + fragment_extension_size + tag_extension_size + length_extension_size

-- Every fragment of a message but the last one carries exactly this many bytes.
abbrev pub max_fragment_body : ℕ
max_fragment_body = max_datagram_size - max_header_size

unfoldable pub fragments_of : ℕ → ℕ
fragments_of length =
    if length == 0 then 1 else (length + max_fragment_body - 1) / max_fragment_body

-- The largest message that a lane carries.
unfoldable pub max_message_size : Lane → ℕ
max_message_size l = if lane_eq l media then max_media_payload else max_message_payload

pub record PacketHeader : Type 0 where
  pub flags : PacketFlags
  pub src_stream_id : ℕ
  pub dst_stream_id : ℕ
  pub seq : ℕ
  pub frag_index : ℕ
  pub frag_count : ℕ
  pub tag : ℕ
  pub total_length : ℕ

unfoldable pub starts_message : PacketHeader → Bool
starts_message h =
    kind_eq (kind h.flags) data_kind && (not (is_fragmented h.flags) || h.frag_index == 0)

unfoldable pub starts_fragmented_message : PacketHeader → Bool
starts_fragmented_message h = is_fragmented h.flags && h.frag_index == 0

unfoldable pub encoded_size : PacketHeader → ℕ
encoded_size h =
    base_header_size
    + (if is_fragmented h.flags then fragment_extension_size else 0)
    + (if starts_message h then tag_extension_size else 0)
    + (if starts_fragmented_message h then length_extension_size else 0)

pub record DecodedPacket : Type 0 where
  pub header : PacketHeader
  pub body : List ℕ

-- The bytes that `encodeHeader` writes, in the order of their offsets; it returns their number.
pub base_header : PacketHeader → List ℕ
base_header h =
    write_uint16 protocol_magic
    ++ (protocol_version
        ∷ h.flags.bits
        ∷ (write_uint32 h.src_stream_id ++ (write_uint32 h.dst_stream_id ++ write_uint64 h.seq)))

pub fragment_extension : PacketHeader → List ℕ
fragment_extension h =
    if is_fragmented h.flags then write_uint16 h.frag_index ++ write_uint16 h.frag_count else []

pub tag_extension : PacketHeader → List ℕ
tag_extension h = if starts_message h then write_uint32 h.tag else []

pub length_extension : PacketHeader → List ℕ
length_extension h = if starts_fragmented_message h then write_uint32 h.total_length else []

pub encode_header : PacketHeader → List ℕ
encode_header h = base_header h ++ (fragment_extension h ++ (tag_extension h ++ length_extension h))

pub encode_packet : PacketHeader → List ℕ → List ℕ
encode_packet h body = encode_header h ++ body

-- The parts of `decodeHeader` that follow the base header. Each takes the header so far and the
-- number of bytes that are read (`size`), and returns both.
pub decode_fragment : List ℕ → PacketHeader × ℕ → Option (PacketHeader × ℕ)
decode_fragment datagram (h, size) =
    let frag_index = read_uint16 (drop size datagram) in
    let frag_count = read_uint16 (drop (size + 2) datagram) in
    if not (is_fragmented h.flags)
    then some (h, size)
    else if ltb (length datagram) (size + fragment_extension_size)
    then none
    else if ltb frag_count 2
        || ltb (fragments_of (max_message_size (lane h.flags))) frag_count
        || leb frag_count frag_index
    then none
    else if not (is_last_fragment h.flags) && frag_index + 1 == frag_count
        || is_last_fragment h.flags && not (frag_index + 1 == frag_count)
    then none
    else some (
      record h { frag_index = frag_index; frag_count = frag_count },
      size + fragment_extension_size,
    )

pub decode_tag : List ℕ → PacketHeader × ℕ → Option (PacketHeader × ℕ)
decode_tag datagram (h, size) =
    if not (starts_message h)
    then some (h, size)
    else if ltb (length datagram) (size + tag_extension_size)
    then none
    else some (record h { tag = read_uint32 (drop size datagram) }, size + tag_extension_size)

pub decode_length : List ℕ → PacketHeader × ℕ → Option (PacketHeader × ℕ)
decode_length datagram (h, size) =
    let total_length = read_uint32 (drop size datagram) in
    if not (starts_fragmented_message h)
    then some (h, size)
    else if ltb (length datagram) (size + length_extension_size)
    then none
    else if ltb (max_message_size (lane h.flags)) total_length
        || not (fragments_of total_length == h.frag_count)
    then none
    else some (record h { total_length = total_length }, size + length_extension_size)

-- The fields of the base header; the others are as a new header has them.
pub base_fields : List ℕ → PacketHeader
base_fields datagram = record {
  flags = from_raw (get_or datagram 3 0);
  src_stream_id = read_uint32 (drop 4 datagram);
  dst_stream_id = read_uint32 (drop 8 datagram);
  seq = read_uint64 (drop 12 datagram);
  frag_index = 0;
  frag_count = 0;
  tag = 0;
  total_length = 0;
}

pub decode_base : List ℕ → Option (PacketHeader × ℕ)
decode_base datagram =
    let h = base_fields datagram in
    if ltb (length datagram) base_header_size
    then none
    else if not (read_uint16 datagram == protocol_magic)
        || not (get_or datagram 2 0 == protocol_version)
    then none
    else if not (is_valid h.flags) || kind_eq (kind h.flags) beacon_kind
    then none
    else if h.src_stream_id == 0 || kind_eq (kind h.flags) data_kind && h.seq == 0
    then none
    else some (h, base_header_size)

pub decode_header : List ℕ → Option DecodedPacket
decode_header datagram = do
  base ← decode_base datagram
  fragment ← decode_fragment datagram base
  tagged ← decode_tag datagram fragment
  (h, size) ← decode_length datagram tagged
  some (record { header = h; body = drop size datagram })

-- Nothing carries bytes that it has no use for.
pub is_body_size_valid : PacketHeader → ℕ → Bool
is_body_size_valid h size = elim (kind h.flags) [
  | data_kind ↦
      if not (is_fragmented h.flags)
      then leb size max_fragment_body
      else if is_last_fragment h.flags
      then ltb 0 size && leb size max_fragment_body
      else size == max_fragment_body
  | ping_kind ↦ size == 0
  | _ ↦ true
]

pub decode_packet : List ℕ → Option DecodedPacket
decode_packet datagram = if ltb max_datagram_size (length datagram) then none else do
  packet ← decode_header datagram
  if is_body_size_valid packet.header (length packet.body) then some packet else none
