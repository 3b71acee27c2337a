-- ===== src/Protocol/Header/Valid.antt =====
-- PacketHeader.h: the headers that a link of this protocol version sends.
use net_link.Common.{
  ◌+◌, ◌≤◌, ◌<◌, ◌≡◌, ◌≢◌, ◌==◌, if◌then◌else◌, Bool, true, false, ◌++◌, length, length-append,
  IsByte, IsU32, IsU64, arith,
}
use net_link.Protocol.ByteOrder.{
  write_uint16, length-write_uint16, length-write_uint32, length-write_uint64,
}
use net_link.Protocol.Flags.{
  data_kind, beacon_kind, kind, lane, is_fragmented, is_last_fragment, is_valid,
}
use net_link.Protocol.Header.{
  PacketHeader, fragments_of, max_message_size, max_header_size, starts_message,
  starts_fragmented_message, encoded_size, base_header, fragment_extension, tag_extension,
  length_extension, encode_header,
}

-- What the fields of a fragment's header say, and of any other.
abbrev pub FragmentFields : PacketHeader → Bool → Type 0
FragmentFields h true =
    (2 ≤ h.frag_count)
    × (h.frag_count ≤ fragments_of (max_message_size (lane h.flags)))
    × (h.frag_index < h.frag_count)
    × (is_last_fragment h.flags ≡ (h.frag_index + 1 == h.frag_count))
FragmentFields h false = (h.frag_index ≡ 0) × (h.frag_count ≡ 0)

abbrev pub TagField : PacketHeader → Bool → Type 0
TagField h true = IsU32 h.tag
TagField h false = h.tag ≡ 0

abbrev pub LengthField : PacketHeader → Bool → Type 0
LengthField h true =
    (h.total_length ≤ max_message_size (lane h.flags))
    × (fragments_of h.total_length ≡ h.frag_count)
LengthField h false = h.total_length ≡ 0

pub record IsWellFormed (h : PacketHeader) : Type 0 where
  pub byte : IsByte h.flags.bits
  pub valid : is_valid h.flags ≡ true
  pub not_beacon : kind h.flags ≢ beacon_kind
  pub src : IsU32 h.src_stream_id
  pub src_pos : h.src_stream_id ≢ 0
  pub dst : IsU32 h.dst_stream_id
  pub seq_fits : IsU64 h.seq
  pub data_seq : kind h.flags ≡ data_kind → h.seq ≢ 0
  pub fragment : FragmentFields h (is_fragmented h.flags)
  pub tagged : TagField h (starts_message h)
  pub total : LengthField h (starts_fragmented_message h)

pub length-base_header : (h : PacketHeader) → length (base_header h) ≡ 20
unfolding base_header
length-base_header h =
    simp (length-append, length-write_uint16, length-write_uint32, length-write_uint64)

pub length-fragment_extension :
    (h : PacketHeader) → length (fragment_extension h) ≡ (if is_fragmented h.flags then 4 else 0)
unfolding fragment_extension
length-fragment_extension h = ground (
  arith,
  length-append (write_uint16 h.frag_index) (write_uint16 h.frag_count),
  length-write_uint16 h.frag_index,
  length-write_uint16 h.frag_count,
)

pub length-tag_extension :
    (h : PacketHeader) → length (tag_extension h) ≡ (if starts_message h then 4 else 0)
unfolding tag_extension
length-tag_extension h = ground (arith, length-write_uint32 h.tag)

pub length-length_extension :
    (h : PacketHeader)
    → length (length_extension h) ≡ (if starts_fragmented_message h then 4 else 0)
unfolding length_extension
length-length_extension h = ground (arith, length-write_uint32 h.total_length)

-- The encoding of a header takes the number of bytes that `encodedSize` says, at most
-- `MaxHeaderSize`.
pub length-encode_header :
    (h : PacketHeader)
    → (length (encode_header h) ≡ encoded_size h) × (length (encode_header h) ≤ max_header_size)
unfolding encode_header encoded_size
length-encode_header h = ground (
  arith,
  length-append (base_header h) (fragment_extension h ++ (tag_extension h ++ length_extension h)),
  length-append (fragment_extension h) (tag_extension h ++ length_extension h),
  length-append (tag_extension h) (length_extension h),
  length-base_header h,
  length-fragment_extension h,
  length-tag_extension h,
  length-length_extension h,
)
