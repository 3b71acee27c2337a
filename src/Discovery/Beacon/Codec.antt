-- ===== src/Discovery/Beacon/Codec.antt =====
-- Beacon.h: a beacon is read as it was written, and is never taken for a packet of a link.
use net_link.Common.{
  ℕ, ◌-◌, ◌≤◌, ◌≡◌, ◌≢◌, refl, ap, ◌∙◌, ◌==◌, if◌then◌else◌, Bool, true, false, not, List, [], ◌∷◌,
  ◌++◌, append_assoc, append-nil, length, length-append, length-take, min, drop, le→ltb, bit_and,
  none, some, IsU16, IsU64, arith,
}
use net_link.Constants.{max_datagram_size}
use net_link.Protocol.ByteOrder.{write_uint16, write_uint64, read_uint16}
use net_link.Protocol.Flags.{kind_value, beacon_kind}
use net_link.Protocol.Header.{protocol_magic, protocol_version, decode_header}
use net_link.Protocol.Header.Foreign.{decode_header-beacon}
use net_link.Protocol.Wire.{reader}
use net_link.Protocol.Wire.Laws.{
  read_u8-cons, read_u16-append, read_u64-append, read_text-append, cut_text, text_bytes,
  complete-reader,
}
use net_link.Session.Ext.{Fields, none_left, ext_bytes, skip_ext_taken, skip_ext_refused}
use net_link.Discovery.Beacon.{
  Beacon, beacon_prefix_size, beacon_reply_flag, is_beacon, encode_beacon, read_beacon,
  decode_beacon,
}

pub record IsAnnouncement (b : Beacon) : Type 0 where
  pub id_pos : b.instance_id ≢ 0
  pub id_fits : IsU64 b.instance_id
  pub app_fits : IsU64 b.app_id_hash
  pub major_fits : IsU16 b.version.ver_major
  pub minor_fits : IsU16 b.version.ver_minor

abbrev flag_byte : Beacon → ℕ
flag_byte b = if b.reply then beacon_reply_flag else 0

-- The fields of a beacon with an extension, behind the prefix that every datagram starts with.
abbrev field_bytes : Beacon → List ℕ → List ℕ
field_bytes b rest =
    write_uint64 b.instance_id
    ++ (write_uint64 b.app_id_hash
        ++ (write_uint16 b.version.ver_major
            ++ (write_uint16 b.version.ver_minor ++ (flag_byte b ∷ (text_bytes b.name ++ rest)))))

abbrev pub beacon_bytes : Beacon → List ℕ → List ℕ
beacon_bytes b ext =
    write_uint16 protocol_magic
    ++ (protocol_version ∷ kind_value beacon_kind ∷ field_bytes b (ext_bytes ext))

pub encode_beacon_lem : (b : Beacon) → encode_beacon b ≡ beacon_bytes b []
unfolding encode_beacon
encode_beacon_lem b = simp (append_assoc, append-nil)

flag_read :
    (r : Bool) → not (bit_and (if r then beacon_reply_flag else 0) beacon_reply_flag == 0) ≡ r
flag_read true = refl
flag_read false = refl

reserved_clear :
    (r : Bool) → bit_and (if r then beacon_reply_flag else 0) (255 - beacon_reply_flag) ≡ 0
reserved_clear true = refl
reserved_clear false = refl

read_beacon-append :
    (b : Beacon) (rest : List ℕ)
    → IsAnnouncement b
    → read_beacon (reader (field_bytes b rest))
      ≡ ((record b { name = cut_text b.name }, flag_byte b), reader rest)
unfolding read_beacon
read_beacon-append b rest v =
    rw
      (
        read_u64-append b.instance_id _ v.id_fits,
        read_u64-append b.app_id_hash _ v.app_fits,
        read_u16-append b.version.ver_major _ v.major_fits,
        read_u16-append b.version.ver_minor _ v.minor_fits,
        read_u8-cons (flag_byte b) (text_bytes b.name ++ rest),
        read_text-append b.name rest,
      )
      (λ i. (
        (record b { reply = flag_read b.reply i; name = cut_text b.name }, flag_byte b),
        reader rest,
      ))

fields_behind_prefix :
    (b : Beacon) (ext : List ℕ)
    → drop beacon_prefix_size (beacon_bytes b ext) ≡ field_bytes b (ext_bytes ext)
unfolding write_uint16
fields_behind_prefix b ext = refl

pub beacon_bytes-is_beacon : (b : Beacon) (ext : List ℕ) → is_beacon (beacon_bytes b ext) ≡ true
unfolding is_beacon write_uint16 read_uint16
beacon_bytes-is_beacon b ext = ground arith

-- A beacon of at most 1200 bytes is read as it was written, its name cut to 255 bytes, with any
-- extension that is whole fields; with any other it is dropped.
pub decode_beacon-bytes :
    (b : Beacon) (ext : List ℕ)
    → IsAnnouncement b
    → IsU16 (length ext)
    → length (beacon_bytes b ext) ≤ max_datagram_size
    → (Fields ext → decode_beacon (beacon_bytes b ext) ≡ some (record b { name = cut_text b.name }))
      × (¬ Fields ext → decode_beacon (beacon_bytes b ext) ≡ none)
unfolding decode_beacon
decode_beacon-bytes b ext v fits small = (
  λ f.
      rw
        (
          beacon_bytes-is_beacon b ext,
          le→ltb max_datagram_size (length (beacon_bytes b ext)) small,
          fields_behind_prefix b ext,
          read_beacon-append b (ext_bytes ext) v,
          skip_ext_taken ext fits f,
          complete-reader [],
          reserved_clear b.reply,
        )
        (ground (arith, v.id_pos)),
  λ f. rw (
    beacon_bytes-is_beacon b ext,
    le→ltb max_datagram_size (length (beacon_bytes b ext)) small,
    fields_behind_prefix b ext,
    read_beacon-append b (ext_bytes ext) v,
    skip_ext_refused ext fits f,
    reserved_clear b.reply,
  ),
)

beacon_bytes_fit : (b : Beacon) → length (beacon_bytes b []) ≤ max_datagram_size
unfolding write_uint16 write_uint64
beacon_bytes_fit b = omega (
  arith,
  length-append (cut_text b.name) (0 ∷ 0 ∷ []),
  length-take (min (length b.name) 255) b.name,
)

-- A beacon that `encode` wrote, its name cut to 255 bytes.
pub decode-encode_beacon :
    (b : Beacon)
    → IsAnnouncement b
    → decode_beacon (encode_beacon b) ≡ some (record b { name = cut_text b.name })
decode-encode_beacon b v =
    ap decode_beacon (encode_beacon_lem b)
    ∙ (decode_beacon-bytes b [] v (omega arith) (beacon_bytes_fit b)).0 (none_left refl)

-- A datagram that claims to be a beacon is not decoded as a packet of a link.
is_beacon-decode_header :
    (datagram : List ℕ) → is_beacon datagram ≡ true → decode_header datagram ≡ none
unfolding is_beacon
is_beacon-decode_header datagram e = decode_header-beacon datagram (ground arith)
