-- ===== src/Discovery/Beacon.antt =====
-- src/internal/Discovery/Beacon.h: the datagram that an engine announces itself with.
pub mod Codec
mod Version
mod Tests
use net_link.Common.{
  ℕ, zero, suc, ◌+◌, ◌-◌, ◌*◌, ◌%◌, ◌^◌, ◌==◌, ltb, leb, if◌then◌else◌, Bool, true, false, ◌&&◌,
  ◌||◌, not, List, [], ◌∷◌, ◌++◌, length, drop, get_or, bit_and, bit_xor, Option, none, some,
}
use net_link.Constants.{max_datagram_size}
use net_link.Protocol.ByteOrder.{read_uint16}
use net_link.Protocol.Flags.{kind_value, beacon_kind}
use net_link.Protocol.Header.{protocol_magic, protocol_version}
use net_link.Protocol.Wire.{
  WireWriter, write_u8, write_u16, write_u64, write_text, WireReader, Read, return, ◌>>=◌, reader,
  read_u8, read_u16, read_u64, read_text, complete,
}
use net_link.Session.{write_ext, skip_ext}
use net_link.Text.{to_string, from_chars}

-- FNV-1a, 64 bit.
abbrev pub fnv_offset : ℕ
fnv_offset = 0xCBF29CE484222325

abbrev pub fnv_prime : ℕ
fnv_prime = 0x100000001B3

hash_from : ℕ → List ℕ → ℕ
hash_from hash [] = hash
hash_from hash (c ∷ cs) = hash_from (bit_xor hash c * fnv_prime % 2 ^ 64) cs

pub hash_app_id : List ℕ → ℕ
unfolding hash_from
hash_app_id app_id = hash_from fnv_offset app_id

pub record AppVersion : Type 0 where
  pub ver_major : ℕ
  pub ver_minor : ℕ

pub version_to_string : AppVersion → List ℕ
version_to_string v = to_string v.ver_major ++ (b'.' ∷ to_string v.ver_minor)

-- Missing or unparsable components count as 0.
pub version_number : List ℕ → ℕ
version_number text = elim (from_chars (2 ^ 16) text) [ none ↦ 0 | some value ↦ value ]

-- `text.substr(0, text.find('.'))`.
pub before_dot : List ℕ → List ℕ
before_dot [] = []
before_dot (c ∷ cs) = if c == b'.' then [] else c ∷ before_dot cs

-- `text.substr(text.find('.') + 1)`, if there is one.
after_dot : List ℕ → Option (List ℕ)
after_dot [] = none
after_dot (c ∷ cs) = if c == b'.' then some cs else after_dot cs

-- The minor number, if there is a dot in front of one.
abbrev pub minor_part : Option (List ℕ) → ℕ
minor_part none = 0
minor_part (some rest) = version_number (before_dot rest)

pub parse_app_version : List ℕ → AppVersion
parse_app_version version = record {
  ver_major = version_number (before_dot version);
  ver_minor = minor_part (after_dot version);
}

pub record Beacon : Type 0 where
  pub instance_id : ℕ
  pub app_id_hash : ℕ
  pub version : AppVersion
  pub reply : Bool
  pub name : List ℕ

abbrev pub beacon_prefix_size : ℕ
beacon_prefix_size = 4

abbrev pub beacon_reply_flag : ℕ
beacon_reply_flag = 0x01

-- Whether the datagram claims to be a beacon of this protocol version.
unfoldable pub is_beacon : List ℕ → Bool
is_beacon datagram =
    leb beacon_prefix_size (length datagram)
    && read_uint16 datagram == protocol_magic
    && get_or datagram 2 0 == protocol_version
    && get_or datagram 3 0 == kind_value beacon_kind

pub encode_beacon : Beacon → List ℕ
unfolding write_u8 write_u16 write_u64 write_text write_ext
encode_beacon b =
    let prefix =
      write_u8 (kind_value beacon_kind) (write_u8 protocol_version (write_u16 protocol_magic [])) in
    let ids = write_u64 b.app_id_hash (write_u64 b.instance_id prefix) in
    let version = write_u16 b.version.ver_minor (write_u16 b.version.ver_major ids) in
    write_ext (write_text b.name (write_u8 (if b.reply then beacon_reply_flag else 0) version))

-- The fields of the beacon, and its flags.
pub read_beacon : Read (Beacon × ℕ)
read_beacon = do
  instance_id ← read_u64
  app_id_hash ← read_u64
  ver_major ← read_u16
  ver_minor ← read_u16
  flags ← read_u8
  name ← read_text
  return (
    record {
      instance_id = instance_id;
      app_id_hash = app_id_hash;
      version = record { ver_major = ver_major; ver_minor = ver_minor };
      reply = not (bit_and flags beacon_reply_flag == 0);
      name = name;
    },
    flags,
  )

unfoldable pub decode_beacon : List ℕ → Option Beacon
unfolding is_beacon
decode_beacon datagram =
    let ((b, flags), after) = read_beacon (reader (drop beacon_prefix_size datagram)) in
    let (skipped, rest) = skip_ext after in
    if not (is_beacon datagram) || ltb max_datagram_size (length datagram)
    then none
    else if not (bit_and flags (255 - beacon_reply_flag) == 0)
        || not skipped
        || not (complete rest)
        || b.instance_id == 0
    then none
    else some b
