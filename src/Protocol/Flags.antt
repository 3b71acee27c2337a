-- ===== src/Protocol/Flags.antt =====
-- src/internal/Channel/Protocol/PacketFlags.h: the flags byte of a datagram.
pub mod Lanes
pub mod Fields
pub mod Validity
mod Tests
use net_link.Common.{
  ℕ, ◌-◌, ◌*◌, ◌/◌, ◌^◌, ◌==◌, if◌then◌else◌, Bool, true, false, ◌&&◌, ◌||◌, not, bit_and, bit_or,
}

pub data PacketKind : Type 0 where
  data_kind ack_kind ping_kind beacon_kind : PacketKind

-- `std::to_underlying` and `static_cast<PacketKind>` of a number of two bits.
abbrev pub kind_value : PacketKind → ℕ
kind_value data_kind = 0
kind_value ack_kind = 1
kind_value ping_kind = 2
kind_value beacon_kind = 3

abbrev pub kind_of : ℕ → PacketKind
kind_of v =
    if v == 0
    then data_kind
    else if v == 1
    then ack_kind
    else if v == 2
    then ping_kind
    else beacon_kind

abbrev pub kind_eq : PacketKind → PacketKind → Bool
kind_eq a b = kind_value a == kind_value b

pub data Lane : Type 0 where
  control reliable bulk media : Lane

abbrev pub lane_value : Lane → ℕ
lane_value control = 0
lane_value reliable = 1
lane_value bulk = 2
lane_value media = 3

abbrev pub lane_of : ℕ → Lane
lane_of v = if v == 0 then control else if v == 1 then reliable else if v == 2 then bulk else media

abbrev pub lane_eq : Lane → Lane → Bool
lane_eq a b = lane_value a == lane_value b

pub data FlagBit : Type 0 where
  fragmented last_fragment paused encrypted : FlagBit

abbrev pub bit_value : FlagBit → ℕ
bit_value fragmented = 2 ^ 4
bit_value last_fragment = 2 ^ 5
bit_value paused = 2 ^ 6
bit_value encrypted = 2 ^ 7

pub record PacketFlags : Type 0 where
  pub bits : ℕ

abbrev pub kind_mask : ℕ
kind_mask = 0x03

abbrev pub lane_mask : ℕ
lane_mask = 0x0C

abbrev pub lane_shift : ℕ
lane_shift = 2

abbrev pub from_raw : ℕ → PacketFlags
from_raw raw = record { bits = raw }

unfoldable pub kind : PacketFlags → PacketKind
kind f = kind_of (bit_and f.bits kind_mask)

unfoldable pub lane : PacketFlags → Lane
lane f = lane_of (bit_and f.bits lane_mask / 2 ^ lane_shift)

unfoldable pub has : FlagBit → PacketFlags → Bool
has b f = not (bit_and f.bits (bit_value b) == 0)

unfoldable pub is_fragmented : PacketFlags → Bool
unfolding has
is_fragmented f = has fragmented f

unfoldable pub is_last_fragment : PacketFlags → Bool
unfolding has
is_last_fragment f = has last_fragment f

unfoldable pub is_paused : PacketFlags → Bool
unfolding has
is_paused f = has paused f

-- `~mask` of a byte is `255 - mask`.
unfoldable pub set_kind : PacketKind → PacketFlags → PacketFlags
set_kind k f = from_raw (bit_or (bit_and f.bits (255 - kind_mask)) (kind_value k))

unfoldable pub set_lane : Lane → PacketFlags → PacketFlags
set_lane l f = from_raw (bit_or (bit_and f.bits (255 - lane_mask)) (lane_value l * 2 ^ lane_shift))

unfoldable pub set : FlagBit → Bool → PacketFlags → PacketFlags
set b on f =
    if on
    then from_raw (bit_or f.bits (bit_value b))
    else from_raw (bit_and f.bits (255 - bit_value b))

unfoldable pub set_fragment : Bool → Bool → PacketFlags → PacketFlags
unfolding set
set_fragment is_fragment is_last f =
    set last_fragment (is_fragment && is_last) (set fragmented is_fragment f)

-- Rejects reserved bits and combinations no sender produces.
unfoldable pub is_valid : PacketFlags → Bool
unfolding kind lane has is_fragmented is_last_fragment is_paused
is_valid f =
    if has encrypted f
    then false
    else if is_last_fragment f && not (is_fragmented f)
    then false
    else if is_fragmented f && not (kind_eq (kind f) data_kind)
    then false
    else if is_paused f && not (kind_eq (kind f) ack_kind)
    then false
    else if (kind_eq (kind f) ack_kind || kind_eq (kind f) ping_kind) && lane_eq (lane f) media
    then false
    else if kind_eq (kind f) beacon_kind && not (bit_and f.bits (255 - kind_mask) == 0)
    then false
    else true

-- The flags of the packets that a link sends.
unfoldable pub data_flags : Lane → PacketFlags
unfolding set_kind set_lane
data_flags l = set_lane l (set_kind data_kind (from_raw 0))

unfoldable pub ack_flags : Lane → Bool → PacketFlags
unfolding set_kind set_lane set
ack_flags l is_paused = set paused is_paused (set_lane l (set_kind ack_kind (from_raw 0)))

unfoldable pub ping_flags : Lane → PacketFlags
unfolding set_kind set_lane
ping_flags l = set_lane l (set_kind ping_kind (from_raw 0))
