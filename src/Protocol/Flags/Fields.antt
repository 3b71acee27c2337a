-- ===== src/Protocol/Flags/Fields.antt =====
-- The setters of PacketFlags.h write one field each and leave the others alone.
use net_link.Common.{
  ℕ, ◌≡◌, refl, ◌==◌, if◌then◌else◌, ltb, ltb→lt, Bool, true, false, ◌&&◌, all_below,
  all_below_sound, IsByte, arith,
}
use net_link.Protocol.Flags.{
  PacketFlags, PacketKind, data_kind, ack_kind, ping_kind, beacon_kind, kind_eq, Lane, control,
  reliable, bulk, media, lane_eq, FlagBit, fragmented, last_fragment, paused, encrypted, bit_value,
  from_raw, kind, lane, has, set_kind, set_lane, set,
}

kind_eq→eq : (a b : PacketKind) → kind_eq a b ≡ true → a ≡ b
kind_eq→eq a b h = ground arith

lane_eq→eq : (a b : Lane) → lane_eq a b ≡ true → a ≡ b
lane_eq→eq a b h = ground arith

abbrev bool_eq : Bool → Bool → Bool
bool_eq true b = b
bool_eq false true = false
bool_eq false false = true

bool_eq→eq : (a b : Bool) → bool_eq a b ≡ true → a ≡ b
bool_eq→eq a b h = ground arith

and-true_both : (a b : Bool) → (a && b) ≡ true → (a ≡ true) × (b ≡ true)
and-true_both a b h = ground arith

-- Two flag bytes agree in everything that the four predicates and getters read.
abbrev same_bits : PacketFlags → PacketFlags → Bool
same_bits f g =
    bool_eq (has fragmented f) (has fragmented g)
    && (bool_eq (has last_fragment f) (has last_fragment g)
        && (bool_eq (has paused f) (has paused g) && bool_eq (has encrypted f) (has encrypted g)))

same_bits_sound : (f g : PacketFlags) → same_bits f g ≡ true → (b : FlagBit) → has b f ≡ has b g
same_bits_sound f g h fragmented = ground arith
same_bits_sound f g h last_fragment = ground arith
same_bits_sound f g h paused = ground arith
same_bits_sound f g h encrypted = ground arith

set_kind_row : PacketKind → ℕ → Bool
unfolding set_kind kind lane has
set_kind_row k b =
    let g = set_kind k (from_raw b) in
    kind_eq (kind g) k
    && (lane_eq (lane g) (lane (from_raw b)) && (ltb g.bits 256 && same_bits g (from_raw b)))

set_kind_table : (k : PacketKind) → all_below 256 (set_kind_row k) ≡ true
unfolding all_below set_kind_row
set_kind_table data_kind = refl
set_kind_table ack_kind = refl
set_kind_table ping_kind = refl
set_kind_table beacon_kind = refl

-- `setKind` writes the kind, and leaves the lane and every flag bit as they were.
set_kind_lem :
    (k : PacketKind) (f : PacketFlags)
    → IsByte f.bits
    → (kind (set_kind k f) ≡ k)
      × (lane (set_kind k f) ≡ lane f)
      × ((b : FlagBit) → has b (set_kind k f) ≡ has b f)
      × IsByte (set_kind k f).bits
unfolding set_kind_row
set_kind_lem k f h =
    let row = all_below_sound 256 (set_kind_row k) f.bits (set_kind_table k) h in
    let (r1, rest1) = and-true_both _ _ row in
    let (r2, rest2) = and-true_both _ _ rest1 in
    let (r3, r4) = and-true_both _ _ rest2 in
    (kind_eq→eq _ _ r1, lane_eq→eq _ _ r2, same_bits_sound _ _ r4, ltb→lt _ _ r3)

set_lane_row : Lane → ℕ → Bool
unfolding set_lane kind lane has
set_lane_row l b =
    let g = set_lane l (from_raw b) in
    lane_eq (lane g) l
    && (kind_eq (kind g) (kind (from_raw b)) && (ltb g.bits 256 && same_bits g (from_raw b)))

set_lane_table : (l : Lane) → all_below 256 (set_lane_row l) ≡ true
unfolding all_below set_lane_row
set_lane_table control = refl
set_lane_table reliable = refl
set_lane_table bulk = refl
set_lane_table media = refl

-- `setLane` writes the lane, and leaves the kind and every flag bit as they were.
set_lane_lem :
    (l : Lane) (f : PacketFlags)
    → IsByte f.bits
    → (lane (set_lane l f) ≡ l)
      × (kind (set_lane l f) ≡ kind f)
      × ((b : FlagBit) → has b (set_lane l f) ≡ has b f)
      × IsByte (set_lane l f).bits
unfolding set_lane_row
set_lane_lem l f h =
    let row = all_below_sound 256 (set_lane_row l) f.bits (set_lane_table l) h in
    let (r1, rest1) = and-true_both _ _ row in
    let (r2, rest2) = and-true_both _ _ rest1 in
    let (r3, r4) = and-true_both _ _ rest2 in
    (lane_eq→eq _ _ r1, kind_eq→eq _ _ r2, same_bits_sound _ _ r4, ltb→lt _ _ r3)

-- The flag bits are told apart by their values.
abbrev pub flag_eq : FlagBit → FlagBit → Bool
flag_eq a b = bit_value a == bit_value b

other_bit : FlagBit → Bool → ℕ → FlagBit → Bool
other_bit c on b d =
    let g = set c on (from_raw b) in
    if flag_eq d c then bool_eq (has d g) on else bool_eq (has d g) (has d (from_raw b))

set_row : FlagBit → Bool → ℕ → Bool
unfolding set has kind lane other_bit
set_row c on b =
    let g = set c on (from_raw b) in
    kind_eq (kind g) (kind (from_raw b))
    && (lane_eq (lane g) (lane (from_raw b))
        && (ltb g.bits 256
            && (other_bit c on b fragmented
                && (other_bit c on b last_fragment
                    && (other_bit c on b paused && other_bit c on b encrypted)))))

set_table : (c : FlagBit) (on : Bool) → all_below 256 (set_row c on) ≡ true
unfolding all_below set_row
set_table fragmented true = refl
set_table last_fragment true = refl
set_table paused true = refl
set_table encrypted true = refl
set_table fragmented false = refl
set_table last_fragment false = refl
set_table paused false = refl
set_table encrypted false = refl

other_bit_lem :
    (c : FlagBit) (on : Bool) (b : ℕ) (d : FlagBit)
    → other_bit c on b d ≡ true
    → has d (set c on (from_raw b)) ≡ (if flag_eq d c then on else has d (from_raw b))
unfolding other_bit
other_bit_lem c on b d h = ground (
  arith,
  bool_eq→eq (has d (set c on (from_raw b))) on,
  bool_eq→eq (has d (set c on (from_raw b))) (has d (from_raw b)),
)

other_bits :
    (c : FlagBit) (on : Bool) (b : ℕ)
    → (other_bit c on b fragmented
        && (other_bit c on b last_fragment
            && (other_bit c on b paused && other_bit c on b encrypted)))
      ≡ true
    → (d : FlagBit) → other_bit c on b d ≡ true
other_bits c on b h fragmented = ground arith
other_bits c on b h last_fragment = ground arith
other_bits c on b h paused = ground arith
other_bits c on b h encrypted = ground arith

-- `set` writes one flag bit, and leaves the other bits, the kind and the lane as they were.
set_lem :
    (c : FlagBit) (on : Bool) (f : PacketFlags)
    → IsByte f.bits
    → (kind (set c on f) ≡ kind f)
      × (lane (set c on f) ≡ lane f)
      × ((d : FlagBit) → has d (set c on f) ≡ (if flag_eq d c then on else has d f))
      × IsByte (set c on f).bits
unfolding set_row
set_lem c on f h =
    let row = all_below_sound 256 (set_row c on) f.bits (set_table c on) h in
    let (r1, rest1) = and-true_both _ _ row in
    let (r2, rest2) = and-true_both _ _ rest1 in
    let (r3, rest3) = and-true_both _ _ rest2 in
    (
      kind_eq→eq _ _ r1,
      lane_eq→eq _ _ r2,
      λ d. other_bit_lem c on f.bits d (other_bits c on f.bits rest3 d),
      ltb→lt _ _ r3,
    )
