-- ===== src/Protocol/Flags/Validity.antt =====
-- PacketFlags.h: what `isValid` accepts, against the flags that the code builds for its packets.
use net_link.Common.{
  ℕ, ◌≡◌, refl, ◌==◌, if◌then◌else◌, Bool, true, false, ◌||◌, not, List, [], ◌∷◌, ◌++◌, all_below,
  all_below_sound, IsByte, arith,
}
use net_link.Protocol.Flags.{
  PacketFlags, Lane, control, reliable, bulk, media, from_raw, kind_value, beacon_kind, data_kind,
  kind, is_fragmented, is_valid, data_flags, ack_flags, ping_flags, set_fragment,
}

-- A data packet of a lane: a whole message, a fragment, or the last fragment.
abbrev pub data_packets : Lane → List PacketFlags
data_packets l =
    data_flags l
    ∷ set_fragment false true (data_flags l)
    ∷ set_fragment true false (data_flags l)
    ∷ set_fragment true true (data_flags l)
    ∷ []

-- What the receiver of a lane and the prober of a lane send.
abbrev pub answer_packets : Lane → List PacketFlags
answer_packets l = ack_flags l false ∷ ack_flags l true ∷ ping_flags l ∷ []

-- The flags of every packet that some part of the code puts on the wire.
abbrev pub sender_flags : List PacketFlags
sender_flags =
    data_packets control
    ++ (data_packets reliable
        ++ (data_packets bulk
            ++ (data_packets media
                ++ (answer_packets control
                    ++ (answer_packets reliable
                        ++ (answer_packets bulk ++ (from_raw (kind_value beacon_kind) ∷ [])))))))

pub contains_flags : List PacketFlags → PacketFlags → Bool
contains_flags [] f = false
contains_flags (g ∷ gs) f = f.bits == g.bits || contains_flags gs f

validity_row : ℕ → Bool
unfolding is_valid contains_flags data_flags ack_flags ping_flags set_fragment
validity_row b =
    if contains_flags sender_flags (from_raw b)
    then is_valid (from_raw b)
    else not (is_valid (from_raw b))

validity_table : all_below 256 validity_row ≡ true
unfolding all_below validity_row
validity_table = refl

validity_row_lem :
    (listed valid : Bool) → (if listed then valid else not valid) ≡ true → valid ≡ listed
validity_row_lem listed valid h = ground arith

-- Of the 256 flag bytes `isValid` accepts exactly those that the code builds for a packet: data of any
-- lane, whole or fragmented, acknowledgements and pings of the three acknowledged lanes, and the
-- beacon.
pub is_valid-eq-contains_flags :
    (f : PacketFlags) → IsByte f.bits → is_valid f ≡ contains_flags sender_flags f
unfolding validity_row
is_valid-eq-contains_flags f h =
    validity_row_lem _ _ (all_below_sound 256 validity_row f.bits validity_table h)

-- Only data is fragmented.
pub fragmented_data :
    (f : PacketFlags) → is_valid f ≡ true → is_fragmented f ≡ true → kind f ≡ data_kind
unfolding is_valid
fragmented_data f valid fragmented = ground arith
