-- ===== src/Protocol/Flags/Tests.antt =====
-- PacketFlags.h: flags at work.
use net_link.Common.{◌≡◌, arith}
use net_link.Protocol.Flags.{PacketFlags, from_raw, is_valid}
use net_link.Protocol.Flags.Validity.{contains_flags, sender_flags, is_valid-eq-contains_flags}

-- A fragment on the bulk lane.
abbrev fragment_flags : PacketFlags
fragment_flags = from_raw 0x18

is_valid_example : is_valid fragment_flags ≡ contains_flags sender_flags fragment_flags
is_valid_example = is_valid-eq-contains_flags fragment_flags (omega arith)
