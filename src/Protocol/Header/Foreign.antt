-- ===== src/Protocol/Header/Foreign.antt =====
-- PacketHeader.h: what `decodeHeader` leaves to other decoders.
use net_link.Common.{ℕ, ◌≡◌, refl, ap, ◌∙◌, true, List, get_or, none, arith}
use net_link.Protocol.Flags.{kind_value, beacon_kind, from_raw, kind, kind_eq}
use net_link.Protocol.Header.{base_fields, decode_base, decode_header}

beacon_flags : kind_eq (kind (from_raw (kind_value beacon_kind))) beacon_kind ≡ true
unfolding kind
beacon_flags = refl

decode_base-beacon :
    (datagram : List ℕ) → get_or datagram 3 0 ≡ kind_value beacon_kind → decode_base datagram ≡ none
unfolding decode_base base_fields
decode_base-beacon datagram e =
    let is_kind : kind_eq (kind (from_raw (get_or datagram 3 0))) beacon_kind ≡ true =
      ap (λ bits. kind_eq (kind (from_raw bits)) beacon_kind) e ∙ beacon_flags in
    ground arith

-- A beacon is no packet of a link.
pub decode_header-beacon :
    (datagram : List ℕ)
    → get_or datagram 3 0 ≡ kind_value beacon_kind
    → decode_header datagram ≡ none
unfolding decode_header
decode_header-beacon datagram e = rw (decode_base-beacon datagram e)
