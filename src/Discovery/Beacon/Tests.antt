-- ===== src/Discovery/Beacon/Tests.antt =====
-- Beacon.h: beacons at work.
use net_link.Common.{◌≡◌, true, [], ◌∷◌, none, some, arith}
use net_link.Protocol.ByteOrder.{write_uint16, write_uint64}
use net_link.Protocol.Wire.Laws.{cut_text}
use net_link.Session.Ext.{Fields}
use net_link.Discovery.Beacon.{Beacon, decode_beacon}
use net_link.Discovery.Beacon.Codec.{IsAnnouncement, beacon_bytes, decode_beacon-bytes}

abbrev announcement : Beacon
announcement = record {
  instance_id = 17;
  app_id_hash = 99;
  version = record { ver_major = 1; ver_minor = 4 };
  reply = true;
  name = b'P' ∷ b'C' ∷ [];
}

announcement-IsAnnouncement : IsAnnouncement announcement
announcement-IsAnnouncement = record {
  id_pos = omega arith;
  id_fits = omega arith;
  app_fits = omega arith;
  major_fits = omega arith;
  minor_fits = omega arith;
}

decode_beacon-bytes_example :
    (Fields (200 ∷ 0 ∷ [])
      → decode_beacon (beacon_bytes announcement (200 ∷ 0 ∷ []))
        ≡ some (record announcement { name = cut_text announcement.name }))
    × (¬ Fields (200 ∷ 0 ∷ []) → decode_beacon (beacon_bytes announcement (200 ∷ 0 ∷ [])) ≡ none)
unfolding write_uint16 write_uint64
decode_beacon-bytes_example =
    decode_beacon-bytes announcement (200 ∷ 0 ∷ []) announcement-IsAnnouncement (omega arith)
      (omega arith)
