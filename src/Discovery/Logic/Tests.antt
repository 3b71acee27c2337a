-- ===== src/Discovery/Logic/Tests.antt =====
-- DiscoveryLogic.cpp: an engine that hears of another one.
use net_link.Common.{ℕ, ◌≡◌, ◌≢◌, refl, true, false, [], ◌∷◌, none, arith}
use net_link.Socket.Address.{SocketAddress, is_netmask}
use net_link.Discovery.Beacon.{Beacon, is_beacon, encode_beacon, decode_beacon}
use net_link.Discovery.Beacon.Codec.{IsAnnouncement, decode-encode_beacon}
use net_link.Discovery.Table.{lookup}
use net_link.Discovery.Logic.{DiscoveryLogic, is_foreign, is_in_subnet, on_beacon, peer_of}
use net_link.Discovery.Logic.Peers.{
  IsValid, beacon_came, handle, handle-IsValid, Says, on_beacon_lem,
}

abbrev other : Beacon
other = record {
  instance_id = 17;
  app_id_hash = 99;
  version = record { ver_major = 1; ver_minor = 4 };
  reply = false;
  name = b'P' ∷ b'C' ∷ [];
}

abbrev home : SocketAddress
home = record { ip = record { value = 0x0A000001 }; port = 4000 }

-- Without a netmask.
abbrev engine : DiscoveryLogic
engine = record {
  identity = record {
    instance_id = 5;
    app_id_hash = 99;
    version = record { ver_major = 1; ver_minor = 4 };
    name = [];
  };
  local_ip = record { value = 0x0A000002 };
  mask = record { value = 0 };
  announcing = true;
  peers = (17, record { peer = peer_of other home; last_seen = 3 }) ∷ [];
}

engine-IsValid : IsValid engine
engine-IsValid = record {
  ascending = (tt, tt);
  few = omega arith;
  entries = ((omega arith, refl, omega arith), tt);
}

other-IsAnnouncement : IsAnnouncement other
other-IsAnnouncement = record {
  id_pos = omega arith;
  id_fits = omega arith;
  app_fits = omega arith;
  major_fits = omega arith;
  minor_fits = omega arith;
}

other_not_foreign : is_foreign other home engine ≡ false
unfolding is_foreign is_in_subnet is_netmask
other_not_foreign = refl

handle-IsValid_example : IsValid (handle (beacon_came home (encode_beacon other) 9) engine)
handle-IsValid_example =
    handle-IsValid (beacon_came home (encode_beacon other) 9) engine engine-IsValid

on_beacon_lem_example :
    Says other home 9 (lookup 17 (on_beacon home (encode_beacon other) 9 engine).1.peers)
    × ((j : ℕ)
        → j ≢ 17
        → lookup j (on_beacon home (encode_beacon other) 9 engine).1.peers ≡ lookup j engine.peers)
on_beacon_lem_example =
    on_beacon_lem home (encode_beacon other) 9 engine other
      (decode-encode_beacon other other-IsAnnouncement) other_not_foreign (λ e. omega arith)

nothing_decoded : decode_beacon [] ≡ none
unfolding decode_beacon is_beacon
nothing_decoded = refl
