-- ===== src/Discovery/Logic.antt =====
-- src/internal/Discovery/DiscoveryLogic.h and .cpp: the peers that announced themselves. A time is the
-- number of milliseconds since some start, and a peer is found by the number of its PeerId.
pub mod Peers
mod Tests
use net_link.Common.{
  ℕ, ◌-◌, ◌==◌, ltb, leb, if◌then◌else◌, Bool, true, false, ◌&&◌, ◌||◌, not, List, [], ◌∷◌, length,
  Option, none, some,
}
use net_link.Text.{to_string}
use net_link.Socket.Address.{
  IPv4Address, SocketAddress, address_eq, address_to_string, is_netmask, same_subnet,
  subnet_broadcast, everyone,
}
use net_link.Discovery.Beacon.{AppVersion, Beacon, version_to_string, encode_beacon, decode_beacon}
use net_link.Discovery.Table.{lookup, put, keep_if, keys}

-- `std::string` equality.
abbrev pub text_eq : List ℕ → List ℕ → Bool
text_eq [] [] = true
text_eq [] (d ∷ ds) = false
text_eq (c ∷ cs) [] = false
text_eq (c ∷ cs) (d ∷ ds) = c == d && text_eq cs ds

abbrev pub version_eq : AppVersion → AppVersion → Bool
version_eq v w = v.ver_major == w.ver_major && v.ver_minor == w.ver_minor

abbrev pub max_display_name : ℕ
max_display_name = 64

abbrev pub max_discovered_peers : ℕ
max_discovered_peers = 1024

-- Six seconds.
abbrev pub peer_expiry : ℕ
peer_expiry = 6000

pub record LocalIdentity : Type 0 where
  pub instance_id : ℕ
  pub app_id_hash : ℕ
  pub version : AppVersion
  pub name : List ℕ

pub record PeerInfo : Type 0 where
  pub id : ℕ
  pub display_name : List ℕ
  pub address : List ℕ
  pub port : ℕ
  pub app_version : List ℕ

pub record KnownPeer : Type 0 where
  pub info : PeerInfo
  pub endpoint : SocketAddress

pub data Sighting : Type 0 where
  ignored known new : Sighting

-- The pointer to the peer is what it points to.
pub record Seen : Type 0 where
  pub sighting : Sighting
  pub peer : Option KnownPeer
  pub reply : Bool

pub record Entry : Type 0 where
  pub peer : KnownPeer
  pub last_seen : ℕ

pub record DiscoveryLogic : Type 0 where
  pub identity : LocalIdentity
  pub local_ip : IPv4Address
  pub mask : IPv4Address
  pub announcing : Bool
  pub peers : List (ℕ × Entry)

pub set_interface : IPv4Address → IPv4Address → DiscoveryLogic → DiscoveryLogic
set_interface ip mask d = record d { local_ip = ip; mask = mask }

pub clear_peers : DiscoveryLogic → List ℕ × DiscoveryLogic
clear_peers d = (keys d.peers, record d { peers = [] })

pub set_announcing : Bool → DiscoveryLogic → DiscoveryLogic
set_announcing announcing d = record d { announcing = announcing }

pub is_in_subnet : IPv4Address → DiscoveryLogic → Bool
is_in_subnet address d = not (is_netmask d.mask) || same_subnet d.local_ip address d.mask

pub broadcast_address : DiscoveryLogic → IPv4Address
broadcast_address d = if is_netmask d.mask then subnet_broadcast d.local_ip d.mask else everyone

pub beacon_of : Bool → DiscoveryLogic → List ℕ
beacon_of reply d = encode_beacon (record {
  instance_id = d.identity.instance_id;
  app_id_hash = d.identity.app_id_hash;
  version = d.identity.version;
  reply = reply;
  name = d.identity.name;
})

-- `Seen{}`.
abbrev pub unseen : Seen
unseen = record { sighting = ignored; peer = none; reply = false }

-- The checks before any state is created for the sender.
unfoldable pub is_foreign : Beacon → SocketAddress → DiscoveryLogic → Bool
unfolding is_in_subnet
is_foreign b from d =
    b.instance_id == d.identity.instance_id
    || not (b.app_id_hash == d.identity.app_id_hash)
    || not (version_eq b.version d.identity.version)
    || not (is_in_subnet from.ip d)
    || ltb max_display_name (length b.name)

-- What is kept of a beacon.
abbrev pub peer_of : Beacon → SocketAddress → KnownPeer
peer_of b from = record {
  info = record {
    id = b.instance_id;
    display_name = b.name;
    address = address_to_string from.ip;
    port = from.port;
    app_version = version_to_string b.version;
  };
  endpoint = from;
}

-- The rest of `onBeacon`, with what the table has under the sender's id.
unfoldable pub on_sender :
    Beacon → SocketAddress → ℕ → DiscoveryLogic → Option Entry → Seen × DiscoveryLogic
on_sender b from now d none = if leb max_discovered_peers (length d.peers) then (unseen, d) else (
  record { sighting = new; peer = some (peer_of b from); reply = d.announcing && not b.reply },
  record d {
    peers = put b.instance_id (record { peer = peer_of b from; last_seen = now }) d.peers;
  },
)
on_sender b from now d (some entry) =
    let changed =
      not (address_eq entry.peer.endpoint from)
      || not (text_eq entry.peer.info.display_name b.name) in
    let peer = if changed then peer_of b from else entry.peer in
    (
      record { sighting = if changed then new else known; peer = some peer; reply = false },
      record d { peers = put b.instance_id (record { peer = peer; last_seen = now }) d.peers },
    )

unfoldable pub on_decoded :
    Option Beacon → SocketAddress → ℕ → DiscoveryLogic → Seen × DiscoveryLogic
unfolding is_foreign on_sender
on_decoded none from now d = (unseen, d)
on_decoded (some b) from now d =
    if is_foreign b from d
    then (unseen, d)
    else on_sender b from now d (lookup b.instance_id d.peers)

pub on_beacon : SocketAddress → List ℕ → ℕ → DiscoveryLogic → Seen × DiscoveryLogic
unfolding on_decoded
on_beacon from datagram now d = on_decoded (decode_beacon datagram) from now d

-- Whether the loop of `expire` passes over an entry. Where `lastSeen` is later than now, the
-- difference is negative there and 0 here: below the expiry either way.
abbrev pub stays : ℕ → (ℕ → Bool) → ℕ → Entry → Bool
stays now has_session id entry = ltb (now - entry.last_seen) peer_expiry || has_session id

pub expire : ℕ → (ℕ → Bool) → DiscoveryLogic → List ℕ × DiscoveryLogic
expire now has_session d = (
  keys (keep_if (λ id entry. not (stays now has_session id entry)) d.peers),
  record d { peers = keep_if (stays now has_session) d.peers },
)

pub find_peer : ℕ → DiscoveryLogic → Option KnownPeer
find_peer id d = elim (lookup id d.peers) [ none ↦ none | some entry ↦ some entry.peer ]

-- The loop of `peers`.
abbrev infos : List (ℕ × Entry) → List PeerInfo
infos [] = []
infos ((id, entry) ∷ peers) = entry.peer.info ∷ infos peers

pub peers_of : DiscoveryLogic → List PeerInfo
peers_of d = infos d.peers
