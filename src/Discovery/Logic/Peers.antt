-- ===== src/Discovery/Logic/Peers.antt =====
-- DiscoveryLogic.cpp: the table of peers, whatever comes from the network.
use net_link.Common.{
  ℕ, ◌≤◌, ◌<◌, ◌≡◌, ◌≢◌, refl, sym, ap₂, subst, ◌∙◌, leb, if◌then◌else◌, Bool, true, false, ◌||◌,
  not, Bool-cases, inl, inr, List, [], ◌∷◌, length, Option, none, some, ==_refl, arith,
}
use net_link.Socket.Address.{IPv4Address, SocketAddress, address_eq}
use net_link.Discovery.Beacon.{Beacon, decode_beacon}
use net_link.Discovery.Table.{lookup, put}
use net_link.Discovery.Table.Order.{
  Entries, Ascending, lookup-Entries, lookup-put, put-Entries, put-Ascending, length-put,
  length-put_known, keep_if-Entries, keep_if-Ascending, length-keep_if,
}
use net_link.Discovery.Logic.{
  text_eq, max_display_name, max_discovered_peers, KnownPeer, ignored, Entry, DiscoveryLogic,
  set_interface, clear_peers, set_announcing, unseen, is_foreign, peer_of, on_sender, on_decoded,
  on_beacon, stays, expire,
}

-- What is known of a peer: it is another engine, under its own id, with a name that may be shown.
abbrev pub IsPeer : ℕ → ℕ → Entry → Type 0
IsPeer own id entry =
    (id ≢ own)
    × (entry.peer.info.id ≡ id)
    × (length entry.peer.info.display_name ≤ max_display_name)

pub record IsValid (d : DiscoveryLogic) : Type 0 where
  pub ascending : Ascending d.peers
  pub few : length d.peers ≤ max_discovered_peers
  pub entries : Entries (IsPeer d.identity.instance_id) d.peers

sender_facts :
    (b : Beacon) (from : SocketAddress) (d : DiscoveryLogic)
    → is_foreign b from d ≡ false
    → (b.instance_id ≢ d.identity.instance_id) × (length b.name ≤ max_display_name)
unfolding is_foreign
sender_facts b from d e = ground arith

put-IsValid :
    (id : ℕ) (entry : Entry) (d : DiscoveryLogic)
    → IsPeer d.identity.instance_id id entry
    → length (put id entry d.peers) ≤ max_discovered_peers
    → IsValid d
    → IsValid (record d { peers = put id entry d.peers })
put-IsValid id entry d p few v = record {
  ascending = put-Ascending id entry d.peers v.ascending;
  few = few;
  entries = put-Entries (IsPeer d.identity.instance_id) id entry d.peers p v.entries;
}

either-IsPeer :
    (own id now : ℕ) (changed : Bool) (fresh old : KnownPeer)
    → IsPeer own id (record { peer = fresh; last_seen = now })
    → IsPeer own id (record { peer = old; last_seen = now })
    → IsPeer own id (record { peer = if changed then fresh else old; last_seen = now })
either-IsPeer own id now true fresh old p q = p
either-IsPeer own id now false fresh old p q = q

on_sender-IsValid :
    (b : Beacon) (from : SocketAddress) (now : ℕ) (d : DiscoveryLogic) (o : Option Entry)
    → lookup b.instance_id d.peers ≡ o
    → is_foreign b from d ≡ false
    → IsValid d
    → IsValid (on_sender b from now d o).1
unfolding on_sender
on_sender-IsValid b from now d none missing own v =
    elim (Bool-cases (leb max_discovered_peers (length d.peers))) [
      | inl full ↦ rw full v
      | inr room ↦
          let (another, short) = sender_facts b from d own in
          rw room (
            put-IsValid b.instance_id (record { peer = peer_of b from; last_seen = now }) d
              (another, refl, short)
              (ground (
                arith,
                length-put b.instance_id (record { peer = peer_of b from; last_seen = now })
                    d.peers,
              ))
              v)
    ]
on_sender-IsValid b from now d (some entry) found own v =
    let (another, short) = sender_facts b from d own in
    let changed =
      not (address_eq entry.peer.endpoint from)
      || not (text_eq entry.peer.info.display_name b.name) in
    let e : Entry = record {
      peer = if changed then peer_of b from else entry.peer;
      last_seen = now;
    } in
    put-IsValid b.instance_id e d
      (either-IsPeer d.identity.instance_id b.instance_id now changed (peer_of b from) entry.peer
        (another, refl, short)
        (lookup-Entries (IsPeer d.identity.instance_id) b.instance_id entry d.peers v.entries
          found))
      (omega (arith, length-put_known b.instance_id e entry d.peers v.ascending found, v.few)) v

on_decoded-IsValid :
    (o : Option Beacon) (from : SocketAddress) (now : ℕ) (d : DiscoveryLogic)
    → IsValid d
    → IsValid (on_decoded o from now d).1
unfolding on_decoded
on_decoded-IsValid none from now d v = v
on_decoded-IsValid (some b) from now d v = elim (Bool-cases (is_foreign b from d)) [
  | inl foreign ↦ rw foreign v
  | inr own ↦ rw own (on_sender-IsValid b from now d (lookup b.instance_id d.peers) refl own v)
]

-- What is ignored changes nothing.
ignored_lem :
    (from : SocketAddress) (datagram : List ℕ) (now : ℕ) (d : DiscoveryLogic)
    → (on_beacon from datagram now d).0.sighting ≡ ignored
    → on_beacon from datagram now d ≡ (unseen, d)
unfolding on_beacon on_decoded on_sender
ignored_lem from datagram now d e = ground arith

expire-IsValid :
    (now : ℕ) (has_session : ℕ → Bool) (d : DiscoveryLogic)
    → IsValid d
    → IsValid (expire now has_session d).1
unfolding expire
expire-IsValid now has_session d v = record {
  ascending = keep_if-Ascending (stays now has_session) d.peers v.ascending;
  few = omega (arith, length-keep_if (stays now has_session) d.peers, v.few);
  entries =
      keep_if-Entries (IsPeer d.identity.instance_id) (stays now has_session) d.peers v.entries;
}

-- What the engine does with it.
pub data Event : Type 0 where
  beacon_came : SocketAddress → List ℕ → ℕ → Event
  time_passed : ℕ → (ℕ → Bool) → Event
  interface_changed : IPv4Address → IPv4Address → Event
  announcing_changed : Bool → Event
  cleared : Event

pub handle : Event → DiscoveryLogic → DiscoveryLogic
handle (beacon_came from datagram now) d = (on_beacon from datagram now d).1
handle (time_passed now has_session) d = (expire now has_session d).1
handle (interface_changed ip mask) d = set_interface ip mask d
handle (announcing_changed announcing) d = set_announcing announcing d
handle cleared d = (clear_peers d).1

-- Whatever comes, the table of peers keeps its order and its limit of 1024 peers, and holds only other
-- engines, each under its own id and with a name of at most 64 bytes.
pub handle-IsValid : (event : Event) (d : DiscoveryLogic) → IsValid d → IsValid (handle event d)
unfolding handle on_beacon set_interface set_announcing clear_peers
handle-IsValid (beacon_came from datagram now) d v =
    on_decoded-IsValid (decode_beacon datagram) from now d v
handle-IsValid (time_passed now has_session) d v = expire-IsValid now has_session d v
handle-IsValid (interface_changed ip mask) d v = record {
  ascending = v.ascending;
  few = v.few;
  entries = v.entries;
}
handle-IsValid (announcing_changed announcing) d v = record {
  ascending = v.ascending;
  few = v.few;
  entries = v.entries;
}
handle-IsValid cleared d v = record { ascending = tt; few = omega arith; entries = tt }

text_eq_sound : (xs ys : List ℕ) → text_eq xs ys ≡ true → xs ≡ ys
text_eq_sound [] [] e = refl
text_eq_sound [] (y ∷ ys) e = absurd cc
text_eq_sound (x ∷ xs) [] e = absurd cc
text_eq_sound (x ∷ xs) (y ∷ ys) e =
    let same : x ≡ y = ground arith in
    let rest : text_eq xs ys ≡ true = ground arith in ap₂ ◌∷◌ same (text_eq_sound xs ys rest)

address_eq_sound : (a b : SocketAddress) → address_eq a b ≡ true → a ≡ b
address_eq_sound a b e =
    let ip : a.ip.value ≡ b.ip.value = ground arith in
    let port : a.port ≡ b.port = ground arith in
    λ i. record { ip = record { value = ip i }; port = port i }

-- What the table says of a sender.
abbrev pub Says : Beacon → SocketAddress → ℕ → Option Entry → Type 0
Says b from now none = ⊥
Says b from now (some entry) =
    (entry.peer.endpoint ≡ from) × (entry.peer.info.display_name ≡ b.name) × (entry.last_seen ≡ now)

put_found : {A : Type 0} (k : ℕ) (a : A) (table : List (ℕ × A)) → lookup k (put k a table) ≡ some a
put_found k a table = lookup-put k k a table ∙ rw (==_refl k)

put_other :
    {A : Type 0} (j k : ℕ) (a : A) (table : List (ℕ × A))
    → j ≢ k
    → lookup j (put k a table) ≡ lookup j table
put_other j k a table apart = lookup-put j k a table ∙ ground arith

put-Says :
    (b : Beacon) (from : SocketAddress) (now : ℕ) (entry : Entry) (peers : List (ℕ × Entry))
    → Says b from now (some entry)
    → Says b from now (lookup b.instance_id (put b.instance_id entry peers))
      × ((j : ℕ) → j ≢ b.instance_id → lookup j (put b.instance_id entry peers) ≡ lookup j peers)
put-Says b from now entry peers says = (
  subst (Says b from now) (sym (put_found b.instance_id entry peers)) says,
  λ j apart. put_other j b.instance_id entry peers apart,
)

sender-Says :
    (b : Beacon) (from : SocketAddress) (now : ℕ) (d : DiscoveryLogic) (o : Option Entry)
    → (o ≡ none → length d.peers < max_discovered_peers)
    → Says b from now (lookup b.instance_id (on_sender b from now d o).1.peers)
      × ((j : ℕ)
          → j ≢ b.instance_id
          → lookup j (on_sender b from now d o).1.peers ≡ lookup j d.peers)
unfolding on_sender
sender-Says b from now d none room =
    let free : leb max_discovered_peers (length d.peers) ≡ false = ground (arith, room refl) in
    rw free (
      put-Says b from now (record { peer = peer_of b from; last_seen = now }) d.peers
        (refl, refl, refl))
sender-Says b from now d (some entry) room =
    put-Says b from now
      (record { peer = if changed then peer_of b from else entry.peer; last_seen = now }) d.peers
      says
  where
    changed : Bool
    changed =
        not (address_eq entry.peer.endpoint from)
        || not (text_eq entry.peer.info.display_name b.name)

    says :
        Says b from now
          (some (record { peer = if changed then peer_of b from else entry.peer; last_seen = now }))
    says = elim (Bool-cases changed) [
      | inl on ↦ rw on (refl, refl, refl)
      | inr off ↦ rw off (
        address_eq_sound entry.peer.endpoint from (ground (arith, off)),
        text_eq_sound entry.peer.info.display_name b.name (ground (arith, off)),
        refl,
      )
    ]

-- A beacon that is not foreign, of a peer that is known or for which there is room: the table then has
-- the address that it came from, its name and the time, and says of all others what it said before.
pub on_beacon_lem :
    (from : SocketAddress) (datagram : List ℕ) (now : ℕ) (d : DiscoveryLogic) (b : Beacon)
    → decode_beacon datagram ≡ some b
    → is_foreign b from d ≡ false
    → (lookup b.instance_id d.peers ≡ none → length d.peers < max_discovered_peers)
    → Says b from now (lookup b.instance_id (on_beacon from datagram now d).1.peers)
      × ((j : ℕ)
          → j ≢ b.instance_id
          → lookup j (on_beacon from datagram now d).1.peers ≡ lookup j d.peers)
unfolding on_beacon on_decoded
on_beacon_lem from datagram now d b decoded own room =
    rw (decoded, own) (sender-Says b from now d (lookup b.instance_id d.peers) room)
