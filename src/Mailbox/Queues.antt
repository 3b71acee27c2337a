-- ===== src/Mailbox/Queues.antt =====
-- Mailbox.h: what the queues hold, whatever the threads do.
use net_link.Common.{
  ==_refl, ℕ, ◌+◌, ◌%◌, ◌^◌, ◌≤◌, ◌<◌, ◌≡◌, subst, ◌∙◌, leb, true, ◌&&◌, Bool-cases, Option-cases,
  inl, inr, List, [], ◌∷◌, ◌++◌, length, length-append, All, All-append, Option, none, some, arith,
}
use net_link.Constants.{max_message_payload}
use net_link.Protocol.Flags.{Lane, media, lane_eq}
use net_link.Protocol.Flags.Lanes.{lane_eq_sound}
use net_link.Discovery.Table.{lookup, put}
use net_link.Discovery.Table.Order.{lookup-put, Entries, put-Entries, lookup-Entries}
use net_link.Mailbox.{
  Mail, LaneQueue, Peer, Mailbox, media_queue_messages, with_lane, less, make_room, append_mail,
  enqueue_peer, enqueue,
}

pub lookup-put_self :
    (id : ℕ) (p : Peer) (peers : List (ℕ × Peer)) → lookup id (put id p peers) ≡ some p
lookup-put_self id p peers = lookup-put id id p peers ∙ rw (==_refl id)

-- The bytes of the messages that wait.
abbrev pub total_size : List Mail → ℕ
total_size [] = 0
total_size (m ∷ ms) = length m.body + total_size ms

total_size-append : (xs ys : List Mail) → total_size (xs ++ ys) ≡ total_size xs + total_size ys
total_size-append [] ys = omega arith
total_size-append (x ∷ xs) ys = omega (arith, total_size-append xs ys)

abbrev pub IsSmall : Mail → Type 0
IsSmall m = length m.body ≤ max_message_payload

-- A lane counts the bytes of its messages, of which each is small enough and, in the media lane, no
-- more wait than the limit.
abbrev pub IsLane : Lane → LaneQueue → Type 0
IsLane l q =
    (q.bytes ≡ total_size q.queue % 2 ^ 64)
    × (lane_eq l media ≡ true → length q.queue ≤ media_queue_messages)
    × All IsSmall q.queue

abbrev pub IsPeer : ℕ → Peer → Type 0
IsPeer id p = (l : Lane) → IsLane l (p.lanes l)

abbrev pub IsValid : Mailbox → Type 0
IsValid b = Entries IsPeer b.peers

pub with_lane-IsPeer :
    (id : ℕ) (l : Lane) (q : LaneQueue) (p : Peer)
    → IsLane l q
    → IsPeer id p
    → IsPeer id (with_lane l q p)
with_lane-IsPeer id l q p v vs l' = elim (Bool-cases (lane_eq l l')) [
  | inl e ↦ rw e (subst (λ k. IsLane k q) (lane_eq_sound l l' e) v)
  | inr e ↦ rw e (vs l')
]

appended-IsLane :
    (l : Lane) (m : Mail) (q : LaneQueue)
    → q.bytes ≡ total_size q.queue % 2 ^ 64
    → (lane_eq l media ≡ true → length q.queue < media_queue_messages)
    → All IsSmall q.queue
    → IsSmall m
    → IsLane l (append_mail m q)
unfolding append_mail
appended-IsLane l m q e room small s = (
  omega (arith, e, total_size-append q.queue (m ∷ [])),
  λ is_media. omega (arith, room is_media, length-append q.queue (m ∷ [])),
  All-append IsSmall q.queue (m ∷ []) small (s, tt),
)

-- Without its oldest message.
pub front_removed :
    (x : Mail) (xs : List Mail) (bytes : ℕ)
    → bytes ≡ total_size (x ∷ xs) % 2 ^ 64
    → IsSmall x
    → less bytes (length x.body) ≡ total_size xs % 2 ^ 64
front_removed x xs bytes e s = omega arith

enqueued-IsLane :
    (l : Lane) (m : Mail) (queue : List Mail) (bytes : ℕ)
    → IsSmall m
    → IsLane l (record { queue = queue; bytes = bytes })
    → IsLane l (append_mail m (make_room l queue bytes).0)
unfolding make_room
enqueued-IsLane l m [] bytes s v =
    appended-IsLane l m (record { queue = []; bytes = bytes }) v.0 (λ e. omega arith) tt s
enqueued-IsLane l m (x ∷ xs) bytes s (e, long, (sx, sxs)) =
    elim (Bool-cases (lane_eq l media && leb media_queue_messages (length (x ∷ xs)))) [
      | inl drop ↦ rw drop (
          appended-IsLane l m (record { queue = xs; bytes = less bytes (length x.body) })
            (front_removed x xs bytes e sx) (λ is_media. omega (arith, long is_media)) sxs s)
      | inr keep ↦ rw keep (
          appended-IsLane l m (record { queue = x ∷ xs; bytes = bytes }) e
            (λ is_media. ground arith) (sx, sxs) s)
    ]

enqueue_peer-IsPeer :
    (id : ℕ) (l : Lane) (m : Mail) (p : Peer)
    → IsSmall m
    → IsPeer id p
    → IsPeer id (enqueue_peer l m p)
unfolding enqueue_peer
enqueue_peer-IsPeer id l m p s v =
    with_lane-IsPeer id l (append_mail m (make_room l (p.lanes l).queue (p.lanes l).bytes).0) p
      (enqueued-IsLane l m (p.lanes l).queue (p.lanes l).bytes s (v l)) v

pub enqueue-IsValid :
    (id : ℕ) (p : Peer) (l : Lane) (m : Mail) (b : Mailbox)
    → IsSmall m
    → IsPeer id p
    → IsValid b
    → IsValid (enqueue id p l m b).1
unfolding enqueue
enqueue-IsValid id p l m b s vp v =
    put-Entries IsPeer id (enqueue_peer l m p) b.peers (enqueue_peer-IsPeer id l m p s vp) v

-- A peer that is looked up.
abbrev pub Found : ℕ → Option Peer → Type 0
Found id none = Unit
Found id (some p) = IsPeer id p

pub found : (id : ℕ) (b : Mailbox) → IsValid b → Found id (lookup id b.peers)
found id b v = elim (Option-cases (lookup id b.peers)) [
  | inl e ↦ rw e tt
  | inr (p, e) ↦ rw e (lookup-Entries IsPeer id p b.peers v e)
]
