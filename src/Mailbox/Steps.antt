-- ===== src/Mailbox/Steps.antt =====
-- Mailbox.h: every operation keeps the queues in order.
use net_link.Common.{
  ℕ, ◌≡◌, refl, ◌==◌, ltb, if◌then◌else◌, Bool, true, false, ◌&&◌, ◌||◌, not, Bool-cases, inl, inr,
  List, [], ◌∷◌, length, Option, none, some, arith,
}
use net_link.Protocol.Flags.{Lane, reliable, bulk, media, lane_eq}
use net_link.Discovery.Table.{lookup}
use net_link.Discovery.Table.Order.{Entries, put-Entries, keep_if-Entries, lookup-Entries}
use net_link.Mailbox.{
  Command, SessionState, Mail, empty_lane, Peer, Mailbox, max_size, less, set_queue_bytes, enqueue,
  set_running, post, is_nil, has_room, push_found, push, push_woken_found, push_woken, take_front,
  take_found, take_mail, settle_found, settle, open_session, close_session, seal_found, seal,
  publish_session, unlist_one, unlist, drain, push_each, push_to_all,
}
use net_link.Mailbox.Queues.{
  IsLane, IsSmall, IsPeer, IsValid, Found, found, with_lane-IsPeer, enqueue-IsValid, front_removed,
}

-- Whichever branch is taken.
if_keeps :
    {A : Type 0} (c : Bool) (x y : A × Mailbox)
    → IsValid x.1
    → IsValid y.1
    → IsValid (if c then x else y).1
if_keeps true x y v w = v
if_keeps false x y v w = w

either_keeps : (c : Bool) (b b' : Mailbox) → IsValid b → IsValid b' → IsValid (if c then b else b')
either_keeps true b b' v w = v
either_keeps false b b' v w = w

push_found-IsValid :
    (id : ℕ) (l : Lane) (m : Mail) (may_wait : Bool) (o : Option Peer) (b : Mailbox)
    → IsSmall m
    → Found id o
    → IsValid b
    → IsValid (push_found id l m may_wait o b).1
unfolding push_found
push_found-IsValid id l m may_wait none b s f v = v
push_found-IsValid id l m may_wait (some p) b s f v = if_keeps p.sealed _ _ v (
    if_keeps (not (lane_eq l media) && not (has_room l (length m.body) b.queue_bytes p)) _ _
      (if_keeps may_wait _ _ v v) (enqueue-IsValid id p l m b s f v))

size-IsSmall : (l : Lane) (m : Mail) → ltb (max_size l) (length m.body) ≡ false → IsSmall m
size-IsSmall l m e = ground arith

push-IsValid :
    (id : ℕ) (l : Lane) (m : Mail) (may_wait : Bool) (b : Mailbox)
    → IsValid b
    → IsValid (push id l m may_wait b).1
unfolding push
push-IsValid id l m may_wait b v = elim (Bool-cases (ltb (max_size l) (length m.body))) [
  | inl e ↦ rw e v
  | inr e ↦ rw e (
      if_keeps (not b.running) _ _ v (
        push_found-IsValid id l m may_wait (lookup id b.peers) b (size-IsSmall l m e) (found id b v)
          v))
]

woken_found-IsValid :
    (id : ℕ) (l : Lane) (m : Mail) (epoch : ℕ) (o : Option Peer) (b : Mailbox)
    → IsSmall m
    → Found id o
    → IsValid b
    → IsValid (push_woken_found id l m epoch o b).1
unfolding push_woken_found
woken_found-IsValid id l m epoch none b s f v = v
woken_found-IsValid id l m epoch (some p) b s f v =
    if_keeps (not (p.epoch == epoch) || p.sealed) _ _ v (
      if_keeps (not b.running) _ _ v (
        if_keeps (not (has_room l (length m.body) b.queue_bytes p)) _ _ v
          (enqueue-IsValid id p l m b s f v)))

front-IsValid :
    (id : ℕ) (l : Lane) (p : Peer) (queue : List Mail) (bytes : ℕ) (b : Mailbox)
    → IsLane l (record { queue = queue; bytes = bytes })
    → IsPeer id p
    → IsValid b
    → IsValid (take_front id l p queue bytes b).1
unfolding take_front
front-IsValid id l p [] bytes b h f v = v
front-IsValid id l p (x ∷ xs) bytes b (e, long, (sx, sxs)) f v =
    put-Entries IsPeer id _ b.peers
      (with_lane-IsPeer id l (record { queue = xs; bytes = less bytes (length x.body) }) p
        (front_removed x xs bytes e sx, (λ is_media. omega (arith, long is_media)), sxs) f)
      v

take_found-IsValid :
    (id : ℕ) (l : Lane) (o : Option Peer) (b : Mailbox)
    → Found id o
    → IsValid b
    → IsValid (take_found id l o b).1
unfolding take_found
take_found-IsValid id l none b f v = v
take_found-IsValid id l (some p) b f v =
    front-IsValid id l p (p.lanes l).queue (p.lanes l).bytes b (f l) f v

settle_found-IsValid :
    (id : ℕ) (o : Option Peer) (b : Mailbox)
    → Found id o
    → IsValid b
    → IsValid (settle_found id o b).1
unfolding settle_found
settle_found-IsValid id none b f v = v
settle_found-IsValid id (some p) b f v =
    if_keeps (not (is_nil (p.lanes reliable).queue) || not (is_nil (p.lanes bulk).queue)) _ _ v
      (if_keeps (p.done == p.accepted) _ _ v (put-Entries IsPeer id _ b.peers f v))

pub empty-IsLane : (l : Lane) → IsLane l empty_lane
empty-IsLane l = (refl, (λ e. omega arith), tt)

seal_found-IsValid :
    (id : ℕ) (o : Option Peer) (b : Mailbox) → Found id o → IsValid b → IsValid (seal_found id o b)
unfolding seal_found
seal_found-IsValid id none b f v = v
seal_found-IsValid id (some p) b f v =
    put-Entries IsPeer id _ b.peers (with_lane-IsPeer id media empty_lane p (empty-IsLane media) f)
      v

unlist-Entries :
    (ids : List ℕ) (peers : List (ℕ × Peer))
    → Entries IsPeer peers
    → Entries IsPeer (unlist ids peers)
unfolding unlist unlist_one
unlist-Entries [] peers v = v
unlist-Entries (id ∷ ids) peers v = unlist-Entries ids _ (one (lookup id peers) refl)
  where
    one : (o : Option Peer) → lookup id peers ≡ o → Entries IsPeer (unlist_one id o peers)
    one none e = v
    one (some p) e =
        put-Entries IsPeer id (record p { listed = false }) peers
          (lookup-Entries IsPeer id p peers v e) v

each-IsValid :
    (l : Lane) (m : Mail) (peers : List (ℕ × Peer)) (taken : ℕ) (ring : Bool) (b : Mailbox)
    → IsSmall m
    → Entries IsPeer peers
    → IsValid b
    → IsValid (push_each l m peers taken ring b).2
unfolding push_each
each-IsValid l m [] taken ring b small vs v = v
each-IsValid l m ((id, p) ∷ rest) taken ring b small (vp, vs) v =
    each-IsValid l m rest _ _ _ small vs
      (either_keeps _ b (enqueue id p l m b).1 v (enqueue-IsValid id p l m b small vp v))

all_keeps :
    (c : Bool) (x y : ℕ × Bool × Mailbox)
    → IsValid x.2
    → IsValid y.2
    → IsValid (if c then x else y).2
all_keeps true x y v w = v
all_keeps false x y v w = w

push_to_all-IsValid :
    (l : Lane) (m : Mail) (b : Mailbox) → IsValid b → IsValid (push_to_all l m b).2
unfolding push_to_all
push_to_all-IsValid l m b v = elim (Bool-cases (ltb (max_size l) (length m.body))) [
  | inl e ↦ rw e v
  | inr e ↦ rw e (
      all_keeps (not b.running) _ _ v (each-IsValid l m b.peers 0 false b (size-IsSmall l m e) v v))
]

-- What any thread does, in any order.
pub data Step : Type 0 where
  pushes : ℕ → Lane → Mail → Bool → Step
  pushes_to_all : Lane → Mail → Step
  wakes : ℕ → Lane → Mail → ℕ → Step
  posts : Command → ℕ → Step
  takes : ℕ → Lane → Step
  settles opens closes seals : ℕ → Step
  publishes : ℕ → SessionState → Step
  limits : ℕ → Step
  runs : Bool → Step
  drains : Step

pub step : Step → Mailbox → Mailbox
step (pushes id l m may_wait) b = (push id l m may_wait b).1
step (pushes_to_all l m) b = (push_to_all l m b).2
step (wakes id l m epoch) b = (push_woken id l m epoch b).1
step (posts command id) b = (post command id b).1
step (takes id l) b = (take_mail id l b).1
step (settles id) b = (settle id b).1
step (opens id) b = open_session id b
step (closes id) b = close_session id b
step (seals id) b = seal id b
step (publishes id s) b = publish_session id s b
step (limits bytes) b = set_queue_bytes bytes b
step (runs running) b = set_running running b
step drains b = (drain b).1

-- A wait is one for a message that was not too large.
abbrev pub IsAllowed : Step → Type 0
IsAllowed (wakes id l m epoch) = IsSmall m
IsAllowed other = Unit

-- Whatever the threads do, and in whatever order: each lane counts exactly the bytes of the messages
-- that wait in it, modulo 2 ^ 64; none of them is larger than 16 MiB; and never more than 32 wait in a
-- media lane.
pub step-IsValid : (s : Step) (b : Mailbox) → IsAllowed s → IsValid b → IsValid (step s b)
unfolding step push_woken post take_mail settle open_session close_session seal publish_session
    set_queue_bytes set_running drain
step-IsValid (pushes id l m may_wait) b a v = push-IsValid id l m may_wait b v
step-IsValid (pushes_to_all l m) b a v = push_to_all-IsValid l m b v
step-IsValid (wakes id l m epoch) b a v =
    woken_found-IsValid id l m epoch (lookup id b.peers) b a (found id b v) v
step-IsValid (posts command id) b a v = v
step-IsValid (takes id l) b a v = take_found-IsValid id l (lookup id b.peers) b (found id b v) v
step-IsValid (settles id) b a v = settle_found-IsValid id (lookup id b.peers) b (found id b v) v
step-IsValid (opens id) b a v = put-Entries IsPeer id _ b.peers (λ l. empty-IsLane l) v
step-IsValid (closes id) b a v = keep_if-Entries IsPeer (λ k p. not (k == id)) b.peers v
step-IsValid (seals id) b a v = seal_found-IsValid id (lookup id b.peers) b (found id b v) v
step-IsValid (publishes id s) b a v = v
step-IsValid (limits bytes) b a v = v
step-IsValid (runs running) b a v = v
step-IsValid drains b a v = unlist-Entries b.ready b.peers v
