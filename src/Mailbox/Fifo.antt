-- ===== src/Mailbox/Fifo.antt =====
-- Mailbox.h: a lane gives its messages in the order in which they came.
use net_link.Common.{
  ℕ, ◌≡◌, refl, sym, ap, ◌∙◌, Bool, false, List, [], ◌∷◌, ◌++◌, length, Option, none, some, arith,
}
use net_link.Protocol.Flags.{Lane, control, reliable, bulk, media, lane_eq}
use net_link.Discovery.Table.{lookup}
use net_link.Mailbox.Queues.{lookup-put_self}
use net_link.Mailbox.{
  queued, Mail, LaneQueue, Peer, Mailbox, with_lane, less, make_room, append_mail, enqueue_peer,
  enqueue, answered, push_found, push, take_front, take_found, take_mail,
}

-- What waits in a lane of a peer.
abbrev pub waiting : Lane → Option Peer → List Mail
waiting l none = []
waiting l (some p) = (p.lanes l).queue

room_kept :
    (l : Lane) (queue : List Mail) (bytes : ℕ)
    → lane_eq l media ≡ false
    → (make_room l queue bytes).0.queue ≡ queue
unfolding make_room
room_kept l [] bytes e = refl
room_kept l (m ∷ ms) bytes e = rw e

own_lane : (l : Lane) (q : LaneQueue) (p : Peer) → (with_lane l q p).lanes l ≡ q
own_lane control q p = refl
own_lane reliable q p = refl
own_lane bulk q p = refl
own_lane media q p = refl

enqueued :
    (id : ℕ) (p : Peer) (l : Lane) (m : Mail) (b : Mailbox)
    → lane_eq l media ≡ false
    → waiting l (lookup id (enqueue id p l m b).1.peers) ≡ (p.lanes l).queue ++ (m ∷ [])
unfolding enqueue enqueue_peer append_mail
enqueued id p l m b e =
    ap (waiting l) (lookup-put_self id (enqueue_peer l m p) b.peers)
    ∙ ap (λ q. q.queue)
        (own_lane l (append_mail m (make_room l (p.lanes l).queue (p.lanes l).bytes).0) p)
    ∙ ap (λ q. q ++ (m ∷ [])) (room_kept l (p.lanes l).queue (p.lanes l).bytes e)

was_queued :
    (id : ℕ) (l : Lane) (m : Mail) (may_wait ring : Bool) (p : Peer) (b : Mailbox)
    → (push_found id l m may_wait (some p) b).0 ≡ answered queued ring
    → (push_found id l m may_wait (some p) b).1 ≡ (enqueue id p l m b).1
unfolding push_found
was_queued id l m may_wait ring p b e = ground arith

found_queued :
    (id : ℕ) (l : Lane) (m : Mail) (may_wait ring : Bool) (o : Option Peer) (b : Mailbox)
    → lane_eq l media ≡ false
    → (push_found id l m may_wait o b).0 ≡ answered queued ring
    → waiting l (lookup id (push_found id l m may_wait o b).1.peers) ≡ waiting l o ++ (m ∷ [])
found_queued id l m may_wait ring none b acknowledged e = absurd (unfold push_found in cc)
found_queued id l m may_wait ring (some p) b acknowledged e =
    ap (λ b'. waiting l (lookup id b'.peers)) (was_queued id l m may_wait ring p b e)
    ∙ enqueued id p l m b acknowledged

push_queued :
    (id : ℕ) (l : Lane) (m : Mail) (may_wait ring : Bool) (b : Mailbox)
    → (push id l m may_wait b).0 ≡ answered queued ring
    → push id l m may_wait b ≡ push_found id l m may_wait (lookup id b.peers) b
unfolding push
push_queued id l m may_wait ring b e = ground arith

-- A message that is queued on an acknowledged lane stands behind all that waited there.
pub waiting-push :
    (id : ℕ) (l : Lane) (m : Mail) (may_wait ring : Bool) (b : Mailbox)
    → lane_eq l media ≡ false
    → (push id l m may_wait b).0 ≡ answered queued ring
    → waiting l (lookup id (push id l m may_wait b).1.peers)
      ≡ waiting l (lookup id b.peers) ++ (m ∷ [])
waiting-push id l m may_wait ring b acknowledged e =
    let same = push_queued id l m may_wait ring b e in
    ap (λ r. waiting l (lookup id r.1.peers)) same
    ∙ found_queued id l m may_wait ring (lookup id b.peers) b acknowledged
        (ap (λ r. r.0) (sym same) ∙ e)

-- What is left of the messages that waited before.
abbrev pub Taken : Lane → List Mail → Mailbox → ℕ → Option Mail × Mailbox → Type 0
Taken l before b id (none, b') = (before ≡ []) × (b' ≡ b)
Taken l before b id (some m, b') = before ≡ m ∷ waiting l (lookup id b'.peers)

front-Taken :
    (id : ℕ) (l : Lane) (p : Peer) (queue : List Mail) (bytes : ℕ) (b : Mailbox)
    → Taken l queue b id (take_front id l p queue bytes b)
unfolding take_front
front-Taken id l p [] bytes b = (refl, refl)
front-Taken id l p (m ∷ ms) bytes b =
    ap (λ q. m ∷ q)
      (sym (ap (λ q. q.queue) (own_lane l left p))
        ∙ sym (ap (waiting l) (lookup-put_self id (with_lane l left p) b.peers)))
  where
    left : LaneQueue
    left = record { queue = ms; bytes = less bytes (length m.body) }

found-Taken :
    (id : ℕ) (l : Lane) (o : Option Peer) (b : Mailbox)
    → Taken l (waiting l o) b id (take_found id l o b)
unfolding take_found
found-Taken id l none b = (refl, refl)
found-Taken id l (some p) b = front-Taken id l p (p.lanes l).queue (p.lanes l).bytes b

-- `take` takes the message that has waited longest in the lane, of which the others go on waiting in
-- their order; where none waits, it returns nothing and changes nothing.
pub take_mail-Taken :
    (id : ℕ) (l : Lane) (b : Mailbox)
    → Taken l (waiting l (lookup id b.peers)) b id (take_mail id l b)
unfolding take_mail
take_mail-Taken id l b = found-Taken id l (lookup id b.peers) b
