-- ===== src/ReliableLink/Quiet.antt =====
-- ReliableLink.cpp: what the sending side leaves alone on the receiving side.
use net_link.Common.{
  ℕ, zero, suc, ◌+◌, ◌%◌, ◌^◌, ◌≡◌, refl, sym, ◌∙◌, subst, ◌==◌, ltb, leb, if◌then◌else◌, Bool,
  true, false, ◌&&◌, ◌||◌, not, List, [], ◌∷◌, min, max, Bool-cases, inl, inr, Option, none, some,
}
use net_link.Double.{Double}
use net_link.Protocol.Flags.{Lane, lane_eq, is_paused}
use net_link.Protocol.Flags.Lanes.{lane_eq_sound}
use net_link.Protocol.Header.{PacketHeader}
use net_link.Protocol.Ack.{SeqRange, AckBody, last, decode_ack}
use net_link.SequenceBuffer.{SequenceBuffer, find, take_entry}
use net_link.ReliableLink.{
  InFlight, SentRecord, Stream, ReliableLink, no_flight, or_new, stream_for, with_stream, next,
}
use net_link.ReliableLink.Losses.{
  prev, shares_congestion_window, entry_in, entry_on, entry_of, update_progress_clock,
  set_peer_paused, reduce_window, mark_lost, detect_one, detect_rounds, detect_losses,
}
use net_link.ReliableLink.Acks.{
  Acked, is_later, rounds_of, release_found, release, release_from, release_range, release_ranges,
  release_acked, take_serial, count_acked, grow_window, settle_ack, handle_decoded_ack, handle_ack,
}

pub record IsSameView (s s' : Stream) : Type 0 where
  pub assembler : s'.assembler ≡ s.assembler
  pub expected : s'.next_expected ≡ s.next_expected
  pub reorder : s'.reorder ≡ s.reorder

pub view_refl : (s : Stream) → IsSameView s s
view_refl s = record { assembler = refl; expected = refl; reorder = refl }

pub view_trans : (s t u : Stream) → IsSameView s t → IsSameView t u → IsSameView s u
view_trans s t u a b = record {
  assembler = b.assembler ∙ a.assembler;
  expected = b.expected ∙ a.expected;
  reorder = b.reorder ∙ a.reorder;
}

view_sym : (s t : Stream) → IsSameView s t → IsSameView t s
view_sym s t a = record {
  assembler = sym a.assembler;
  expected = sym a.expected;
  reorder = sym a.reorder;
}

module _ {W : Type 0} where
  pub record IsQuiet (k k' : ReliableLink W) : Type 0 where
    pub views : (l : Lane) → IsSameView (stream_for l k) (stream_for l k')
    pub failed : k'.failed ≡ k.failed
    pub delivered : k'.delivered ≡ k.delivered

  -- Delivered messages stay, and as long as the link has not failed the receiving side is as it was.
  abbrev pub IsSafe : ReliableLink W → ReliableLink W → Type 0
  IsSafe k k' = (k'.delivered ≡ k.delivered) × (k'.failed ≡ false → IsQuiet k k')

  pub IsQuiet-trans : (k k' k'' : ReliableLink W) → IsQuiet k k' → IsQuiet k' k'' → IsQuiet k k''
  IsQuiet-trans k k' k'' a b = record {
    views = λ l.
        view_trans (stream_for l k) (stream_for l k') (stream_for l k'') (a.views l) (b.views l);
    failed = b.failed ∙ a.failed;
    delivered = b.delivered ∙ a.delivered;
  }

  -- A step that leaves the streams alone.
  pub quiet :
      (k k' : ReliableLink W)
      → k'.streams ≡ k.streams
      → k'.failed ≡ k.failed
      → k'.delivered ≡ k.delivered
      → IsQuiet k k'
  quiet k k' a b c = record {
    views = λ l.
        subst (λ s. IsSameView (stream_for l k) (or_new l (s l))) (sym a)
          (view_refl (stream_for l k));
    failed = b;
    delivered = c;
  }

  pub IsQuiet-refl : (k : ReliableLink W) → IsQuiet k k
  IsQuiet-refl k = quiet k k refl refl refl

  pub with_stream-IsQuiet :
      (l : Lane) (s : Stream) (k k' : ReliableLink W)
      → IsSameView (stream_for l k) s
      → IsQuiet k k'
      → IsQuiet k (with_stream l s k')
  with_stream-IsQuiet l s k k' v q = record {
    views = λ l'. view_trans (stream_for l' k) (stream_for l' k') _ (q.views l') (stored l');
    failed = q.failed;
    delivered = q.delivered;
  }
    where
      stored : (l' : Lane) → IsSameView (stream_for l' k') (stream_for l' (with_stream l s k'))
      stored l' = elim (Bool-cases (lane_eq l l')) [
        | inl e ↦ rw e (
            subst (λ m. IsSameView (stream_for m k') s) (lane_eq_sound l l' e)
              (view_trans (stream_for l k') (stream_for l k) s
                (view_sym (stream_for l k) (stream_for l k') (q.views l)) v))
        | inr e ↦ rw e (view_refl (stream_for l' k'))
      ]

  -- Whichever branch is taken.
  pub if_IsQuiet :
      (c : Bool) (k x y : ReliableLink W)
      → IsQuiet k x
      → IsQuiet k y
      → IsQuiet k (if c then x else y)
  if_IsQuiet true k x y a b = a
  if_IsQuiet false k x y a b = b

  pub clock-IsQuiet :
      (now : ℕ) (progress : Bool) (k : ReliableLink W)
      → IsQuiet k (update_progress_clock now progress k)
  unfolding update_progress_clock
  clock-IsQuiet now progress k = quiet k _ refl refl refl

  -- An entry that is found stands in a stream of the link.
  abbrev pub IsFound : SentRecord → ReliableLink W → Option (Stream × InFlight) → Type 0
  IsFound r k none = Unit
  IsFound r k (some (s, e)) = IsSameView (stream_for r.lane k) s

  IsFound-in :
      (r : SentRecord) (k : ReliableLink W) (s : Stream) (e : Option InFlight)
      → IsSameView (stream_for r.lane k) s
      → IsFound r k (entry_in r s e)
  IsFound-in r k s none v = tt
  IsFound-in r k s (some e) v = elim (Bool-cases (not e.lost && e.transmission == r.transmission)) [
    | inl y ↦ rw y v
    | inr n ↦ rw n tt
  ]

  IsFound-on :
      (r : SentRecord) (k : ReliableLink W) (o : Option Stream)
      → k.streams r.lane ≡ o
      → IsFound r k (entry_on r o)
  IsFound-on r k none e = tt
  IsFound-on r k (some s) e =
      IsFound-in r k s (find no_flight r.seq s.in_flight)
        (subst (λ o. IsSameView (or_new r.lane o) s) (sym e) (view_refl s))

  pub entry-IsFound : (r : SentRecord) (k : ReliableLink W) → IsFound r k (entry_of r k)
  entry-IsFound r k = IsFound-on r k (k.streams r.lane) refl

  -- What a step on a stream `s` of `k` makes of both.
  abbrev pub IsQuietAt : Lane → ReliableLink W → Stream × ReliableLink W → Type 0
  IsQuietAt l k (s, k') = IsSameView (stream_for l k) s × IsQuiet k k'

module _ {W : Type 0} ⦃d : Double W⦄ where
  reduce-IsQuiet :
      (l : Lane) (e : InFlight) (k k' : ReliableLink W)
      → IsQuiet k k'
      → IsQuiet k (reduce_window l e k')
  unfolding reduce_window
  reduce-IsQuiet l e k k' q =
      if_IsQuiet
        (not (shares_congestion_window l)
          || ltb 0 k'.timings.fixed_cwnd
          || leb e.transmission k'.recovery_start)
        k k' _ q (IsQuiet-trans k k' _ q (quiet k' _ refl refl refl))

  pub mark_lost-IsQuiet :
      (r : SentRecord) (s : Stream) (e : InFlight) (timed_out : Bool) (k : ReliableLink W)
      → IsSameView (stream_for r.lane k) s
      → IsQuiet k (mark_lost r (s, e) timed_out k)
  unfolding mark_lost
  mark_lost-IsQuiet r s e timed_out k v = reduce-IsQuiet r.lane e k _ (
      with_stream-IsQuiet r.lane _ k _
        (view_trans _ s _ v (record { assembler = refl; expected = refl; reorder = refl }))
        (quiet k _ refl refl refl))

  detect_one-IsQuiet :
      (again : ReliableLink W → Bool × ReliableLink W)
      → ((k : ReliableLink W) → IsQuiet k (again k).1)
      → (r : SentRecord) (rest : List SentRecord) (o : Option (Stream × InFlight))
        (k : ReliableLink W)
      → IsFound r k o
      → IsQuiet k (detect_one again r rest o k).1
  unfolding detect_one
  detect_one-IsQuiet again keep r rest none k f = keep k
  detect_one-IsQuiet again keep r rest (some (s, e)) k f =
      elim (Bool-cases (ltb k.largest_acked ((r.transmission + 3) % 2 ^ 64))) [
        | inl y ↦ rw y (quiet k _ refl refl refl)
        | inr n ↦ rw n (
            IsQuiet-trans k (mark_lost r (s, e) false k) _ (mark_lost-IsQuiet r s e false k f)
              (keep (mark_lost r (s, e) false k)))
      ]

  detect_rounds-IsQuiet :
      (rs : List SentRecord) (k : ReliableLink W) → IsQuiet k (detect_rounds rs k).1
  unfolding detect_rounds
  detect_rounds-IsQuiet [] k = quiet k _ refl refl refl
  detect_rounds-IsQuiet (r ∷ rest) k =
      detect_one-IsQuiet (detect_rounds rest) (detect_rounds-IsQuiet rest) r rest (entry_of r k) k
        (entry-IsFound r k)

  detect-IsQuiet : (k : ReliableLink W) → IsQuiet k (detect_losses k).1
  unfolding detect_losses
  detect-IsQuiet k = detect_rounds-IsQuiet k.sent k

-- What an Ack releases leaves the receiving side alone.
found_view :
    (recovery : ℕ) (r : Option InFlight × SequenceBuffer InFlight) (s : Stream) (a : Acked)
    → IsSameView s (release_found recovery r (s, a)).0
unfolding release_found
found_view recovery (none, b) s a = view_refl s
found_view recovery (some e, b) s a = record { assembler = refl; expected = refl; reorder = refl }

from_view :
    (recovery rounds seq : ℕ) (s : Stream) (a : Acked)
    → IsSameView s (release_from recovery rounds seq (s, a)).0
unfolding release_from release
from_view recovery zero seq s a = view_refl s
from_view recovery (suc rounds) seq s a =
    let one = release_found recovery (take_entry no_flight seq s.in_flight) (s, a) in
    view_trans s one.0 _ (found_view recovery (take_entry no_flight seq s.in_flight) s a)
      (from_view recovery rounds (next seq) one.0 one.1)

range_view :
    (recovery last_sent : ℕ) (r : SeqRange) (s : Stream) (a : Acked)
    → IsSameView s (release_range recovery last_sent r (s, a)).0
unfolding release_range
range_view recovery last_sent r s a = elim (Bool-cases (ltb last_sent r.first)) [
  | inl y ↦ rw y (view_refl s)
  | inr n ↦ rw n (
      from_view recovery (rounds_of (max r.first s.send_base) (min (last r) last_sent))
        (max r.first s.send_base) s a)
]

ranges_view :
    (recovery last_sent : ℕ) (rs : List SeqRange) (s : Stream) (a : Acked)
    → IsSameView s (release_ranges recovery last_sent rs (s, a)).0
unfolding release_ranges
ranges_view recovery last_sent [] s a = view_refl s
ranges_view recovery last_sent (r ∷ rs) s a =
    let one = release_range recovery last_sent r (s, a) in
    view_trans s one.0 _ (range_view recovery last_sent r s a)
      (ranges_view recovery last_sent rs one.0 one.1)

acked_view :
    (recovery seq : ℕ) (ranges : List SeqRange) (s : Stream) (a : Acked)
    → IsSameView s (release_acked recovery seq ranges (s, a)).0
unfolding release_acked
acked_view recovery seq ranges s a =
    let first =
      release_from recovery (rounds_of s.send_base (min seq (prev s.next_send_seq))) s.send_base
        (s, a) in
    let all = release_ranges recovery (prev s.next_send_seq) ranges first in
    view_trans s first.0 _
      (from_view recovery (rounds_of s.send_base (min seq (prev s.next_send_seq))) s.send_base s a)
      (view_trans first.0 all.0 _
        (ranges_view recovery (prev s.next_send_seq) ranges first.0 first.1)
        (record { assembler = refl; expected = refl; reorder = refl }))

module _ {W : Type 0} where
  paused-IsQuietAt :
      (l : Lane) (paused : Bool) (now : ℕ) (s : Stream) (k : ReliableLink W)
      → IsSameView (stream_for l k) s
      → IsQuietAt l k (set_peer_paused l paused now (s, k))
  unfolding set_peer_paused
  paused-IsQuietAt l paused now s k v =
      elim (Bool-cases ((s.peer_paused && paused) || (not s.peer_paused && not paused))) [
        | inl y ↦ rw y (v, IsQuiet-refl k)
        | inr n ↦ rw n (
          view_trans (stream_for l k) s _ v
              (record { assembler = refl; expected = refl; reorder = refl }),
          IsQuiet-trans k (with_stream l _ k) _
              (with_stream-IsQuiet l _ k k
                (view_trans (stream_for l k) s _ v
                  (record { assembler = refl; expected = refl; reorder = refl }))
                (IsQuiet-refl k))
              (clock-IsQuiet now false _),
        )
      ]

  serial-IsQuietAt :
      (l : Lane) (h : PacketHeader) (ack : AckBody) (now : ℕ) (s : Stream) (k : ReliableLink W)
      → IsSameView (stream_for l k) s
      → IsQuietAt l k (take_serial l h ack now (s, k))
  unfolding take_serial
  serial-IsQuietAt l h ack now s k v = elim (Bool-cases (is_later ack.serial s.ack_serial)) [
    | inl y ↦ rw y (
        let k' : ReliableLink W = record k {
          stats = record k.stats { media_received_by_peer = ack.media_received };
        } in
        let (same, q) =
          paused-IsQuietAt l (is_paused h.flags) now (record s { ack_serial = some ack.serial }) k'
            (view_trans (stream_for l k) s _ v
              (record { assembler = refl; expected = refl; reorder = refl })) in
        (same, IsQuiet-trans k k' _ (quiet k _ refl refl refl) q))
    | inr n ↦ rw n (v, IsQuiet-refl k)
  ]

module _ {W : Type 0} ⦃d : Double W⦄ where
  grow-IsQuiet :
      (l : Lane) (losses : Bool) (counted : ℕ) (k : ReliableLink W)
      → IsQuiet k (grow_window l losses counted k)
  unfolding grow_window
  grow-IsQuiet l losses counted k =
      if_IsQuiet
        (shares_congestion_window l && not losses && ltb 0 counted && k.timings.fixed_cwnd == 0) k _
        k (quiet k _ refl refl refl) (IsQuiet-refl k)

  settle-IsQuiet :
      (l : Lane) (now : ℕ) (s : Stream) (a : Acked) (k k' : ReliableLink W)
      → IsSameView (stream_for l k) s
      → IsQuiet k k'
      → IsQuiet k (settle_ack l now (s, a) k')
  unfolding settle_ack
  settle-IsQuiet l now s a k k' v q =
      let counted = count_acked l now (s, a) k' in
      let stored : IsQuiet k counted =
        with_stream-IsQuiet l s k _ v (IsQuiet-trans k k' _ q (quiet k' _ refl refl refl)) in
      let detected = (detect_losses counted).1 in
      IsQuiet-trans k counted _ stored (
        IsQuiet-trans counted detected _ (detect-IsQuiet counted) (
          IsQuiet-trans detected (update_progress_clock now (ltb 0 a.acked) detected) _
            (clock-IsQuiet now (ltb 0 a.acked) detected)
            (grow-IsQuiet l (detect_losses counted).0 a.counted _)))

  pub handle_ack-IsQuiet :
      (l : Lane) (h : PacketHeader) (body : List ℕ) (now : ℕ) (s : Stream) (k : ReliableLink W)
      → IsSameView (stream_for l k) s
      → IsQuiet k (handle_ack l h body now (s, k))
  unfolding handle_ack
  handle_ack-IsQuiet l h body now s k v = decoded (decode_ack body)
    where
      decoded : (o : Option AckBody) → IsQuiet k (handle_decoded_ack l h o now (s, k))
      decoded none = IsQuiet-refl k
      decoded (some ack) =
          let (s', k') = take_serial l h ack now (s, k) in
          let (v', q) = serial-IsQuietAt l h ack now s k v in
          let a : Acked = record {
            acked = 0;
            counted = 0;
            sample = none;
            largest = k'.largest_acked;
          } in
          let r = release_acked k'.recovery_start h.seq ack.ranges (s', a) in
          settle-IsQuiet l now r.0 r.1 k k'
            (view_trans (stream_for l k) s' r.0 v'
              (acked_view k'.recovery_start h.seq ack.ranges s' a))
            q
