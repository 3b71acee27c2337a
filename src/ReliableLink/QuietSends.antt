-- ===== src/ReliableLink/QuietSends.antt =====
-- ReliableLink.cpp: sending and the timers leave the receiving side alone, unless the link fails.
use net_link.Common.{
  ℕ, ◌+◌, ◌-◌, ◌%◌, ◌^◌, ◌≡◌, refl, sym, subst, ltb, leb, if◌then◌else◌, Bool, true, false, ◌&&◌,
  ◌||◌, not, List, [], ◌∷◌, length, Bool-cases, inl, inr, Option, none, some, pos,
}
use net_link.Double.{Double}
use net_link.Protocol.Flags.{Lane, control, reliable, bulk, media, lane_eq}
use net_link.Protocol.Flags.Lanes.{lane_eq_refl}
use net_link.RttEstimator.{timeout_for}
use net_link.ReliableLink.{
  OutboundMessage, OutgoingDatagram, InFlight, FragmentCursor, SentRecord, Stream, ReliableLink,
  or_new, stream_for, new_stream, with_stream,
}
use net_link.ReliableLink.Losses.{entry_of, mark_lost, fail}
use net_link.ReliableLink.Sending.{
  next_lost, front, fragment_at, cursor_for, offer_fragment, peek_next, peek_media,
  congestion_window_open, peek_found, peek_stream, peek, transmit, commit_next, commit_lost,
  commit_stream, commit_media, commit,
}
use net_link.ReliableLink.Timers.{
  ask_if_silent, probe_stream, probe, looked_at, expire_one, expire_rounds, expire, is_dead,
  is_over, is_probe_due, on_timer, later_of, is_some_id,
}
use net_link.ReliableLink.Quiet.{
  IsSameView, view_refl, view_trans, IsQuiet, IsSafe, quiet, IsQuiet-refl, IsQuiet-trans,
  if_IsQuiet, with_stream-IsQuiet, clock-IsQuiet, IsFound, entry-IsFound, mark_lost-IsQuiet,
}

module _ {W : Type 0} where
  transmit-IsQuiet :
      (l : Lane) (seq : ℕ) (e : InFlight) (now : ℕ) (s : Stream) (k : ReliableLink W)
      → IsSameView (stream_for l k) s
      → IsQuiet k (transmit l seq e now (s, k))
  unfolding transmit
  transmit-IsQuiet l seq e now s k v =
      IsQuiet-trans k _ _
        (with_stream-IsQuiet l _ k _
          (view_trans (stream_for l k) s _ v
            (record { assembler = refl; expected = refl; reorder = refl }))
          (quiet k _ refl refl refl))
        (clock-IsQuiet now false _)

  lost-IsQuiet :
      (l : Lane) (o : Option InFlight) (now : ℕ) (s : Stream) (k : ReliableLink W)
      → IsSameView (stream_for l k) s
      → IsQuiet k (commit_lost l o now (s, k))
  unfolding commit_lost
  lost-IsQuiet l (some e) now s k v = transmit-IsQuiet l (front s.lost) e now _ k (
      view_trans (stream_for l k) s _ v
        (record { assembler = refl; expected = refl; reorder = refl }))
  lost-IsQuiet l none now s k v = following s.cursor
    where
      following : (c : Option FragmentCursor) → IsQuiet k (commit_next l c now (s, k))
      following none = with_stream-IsQuiet l s k k v (IsQuiet-refl k)
      following (some c) = transmit-IsQuiet l s.next_send_seq (fragment_at c) now _ k (
          view_trans (stream_for l k) s _ v
            (record { assembler = refl; expected = refl; reorder = refl }))

  pub stream_view :
      (l : Lane) (s : Stream) (k : ReliableLink W)
      → k.streams l ≡ some s
      → IsSameView (stream_for l k) s
  stream_view l s k e = subst (λ o. IsSameView (or_new l o) s) (sym e) (view_refl s)

  stream-IsQuiet :
      (l : Lane) (o : Option Stream) (now : ℕ) (k : ReliableLink W)
      → k.streams l ≡ o
      → IsQuiet k (commit_stream l o now k)
  unfolding commit_stream
  stream-IsQuiet l none now k e = IsQuiet-refl k
  stream-IsQuiet l (some s) now k e = lost-IsQuiet l (next_lost s.in_flight s.lost).0 now _ k (
      view_trans (stream_for l k) s _ (stream_view l s k e)
        (record { assembler = refl; expected = refl; reorder = refl }))

  media-IsQuiet : (o : Option FragmentCursor) (k : ReliableLink W) → IsQuiet k (commit_media o k)
  unfolding commit_media
  media-IsQuiet none k = IsQuiet-refl k
  media-IsQuiet (some c) k = quiet k _ refl refl refl

  pub commit-IsQuiet : (l : Lane) (now : ℕ) (k : ReliableLink W) → IsQuiet k (commit l now k)
  unfolding commit
  commit-IsQuiet l now k =
      if_IsQuiet (lane_eq l media) k (commit_media k.media_cursor k)
        (commit_stream l (k.streams l) now k) (media-IsQuiet k.media_cursor k)
        (stream-IsQuiet l (k.streams l) now k refl)

  offer-IsQuiet :
      (l : Lane) (seq : ℕ) (c : FragmentCursor) (k : ReliableLink W)
      → IsQuiet k (offer_fragment l seq c k).1
  unfolding offer_fragment
  offer-IsQuiet l seq c k = quiet k _ refl refl refl

  next-IsQuiet :
      (l : Lane) (c : Option FragmentCursor) (s : Stream) (offered : Option OutboundMessage)
      (k : ReliableLink W)
      → IsSameView (stream_for l k) s
      → IsQuiet k (peek_next l c s offered k).1.1
  unfolding peek_next
  next-IsQuiet l (some c) s offered k v = offer-IsQuiet l s.next_send_seq c k
  next-IsQuiet l none s none k v = IsQuiet-refl k
  next-IsQuiet l none s (some m) k v =
      IsQuiet-trans k (with_stream l (record s { cursor = some (cursor_for m) }) k) _
        (with_stream-IsQuiet l _ k k
          (view_trans (stream_for l k) s _ v
            (record { assembler = refl; expected = refl; reorder = refl }))
          (IsQuiet-refl k))
        (offer-IsQuiet l s.next_send_seq (cursor_for m)
          (with_stream l (record s { cursor = some (cursor_for m) }) k))

  peek_media-IsQuiet :
      (c : Option FragmentCursor) (offered : Option OutboundMessage) (k : ReliableLink W)
      → IsQuiet k (peek_media c offered k).1.1
  unfolding peek_media
  peek_media-IsQuiet (some c) offered k = offer-IsQuiet media k.next_media_seq c k
  peek_media-IsQuiet none none k = IsQuiet-refl k
  peek_media-IsQuiet none (some m) k = quiet k _ refl refl refl

  -- Whichever branch of a peek is taken.
  if_peeks :
      (c : Bool) (k : ReliableLink W) (x y : Bool × (Option OutgoingDatagram × ReliableLink W))
      → IsQuiet k x.1.1
      → IsQuiet k y.1.1
      → IsQuiet k (if c then x else y).1.1
  if_peeks true k x y a b = a
  if_peeks false k x y a b = b

module _ {W : Type 0} ⦃d : Double W⦄ where
  found-IsQuiet :
      (l : Lane) (o : Option InFlight) (s : Stream) (offered : Option OutboundMessage)
      (k : ReliableLink W)
      → IsSameView (stream_for l k) s
      → IsQuiet k (peek_found l o s offered k).1.1
  unfolding peek_found
  found-IsQuiet l (some e) s offered k v =
      if_peeks (s.peer_paused || not (congestion_window_open l k)) k _ _ (IsQuiet-refl k)
        (quiet k _ refl refl refl)
  found-IsQuiet l none s offered k v =
      if_peeks (leb (length s.in_flight.slots) ((s.next_send_seq + 2 ^ 64 - s.send_base) % 2 ^ 64))
        k _ _ (IsQuiet-refl k)
        (if_peeks (s.peer_paused || not (congestion_window_open l k)) k _ _ (IsQuiet-refl k)
          (next-IsQuiet l s.cursor s offered k v))

  peek_stream-IsQuiet :
      (l : Lane) (o : Option Stream) (offered : Option OutboundMessage) (k : ReliableLink W)
      → k.streams l ≡ o
      → IsQuiet k (peek_stream l o offered k).1.1
  unfolding peek_stream
  peek_stream-IsQuiet l none offered k e =
      if_peeks (not (congestion_window_open l k)) k _ _ (IsQuiet-refl k) (
        next-IsQuiet l none (new_stream l) offered k
          (subst (λ o. IsSameView (or_new l o) (new_stream l)) (sym e) (view_refl (new_stream l))))
  peek_stream-IsQuiet l (some s) offered k e =
      let s' : Stream = record s { lost = (next_lost s.in_flight s.lost).1 } in
      let v : IsSameView (stream_for l k) s' =
        view_trans (stream_for l k) s s' (stream_view l s k e)
          (record { assembler = refl; expected = refl; reorder = refl }) in
      let q : IsQuiet k (with_stream l s' k) = with_stream-IsQuiet l s' k k v (IsQuiet-refl k) in
      IsQuiet-trans k (with_stream l s' k) _ q (
        found-IsQuiet l (next_lost s.in_flight s.lost).0 s' offered (with_stream l s' k)
          (rw (lane_eq_refl l) (view_refl s')))

  pub peek-IsQuiet :
      (l : Lane) (offered : Option OutboundMessage) (k : ReliableLink W)
      → IsQuiet k (peek l offered k).1.1
  unfolding peek
  peek-IsQuiet l offered k = if_peeks k.failed k _ _ (IsQuiet-refl k) (
      if_peeks (lane_eq l media) k _ _ (peek_media-IsQuiet k.media_cursor offered k)
        (peek_stream-IsQuiet l (k.streams l) offered k refl))

  ask-IsQuiet : (now : ℕ) (k : ReliableLink W) → IsQuiet k (ask_if_silent now k)
  unfolding ask_if_silent
  ask-IsQuiet now k =
      if_IsQuiet
        (is_some_id k.remote_stream_id
          && is_over now (later_of k.last_received k.pinged_at) k.timings.keep_alive)
        k _ k (quiet k _ refl refl refl) (IsQuiet-refl k)

  expire_one-IsQuiet :
      (now timeout : ℕ) (again : ReliableLink W → Bool × ReliableLink W)
      → ((k : ReliableLink W) → IsQuiet k (again k).1)
      → (r : SentRecord) (rest : List SentRecord) (o : Option (Stream × InFlight))
        (k : ReliableLink W)
      → IsFound r k o
      → IsQuiet k (expire_one now timeout again r rest o k).1
  unfolding expire_one
  expire_one-IsQuiet now timeout again keep r rest none k f =
      IsQuiet-trans k (looked_at k) _ (quiet k _ refl refl refl) (keep (looked_at k))
  expire_one-IsQuiet now timeout again keep r rest (some (s, e)) k f =
      elim (Bool-cases (ltb now (e.sent_at + timeout))) [
        | inl y ↦ rw y (quiet k _ refl refl refl)
        | inr n ↦ rw n (
            let gone : ReliableLink W = mark_lost r (s, e) true (looked_at k) in
            IsQuiet-trans k gone _
              (IsQuiet-trans k (looked_at k) gone (quiet k _ refl refl refl)
                (mark_lost-IsQuiet r s e true (looked_at k) f))
              (keep gone))
      ]

  rounds-IsQuiet :
      (now timeout : ℕ) (rs : List SentRecord) (k : ReliableLink W)
      → IsQuiet k (expire_rounds now timeout rs k).1
  unfolding expire_rounds
  rounds-IsQuiet now timeout [] k = quiet k _ refl refl refl
  rounds-IsQuiet now timeout (r ∷ rest) k =
      expire_one-IsQuiet now timeout (expire_rounds now timeout rest)
        (rounds-IsQuiet now timeout rest) r rest (entry_of r k) k (entry-IsFound r k)

  expire-IsQuiet : (now : ℕ) (k : ReliableLink W) → IsQuiet k (expire now k)
  unfolding expire
  expire-IsQuiet now k =
      let r = expire_rounds now (timeout_for (pos k.timeouts_in_a_row) k.rtt) k.sent k in
      IsQuiet-trans k r.1 _
        (rounds-IsQuiet now (timeout_for (pos k.timeouts_in_a_row) k.rtt) k.sent k)
        (if_IsQuiet (r.0 && ltb r.1.timeouts_in_a_row 16) r.1 _ r.1 (quiet r.1 _ refl refl refl)
          (IsQuiet-refl r.1))

  probe-IsQuiet : (l : Lane) (now : ℕ) (k : ReliableLink W) → IsQuiet k (probe l now k)
  unfolding probe
  probe-IsQuiet l now k = at (k.streams l) refl
    where
      at : (o : Option Stream) → k.streams l ≡ o → IsQuiet k (probe_stream l now o k)
      at none e = IsQuiet-refl k
      at (some s) e =
          if_IsQuiet (is_probe_due now (some s)) k _ k
            (with_stream-IsQuiet l _ k _
              (view_trans (stream_for l k) s _ (stream_view l s k e)
                (record { assembler = refl; expected = refl; reorder = refl }))
              (quiet k _ refl refl refl))
            (IsQuiet-refl k)

  if_IsSafe :
      (c : Bool) (k x y : ReliableLink W) → IsSafe k x → IsSafe k y → IsSafe k (if c then x else y)
  if_IsSafe true k x y a b = a
  if_IsSafe false k x y a b = b

  fail-IsSafe : (k : ReliableLink W) → IsSafe k (fail k)
  unfolding fail
  fail-IsSafe k = (refl, λ n. absurd (cc))

  -- The timers of a link that has not failed.
  pub serviced-IsQuiet :
      (now : ℕ) (k : ReliableLink W)
      → IsQuiet k (
          probe bulk now
            (probe reliable now (probe control now (expire now (ask_if_silent now k)))))
  serviced-IsQuiet now k = all
    where
      asked : ReliableLink W
      asked = ask_if_silent now k

      expired : ReliableLink W
      expired = expire now asked

      all : IsQuiet k (probe bulk now (probe reliable now (probe control now expired)))
      all = IsQuiet-trans k asked _ (ask-IsQuiet now k) (
          IsQuiet-trans asked expired _ (expire-IsQuiet now asked) (
            IsQuiet-trans expired (probe control now expired) _ (probe-IsQuiet control now expired)
              (IsQuiet-trans (probe control now expired)
                (probe reliable now (probe control now expired)) _
                (probe-IsQuiet reliable now (probe control now expired))
                (probe-IsQuiet bulk now (probe reliable now (probe control now expired))))))

  pub timer-IsSafe : (now : ℕ) (k : ReliableLink W) → IsSafe k (on_timer now k)
  unfolding on_timer
  timer-IsSafe now k =
      let all = serviced-IsQuiet now k in
      if_IsSafe k.failed k k _ (refl, λ n. IsQuiet-refl k)
        (if_IsSafe (is_dead now k) k (fail k) _ (fail-IsSafe k) (all.delivered, λ n. all))
