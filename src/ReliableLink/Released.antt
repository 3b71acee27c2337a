-- ===== src/ReliableLink/Released.antt =====
-- ReliableLink.cpp, handleAck: which packets an Ack takes off the list of those in flight.
use net_link.Common.{
  ℕ, zero, suc, ◌+◌, ◌^◌, ◌≤◌, ◌<◌, min, max, ◌≡◌, refl, sym, ap, ◌∙◌, ◌==◌, ltb, leb,
  if◌then◌else◌, Bool, true, false, ◌&&◌, ◌||◌, List, [], ◌∷◌, Bool-cases, inl, inr, Option, none,
  some, ==_iff, arith,
}
use net_link.Protocol.Ack.{SeqRange, last}
use net_link.SequenceBuffer.{SequenceBuffer, find, contains, erase}
use net_link.SequenceBuffer.Slots.{IsValid}
use net_link.SequenceBuffer.Lookup.{erase_lem, take_entry_lem}
use net_link.ReliableLink.{InFlight, Stream, no_flight, next}
use net_link.ReliableLink.Losses.{prev}
use net_link.ReliableLink.Acks.{
  Acked, rounds_of, release_found, release, release_from, release_range, release_ranges,
  release_acked,
}

-- From `first` on, `rounds` of them.
abbrev is_in : ℕ → ℕ → ℕ → Bool
is_in first rounds t = leb first t && ltb t (first + rounds)

-- What the loop over a range releases: no seq that was acknowledged before or never sent.
abbrev is_in_range : ℕ → ℕ → SeqRange → ℕ → Bool
is_in_range send_base last_sent r t =
    leb r.first t && leb t (last r) && leb send_base t && leb t last_sent

abbrev is_in_ranges : ℕ → ℕ → List SeqRange → ℕ → Bool
is_in_ranges send_base last_sent [] t = false
is_in_ranges send_base last_sent (r ∷ rs) t =
    is_in_range send_base last_sent r t || is_in_ranges send_base last_sent rs t

-- What an Ack of the seq `seq` with these ranges names.
abbrev pub is_named : ℕ → List SeqRange → Stream → ℕ → Bool
is_named seq ranges s t =
    let last_sent = prev s.next_send_seq in
    (leb s.send_base t && leb t seq && leb t last_sent)
    || is_in_ranges s.send_base last_sent ranges t

-- The rounds of a range are the seqs in it that were sent and not acknowledged before.
clip :
    (first last base last_sent t : ℕ)
    → (leb first t && leb t last && leb base t && leb t last_sent)
      ≡ is_in (max first base) (rounds_of (max first base) (min last last_sent)) t
clip first last base last_sent t = ground arith

clip_beyond :
    (first last base last_sent t : ℕ)
    → ltb last_sent first ≡ true
    → (leb first t && leb t last && leb base t && leb t last_sent) ≡ false
clip_beyond first last base last_sent t h = ground arith

clip_first :
    (base seq last_sent t : ℕ)
    → (leb base t && leb t seq && leb t last_sent)
      ≡ is_in base (rounds_of base (min seq last_sent)) t
clip_first base seq last_sent t = ground arith

clip_small :
    (from last last_sent : ℕ)
    → suc last_sent < 2 ^ 64
    → from < 2 ^ 64
    → from + rounds_of from (min last last_sent) < 2 ^ 64
clip_small from last last_sent h f = ground arith

start_small :
    (first base last_sent : ℕ)
    → suc last_sent < 2 ^ 64
    → base < 2 ^ 64
    → ltb last_sent first ≡ false
    → max first base < 2 ^ 64
start_small first base last_sent h b within = ground arith

-- `s'` is `s` without the entries of the seqs that are gone.
record IsLeft (bits : ℕ) (s s' : Stream) (gone : ℕ → Bool) : Type 0 where
  found :
      (t : ℕ)
      → find no_flight t s'.in_flight ≡ (if gone t then none else find no_flight t s.in_flight)
  valid : IsValid no_flight bits s'.in_flight
  base : s'.send_base ≡ s.send_base
  following : s'.next_send_seq ≡ s.next_send_seq

module _ (bits recovery : ℕ) where
  released :
      (seq : ℕ) (s : Stream) (a : Acked)
      → IsValid no_flight bits s.in_flight
      → (o : Option InFlight) → find no_flight seq s.in_flight ≡ o
      → IsLeft bits s
          (release_found recovery (o, (erase no_flight seq s.in_flight).1) (s, a)).0
          (λ t. t == seq)
  unfolding release_found
  released seq s a v none e = record {
    found = λ t. kept t (t == seq) refl;
    valid = v;
    base = refl;
    following = refl;
  }
    where
      kept :
          (t : ℕ) (c : Bool)
          → (t == seq) ≡ c
          → find no_flight t s.in_flight ≡ (if c then none else find no_flight t s.in_flight)
      kept t true at = ap (λ t. find no_flight t s.in_flight) ((==_iff t seq).0 at) ∙ e
      kept t false at = refl
  released seq s a v (some f) e = record {
    found = λ t. (erase_lem no_flight bits t seq s.in_flight v).1;
    valid = (erase_lem no_flight bits 0 seq s.in_flight v).2;
    base = refl;
    following = refl;
  }

  release_lem :
      (seq : ℕ) (s : Stream) (a : Acked)
      → IsValid no_flight bits s.in_flight
      → IsLeft bits s (release recovery seq (s, a)).0 (λ t. t == seq)
  unfolding release
  release_lem seq s a v =
      rw (take_entry_lem no_flight bits seq s.in_flight)
        (released seq s a v (find no_flight seq s.in_flight) refl)

  -- Two releases, one after the other.
  left_trans :
      (s s' s'' : Stream) (gone gone' all : ℕ → Bool)
      → ((t : ℕ) → all t ≡ (gone t || gone' t))
      → IsLeft bits s s' gone
      → IsLeft bits s' s'' gone'
      → IsLeft bits s s'' all
  left_trans s s' s'' gone gone' all split l l' = record {
    found = λ t.
        l'.found t
        ∙ ap (λ o. if gone' t then none else o) (l.found t)
        ∙ both (gone t) (gone' t) (find no_flight t s.in_flight)
        ∙ ap (λ c. if c then none else find no_flight t s.in_flight) (sym (split t));
    valid = l'.valid;
    base = l'.base ∙ l.base;
    following = l'.following ∙ l.following;
  }
    where
      both :
          (c c' : Bool) (o : Option InFlight)
          → (if c' then none else if c then none else o) ≡ (if c || c' then none else o)
      both true true o = refl
      both true false o = refl
      both false true o = refl
      both false false o = refl

  left_same :
      (s s' : Stream) (gone gone' : ℕ → Bool)
      → ((t : ℕ) → gone' t ≡ gone t)
      → IsLeft bits s s' gone
      → IsLeft bits s s' gone'
  left_same s s' gone gone' e l = record {
    found = λ t. l.found t ∙ ap (λ c. if c then none else find no_flight t s.in_flight) (sym (e t));
    valid = l.valid;
    base = l.base;
    following = l.following;
  }

  release_from_lem :
      (rounds seq : ℕ) (s : Stream) (a : Acked)
      → seq + rounds < 2 ^ 64
      → IsValid no_flight bits s.in_flight
      → IsLeft bits s (release_from recovery rounds seq (s, a)).0 (is_in seq rounds)
  unfolding release_from
  release_from_lem zero seq s a h v = record {
    found = λ t. rw (empty t) refl;
    valid = v;
    base = refl;
    following = refl;
  }
    where
      empty : (t : ℕ) → is_in seq 0 t ≡ false
      empty t = ground arith
  release_from_lem (suc rounds) seq s a h v =
      let one = release recovery seq (s, a) in
      let l = release_lem seq s a v in
      let next_is : next seq ≡ seq + 1 = omega arith in
      left_trans s one.0 _ (λ t. t == seq) (is_in (next seq) rounds) (is_in seq (suc rounds))
        (λ t. rw next_is (ground arith)) l
        (release_from_lem rounds (next seq) one.0 one.1 (omega (arith, next_is)) l.valid)

  range_lem :
      (last_sent : ℕ) (r : SeqRange) (s : Stream) (a : Acked)
      → suc last_sent < 2 ^ 64
      → s.send_base < 2 ^ 64
      → IsValid no_flight bits s.in_flight
      → IsLeft bits s
          (release_range recovery last_sent r (s, a)).0
          (is_in_range s.send_base last_sent r)
  unfolding release_range
  range_lem last_sent r s a h b v = elim (Bool-cases (ltb last_sent r.first)) [
    | inl beyond ↦ rw beyond (record {
      found = λ t. rw (clip_beyond r.first (last r) s.send_base last_sent t beyond) refl;
      valid = v;
      base = refl;
      following = refl;
    })
    | inr within ↦ rw within (
        left_same s _
          (is_in (max r.first s.send_base)
            (rounds_of (max r.first s.send_base) (min (last r) last_sent)))
          _ (clip r.first (last r) s.send_base last_sent)
          (release_from_lem (rounds_of (max r.first s.send_base) (min (last r) last_sent))
            (max r.first s.send_base) s a
            (clip_small (max r.first s.send_base) (last r) last_sent h
              (start_small r.first s.send_base last_sent h b within))
            v))
  ]

  ranges_lem :
      (last_sent : ℕ) (rs : List SeqRange) (s : Stream) (a : Acked)
      → suc last_sent < 2 ^ 64
      → s.send_base < 2 ^ 64
      → IsValid no_flight bits s.in_flight
      → IsLeft bits s
          (release_ranges recovery last_sent rs (s, a)).0
          (is_in_ranges s.send_base last_sent rs)
  unfolding release_ranges
  ranges_lem last_sent [] s a h b v = record {
    found = λ t. refl;
    valid = v;
    base = refl;
    following = refl;
  }
  ranges_lem last_sent (r ∷ rs) s a h b v =
      let one = release_range recovery last_sent r (s, a) in
      let l = range_lem last_sent r s a h b v in
      let rest = ranges_lem last_sent rs one.0 one.1 h (omega (arith, l.base, b)) l.valid in
      left_trans s one.0 _ (is_in_range s.send_base last_sent r)
        (is_in_ranges one.0.send_base last_sent rs) _
        (λ t.
          ap (λ base. is_in_range s.send_base last_sent r t || is_in_ranges base last_sent rs t)
            (sym l.base))
        l rest

  -- An Ack takes exactly the packets out of those in flight that it names: those up to its seq and those
  -- of its ranges, as far as they were sent and not acknowledged before. All others stay as they are.
  pub release_acked_lem :
      (seq : ℕ) (ranges : List SeqRange) (s : Stream) (a : Acked) (t : ℕ)
      → IsValid no_flight bits s.in_flight
      → 0 < s.next_send_seq
      → s.next_send_seq < 2 ^ 64
      → s.send_base ≤ s.next_send_seq
      → (find no_flight t (release_acked recovery seq ranges (s, a)).0.in_flight
          ≡ (if is_named seq ranges s t then none else find no_flight t s.in_flight))
        × IsValid no_flight bits (release_acked recovery seq ranges (s, a)).0.in_flight
  unfolding release_acked
  release_acked_lem seq ranges s a t v pos small order =
      let last_sent = prev s.next_send_seq in
      let h : suc last_sent < 2 ^ 64 = omega arith in
      let b : s.send_base < 2 ^ 64 = omega arith in
      let rounds = rounds_of s.send_base (min seq last_sent) in
      let one = release_from recovery rounds s.send_base (s, a) in
      let l =
        left_same s one.0 (is_in s.send_base rounds)
          (λ t. leb s.send_base t && leb t seq && leb t last_sent)
          (clip_first s.send_base seq last_sent)
          (release_from_lem rounds s.send_base s a (clip_small s.send_base seq last_sent h b) v) in
      let rest = ranges_lem last_sent ranges one.0 one.1 h (omega (arith, l.base, b)) l.valid in
      let all =
        left_trans s one.0 (release_ranges recovery last_sent ranges one).0
          (λ t. leb s.send_base t && leb t seq && leb t last_sent)
          (is_in_ranges one.0.send_base last_sent ranges) (is_named seq ranges s)
          (λ t.
            ap
              (λ base.
                (leb s.send_base t && leb t seq && leb t last_sent)
                || is_in_ranges base last_sent ranges t)
              (sym l.base))
          l rest in
      (all.found t, all.valid)

-- `to` is the first seq from `from` on, below `end`, that is in flight, or `end`.
pub record IsFirst (b : SequenceBuffer InFlight) (from to end : ℕ) : Type 0 where
  after : from ≤ to
  before : to ≤ end
  gone : (t : ℕ) → from ≤ t → t < to → contains no_flight t b ≡ false
  held : to < end → contains no_flight to b ≡ true
