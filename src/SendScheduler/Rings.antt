-- ===== src/SendScheduler/Rings.antt =====
-- SendScheduler.h: the ring of a lane, and whose turn it is.
use net_link.Common.{
  ℕ, zero, suc, ◌+◌, ◌-◌, ◌%◌, ◌^◌, ◌≤◌, ◌<◌, ◌≡◌, ◌≢◌, refl, sym, ap, ◌∙◌, ◌==◌, ltb, leb, ==_iff,
  if◌then◌else◌, true, false, List, [], ◌∷◌, length, get_or, length-append, Bool-cases, inl, inr,
  arith,
}
use net_link.Protocol.Flags.{Lane, lane_eq}
use net_link.SendScheduler.{
  quantum, Ring, SendScheduler, empty_ring, next_peer, erase_at, index_of, remove_from, add_peer,
  remove_peer, clear_rings, at_peer, after_sent, after_nothing,
}

-- The cursor is at a peer or behind the last one, and the peer whose turn it is has datagrams left.
pub record IsValid (r : Ring) : Type 0 where
  few : length r.peers < 2 ^ 64
  cursor : r.cursor ≤ length r.peers
  used : r.used < quantum

abbrev pub AreValid : {W : Type 0} → SendScheduler W → Type 0
AreValid b = (l : Lane) → IsValid (b.rings l)

-- The peer whose turn it is.
abbrev pub turn_of : Ring → ℕ
turn_of r = get_or (at_peer r).peers (at_peer r).cursor 0

pub length-erase_at :
    (i : ℕ) (xs : List ℕ) → i < length xs → suc (length (erase_at i xs)) ≡ length xs
unfolding erase_at
length-erase_at i [] h = absurd (omega arith)
length-erase_at zero (x ∷ xs) h = refl
length-erase_at (suc i) (x ∷ xs) h = ap suc (length-erase_at i xs (omega arith))

get_or-erase_before : (i j : ℕ) (xs : List ℕ) → j < i → get_or (erase_at i xs) j 0 ≡ get_or xs j 0
unfolding erase_at
get_or-erase_before i j [] h = refl
get_or-erase_before zero j (x ∷ xs) h = absurd (omega arith)
get_or-erase_before (suc i) zero (x ∷ xs) h = refl
get_or-erase_before (suc i) (suc j) (x ∷ xs) h = get_or-erase_before i j xs (omega arith)

get_or-erase_behind :
    (i j : ℕ) (xs : List ℕ) → i ≤ j → get_or (erase_at i xs) j 0 ≡ get_or xs (suc j) 0
unfolding erase_at
get_or-erase_behind i j [] h = refl
get_or-erase_behind zero j (x ∷ xs) h = refl
get_or-erase_behind (suc i) zero (x ∷ xs) h = absurd (omega arith)
get_or-erase_behind (suc i) (suc j) (x ∷ xs) h = get_or-erase_behind i j xs (omega arith)

index_of_bound : (peer : ℕ) (xs : List ℕ) → index_of peer xs ≤ length xs
unfolding index_of
index_of_bound peer [] = omega arith
index_of_bound peer (x ∷ xs) = ground (arith, index_of_bound peer xs)

get_or-index_of :
    (peer : ℕ) (xs : List ℕ) → index_of peer xs < length xs → get_or xs (index_of peer xs) 0 ≡ peer
unfolding index_of
get_or-index_of peer [] h = absurd (omega arith)
get_or-index_of peer (x ∷ xs) h = elim (Bool-cases (x == peer)) [
  | inl e ↦ rw e ((==_iff x peer).0 e)
  | inr e ↦ rw e (get_or-index_of peer xs (shorter e))
]
  where
    shorter : (x == peer) ≡ false → index_of peer xs < length xs
    shorter e = ground (arith, h, e)

remove_from-IsValid : (peer : ℕ) (r : Ring) → IsValid r → IsValid (remove_from peer r)
unfolding remove_from
remove_from-IsValid peer r v = elim (Bool-cases (index_of peer r.peers == length r.peers)) [
  | inl e ↦ rw e v
  | inr e ↦ rw e (record {
    few =
        omega (arith, within e, length-erase_at (index_of peer r.peers) r.peers (within e), v.few);
    cursor =
        shifted (index_of peer r.peers) r.cursor (length r.peers)
          (length (erase_at (index_of peer r.peers) r.peers))
          (length-erase_at (index_of peer r.peers) r.peers (within e)) (within e) v.cursor;
    used = v.used;
  })
]
  where
    shifted :
        (i cursor n m : ℕ)
        → suc m ≡ n
        → i < n
        → cursor ≤ n
        → (if ltb i cursor then cursor - 1 else cursor) ≤ m
    shifted i cursor n m h within at = ground arith

    within :
        (index_of peer r.peers == length r.peers) ≡ false → index_of peer r.peers < length r.peers
    within e = ground (arith, index_of_bound peer r.peers)

AreValid-remove_peer :
    {W : Type 0} (peer : ℕ) (b : SendScheduler W) → AreValid b → AreValid (remove_peer peer b)
unfolding remove_peer
AreValid-remove_peer peer b v l = remove_from-IsValid peer (b.rings l) (v l)

behind-eq : (n m : ℕ) → n < m → leb m n ≡ false
behind-eq n m h = ground arith

turn_at : (r : Ring) → r.cursor < length r.peers → turn_of r ≡ get_or r.peers r.cursor 0
turn_at r h = rw (behind-eq r.cursor (length r.peers) h) refl

erased_turn :
    (i cursor peer : ℕ) (xs : List ℕ) (used : ℕ)
    → i < length xs
    → get_or xs i 0 ≡ peer
    → cursor < length xs
    → get_or xs cursor 0 ≢ peer
    → turn_of (record {
      peers = erase_at i xs;
      cursor = if ltb i cursor then cursor - 1 else cursor;
      used = used;
    })
      ≡ get_or xs cursor 0
erased_turn i cursor peer xs used here found within other = elim (Bool-cases (ltb i cursor)) [
  | inl e ↦ rw e (
      turn_at (record { peers = erase_at i xs; cursor = cursor - 1; used = used })
        (ground (arith, e, length-erase_at i xs here, within))
      ∙ get_or-erase_behind i (cursor - 1) xs (ground (arith, e))
      ∙ ap (λ n. get_or xs n 0) (one_more e))
  | inr e ↦ rw e (
      turn_at (record { peers = erase_at i xs; cursor = cursor; used = used })
        (ground (arith, before e, length-erase_at i xs here))
      ∙ get_or-erase_before i cursor xs (before e))
]
  where
    one_more : ltb i cursor ≡ true → suc (cursor - 1) ≡ cursor
    one_more e = ground (arith, e)

    ne : i ≢ cursor
    ne e = other (ap (λ n. get_or xs n 0) (sym e) ∙ found)

    before : ltb i cursor ≡ false → cursor < i
    before e = ground (arith, e, ne)

turn_kept :
    (peer : ℕ) (r : Ring)
    → r.cursor < length r.peers
    → get_or r.peers r.cursor 0 ≢ peer
    → turn_of (remove_from peer r) ≡ get_or r.peers r.cursor 0
unfolding remove_from
turn_kept peer r within other = elim (Bool-cases (index_of peer r.peers == length r.peers)) [
  | inl e ↦ rw e (turn_at r within)
  | inr e ↦ rw e (
      erased_turn (index_of peer r.peers) r.cursor peer r.peers r.used (inside e)
        (get_or-index_of peer r.peers (inside e)) within other)
]
  where
    inside :
        (index_of peer r.peers == length r.peers) ≡ false → index_of peer r.peers < length r.peers
    inside e = ground (arith, index_of_bound peer r.peers)

-- A peer that leaves takes no one's turn away: as long as it is not the peer whose turn it is, that one
-- keeps it, wherever in the ring the other was.
pub turn_of-remove_peer :
    {W : Type 0} (peer : ℕ) (l : Lane) (b : SendScheduler W)
    → (b.rings l).cursor < length (b.rings l).peers
    → turn_of (b.rings l) ≢ peer
    → turn_of ((remove_peer peer b).rings l) ≡ turn_of (b.rings l)
unfolding remove_peer
turn_of-remove_peer peer l b within other =
    turn_kept peer (b.rings l) within (λ e. other (turn_at (b.rings l) within ∙ e))
    ∙ sym (turn_at (b.rings l) within)

pub at_peer-IsValid : (r : Ring) → IsValid r → IsValid (at_peer r)
at_peer-IsValid r v = elim (Bool-cases (leb (length r.peers) r.cursor)) [
  | inl e ↦ rw e (record { few = v.few; cursor = omega arith; used = v.used })
  | inr e ↦ rw e v
]

pub after_sent-IsValid : (r : Ring) → IsValid r → r.cursor < length r.peers → IsValid (after_sent r)
unfolding after_sent next_peer
after_sent-IsValid r v within = elim (Bool-cases (leb 4 ((r.used + 1) % 18446744073709551616))) [
  | inl e ↦ rw e (record { few = v.few; cursor = omega (arith, v.few); used = omega arith })
  | inr e ↦ rw e (record { few = v.few; cursor = v.cursor; used = ground (arith, e) })
]

pub next_peer-IsValid : (r : Ring) → IsValid r → r.cursor < length r.peers → IsValid (next_peer r)
unfolding next_peer
next_peer-IsValid r v within = record {
  few = v.few;
  cursor = omega (arith, v.few);
  used = omega arith;
}

pub after_nothing-IsValid :
    (r : Ring) → IsValid r → r.cursor < length r.peers → IsValid (after_nothing r)
unfolding after_nothing
after_nothing-IsValid r v within = record {
  few = omega (arith, v.few, length-erase_at r.cursor r.peers within);
  cursor = omega (arith, length-erase_at r.cursor r.peers within);
  used = omega arith;
}

pub AreValid-add_peer :
    {W : Type 0} (l : Lane) (peer : ℕ) (b : SendScheduler W)
    → suc (length (b.rings l).peers) < 2 ^ 64
    → AreValid b
    → AreValid (add_peer l peer b)
unfolding add_peer
AreValid-add_peer l peer b few v l' = elim (Bool-cases (lane_eq l l')) [
  | inl e ↦ rw e (record {
    few = omega (arith, few, length-append (b.rings l).peers (peer ∷ []));
    cursor = omega (arith, (v l).cursor, length-append (b.rings l).peers (peer ∷ []));
    used = (v l).used;
  })
  | inr e ↦ rw e (v l')
]

pub empty_ring-IsValid : IsValid empty_ring
empty_ring-IsValid = record { few = omega arith; cursor = omega arith; used = omega arith }

AreValid-clear_rings : {W : Type 0} (b : SendScheduler W) → AreValid (clear_rings b)
unfolding clear_rings
AreValid-clear_rings b l = empty_ring-IsValid
