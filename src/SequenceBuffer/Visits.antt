-- ===== src/SequenceBuffer/Visits.antt =====
-- SequenceBuffer.h: the loops over all slots, `forEach` and `clear`.
use net_link.Common.{
  ℕ, zero, suc, ◌+◌, ◌-◌, ◌%◌, ◌^◌, ◌≤◌, ◌<◌, ◌≡◌, refl, ap, ◌∙◌, if◌then◌else◌, Bool, true, false,
  Bool-cases, inl, inr, List, [], ◌∷◌, length, get_or, bit_and, Option, none, some, arith,
}
use net_link.SequenceBuffer.{
  Slot, SequenceBuffer, empty_slot, index, holds, find, one_less, visit_slot, visit, for_each,
  release_all, clear,
}
use net_link.SequenceBuffer.Slots.{counts, count_occupied, count_occupied_bound, IsValid}

module _ {T : Type 0} (fresh : T) where
  module _ {S : Type 0} (fn : ℕ → T → S → Bool × T × S) where
    -- One round.
    visit_slot_lem :
        (slot : Slot T) (size : ℕ) (s : S)
        → counts slot ≤ size
        → size < 2 ^ 64
        → ((visit_slot fresh fn slot size s).1 + counts slot
            ≡ size + counts (visit_slot fresh fn slot size s).0)
          × ((visit_slot fresh fn slot size s).1 ≤ size)
          × ((visit_slot fresh fn slot size s).0.seq ≡ slot.seq)
          × ((visit_slot fresh fn slot size s).0.occupied ≡ true → slot.occupied ≡ true)
    unfolding visit_slot
    visit_slot_lem slot size s h small = ground arith

    visit_slot_placed :
        (slot : Slot T) (size : ℕ) (s : S)
        → (visit_slot fresh fn slot size s).0.occupied ≡ true
        → (slot.occupied ≡ true) × ((visit_slot fresh fn slot size s).0.seq ≡ slot.seq)
    unfolding visit_slot
    visit_slot_placed slot size s on = ground arith

    visit_count :
        (slots : List (Slot T)) (size : ℕ) (s : S)
        → count_occupied slots ≤ size
        → size < 2 ^ 64
        → ((visit fresh fn slots size s).1 + count_occupied slots
            ≡ size + count_occupied (visit fresh fn slots size s).0)
          × (length (visit fresh fn slots size s).0 ≡ length slots)
    unfolding visit
    visit_count [] size s h small = (refl, refl)
    visit_count (slot ∷ slots) size s h small =
        let (change, less, _, _) = visit_slot_lem slot size s (omega arith) small in
        let (later, long) =
          visit_count slots (visit_slot fresh fn slot size s).1 (visit_slot fresh fn slot size s).2
            (omega arith) (omega arith) in
        (omega arith, ap suc long)

    visit_placed :
        (slots : List (Slot T)) (size : ℕ) (s : S) (i : ℕ)
        → (get_or (visit fresh fn slots size s).0 i (empty_slot fresh)).occupied ≡ true
        → ((get_or slots i (empty_slot fresh)).occupied ≡ true)
          × ((get_or (visit fresh fn slots size s).0 i (empty_slot fresh)).seq
              ≡ (get_or slots i (empty_slot fresh)).seq)
    unfolding visit
    visit_placed [] size s i on = (on, refl)
    visit_placed (slot ∷ slots) size s zero on = visit_slot_placed slot size s on
    visit_placed (slot ∷ slots) size s (suc i) on =
        let (slot', size', s') = visit_slot fresh fn slot size s in visit_placed slots size' s' i on

    -- Whatever `fn` does, the ring stays valid.
    for_each-IsValid :
        (k : ℕ) (s : S) (b : SequenceBuffer T)
        → IsValid fresh k b
        → IsValid fresh k (for_each fresh fn s b).0
    unfolding for_each
    for_each-IsValid k s b v =
        let (change, long) =
          visit_count b.slots b.size s (omega (arith, v.counted))
            (omega (arith, v.counted, v.capacity, v.small, count_occupied_bound b.slots)) in
        record {
          capacity = long ∙ v.capacity;
          small = v.small;
          placed = λ i on.
              let (was, same) = visit_placed b.slots b.size s i on in
              ap (λ n. n % 2 ^ k) same ∙ v.placed i was;
          counted = omega (arith, change, v.counted);
        }

  -- Where `fn` only looks at the entry: what stays of each.
  module _ (fn : ℕ → T → Bool × T) where
    abbrev pub looking : ℕ → T → Unit {0} → Bool × T × Unit {0}
    looking seq value u = ((fn seq value).0, (fn seq value).1, u)

    abbrev pub kept : ℕ → Option T → Option T
    kept seq none = none
    kept seq (some value) = if (fn seq value).0 then some (fn seq value).1 else none

    abbrev entry : ℕ → Slot T → Option T
    entry seq slot = if holds fresh seq slot then some slot.value else none

    entry-visit_slot :
        (seq : ℕ) (slot : Slot T) (size : ℕ)
        → entry seq (visit_slot fresh looking slot size tt).0 ≡ kept seq (entry seq slot)
    unfolding visit_slot
    entry-visit_slot seq slot size = ground arith

    entry-visit :
        (seq : ℕ) (slots : List (Slot T)) (size : ℕ) (i : ℕ)
        → entry seq (get_or (visit fresh looking slots size tt).0 i (empty_slot fresh))
          ≡ kept seq (entry seq (get_or slots i (empty_slot fresh)))
    unfolding visit
    entry-visit seq [] size i = refl
    entry-visit seq (slot ∷ slots) size zero = entry-visit_slot seq slot size
    entry-visit seq (slot ∷ slots) size (suc i) =
        entry-visit seq slots (visit_slot fresh looking slot size tt).1 i

    -- `forEach` leaves of every entry what `fn` says, and nothing else.
    find-for_each :
        (k seq : ℕ) (b : SequenceBuffer T)
        → IsValid fresh k b
        → find fresh seq (for_each fresh looking tt b).0 ≡ kept seq (find fresh seq b)
    unfolding for_each find index
    find-for_each k seq b v =
        let long =
          (visit_count looking b.slots b.size tt (omega (arith, v.counted))
            (omega (arith, v.counted, v.capacity, v.small, count_occupied_bound b.slots))).1 in
        ap
          (λ n. entry seq (
            get_or (visit fresh looking b.slots b.size tt).0
              (bit_and seq ((n + 2 ^ 64 - 1) % 2 ^ 64)) (empty_slot fresh)))
          long
        ∙ entry-visit seq b.slots b.size (index fresh seq b)

  no_entry : ℕ → T → Bool × T
  no_entry seq value = (false, value)

  release_all-visit :
      (slots : List (Slot T)) (size : ℕ)
      → release_all fresh slots size ≡ (
        (visit fresh (looking no_entry) slots size tt).0,
        (visit fresh (looking no_entry) slots size tt).1,
      )
  unfolding release_all visit visit_slot no_entry
  release_all-visit [] size = refl
  release_all-visit (slot ∷ slots) size = elim (Bool-cases slot.occupied) [
    | inl on ↦ rw (on, release_all-visit slots (one_less fresh size))
    | inr off ↦ rw (off, release_all-visit slots size)
  ]

  clear-for_each :
      (b : SequenceBuffer T) → clear fresh b ≡ (for_each fresh (looking no_entry) tt b).0
  unfolding clear for_each
  clear-for_each b = ap (λ r. record { slots = r.0; size = r.1 }) (release_all-visit b.slots b.size)

  kept-none : (seq : ℕ) (o : Option T) → kept no_entry seq o ≡ none
  unfolding no_entry
  kept-none seq none = refl
  kept-none seq (some value) = refl

  -- `clear` leaves no entry, and the ring valid.
  clear_lem :
      (k seq : ℕ) (b : SequenceBuffer T)
      → IsValid fresh k b
      → (find fresh seq (clear fresh b) ≡ none) × IsValid fresh k (clear fresh b)
  clear_lem k seq b v = rw (clear-for_each b) (
    find-for_each no_entry k seq b v ∙ kept-none seq (find fresh seq b),
    for_each-IsValid (looking no_entry) k tt b v,
  )
