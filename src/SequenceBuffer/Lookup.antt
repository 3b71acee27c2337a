-- ===== src/SequenceBuffer/Lookup.antt =====
-- SequenceBuffer.h: the ring as a map from seqs to entries.
use net_link.Common.{
  ℕ, zero, suc, ◌+◌, ◌%◌, ◌^◌, ◌≤◌, ◌<◌, ◌≡◌, refl, sym, ap, ◌∙◌, ◌==◌, if◌then◌else◌, true, false,
  Bool-cases, inl, inr, length, length-set, length-replicate, get_or, get_or-set_self,
  get_or-set_ne, set, replicate, none, some, ==_iff, arith,
}
use net_link.SequenceBuffer.{
  Slot, SequenceBuffer, empty_slot, empty_buffer, index, slot_of, holds, insert, is_some, find,
  contains, released, one_less, release_slot, take_entry, erase,
}
use net_link.SequenceBuffer.Slots.{
  counts, count_occupied, count_occupied-set, count_occupied_bound, IsValid, index_lem, index_bound,
}

module _ {T : Type 0} (fresh : T) (k : ℕ) where
  -- Where a slot is replaced.
  slot_of-set :
      (s t n : ℕ) (x : Slot T) (b : SequenceBuffer T)
      → IsValid fresh k b
      → slot_of fresh s (record { slots = set b.slots (index fresh t b) x; size = n })
        ≡ (if s % 2 ^ k == t % 2 ^ k then x else slot_of fresh s b)
  slot_of-set s t n x b v =
      rw
        (
          index_lem fresh k s (record { slots = set b.slots (index fresh t b) x; size = n })
              (length-set b.slots (index fresh t b) x ∙ v.capacity) v.small,
          index_lem fresh k t b v.capacity v.small,
          index_lem fresh k s b v.capacity v.small,
        )
        (elim (Bool-cases (s % 2 ^ k == t % 2 ^ k)) [
          | inl same ↦
              rw (same, (==_iff (s % 2 ^ k) (t % 2 ^ k)).0 same)
                (get_or-set_self b.slots (t % 2 ^ k) x (empty_slot fresh)
                  (omega (arith, v.capacity, index_bound fresh k t)))
          | inr other ↦ rw other (
              get_or-set_ne b.slots (t % 2 ^ k) (s % 2 ^ k) x (empty_slot fresh)
                (λ e. ground arith))
        ])

  set-IsValid :
      (t n : ℕ) (x : Slot T) (b : SequenceBuffer T)
      → IsValid fresh k b
      → (x.occupied ≡ true → x.seq % 2 ^ k ≡ t % 2 ^ k)
      → n + counts (slot_of fresh t b) ≡ b.size + counts x
      → IsValid fresh k (record { slots = set b.slots (index fresh t b) x; size = n })
  set-IsValid t n x b v own change = record {
    capacity = length-set b.slots (index fresh t b) x ∙ v.capacity;
    small = v.small;
    placed = λ i on. elim (Bool-cases (index fresh t b == i)) [
      | inl e ↦
          let here : index fresh t b ≡ i = (==_iff (index fresh t b) i).0 e in
          let new : get_or (set b.slots (index fresh t b) x) i (empty_slot fresh) ≡ x =
            rw (← here) (get_or-set_self b.slots (index fresh t b) x (empty_slot fresh) inside) in
          ap (λ slot. slot.seq % 2 ^ k) new
          ∙ own (ap (λ slot. slot.occupied) (sym new) ∙ on)
          ∙ sym (index_lem fresh k t b v.capacity v.small)
          ∙ here
      | inr e ↦
          let old : get_or (set b.slots (index fresh t b) x) i (empty_slot fresh)
              ≡ get_or b.slots i (empty_slot fresh) =
            get_or-set_ne b.slots (index fresh t b) i x (empty_slot fresh) (λ same. ground arith) in
          ap (λ slot. slot.seq % 2 ^ k) old ∙ v.placed i (ap (λ slot. slot.occupied) (sym old) ∙ on)
    ];
    counted = omega (
      arith,
      change,
      v.counted,
      count_occupied-set b.slots (index fresh t b) x (empty_slot fresh) inside,
    );
  }
    where
      inside : index fresh t b < length b.slots
      inside =
          omega (arith, index_lem fresh k t b v.capacity v.small, index_bound fresh k t, v.capacity)

  own_slot :
      (s : ℕ) (b : SequenceBuffer T)
      → IsValid fresh k b
      → (slot_of fresh s b).occupied ≡ true
      → (slot_of fresh s b).seq % 2 ^ k ≡ s % 2 ^ k
  own_slot s b v on = v.placed (index fresh s b) on ∙ index_lem fresh k s b v.capacity v.small

  -- The size counts the slot, and a slot that is not occupied is not counted.
  size_bounds :
      (t : ℕ) (b : SequenceBuffer T)
      → IsValid fresh k b
      → (counts (slot_of fresh t b) ≤ b.size) × (b.size + 1 ≤ 2 ^ k + counts (slot_of fresh t b))
  size_bounds t b v = omega (
    arith,
    v.counted,
    v.capacity,
    count_occupied-set b.slots (index fresh t b) (empty_slot fresh) (empty_slot fresh) inside,
    count_occupied-set b.slots (index fresh t b) taken (empty_slot fresh) inside,
    count_occupied_bound (set b.slots (index fresh t b) taken),
    length-set b.slots (index fresh t b) taken,
  )
    where
      taken : Slot T
      taken = record { seq = t; occupied = true; value = fresh }

      inside : index fresh t b < length b.slots
      inside =
          omega (arith, index_lem fresh k t b v.capacity v.small, index_bound fresh k t, v.capacity)

  find-insert :
      (s t : ℕ) (value : T) (b : SequenceBuffer T)
      → IsValid fresh k b
      → find fresh s (insert fresh t value b)
        ≡ (if s == t then some value else if s % 2 ^ k == t % 2 ^ k then none else find fresh s b)
  unfolding find insert
  find-insert s t value b v =
      rw (slot_of-set s t _ (record { seq = t; occupied = true; value = value }) b v)
        (elim (Bool-cases (s % 2 ^ k == t % 2 ^ k)) [
          | inl same ↦ rw same (ground arith)
          | inr other ↦
              let apart : s ≡ t → s % 2 ^ k ≡ t % 2 ^ k = λ e. ap (λ n. n % 2 ^ k) e in
              rw other (ground arith)
        ])

  insert-IsValid :
      (t : ℕ) (value : T) (b : SequenceBuffer T)
      → IsValid fresh k b
      → IsValid fresh k (insert fresh t value b)
  unfolding insert
  insert-IsValid t value b v =
      set-IsValid t _ _ b v (λ e. refl) (ground (arith, size_bounds t b v, v.small))

  -- In a valid ring an entry that comes in is found under its seq; it drives out what stood in its
  -- slot, which is that of the seqs a capacity apart; every other entry is found as before; and the ring
  -- stays valid.
  pub insert_lem :
      (s t : ℕ) (value : T) (b : SequenceBuffer T)
      → IsValid fresh k b
      → (find fresh s (insert fresh t value b) ≡ (
          if s == t then some value else if s % 2 ^ k == t % 2 ^ k then none else find fresh s b))
        × IsValid fresh k (insert fresh t value b)
  insert_lem s t value b v = (find-insert s t value b v, insert-IsValid t value b v)

  no_slot :
      (n i : ℕ) → get_or (replicate n (empty_slot fresh)) i (empty_slot fresh) ≡ empty_slot fresh
  no_slot zero i = refl
  no_slot (suc n) zero = refl
  no_slot (suc n) (suc i) = no_slot n i

  none_occupied : (n : ℕ) → count_occupied (replicate n (empty_slot fresh)) ≡ 0
  none_occupied zero = refl
  none_occupied (suc n) = omega (arith, none_occupied n)

  pub empty_buffer-IsValid : 2 ^ k < 2 ^ 64 → IsValid fresh k (empty_buffer fresh (2 ^ k))
  unfolding empty_buffer
  empty_buffer-IsValid small = record {
    capacity = length-replicate (2 ^ k) (empty_slot fresh);
    small = small;
    placed = λ i on.
        let bad : false ≡ true = ap (λ slot. slot.occupied) (sym (no_slot (2 ^ k) i)) ∙ on in
        absurd cc;
    counted = sym (none_occupied (2 ^ k));
  }

  pub find-empty_buffer : (seq n : ℕ) → find fresh seq (empty_buffer fresh n) ≡ none
  unfolding find empty_buffer
  find-empty_buffer seq n =
      ap (λ slot. if holds fresh seq slot then some slot.value else none)
        (no_slot n (index fresh seq (record { slots = replicate n (empty_slot fresh); size = 0 })))

  same_slot :
      (s t : ℕ) (b : SequenceBuffer T)
      → IsValid fresh k b
      → (s % 2 ^ k == t % 2 ^ k) ≡ true
      → index fresh s b ≡ index fresh t b
  same_slot s t b v same =
      index_lem fresh k s b v.capacity v.small
      ∙ (==_iff (s % 2 ^ k) (t % 2 ^ k)).0 same
      ∙ sym (index_lem fresh k t b v.capacity v.small)

  -- A seq that has an entry: the slot is released.
  find-release_slot :
      (s t : ℕ) (b : SequenceBuffer T)
      → IsValid fresh k b
      → holds fresh t (slot_of fresh t b) ≡ true
      → find fresh s (release_slot fresh t b) ≡ (if s == t then none else find fresh s b)
  unfolding find release_slot
  find-release_slot s t b v held =
      rw (slot_of-set s t (one_less fresh b.size) (released fresh (slot_of fresh t b)) b v)
        (elim (Bool-cases (s % 2 ^ k == t % 2 ^ k)) [
          | inl same ↦
              let one_slot : slot_of fresh s b ≡ slot_of fresh t b =
                ap (λ i. get_or b.slots i (empty_slot fresh)) (same_slot s t b v same) in
              rw same (ground arith)
          | inr other ↦
              let apart : s ≡ t → s % 2 ^ k ≡ t % 2 ^ k = λ e. ap (λ n. n % 2 ^ k) e in
              rw other (ground arith)
        ])

  release_slot-IsValid :
      (t : ℕ) (b : SequenceBuffer T)
      → IsValid fresh k b
      → holds fresh t (slot_of fresh t b) ≡ true
      → IsValid fresh k (release_slot fresh t b)
  unfolding release_slot
  release_slot-IsValid t b v held =
      set-IsValid t _ _ b v (λ e. absurd (ground arith))
        (ground (arith, size_bounds t b v, v.small))

  -- The operations on a seq that has an entry, and on one that has none.
  module _ (t : ℕ) (b : SequenceBuffer T) (held : holds fresh t (slot_of fresh t b) ≡ true) where
    find_held : find fresh t b ≡ some (slot_of fresh t b).value
    unfolding find
    find_held = ground arith

    contains_held : contains fresh t b ≡ true
    unfolding contains
    contains_held = ap is_some find_held

    erase_held : erase fresh t b ≡ (true, release_slot fresh t b)
    unfolding erase
    erase_held = ground arith

    take_entry_held :
        take_entry fresh t b ≡ (some (slot_of fresh t b).value, release_slot fresh t b)
    unfolding take_entry
    take_entry_held = ground arith

  module _ (t : ℕ) (b : SequenceBuffer T) (free : holds fresh t (slot_of fresh t b) ≡ false) where
    find_free : find fresh t b ≡ none
    unfolding find
    find_free = ground arith

    contains_free : contains fresh t b ≡ false
    unfolding contains
    contains_free = ap is_some find_free

    erase_free : erase fresh t b ≡ (false, b)
    unfolding erase
    erase_free = ground arith

    take_entry_free : take_entry fresh t b ≡ (none, b)
    unfolding take_entry
    take_entry_free = ground arith

    -- There is nothing to leave out.
    find_same : (s : ℕ) → find fresh s b ≡ (if s == t then none else find fresh s b)
    find_same s = elim (Bool-cases (s == t)) [
      | inl e ↦ rw e (ap (λ n. find fresh n b) ((==_iff s t).0 e) ∙ find_free)
      | inr e ↦ rw e
    ]

  -- `erase` says whether the seq had an entry, removes that entry, and leaves every other one.
  pub erase_lem :
      (s t : ℕ) (b : SequenceBuffer T)
      → IsValid fresh k b
      → ((erase fresh t b).0 ≡ contains fresh t b)
        × (find fresh s (erase fresh t b).1 ≡ (if s == t then none else find fresh s b))
        × IsValid fresh k (erase fresh t b).1
  erase_lem s t b v = elim (Bool-cases (holds fresh t (slot_of fresh t b))) [
    | inl held ↦
        rw (erase_held t b held, contains_held t b held)
          (refl, find-release_slot s t b v held, release_slot-IsValid t b v held)
    | inr free ↦ rw (erase_free t b free, contains_free t b free) (refl, find_same t b free s, v)
  ]

  pub size-erase :
      (t : ℕ) {v : T} (b : SequenceBuffer T)
      → find fresh t b ≡ some v
      → (erase fresh t b).1.size ≡ one_less fresh b.size
  unfolding release_slot
  size-erase t b found = elim (Bool-cases (holds fresh t (slot_of fresh t b))) [
    | inl held ↦ ap (λ r. r.1.size) (erase_held t b held)
    | inr free ↦ absurd (cc (find_free t b free))
  ]

  -- `take` removes what `erase` removes, and returns what `find` finds.
  pub take_entry_lem :
      (t : ℕ) (b : SequenceBuffer T) → take_entry fresh t b ≡ (find fresh t b, (erase fresh t b).1)
  take_entry_lem t b = elim (Bool-cases (holds fresh t (slot_of fresh t b))) [
    | inl held ↦ rw (take_entry_held t b held, find_held t b held, erase_held t b held)
    | inr free ↦ rw (take_entry_free t b free, find_free t b free, erase_free t b free)
  ]
