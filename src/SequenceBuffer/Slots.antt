-- ===== src/SequenceBuffer/Slots.antt =====
-- SequenceBuffer.h: what holds of the slots, whatever the order of the operations.
use net_link.Common.{
  ℕ, zero, suc, ◌+◌, ◌-◌, ◌%◌, ◌^◌, ◌≤◌, ◌<◌, ◌≡◌, ap, ◌∙◌, if◌then◌else◌, true, List, [], ◌∷◌,
  length, get_or, set, bit_and, bit_and_mask, pow-two_pos, arith,
}
use net_link.SequenceBuffer.{Slot, SequenceBuffer, empty_slot, index}

module _ {ℓ} {T : Type ℓ} where
  abbrev pub counts : Slot T → ℕ
  counts slot = if slot.occupied then 1 else 0

  -- The occupied slots.
  abbrev pub count_occupied : List (Slot T) → ℕ
  count_occupied [] = 0
  count_occupied (slot ∷ slots) = counts slot + count_occupied slots

  pub count_occupied-set :
      (slots : List (Slot T)) (i : ℕ) (slot d : Slot T)
      → i < length slots
      → count_occupied (set slots i slot) + counts (get_or slots i d)
        ≡ count_occupied slots + counts slot
  count_occupied-set [] i slot d h = absurd (omega arith)
  count_occupied-set (x ∷ slots) zero slot d h = omega arith
  count_occupied-set (x ∷ slots) (suc i) slot d h =
      omega (arith, count_occupied-set slots i slot d (omega arith))

  pub count_occupied_bound : (slots : List (Slot T)) → count_occupied slots ≤ length slots
  count_occupied_bound [] = omega arith
  count_occupied_bound (x ∷ slots) = ground (arith, count_occupied_bound slots)

module _ {ℓ} {T : Type ℓ} (fresh : T) where
  -- A capacity of 2 ^ k slots, each entry in the slot of its seq, and the size is their number.
  pub record IsValid (k : ℕ) (b : SequenceBuffer T) : Type ℓ where
    pub capacity : length b.slots ≡ 2 ^ k
    pub small : 2 ^ k < 2 ^ 64
    pub placed :
        (i : ℕ)
        → (get_or b.slots i (empty_slot fresh)).occupied ≡ true
        → (get_or b.slots i (empty_slot fresh)).seq % 2 ^ k ≡ i
    pub counted : b.size ≡ count_occupied b.slots

  pub index_lem :
      (k seq : ℕ) (b : SequenceBuffer T)
      → length b.slots ≡ 2 ^ k
      → 2 ^ k < 2 ^ 64
      → index fresh seq b ≡ seq % 2 ^ k
  unfolding index
  index_lem k seq b full small = ap (bit_and seq) mask ∙ bit_and_mask k seq
    where
      mask : (length b.slots + 2 ^ 64 - 1) % 2 ^ 64 ≡ 2 ^ k - 1
      mask = omega (arith, pow-two_pos k)

  pub index_bound : (k seq : ℕ) → seq % 2 ^ k < 2 ^ k
  index_bound k seq = grind (arith, pow-two_pos k)
