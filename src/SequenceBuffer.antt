-- ===== src/SequenceBuffer.antt =====
-- src/internal/Channel/Queue/SequenceBuffer.h: a ring of slots, keyed by a sequence number.
pub mod Slots
pub mod Lookup
pub mod Visits
mod Tests
use net_link.Common.{
  ℕ, ◌+◌, ◌-◌, ◌%◌, ◌^◌, ◌==◌, if◌then◌else◌, Bool, true, false, ◌&&◌, ◌||◌, not, List, [], ◌∷◌,
  length, get_or, set, replicate, bit_and, Option, none, some,
}

pub record Slot {ℓ} (T : Type ℓ) : Type ℓ where
  pub seq : ℕ
  pub occupied : Bool
  pub value : T

pub record SequenceBuffer {ℓ} (T : Type ℓ) : Type ℓ where
  pub slots : List (Slot T)
  pub size : ℕ

abbrev pub is_some {ℓ} : {T : Type ℓ} → Option T → Bool
is_some none = false
is_some (some value) = true

-- `fresh` is the value `T{}` of a slot that is not occupied.
module _ {ℓ} {T : Type ℓ} (fresh : T) where
  abbrev pub empty_slot : Slot T
  empty_slot = record { seq = 0; occupied = false; value = fresh }

  pub empty_buffer : ℕ → SequenceBuffer T
  empty_buffer capacity = record { slots = replicate capacity empty_slot; size = 0 }

  unfoldable pub index : ℕ → SequenceBuffer T → ℕ
  index seq b = bit_and seq ((length b.slots + 2 ^ 64 - 1) % 2 ^ 64)

  abbrev pub slot_of : ℕ → SequenceBuffer T → Slot T
  slot_of seq b = get_or b.slots (index seq b) empty_slot

  -- `slot.occupied && slot.seq == seq`.
  abbrev pub holds : ℕ → Slot T → Bool
  holds seq slot = slot.occupied && slot.seq == seq

  pub insert : ℕ → T → SequenceBuffer T → SequenceBuffer T
  unfolding index
  insert seq value b = record {
    slots = set b.slots (index seq b) (record { seq = seq; occupied = true; value = value });
    size = if (slot_of seq b).occupied then b.size else (b.size + 1) % 2 ^ 64;
  }

  pub find : ℕ → SequenceBuffer T → Option T
  unfolding index
  find seq b = let slot = slot_of seq b in if holds seq slot then some slot.value else none

  pub contains : ℕ → SequenceBuffer T → Bool
  unfolding find
  contains seq b = is_some (find seq b)

  -- What `release` makes of a slot and of the size.
  abbrev pub released : Slot T → Slot T
  released slot = record slot { occupied = false; value = fresh }

  abbrev pub one_less : ℕ → ℕ
  one_less size = (size + 2 ^ 64 - 1) % 2 ^ 64

  unfoldable pub release_slot : ℕ → SequenceBuffer T → SequenceBuffer T
  unfolding index
  release_slot seq b = record {
    slots = set b.slots (index seq b) (released (slot_of seq b));
    size = one_less b.size;
  }

  pub take_entry : ℕ → SequenceBuffer T → Option T × SequenceBuffer T
  unfolding index release_slot
  take_entry seq b =
      let slot = slot_of seq b in
      if not slot.occupied || not (slot.seq == seq)
      then (none, b)
      else (some slot.value, release_slot seq b)

  pub erase : ℕ → SequenceBuffer T → Bool × SequenceBuffer T
  unfolding index release_slot
  erase seq b =
      let slot = slot_of seq b in
      if not slot.occupied || not (slot.seq == seq) then (false, b) else (true, release_slot seq b)

  -- One round of the loop of `forEach`: `fn` sees an entry and whatever it refers to, and says whether
  -- the entry is to stay, and with which value.
  unfoldable pub visit_slot :
      {S : Type ℓ} → (ℕ → T → S → Bool × T × S) → Slot T → ℕ → S → Slot T × ℕ × S
  visit_slot fn slot size s =
      let (stays, value, s') = fn slot.seq slot.value s in
      if not slot.occupied
      then (slot, size, s)
      else if stays
      then (record slot { value = value }, size, s')
      else (released slot, one_less size, s')

  unfoldable pub visit :
      {S : Type ℓ} → (ℕ → T → S → Bool × T × S) → List (Slot T) → ℕ → S → List (Slot T) × ℕ × S
  unfolding visit_slot
  visit fn [] size s = ([], size, s)
  visit fn (slot ∷ slots) size s =
      let (slot', size', s') = visit_slot fn slot size s in
      let (rest, size'', s'') = visit fn slots size' s' in (slot' ∷ rest, size'', s'')

  pub for_each :
      {S : Type ℓ} → (ℕ → T → S → Bool × T × S) → S → SequenceBuffer T → SequenceBuffer T × S
  unfolding visit
  for_each fn s b =
      let (slots, size, s') = visit fn b.slots b.size s in
      (record { slots = slots; size = size }, s')

  -- The loop of `clear`.
  unfoldable pub release_all : List (Slot T) → ℕ → List (Slot T) × ℕ
  release_all [] size = ([], size)
  release_all (slot ∷ slots) size =
      let (rest, size') = release_all slots (if slot.occupied then one_less size else size) in
      ((if slot.occupied then released slot else slot) ∷ rest, size')

  pub clear : SequenceBuffer T → SequenceBuffer T
  unfolding release_all
  clear b = let (slots, size) = release_all b.slots b.size in record { slots = slots; size = size }
