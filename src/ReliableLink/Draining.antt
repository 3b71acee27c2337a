-- ===== src/ReliableLink/Draining.antt =====
-- ReliableLink.cpp, drainReorderBuffer: the loop ends.
use net_link.Common.{
  ℕ, zero, suc, ◌^◌, ◌≤◌, ◌<◌, ◌≡◌, ◌⊎◌, refl, true, false, Bool-cases, Option-cases, inl, inr,
  none, some, arith,
}
use net_link.Protocol.Flags.{Lane}
use net_link.SequenceBuffer.{SequenceBuffer, find, erase}
use net_link.SequenceBuffer.Slots.{IsValid, count_occupied_bound}
use net_link.SequenceBuffer.Lookup.{erase_lem, size-erase}
use net_link.Fragmentation.Message.{has_room_for}
use net_link.ReliableLink.{BufferedData, Stream, ReliableLink, no_data}
use net_link.ReliableLink.Receiving.{drain_rounds, drain_reorder_buffer}

-- Nothing is buffered under the next seq, or it starts a message that there is no room for.
pub IsDrained : {W : Type 0} → Stream × ReliableLink W → Type 0
IsDrained (s, k) =
    (find no_data s.next_expected s.reorder ≡ none)
    ⊎ ((b : BufferedData) × (find no_data s.next_expected s.reorder ≡ some b)
        × (has_room_for b.header k.budget ≡ false)
        × (s.budget_paused ≡ true)
        × (s.refused_length ≡ b.header.total_length))

erase_shrinks :
    (bits t : ℕ) (d : BufferedData) (b : SequenceBuffer BufferedData)
    → IsValid no_data bits b
    → 2 ^ bits ≤ 256
    → find no_data t b ≡ some d
    → suc (erase no_data t b).1.size ≡ b.size
erase_shrinks bits t d b v few found =
    let shrunk = (erase_lem no_data bits 0 t b v).2 in
    omega (
      arith,
      size-erase no_data bits t b found,
      shrunk.counted,
      count_occupied_bound (erase no_data t b).1.slots,
      shrunk.capacity,
      v.counted,
      count_occupied_bound b.slots,
      v.capacity,
      few,
    )

module _ {W : Type 0} (l : Lane) (bits : ℕ) (few : 2 ^ bits ≤ 256) where
  rounds-IsDrained :
      (rounds : ℕ) (s : Stream) (k : ReliableLink W)
      → IsValid no_data bits s.reorder
      → s.reorder.size < rounds
      → IsDrained (drain_rounds rounds l (s, k))
  unfolding drain_rounds IsDrained
  rounds-IsDrained zero s k v enough = absurd (omega arith)
  rounds-IsDrained (suc rounds) s k v enough =
      elim (Option-cases (find no_data s.next_expected s.reorder)) [
        | inl e ↦ rw e (inl e)
        | inr (b, e) ↦ rw e (elim (Bool-cases (has_room_for b.header k.budget)) [
          | inl room ↦ rw room (
              rounds-IsDrained rounds _ _ (erase_lem no_data bits 0 s.next_expected s.reorder v).2
                (omega (arith, erase_shrinks bits s.next_expected b s.reorder v few e, enough)))
          | inr full ↦ rw full (inr (b, e, full, refl, refl))
        ])
      ]

  -- The loop of `drainReorderBuffer` ends by itself: it never stops because its rounds are used up, but
  -- where nothing is buffered under the next seq, or where the budget has no room for the message that
  -- starts there, of which the stream then has the length.
  pub drain-IsDrained :
      (s : Stream) (k : ReliableLink W)
      → IsValid no_data bits s.reorder
      → IsDrained (drain_reorder_buffer l (s, k))
  unfolding drain_reorder_buffer
  drain-IsDrained s k v = rounds-IsDrained (suc s.reorder.size) s k v (omega arith)
