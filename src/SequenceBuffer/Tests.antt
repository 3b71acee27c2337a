-- ===== src/SequenceBuffer/Tests.antt =====
-- SequenceBuffer.h: a ring of four slots.
use net_link.Common.{ℕ, ◌%◌, ◌^◌, ◌≡◌, ◌==◌, if◌then◌else◌, none, some, arith}
use net_link.SequenceBuffer.{SequenceBuffer, empty_buffer, insert, find, contains, erase}
use net_link.SequenceBuffer.Slots.{IsValid}
use net_link.SequenceBuffer.Lookup.{insert_lem, empty_buffer-IsValid, erase_lem}

-- The entries of seqs 3 and 6.
abbrev ring : SequenceBuffer ℕ
ring = insert 0 6 60 (insert 0 3 30 (empty_buffer 0 (2 ^ 2)))

ring-IsValid : IsValid 0 2 ring
ring-IsValid =
    (insert_lem 0 2 6 6 60 (insert 0 3 30 (empty_buffer 0 (2 ^ 2)))
      (insert_lem 0 2 3 3 30 (empty_buffer 0 (2 ^ 2)) (empty_buffer-IsValid 0 2 (omega arith))).1).1

insert_lem_example :
    (find 0 3 (insert 0 7 70 ring)
      ≡ (if 3 == 7 then some 70 else if 3 % 2 ^ 2 == 7 % 2 ^ 2 then none else find 0 3 ring))
    × IsValid 0 2 (insert 0 7 70 ring)
insert_lem_example = insert_lem 0 2 3 7 70 ring ring-IsValid

erase_lem_example :
    ((erase 0 3 ring).0 ≡ contains 0 3 ring)
    × (find 0 6 (erase 0 3 ring).1 ≡ (if 6 == 3 then none else find 0 6 ring))
    × IsValid 0 2 (erase 0 3 ring).1
erase_lem_example = erase_lem 0 2 6 3 ring ring-IsValid
