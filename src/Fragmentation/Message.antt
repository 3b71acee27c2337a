-- ===== src/Fragmentation/Message.antt =====
-- src/internal/Channel/Fragmentation/MessageAssembler.h and .cpp: the message in progress of one
-- stream, and the budget that streams share. A budget is reached through a pointer that may be null:
-- it is threaded next to the assembler, as none where there is no budget.
pub mod Invariant
pub mod Assembly
mod Tests
use net_link.Common.{
  ℕ, ◌+◌, ◌-◌, ◌%◌, ◌^◌, ◌==◌, ltb, leb, if◌then◌else◌, Bool, true, false, ◌||◌, not, List, [],
  ◌++◌, length, Option, none, some,
}
use net_link.Constants.{max_message_payload}
use net_link.Protocol.Flags.{is_fragmented, is_last_fragment}
use net_link.Protocol.Header.{
  PacketHeader, fragments_of, max_fragment_body, starts_fragmented_message,
}

pub record AssembledMessage : Type 0 where
  pub tag : ℕ
  pub body : List ℕ

-- In size_t arithmetic.
pub record AssemblyBudget : Type 0 where
  pub limit : ℕ
  pub used : ℕ

unfoldable pub fits : ℕ → AssemblyBudget → Bool
fits bytes b = leb bytes ((b.limit + 2 ^ 64 - b.used) % 2 ^ 64)

unfoldable pub reserve : ℕ → AssemblyBudget → Bool × AssemblyBudget
unfolding fits
reserve bytes b =
    if not (fits bytes b) then (false, b) else (true, record b { used = (b.used + bytes) % 2 ^ 64 })

unfoldable pub release : ℕ → AssemblyBudget → AssemblyBudget
release bytes b = record b { used = (b.used + 2 ^ 64 - bytes) % 2 ^ 64 }

pub record MessageAssembler : Type 0 where
  pub assembling : Bool
  pub frag_count : ℕ
  pub next_index : ℕ
  pub tag : ℕ
  pub total_length : ℕ
  pub body : List ℕ

-- As a new assembler is.
abbrev pub idle : MessageAssembler
idle = record {
  assembling = false;
  frag_count = 0;
  next_index = 0;
  tag = 0;
  total_length = 0;
  body = [];
}

-- `mBudget && …`: what is done with the budget, where there is one.
abbrev pub release_in : ℕ → Option AssemblyBudget → Option AssemblyBudget
release_in bytes none = none
release_in bytes (some b) = some (release bytes b)

abbrev pub reserve_in : ℕ → Option AssemblyBudget → Bool × Option AssemblyBudget
reserve_in bytes none = (true, none)
reserve_in bytes (some b) = ((reserve bytes b).0, some (reserve bytes b).1)

abbrev pub fits_in : ℕ → Option AssemblyBudget → Bool
fits_in bytes none = true
fits_in bytes (some b) = fits bytes b

abbrev pub State : Type 0
State = Option AssemblyBudget × MessageAssembler

unfoldable pub reset : State → State
reset (budget, a) = (if a.assembling then release_in a.total_length budget else budget, idle)

pub has_room_for : PacketHeader → Option AssemblyBudget → Bool
has_room_for h budget = not (starts_fragmented_message h) || fits_in h.total_length budget

-- The block of the first fragment; whether it goes on behind it.
pub begin_message : PacketHeader → State → Bool × State
unfolding reset
begin_message h s =
    let (budget, a) = reset s in
    let (reserved, budget') = reserve_in h.total_length budget in
    if ltb max_message_payload h.total_length || not (fragments_of h.total_length == h.frag_count)
    then (false, (budget, a))
    else if not reserved
    then (false, (budget', a))
    else (
      true,
      (
        budget',
        record a {
          assembling = true;
          frag_count = h.frag_count;
          tag = h.tag;
          total_length = h.total_length;
        },
      ),
    )

-- What a fragment carries.
abbrev pub expected_size : PacketHeader → MessageAssembler → ℕ
expected_size h a =
    if is_last_fragment h.flags
    then (a.total_length + 2 ^ 64 - length a.body) % 2 ^ 64
    else max_fragment_body

-- What follows that block.
pub continue_message : PacketHeader → List ℕ → State → Option AssembledMessage × State
unfolding reset
continue_message h body (budget, a) =
    let a' = record a { next_index = (a.next_index + 1) % 2 ^ 16; body = a.body ++ body } in
    if not a.assembling || not (h.frag_count == a.frag_count) || not (h.frag_index == a.next_index)
    then (none, reset (budget, a))
    else if not (length body == expected_size h a)
    then (none, reset (budget, a))
    else if ltb a'.next_index a'.frag_count
    then (none, (budget, a'))
    else (some (record { tag = a'.tag; body = a'.body }), reset (budget, a'))

pub accept : PacketHeader → List ℕ → State → Option AssembledMessage × State
unfolding reset begin_message continue_message
accept h body s =
    let (taken, s') = begin_message h s in
    if not (is_fragmented h.flags)
    then (some (record { tag = h.tag; body = body }), reset s)
    else if h.frag_index == 0
    then (if taken then continue_message h body s' else (none, s'))
    else continue_message h body s
