-- ===== src/Fragmentation/Media.antt =====
-- src/internal/Channel/Fragmentation/MediaAssembler.h and .cpp: messages that are sent without
-- acknowledgement, of which a few are put together at the same time.
pub mod Slots
mod Tests
use net_link.Common.{
  ℕ, zero, suc, ◌+◌, ◌-◌, ◌*◌, ◌%◌, ◌^◌, ◌==◌, ltb, leb, if◌then◌else◌, Bool, true, false, ◌&&◌,
  ◌||◌, not, List, [], ◌∷◌, ◌++◌, length, get_or, set, take, drop, replicate, bit_and, bit_or,
  Option, none, some,
}
use net_link.Constants.{media_assembly_slots}
use net_link.Protocol.Flags.{is_fragmented, is_last_fragment}
use net_link.Protocol.Header.{PacketHeader, max_fragment_body}
use net_link.Fragmentation.Message.{AssembledMessage}

pub record Slot : Type 0 where
  pub used : Bool
  pub id : ℕ
  pub count : ℕ
  pub received : ℕ
  pub present : ℕ
  pub tag : ℕ
  pub total_length : ℕ
  pub last_length : ℕ
  pub body : List ℕ

abbrev pub free_slot : Slot
free_slot = record {
  used = false;
  id = 0;
  count = 0;
  received = 0;
  present = 0;
  tag = 0;
  total_length = 0;
  last_length = 0;
  body = [];
}

pub record MediaAssembler : Type 0 where
  pub slots : List Slot
  pub abandoned : ℕ

pub new_assembler : MediaAssembler
new_assembler = record { slots = replicate media_assembly_slots free_slot; abandoned = 0 }

-- What the loop of `slotFor` finds; a pointer into the slots is an index.
pub record Search : Type 0 where
  pub own : Option ℕ
  pub free : Option ℕ
  pub oldest : Option ℕ

-- `std::vector::resize`.
abbrev pub resize : ℕ → List ℕ → List ℕ
resize n xs = take n xs ++ replicate (n - length xs) 0

abbrev pub slot_at : List Slot → ℕ → Slot
slot_at slots i = get_or slots i free_slot

-- `!oldest || slot.id < oldest->id`.
abbrev pub is_older : List Slot → Slot → Option ℕ → Bool
is_older slots slot none = true
is_older slots slot (some i) = ltb slot.id (slot_at slots i).id

-- One round of the loop, at the slot `i`; the loop ends where it returns.
abbrev pub look : ℕ → List Slot → ℕ → Search → Search
look id slots i found =
    let slot = slot_at slots i in
    if slot.used && slot.id == id
    then record found { own = some i }
    else if not slot.used
    then record found { free = some i }
    else if is_older slots slot found.oldest
    then record found { oldest = some i }
    else found

-- The loop ends at a slot of the message itself.
abbrev pub unless_own : Option ℕ → Search → Search → Search
unless_own none found later = later
unless_own (some i) found later = found

-- The loop from the slot `i` on, by the rounds that are left.
unfoldable pub search_from : ℕ → List Slot → ℕ → ℕ → Search → Search
search_from id slots zero i found = found
search_from id slots (suc rounds) i found =
    let found' = look id slots i found in
    unless_own found'.own found' (search_from id slots rounds (i + 1) found')

-- A slot that is taken for a message.
abbrev pub opened : ℕ → ℕ → Slot → Slot
opened id count slot = record slot {
  used = true;
  id = id;
  count = count;
  body = resize (count * max_fragment_body) slot.body;
}

-- What follows the loop: a straggler of a message older than everything in progress is not worth giving
-- up a newer one for.
unfoldable pub replace_oldest : ℕ → ℕ → MediaAssembler → Option ℕ → Option ℕ × MediaAssembler
replace_oldest id count a none = (none, a)
replace_oldest id count a (some i) = if ltb id (slot_at a.slots i).id then (none, a) else (
  some i,
  record {
    slots = set a.slots i (opened id count free_slot);
    abandoned = (a.abandoned + 1) % 2 ^ 64;
  },
)

unfoldable pub take_free : ℕ → ℕ → MediaAssembler → Option ℕ → Option ℕ → Option ℕ × MediaAssembler
unfolding replace_oldest
take_free id count a oldest none = replace_oldest id count a oldest
take_free id count a oldest (some i) =
    (some i, record a { slots = set a.slots i (opened id count (slot_at a.slots i)) })

unfoldable pub choose : ℕ → ℕ → MediaAssembler → Search → Option ℕ → Option ℕ × MediaAssembler
unfolding take_free
choose id count a found none = take_free id count a found.oldest found.free
choose id count a found (some i) = (some i, a)

pub slot_for : ℕ → ℕ → MediaAssembler → Option ℕ × MediaAssembler
unfolding search_from choose
slot_for id count a =
    let found =
      search_from id a.slots (length a.slots) 0
        (record { own = none; free = none; oldest = none }) in
    choose id count a found found.own

-- `std::memcpy` into the body.
abbrev pub overwrite : ℕ → List ℕ → List ℕ → List ℕ
overwrite at bytes body = take at body ++ (bytes ++ drop (at + length bytes) body)

-- The slot with the fragment in it.
pub fill : PacketHeader → List ℕ → Slot → Slot
fill h bytes slot = record slot {
  body = overwrite (h.frag_index * max_fragment_body) bytes slot.body;
  present = bit_or slot.present (2 ^ h.frag_index);
  received = (slot.received + 1) % 2 ^ 16;
  tag = if h.frag_index == 0 then h.tag else slot.tag;
  total_length = if h.frag_index == 0 then h.total_length else slot.total_length;
  last_length = if is_last_fragment h.flags then length bytes else slot.last_length;
}

-- What follows `slotFor`, in the slot that it returned.
unfoldable pub put_fragment :
    PacketHeader → List ℕ → ℕ → MediaAssembler → Option AssembledMessage × MediaAssembler
unfolding fill
put_fragment h bytes i a =
    let slot = slot_at a.slots i in
    let filled = fill h bytes slot in
    let size =
      ((filled.count + 2 ^ 64 - 1) % 2 ^ 64 * max_fragment_body + filled.last_length) % 2 ^ 64 in
    if not (slot.count == h.frag_count) || not (bit_and slot.present (2 ^ h.frag_index) == 0)
    then (none, a)
    else if ltb filled.received filled.count
    then (none, record a { slots = set a.slots i filled })
    else (
      if size == filled.total_length
          then some (record { tag = filled.tag; body = resize size filled.body })
          else none,
      record a { slots = set a.slots i free_slot },
    )

-- The checks in front of `slotFor`.
unfoldable pub is_refused : PacketHeader → List ℕ → Bool
is_refused h bytes =
    ltb 64 h.frag_count
    || leb h.seq h.frag_index
    || (if is_last_fragment h.flags
        then length bytes == 0 || ltb max_fragment_body (length bytes)
        else not (length bytes == max_fragment_body))

-- With the slot that `slotFor` returned.
unfoldable pub put_chosen :
    PacketHeader → List ℕ → Option ℕ → MediaAssembler → Option AssembledMessage × MediaAssembler
unfolding put_fragment
put_chosen h bytes none a = (none, a)
put_chosen h bytes (some i) a = put_fragment h bytes i a

pub accept_media : PacketHeader → List ℕ → MediaAssembler → Option AssembledMessage × MediaAssembler
unfolding is_refused put_chosen
accept_media h bytes a =
    let (chosen, a') = slot_for (h.seq - h.frag_index) h.frag_count a in
    if not (is_fragmented h.flags)
    then (some (record { tag = h.tag; body = bytes }), a)
    else if is_refused h bytes
    then (none, a)
    else put_chosen h bytes chosen a'

-- The used slots.
abbrev pub count_used : List Slot → ℕ
count_used [] = 0
count_used (slot ∷ slots) = (if slot.used then 1 else 0) + count_used slots

pub in_progress : MediaAssembler → ℕ
in_progress a = count_used a.slots
