-- ===== src/Fragmentation/Media/Slots.antt =====
-- MediaAssembler.cpp: fragments stay within the memory of their message.
use net_link.Common.{
  ℕ, zero, suc, ◌+◌, ◌-◌, ◌*◌, ◌%◌, ◌^◌, ◌≤◌, ◌<◌, ◌≡◌, refl, sym, ap, subst, ◌∙◌, ◌==◌, ltb,
  if◌then◌else◌, Bool, true, false, ◌&&◌, ◌||◌, not, Bool-cases, inl, inr, List, ◌++◌, length,
  length-append, length-take, length-drop, length-replicate, length-set, get_or-set_self,
  get_or-set_ne, set, take, drop, replicate, bit_and, Option, none, some, ==_iff, arith,
}
use net_link.Constants.{media_assembly_slots}
use net_link.Protocol.Flags.{is_fragmented}
use net_link.Protocol.Header.{PacketHeader, max_fragment_body}
use net_link.Fragmentation.Message.{AssembledMessage}
use net_link.Fragmentation.Media.{
  Slot, free_slot, MediaAssembler, new_assembler, Search, resize, slot_at, is_older, look,
  unless_own, search_from, opened, replace_oldest, take_free, choose, slot_for, overwrite, fill,
  put_fragment, put_chosen, is_refused, accept_media,
}

-- The memory of a used slot holds its fragments, and the last one is no larger than a fragment may be.
abbrev pub IsSlot : Slot → Type 0
IsSlot slot =
    (slot.used ≡ true → length slot.body ≡ slot.count * max_fragment_body)
    × (slot.last_length ≤ max_fragment_body)

pub record IsValid (a : MediaAssembler) : Type 0 where
  pub four : length a.slots ≡ media_assembly_slots
  pub each : (i : ℕ) → IsSlot (slot_at a.slots i)

length-resize : (n : ℕ) (xs : List ℕ) → length (resize n xs) ≡ n
length-resize n xs = omega (
  arith,
  length-append (take n xs) (replicate (n - length xs) 0),
  length-take n xs,
  length-replicate {A = ℕ} (n - length xs) 0,
)

length-overwrite :
    (at : ℕ) (bytes body : List ℕ)
    → at + length bytes ≤ length body
    → length (overwrite at bytes body) ≡ length body
length-overwrite at bytes body h = omega (
  arith,
  length-append (take at body) (bytes ++ drop (at + length bytes) body),
  length-append bytes (drop (at + length bytes) body),
  length-take at body,
  length-drop (at + length bytes) body,
)

-- What the loop may have found.
abbrev pub IsUsed : List Slot → Option ℕ → Type 0
IsUsed slots none = Unit
IsUsed slots (some i) = (i < length slots) × ((slot_at slots i).used ≡ true)

abbrev IsInside : List Slot → Option ℕ → Type 0
IsInside slots none = Unit
IsInside slots (some i) = i < length slots

abbrev IsFound : List Slot → Search → Type 0
IsFound slots found =
    IsUsed slots found.own × IsInside slots found.free × IsInside slots found.oldest

look-IsFound :
    (id : ℕ) (slots : List Slot) (i : ℕ) (found : Search)
    → i < length slots
    → IsFound slots found
    → IsFound slots (look id slots i found)
look-IsFound id slots i found h (own, free, oldest) =
    elim (Bool-cases ((slot_at slots i).used && (slot_at slots i).id == id)) [
      | inl e ↦
          let on : (slot_at slots i).used ≡ true = ground arith in rw e ((h, on), free, oldest)
      | inr e ↦ elim (Bool-cases (slot_at slots i).used) [
        | inr off ↦ rw (e, off) (own, h, oldest)
        | inl on ↦ elim (Bool-cases (is_older slots (slot_at slots i) found.oldest)) [
          | inl older ↦ rw (e, on, older) (own, free, h)
          | inr newer ↦ rw (e, on, newer) (own, free, oldest)
        ]
      ]
    ]

search-IsFound :
    (id : ℕ) (slots : List Slot) (rounds i : ℕ) (found : Search)
    → i + rounds ≤ length slots
    → IsFound slots found
    → IsFound slots (search_from id slots rounds i found)
unfolding search_from
search-IsFound id slots zero i found h f = f
search-IsFound id slots (suc rounds) i found h f =
    let here = look-IsFound id slots i found (omega arith) f in
    let later = search-IsFound id slots rounds (i + 1) (look id slots i found) (omega arith) here in
    either (look id slots i found).own (look id slots i found) here later
  where
    either :
        (o : Option ℕ) (found' : Search)
        → IsFound slots found'
        → IsFound slots (search_from id slots rounds (i + 1) (look id slots i found))
        → IsFound slots
            (unless_own o found' (search_from id slots rounds (i + 1) (look id slots i found)))
    either none found' here later = later
    either (some j) found' here later = here

opened-IsSlot :
    (id count : ℕ) (slot : Slot)
    → slot.last_length ≤ max_fragment_body
    → IsSlot (opened id count slot)
opened-IsSlot id count slot h = (λ e. length-resize (count * max_fragment_body) slot.body, h)

-- Where a slot is replaced.
slot_at-set :
    (P : Slot → Type 0) (slots : List Slot) (i : ℕ) (slot : Slot)
    → i < length slots
    → P slot
    → ((j : ℕ) → P (slot_at slots j))
    → (j : ℕ) → P (slot_at (set slots i slot) j)
slot_at-set P slots i slot inside p ps j = elim (Bool-cases (i == j)) [
  | inr e ↦ subst P (sym (get_or-set_ne slots i j slot free_slot (λ same. ground arith))) (ps j)
  | inl e ↦
      subst P
        (sym (
          ap (λ n. slot_at (set slots i slot) n) (sym ((==_iff i j).0 e))
          ∙ get_or-set_self slots i slot free_slot inside))
        p
]

set-IsValid :
    (i n : ℕ) (slot : Slot) (a : MediaAssembler)
    → i < length a.slots
    → IsSlot slot
    → IsValid a
    → IsValid (record { slots = set a.slots i slot; abandoned = n })
set-IsValid i n slot a inside p v = record {
  four = length-set a.slots i slot ∙ v.four;
  each = slot_at-set IsSlot a.slots i slot inside p v.each;
}

set-IsUsed :
    (i : ℕ) (slot : Slot) (slots : List Slot)
    → i < length slots
    → slot.used ≡ true
    → IsUsed (set slots i slot) (some i)
set-IsUsed i slot slots inside on = (
  omega (arith, length-set slots i slot),
  ap (λ s. s.used) (get_or-set_self slots i slot free_slot inside) ∙ on,
)

module _ (id count : ℕ) (a : MediaAssembler) (v : IsValid a) where
  oldest-IsValid :
      (oldest : Option ℕ)
      → IsInside a.slots oldest
      → IsValid (replace_oldest id count a oldest).1
        × IsUsed (replace_oldest id count a oldest).1.slots (replace_oldest id count a oldest).0
  unfolding replace_oldest
  oldest-IsValid none inside = (v, tt)
  oldest-IsValid (some i) inside = elim (Bool-cases (ltb id (slot_at a.slots i).id)) [
    | inl e ↦ rw e (v, tt)
    | inr e ↦ rw e (
      set-IsValid i ((a.abandoned + 1) % 2 ^ 64) (opened id count free_slot) a inside
          (opened-IsSlot id count free_slot (omega arith)) v,
      set-IsUsed i (opened id count free_slot) a.slots inside refl,
    )
  ]

  free-IsValid :
      (oldest free : Option ℕ)
      → IsInside a.slots oldest
      → IsInside a.slots free
      → IsValid (take_free id count a oldest free).1
        × IsUsed (take_free id count a oldest free).1.slots (take_free id count a oldest free).0
  unfolding take_free
  free-IsValid oldest none inside f = oldest-IsValid oldest inside
  free-IsValid oldest (some i) inside f = (
    set-IsValid i a.abandoned (opened id count (slot_at a.slots i)) a f
        (opened-IsSlot id count (slot_at a.slots i) (v.each i).1) v,
    set-IsUsed i (opened id count (slot_at a.slots i)) a.slots f refl,
  )

  choose-IsValid :
      (found : Search) (own : Option ℕ)
      → IsUsed a.slots own
      → IsFound a.slots found
      → IsValid (choose id count a found own).1
        × IsUsed (choose id count a found own).1.slots (choose id count a found own).0
  unfolding choose
  choose-IsValid found none u (own, free, oldest) = free-IsValid found.oldest found.free oldest free
  choose-IsValid found (some i) u f = (v, u)

  -- The slot for a message is in use.
  slot_for-IsValid :
      IsValid (slot_for id count a).1 × IsUsed (slot_for id count a).1.slots (slot_for id count a).0
  unfolding slot_for
  slot_for-IsValid =
      choose-IsValid found found.own
        (search-IsFound id a.slots (length a.slots) 0 _ (omega arith) (tt, tt, tt)).0
        (search-IsFound id a.slots (length a.slots) 0 _ (omega arith) (tt, tt, tt))
    where
      found : Search
      found =
          search_from id a.slots (length a.slots) 0
            (record { own = none; free = none; oldest = none })

module _ (h : PacketHeader) (bytes : List ℕ) (kept : is_refused h bytes ≡ false)
    (within : h.frag_index < h.frag_count) where
  fragment_facts : (length bytes ≤ max_fragment_body) × (h.frag_count ≤ 64)
  unfolding is_refused
  fragment_facts = ground arith

  -- In a used slot that agrees on the number of fragments.
  copy_fits :
      (slot : Slot)
      → IsSlot slot
      → slot.used ≡ true
      → slot.count ≡ h.frag_count
      → h.frag_index * max_fragment_body + length bytes ≤ length slot.body
  copy_fits slot p on same = omega (arith, p.0 on, fragment_facts)

  fill-IsSlot :
      (slot : Slot)
      → IsSlot slot
      → slot.used ≡ true
      → slot.count ≡ h.frag_count
      → IsSlot (fill h bytes slot)
  unfolding fill
  fill-IsSlot slot p on same = (
    λ e.
        length-overwrite (h.frag_index * max_fragment_body) bytes slot.body
          (copy_fits slot p on same)
        ∙ p.0 on,
    ground (arith, p.1, fragment_facts),
  )

  -- What is handed over is no larger than its fragments.
  abbrev IsSmall : Option AssembledMessage → Type 0
  IsSmall none = Unit
  IsSmall (some m) = length m.body ≤ h.frag_count * max_fragment_body

  resized :
      (count last tag : ℕ) (body : List ℕ) (done : Bool)
      → count ≡ h.frag_count
      → last ≤ max_fragment_body
      → IsSmall (
          if done
          then some (record {
            tag = tag;
            body =
                resize (((count + 2 ^ 64 - 1) % 2 ^ 64 * max_fragment_body + last) % 2 ^ 64) body;
          })
          else none)
  resized count last tag body false same small = tt
  resized count last tag body true same small = omega (
    arith,
    fragment_facts,
    same,
    length-resize (((count + 2 ^ 64 - 1) % 2 ^ 64 * max_fragment_body + last) % 2 ^ 64) body,
  )

  put_fragment-IsValid :
      (i : ℕ) (a : MediaAssembler)
      → IsValid a
      → IsUsed a.slots (some i)
      → IsValid (put_fragment h bytes i a).1 × IsSmall (put_fragment h bytes i a).0
  unfolding put_fragment
  put_fragment-IsValid i a v (inside, on) =
      elim (Bool-cases (
        not ((slot_at a.slots i).count == h.frag_count)
        || not (bit_and (slot_at a.slots i).present (2 ^ h.frag_index) == 0))) [
          | inl e ↦ rw e (v, tt)
          | inr e ↦
              let same : (slot_at a.slots i).count ≡ h.frag_count = ground arith in
              let p = fill-IsSlot (slot_at a.slots i) (v.each i) on same in
              elim (Bool-cases (
                ltb (fill h bytes (slot_at a.slots i)).received
                  (fill h bytes (slot_at a.slots i)).count)) [
                    | inl more ↦
                        rw (e, more)
                          (
                            set-IsValid i a.abandoned (fill h bytes (slot_at a.slots i)) a inside p
                                v,
                            tt,
                          )
                    | inr last ↦
                        rw (e, last)
                          (
                            set-IsValid i a.abandoned free_slot a inside
                                (λ off. absurd cc, omega arith) v,
                            resized (slot_at a.slots i).count
                                (fill h bytes (slot_at a.slots i)).last_length
                                (fill h bytes (slot_at a.slots i)).tag
                                (fill h bytes (slot_at a.slots i)).body _ same p.1,
                          )
                  ]
        ]

  put_chosen-IsValid :
      (o : Option ℕ) (a : MediaAssembler)
      → IsValid a
      → IsUsed a.slots o
      → IsValid (put_chosen h bytes o a).1 × IsSmall (put_chosen h bytes o a).0
  unfolding put_chosen
  put_chosen-IsValid none a v u = (v, tt)
  put_chosen-IsValid (some i) a v u = put_fragment-IsValid i a v u

-- Where a fragment that is not refused gets a slot for as many fragments, it is copied within the
-- memory of the slot, whatever came before.
pub copy-slot_for :
    (h : PacketHeader) (bytes : List ℕ) (a : MediaAssembler) (i : ℕ)
    → IsValid a
    → is_refused h bytes ≡ false
    → h.frag_index < h.frag_count
    → (slot_for (h.seq - h.frag_index) h.frag_count a).0 ≡ some i
    → (slot_at (slot_for (h.seq - h.frag_index) h.frag_count a).1.slots i).count ≡ h.frag_count
    → h.frag_index * max_fragment_body + length bytes
      ≤ length (slot_at (slot_for (h.seq - h.frag_index) h.frag_count a).1.slots i).body
copy-slot_for h bytes a i v kept within chosen same =
    let (valid, used) = slot_for-IsValid (h.seq - h.frag_index) h.frag_count a v in
    let (inside, on) =
      subst (IsUsed (slot_for (h.seq - h.frag_index) h.frag_count a).1.slots) chosen used in
    copy_fits h bytes kept within
      (slot_at (slot_for (h.seq - h.frag_index) h.frag_count a).1.slots i) (valid.each i) on same

-- Whatever fragment comes, the assembler keeps its four slots and the memory that each of them needs,
-- and a message that a fragment completes is no larger than its fragments.
pub accept_media-IsValid :
    (h : PacketHeader) (bytes : List ℕ) (a : MediaAssembler)
    → IsValid a
    → h.frag_index < h.frag_count
    → is_fragmented h.flags ≡ true
    → IsValid (accept_media h bytes a).1
      × ((m : AssembledMessage)
          → (accept_media h bytes a).0 ≡ some m
          → length m.body ≤ h.frag_count * max_fragment_body)
unfolding accept_media
accept_media-IsValid h bytes a v within part = elim (Bool-cases (is_refused h bytes)) [
  | inl e ↦ rw (part, e) (v, λ m nothing. absurd cc)
  | inr e ↦
      let (valid, used) = slot_for-IsValid (h.seq - h.frag_index) h.frag_count a v in
      let (after, small) =
        put_chosen-IsValid h bytes e within (slot_for (h.seq - h.frag_index) h.frag_count a).0
          (slot_for (h.seq - h.frag_index) h.frag_count a).1 valid used in
      rw (part, e) (after, λ m done. subst (IsSmall h bytes e within) done small)
]

no_slots : (n i : ℕ) → slot_at (replicate n free_slot) i ≡ free_slot
no_slots zero i = refl
no_slots (suc n) zero = refl
no_slots (suc n) (suc i) = no_slots n i

pub new_assembler-IsValid : IsValid new_assembler
unfolding new_assembler
new_assembler-IsValid = record {
  four = refl;
  each = λ i. subst IsSlot (sym (no_slots media_assembly_slots i)) (λ off. absurd cc, omega arith);
}
