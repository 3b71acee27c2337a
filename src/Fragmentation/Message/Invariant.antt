-- ===== src/Fragmentation/Message/Invariant.antt =====
-- MessageAssembler.cpp: what holds between two packets.
use net_link.Common.{
  ℕ, ◌+◌, ◌*◌, ◌^◌, ◌≤◌, ◌<◌, ◌≡◌, refl, subst, ◌==◌, if◌then◌else◌, Bool, true, false, Bool-cases,
  inl, inr, List, [], length, length-append, Option, none, some, arith,
}
use net_link.Constants.{max_message_payload}
use net_link.Protocol.Flags.{is_fragmented, is_last_fragment}
use net_link.Protocol.Header.{PacketHeader, fragments_of, max_fragment_body}
use net_link.Protocol.Header.Valid.{IsWellFormed, FragmentFields}
use net_link.Fragmentation.Message.{
  fits, reserve, release, MessageAssembler, AssembledMessage, State, reset, begin_message,
  continue_message, accept,
}

-- What an assembler holds of the budget.
abbrev pub reserved_by : MessageAssembler → ℕ
reserved_by a = if a.assembling then a.total_length else 0

-- The budget is what this assembler and the others hold, and no more than the limit.
abbrev pub IsBalanced : ℕ → State → Type 0
IsBalanced others (none, a) = Unit
IsBalanced others (some b, a) =
    (b.used ≡ others + reserved_by a) × (b.used ≤ b.limit) × (b.limit < 2 ^ 64)

pub reset-IsBalanced : (others : ℕ) (s : State) → IsBalanced others s → IsBalanced others (reset s)
unfolding reset release
reset-IsBalanced others (none, a) h = ground arith
reset-IsBalanced others (some b, a) h = ground arith

begin-IsBalanced :
    (others : ℕ) (h : PacketHeader) (s : State)
    → IsBalanced others s
    → IsBalanced others (begin_message h s).1
unfolding begin_message reset reserve release fits
begin-IsBalanced others h (none, a) v = ground arith
begin-IsBalanced others h (some b, a) v = ground arith

continue-IsBalanced :
    (others : ℕ) (h : PacketHeader) (body : List ℕ) (s : State)
    → IsBalanced others s
    → IsBalanced others (continue_message h body s).1
unfolding continue_message reset release
continue-IsBalanced others h body (none, a) v = ground arith
continue-IsBalanced others h body (some b, a) v = ground arith

-- Whatever packet comes, the shared budget stays balanced: what is reserved is given back exactly
-- once, on every path, and the limit is kept.
pub accept-IsBalanced :
    (others : ℕ) (h : PacketHeader) (body : List ℕ) (s : State)
    → IsBalanced others s
    → IsBalanced others (accept h body s).1
unfolding accept
accept-IsBalanced others h body s v = ground (
  arith,
  reset-IsBalanced others s v,
  begin-IsBalanced others h s v,
  continue-IsBalanced others h body s v,
  continue-IsBalanced others h body (begin_message h s).1 (begin-IsBalanced others h s v),
)

-- What the fields of an assembler say while it is at work, and while it is not.
abbrev pub Fields : MessageAssembler → Bool → Type 0
Fields a true =
    (a.frag_count ≡ fragments_of a.total_length)
    × (a.next_index < a.frag_count)
    × (length a.body ≡ a.next_index * max_fragment_body)
    × (a.total_length ≤ max_message_payload)
Fields a false =
    (a.frag_count ≡ 0) × (a.next_index ≡ 0) × (a.tag ≡ 0) × (a.total_length ≡ 0) × (a.body ≡ [])

abbrev pub IsConsistent : MessageAssembler → Type 0
IsConsistent a = Fields a a.assembling

-- The fragments before the last one leave something of the message.
pub fragments_before :
    (length index : ℕ) → index < fragments_of length → index * max_fragment_body ≤ length
unfolding fragments_of
fragments_before length index h = ground arith

pub fragments_bound : (length : ℕ) → length ≤ max_message_payload → fragments_of length < 2 ^ 16
unfolding fragments_of
fragments_bound length h = ground arith

pub fragments_pos : (length : ℕ) → 0 < fragments_of length
unfolding fragments_of
fragments_pos length = ground arith

begin-IsConsistent :
    (h : PacketHeader) (s : State)
    → (begin_message h s).0 ≡ true
    → IsConsistent (begin_message h s).1.1
unfolding begin_message reset
begin-IsConsistent h (budget, a) taken = ground (arith, fragments_pos h.total_length)

begin_refused :
    (h : PacketHeader) (s : State)
    → (begin_message h s).0 ≡ false
    → IsConsistent (begin_message h s).1.1
unfolding begin_message reset
begin_refused h (budget, a) taken = ground arith

-- A fragment that comes next, and what it may complete.
abbrev pub Whole : PacketHeader → Option AssembledMessage → Type 0
Whole h none = Unit
Whole h (some m) =
    (fragments_of (length m.body) ≡ h.frag_count) × (length m.body ≤ max_message_payload)

continue_lem :
    (h : PacketHeader) (body : List ℕ) (s : State)
    → (is_last_fragment h.flags ≡ (h.frag_index + 1 == h.frag_count))
    → IsConsistent s.1
    → IsConsistent (continue_message h body s).1.1 × Whole h (continue_message h body s).0
unfolding continue_message reset
continue_lem h body (budget, a) is_last v = elim (Bool-cases a.assembling) [
  | inl on ↦ ground (
    arith,
    length-append a.body body,
    fragments_before a.total_length a.next_index,
    fragments_bound a.total_length,
  )
  | inr off ↦ rw off ((refl, refl, refl, refl, refl), tt)
]

last_flag :
    (h : PacketHeader)
    → IsWellFormed h
    → is_fragmented h.flags ≡ true
    → is_last_fragment h.flags ≡ (h.frag_index + 1 == h.frag_count)
last_flag h w e = let (_, _, _, is_last) = subst (FragmentFields h) e w.fragment in is_last

reset-IsConsistent : (s : State) → IsConsistent (reset s).1
unfolding reset
reset-IsConsistent (budget, a) = (refl, refl, refl, refl, refl)

first_lem :
    (h : PacketHeader) (body : List ℕ) (s : State)
    → (is_last_fragment h.flags ≡ (h.frag_index + 1 == h.frag_count))
    → IsConsistent
        (if (begin_message h s).0
          then continue_message h body (begin_message h s).1
          else (none, (begin_message h s).1)).1.1
      × Whole h
          (if (begin_message h s).0
            then continue_message h body (begin_message h s).1
            else (none, (begin_message h s).1)).0
first_lem h body s is_last = elim (Bool-cases (begin_message h s).0) [
  | inl on ↦ rw on (continue_lem h body (begin_message h s).1 is_last (begin-IsConsistent h s on))
  | inr off ↦ rw off (begin_refused h s off, tt)
]

-- Whatever packet a link hands over, the assembler stays consistent, and a message that its fragments
-- complete needs just as many fragments as the header says, and is no larger than a message may be.
pub accept-IsConsistent :
    (h : PacketHeader) (body : List ℕ) (s : State)
    → IsWellFormed h
    → IsConsistent s.1
    → IsConsistent (accept h body s).1.1
      × (is_fragmented h.flags ≡ true → Whole h (accept h body s).0)
unfolding accept
accept-IsConsistent h body s w v = elim (Bool-cases (is_fragmented h.flags)) [
  | inr whole ↦ rw whole (reset-IsConsistent s, λ e. absurd (ground arith))
  | inl part ↦
      let is_last = last_flag h w part in
      elim (Bool-cases (h.frag_index == 0)) [
        | inl first ↦ let (c, m) = first_lem h body s is_last in rw (part, first) (c, λ e. m)
        | inr later ↦ let (c, m) = continue_lem h body s is_last v in rw (part, later) (c, λ e. m)
      ]
]
