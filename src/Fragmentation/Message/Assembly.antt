-- ===== src/Fragmentation/Message/Assembly.antt =====
-- MessageAssembler.cpp: the fragments of a message, one after another, give the message.
use net_link.Common.{
  ℕ, zero, suc, ◌+◌, ◌-◌, ◌*◌, ◌%◌, ◌^◌, ◌≤◌, ◌<◌, min, ◌≡◌, refl, sym, ap, ◌∙◌, ◌==◌,
  if◌then◌else◌, Bool, true, false, List, [], ◌∷◌, ◌++◌, length, take, drop, take-all, length-take,
  length-drop, Option, none, some, arith,
}
use net_link.Constants.{max_message_payload}
use net_link.Protocol.Flags.{is_fragmented, is_last_fragment}
use net_link.Protocol.Header.{
  PacketHeader, fragments_of, max_fragment_body, starts_fragmented_message,
}
use net_link.Fragmentation.Message.{
  AssemblyBudget, reserve, release, release_in, reserve_in, fits_in, MessageAssembler,
  AssembledMessage, expected_size, idle, State, has_room_for, reset, begin_message,
  continue_message, accept,
}
use net_link.Fragmentation.Message.Invariant.{
  IsBalanced, reset-IsBalanced, fragments_before, fragments_bound, fragments_pos,
}

abbrev pub Packet : Type 0
Packet = PacketHeader × List ℕ

-- The packets that a link hands over one after another, and what each of them completes.
unfoldable pub accept_all : List Packet → State → List (Option AssembledMessage) × State
accept_all [] s = ([], s)
accept_all ((h, body) ∷ packets) s =
    let (message, s') = accept h body s in
    let (messages, s'') = accept_all packets s' in (message ∷ messages, s'')

-- Nothing but the last packet completes a message.
abbrev pub only_last : AssembledMessage → List Packet → List (Option AssembledMessage)
only_last m [] = []
only_last m (p ∷ []) = some m ∷ []
only_last m (p ∷ q ∷ packets) = none ∷ only_last m (q ∷ packets)

module _ (m : AssembledMessage) where
  abbrev pub fragment_count : ℕ
  fragment_count = fragments_of (length m.body)

  -- The `i`-th fragment of the message.
  pub record IsFragment (i : ℕ) (h : PacketHeader) (body : List ℕ) : Type 0 where
    pub fragmented : is_fragmented h.flags ≡ true
    pub index : h.frag_index ≡ i
    pub count : h.frag_count ≡ fragment_count
    pub is_last : is_last_fragment h.flags ≡ (i + 1 == fragment_count)
    pub start_tag : i ≡ 0 → h.tag ≡ m.tag
    pub start_length : i ≡ 0 → h.total_length ≡ length m.body
    pub part : body ≡ take max_fragment_body (drop (i * max_fragment_body) m.body)

  -- All of them from the `i`-th one on.
  abbrev pub Fragments : ℕ → List Packet → Type 0
  Fragments i [] = i ≡ fragment_count
  Fragments i ((h, body) ∷ packets) =
      (i < fragment_count) × IsFragment i h body × Fragments (i + 1) packets

  abbrev pub in_progress : ℕ → MessageAssembler
  in_progress i = record {
    assembling = true;
    frag_count = fragment_count;
    next_index = i;
    tag = m.tag;
    total_length = length m.body;
    body = take (i * max_fragment_body) m.body;
  }

-- A packet that is a whole message.
pub accept_whole :
    (h : PacketHeader) (body : List ℕ) (s : State)
    → is_fragmented h.flags ≡ false
    → accept h body s ≡ (some (record { tag = h.tag; body = body }), reset s)
unfolding accept
accept_whole h body s e = rw e

-- Room for the first fragment of a message is room for the message.
pub fits-has_room_for :
    (h : PacketHeader) (budget : Option AssemblyBudget)
    → has_room_for h budget ≡ true
    → is_fragmented h.flags ≡ true
    → h.frag_index ≡ 0
    → fits_in h.total_length (reset (budget, idle)).0 ≡ true
unfolding has_room_for reset starts_fragmented_message
fits-has_room_for h budget room fragmented first = ground arith

pub reset-idle : (s : State) → (reset s).1 ≡ idle
unfolding reset
reset-idle (budget, a) = refl

take-nil : {A : Type 0} (n : ℕ) → take {A = A} n [] ≡ []
take-nil zero = refl
take-nil (suc n) = refl

one_more : (n k : ℕ) → suc (n + k) ≡ suc n + k
one_more n k = omega arith

take-add : {A : Type 0} (n k : ℕ) (xs : List A) → take n xs ++ take k (drop n xs) ≡ take (n + k) xs
take-add zero k xs = ap (λ n. take n xs) (omega arith)
take-add (suc n) k [] = take-nil k ∙ sym (take-nil (suc n + k))
take-add (suc n) k (x ∷ xs) =
    ap (λ ys. x ∷ ys) (take-add n k xs) ∙ ap (λ n. take n (x ∷ xs)) (one_more n k)

full_part : (length i : ℕ) → i + 1 < fragments_of length → (i + 1) * max_fragment_body ≤ length
full_part length i h = fragments_before length (i + 1) h

last_part : (length i : ℕ) → i + 1 ≡ fragments_of length → length ≤ (i + 1) * max_fragment_body
unfolding fragments_of
last_part length i h = ground arith

-- A fragment that comes next: of which others follow, and the last one.
module _ (h : PacketHeader) (body : List ℕ) (budget : Option AssemblyBudget) (a : MessageAssembler)
    (on : a.assembling ≡ true) (same_count : h.frag_count ≡ a.frag_count)
    (same_index : h.frag_index ≡ a.next_index) (size : length body ≡ expected_size h a)
    (fits_index : a.frag_count < 2 ^ 16) where
  continue_inner :
      a.next_index + 1 < a.frag_count
      → continue_message h body (budget, a)
        ≡ (none, (budget, record a { next_index = a.next_index + 1; body = a.body ++ body }))
  unfolding continue_message
  continue_inner more = ground arith

  continue_final :
      a.next_index + 1 ≡ a.frag_count
      → continue_message h body (budget, a) ≡ (
        some (record { tag = a.tag; body = a.body ++ body }),
        (release_in a.total_length budget, idle),
      )
  unfolding continue_message reset
  continue_final more = ground arith

-- Every fragment but the last one is full; the last one is what is left.
size_of_part :
    (is_last : Bool) (count length i taken part : ℕ)
    → length ≤ max_message_payload
    → i < count
    → is_last ≡ (i + 1 == count)
    → taken ≡ i * max_fragment_body
    → part ≡ min max_fragment_body (length - i * max_fragment_body)
    → (i + 1 < count → (i + 1) * max_fragment_body ≤ length)
    → (i + 1 ≡ count → length ≤ (i + 1) * max_fragment_body)
    → i * max_fragment_body ≤ length
    → part ≡ (if is_last then (length + 2 ^ 64 - taken) % 2 ^ 64 else max_fragment_body)
size_of_part is_last count length i taken part small before e1 e2 e3 full last room = ground arith

begin_taken :
    (h : PacketHeader) (s : State)
    → h.total_length ≤ max_message_payload
    → fragments_of h.total_length ≡ h.frag_count
    → fits_in h.total_length (reset s).0 ≡ true
    → begin_message h s ≡ (
      true,
      (
        (reserve_in h.total_length (reset s).0).1,
        record idle {
          assembling = true;
          frag_count = h.frag_count;
          tag = h.tag;
          total_length = h.total_length;
        },
      ),
    )
unfolding begin_message reset reserve
begin_taken h (none, a) small count room = ground arith
begin_taken h (some b, a) small count room = ground arith

module _ (m : AssembledMessage) (small : length m.body ≤ max_message_payload) where
  abbrev part_of : ℕ → List ℕ
  part_of i = take max_fragment_body (drop (i * max_fragment_body) m.body)

  taken_length :
      (i : ℕ)
      → i < fragment_count m
      → length (take (i * max_fragment_body) m.body) ≡ i * max_fragment_body
  taken_length i h =
      omega
        (arith, length-take (i * max_fragment_body) m.body, fragments_before (length m.body) i h)

  part_length :
      (i : ℕ) → length (part_of i) ≡ min max_fragment_body (length m.body - i * max_fragment_body)
  part_length i =
      length-take max_fragment_body (drop (i * max_fragment_body) m.body)
      ∙ ap (min max_fragment_body) (length-drop (i * max_fragment_body) m.body)

  joined :
      (i : ℕ)
      → take (i * max_fragment_body) m.body ++ part_of i ≡ take ((i + 1) * max_fragment_body) m.body
  joined i =
      take-add (i * max_fragment_body) max_fragment_body m.body
      ∙ ap (λ n. take n m.body) (omega arith)

  size_expected :
      (i : ℕ) (h : PacketHeader) (body : List ℕ)
      → i < fragment_count m
      → IsFragment m i h body
      → length body ≡ expected_size h (in_progress m i)
  size_expected i h body before f =
      ap length f.part
      ∙ size_of_part (is_last_fragment h.flags) (fragment_count m) (length m.body) i
          (length (take (i * max_fragment_body) m.body)) (length (part_of i)) small before f.is_last
          (taken_length i before) (part_length i) (full_part (length m.body) i)
          (last_part (length m.body) i) (fragments_before (length m.body) i before)

  body_after :
      (i : ℕ) (h : PacketHeader) (body : List ℕ)
      → IsFragment m i h body
      → take (i * max_fragment_body) m.body ++ body ≡ take ((i + 1) * max_fragment_body) m.body
  body_after i h body f = ap (λ b. take (i * max_fragment_body) m.body ++ b) f.part ∙ joined i

  whole_body :
      (i : ℕ) → i + 1 ≡ fragment_count m → take ((i + 1) * max_fragment_body) m.body ≡ m.body
  whole_body i last =
      take-all ((i + 1) * max_fragment_body) m.body (last_part (length m.body) i last)

  pub step_inner :
      (i : ℕ) (h : PacketHeader) (body : List ℕ) (budget : Option AssemblyBudget)
      → i + 1 < fragment_count m
      → IsFragment m i h body
      → continue_message h body (budget, in_progress m i) ≡ (none, (budget, in_progress m (i + 1)))
  step_inner i h body budget more f =
      continue_inner h body budget (in_progress m i) refl f.count f.index
        (size_expected i h body (omega arith) f) (fragments_bound (length m.body) small) more
      ∙ ap (λ b. (none, (budget, record (in_progress m (i + 1)) { body = b })))
          (body_after i h body f)

  pub step_final :
      (i : ℕ) (h : PacketHeader) (body : List ℕ) (budget : Option AssemblyBudget)
      → i + 1 ≡ fragment_count m
      → IsFragment m i h body
      → continue_message h body (budget, in_progress m i)
        ≡ (some m, (release_in (length m.body) budget, idle))
  step_final i h body budget last f =
      continue_final h body budget (in_progress m i) refl f.count f.index
        (size_expected i h body (omega arith) f) (fragments_bound (length m.body) small) last
      ∙ ap (λ b. (some (record m { body = b }), (release_in (length m.body) budget, idle)))
          (body_after i h body f ∙ whole_body i last)

  -- A later fragment goes straight to the message in progress.
  pub accept_later :
      (i : ℕ) (h : PacketHeader) (body : List ℕ) (s : State)
      → 0 < i
      → IsFragment m i h body
      → accept h body s ≡ continue_message h body s
  unfolding accept
  accept_later i h body s later f = ground (arith, f.fragmented, f.index)

  pub accept_first :
      (h : PacketHeader) (body : List ℕ) (s : State)
      → fits_in (length m.body) (reset s).0 ≡ true
      → IsFragment m 0 h body
      → accept h body s
        ≡ continue_message h body ((reserve_in (length m.body) (reset s).0).1, in_progress m 0)
  unfolding accept
  accept_first h body s room f =
      rw
        (begun ∙ (λ k. (
          true,
          (
            (reserve_in (same_length k) (reset s).0).1,
            record idle {
              assembling = true;
              frag_count = f.count k;
              tag = f.start_tag refl k;
              total_length = same_length k;
            },
          ),
        )))
        (ground (arith, f.fragmented, f.index))
    where
      same_length : h.total_length ≡ length m.body
      same_length = f.start_length refl

      begun : begin_message h s ≡ (
        true,
        (
          (reserve_in h.total_length (reset s).0).1,
          record idle {
            assembling = true;
            frag_count = h.frag_count;
            tag = h.tag;
            total_length = h.total_length;
          },
        ),
      )
      begun =
          begin_taken h s (omega (arith, same_length)) (ap fragments_of same_length ∙ sym f.count)
            (ap (λ n. fits_in n (reset s).0) same_length ∙ room)

  from_fragment :
      (h : PacketHeader) (body : List ℕ) (packets : List Packet) (i : ℕ)
      (budget : Option AssemblyBudget) (s : State)
      → accept h body s ≡ continue_message h body (budget, in_progress m i)
      → IsFragment m i h body
      → Fragments m (i + 1) packets
      → accept_all ((h, body) ∷ packets) s
        ≡ (only_last m ((h, body) ∷ packets), (release_in (length m.body) budget, idle))
  unfolding accept_all
  from_fragment h body [] i budget s entry f last = rw (entry, step_final i h body budget last f)
  from_fragment h body ((h', body') ∷ packets) i budget s entry f (more, f', rest) =
      let later =
        from_fragment h' body' packets (i + 1) budget (budget, in_progress m (i + 1))
          (accept_later (i + 1) h' body' (budget, in_progress m (i + 1)) (omega arith) f') f'
          rest in
      rw (entry, step_inner i h body budget more f) (λ k. (none ∷ (later k).0, (later k).1))

given_back :
    (bytes others : ℕ) (s : State)
    → IsBalanced others (reset s)
    → fits_in bytes (reset s).0 ≡ true
    → (release_in bytes (reserve_in bytes (reset s).0).1, idle) ≡ reset s
unfolding reset reserve release
given_back bytes others (none, a) v room = ground arith
given_back bytes others (some b, a) v room = ground arith

-- Whatever the assembler was doing, the fragments of a message, one after another, give exactly the
-- message, with the last of them, if the message is no larger than allowed and the budget has room
-- for it; and afterwards the assembler is idle, and the budget as if nothing had come.
pub accept_all-Fragments :
    (m : AssembledMessage) (packets : List Packet) (others : ℕ) (s : State)
    → length m.body ≤ max_message_payload
    → IsBalanced others s
    → fits_in (length m.body) (reset s).0 ≡ true
    → Fragments m 0 packets
    → accept_all packets s ≡ (only_last m packets, reset s)
accept_all-Fragments m [] others s small v room done =
    absurd (omega (arith, done, fragments_pos (length m.body)))
accept_all-Fragments m ((h, body) ∷ packets) others s small v room (more, f, rest) =
    from_fragment m small h body packets 0 (reserve_in (length m.body) (reset s).0).1 s
      (accept_first m small h body s room f) f rest
    ∙ ap (λ t. (only_last m ((h, body) ∷ packets), t))
        (given_back (length m.body) others s (reset-IsBalanced others s v) room)
