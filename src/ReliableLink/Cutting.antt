-- ===== src/ReliableLink/Cutting.antt =====
-- ReliableLink.cpp, cursorFor, fragmentAt and headerOf: a message that is cut into packets comes back
-- whole from the assembler of the remote.
use net_link.Common.{
  ℕ, zero, suc, ◌+◌, ◌-◌, ◌*◌, ◌%◌, ◌^◌, ◌≤◌, ◌<◌, min, ◌≡◌, ◌⊎◌, refl, sym, ap, ap₂, ◌∙◌, subst,
  ◌==◌, leb, ltb, Bool, true, false, List, [], ◌∷◌, length, take, drop, take-all, length-drop,
  lt→ltb, leb→le, ==_iff, Bool-cases, inl, inr, Option, none, some, arith,
}
use net_link.Constants.{max_message_payload}
use net_link.Protocol.Flags.{
  Lane, control, reliable, bulk, media, data_flags, set_kind, set_lane, set, set_fragment,
  is_fragmented, is_last_fragment,
}
use net_link.Protocol.Header.{fragments_of, max_fragment_body}
use net_link.Fragmentation.Message.{AssembledMessage, State, reset, fits_in, accept}
use net_link.Fragmentation.Message.Invariant.{
  IsBalanced, fragments_before, fragments_bound, fragments_pos,
}
use net_link.Fragmentation.Message.Assembly.{
  Packet, accept_whole, accept_all, only_last, IsFragment, Fragments, accept_all-Fragments,
}
use net_link.ReliableLink.{OutboundMessage, InFlight, FragmentCursor, ReliableLink, next}
use net_link.ReliableLink.Sending.{make_header, header_of, fragment_at, cursor_for, advanced, slice}

abbrev pub fragment_bytes : InFlight → List ℕ
fragment_bytes e = slice e.offset e.length e.message

-- The flags of a fragment, and of a whole message.
fragment_flags :
    (l : Lane) (last : Bool)
    → (is_fragmented (set_fragment true last (data_flags l)) ≡ true)
      × (is_last_fragment (set_fragment true last (data_flags l)) ≡ last)
unfolding set_fragment data_flags is_fragmented is_last_fragment set_kind set_lane set
fragment_flags control true = (refl, refl)
fragment_flags control false = (refl, refl)
fragment_flags reliable true = (refl, refl)
fragment_flags reliable false = (refl, refl)
fragment_flags bulk true = (refl, refl)
fragment_flags bulk false = (refl, refl)
fragment_flags media true = (refl, refl)
fragment_flags media false = (refl, refl)

whole_flags : (l : Lane) → is_fragmented (data_flags l) ≡ false
unfolding data_flags is_fragmented set_kind set_lane
whole_flags control = refl
whole_flags reliable = refl
whole_flags bulk = refl
whole_flags media = refl

take-min : (n : ℕ) (xs : List ℕ) → take (min n (length xs)) xs ≡ take n xs
take-min zero xs = ap (λ n. take n xs) (no (length xs))
  where
    no : (m : ℕ) → min 0 m ≡ 0
    no m = omega arith
take-min (suc n) [] = ap (λ k. take {A = ℕ} k []) (none_left (suc n))
  where
    none_left : (m : ℕ) → min m 0 ≡ 0
    none_left m = omega arith
take-min (suc n) (x ∷ xs) =
    ap (λ n. take n (x ∷ xs)) (one n (length xs)) ∙ ap (λ ys. x ∷ ys) (take-min n xs)
  where
    one : (n m : ℕ) → min (suc n) (suc m) ≡ suc (min n m)
    one n m = omega arith

one_part : (length : ℕ) → fragments_of length ≡ 1 → length ≤ max_fragment_body
unfolding fragments_of
one_part length h = ground arith

module _ {W : Type 0} (k : ReliableLink W) (l : Lane) where
  -- The packet of a cursor, as it is offered under `seq`.
  abbrev pub packet_at : ℕ → FragmentCursor → Packet
  packet_at seq c = (header_of l seq (fragment_at c) k, fragment_bytes (fragment_at c))

  -- The packets of a message, under consecutive seqs, until the cursor is done.
  pub cut_from : ℕ → ℕ → Option FragmentCursor → List Packet
  cut_from zero seq c = []
  cut_from (suc rounds) seq none = []
  cut_from (suc rounds) seq (some c) = packet_at seq c ∷ cut_from rounds (next seq) (advanced c)

  cut_none : (rounds seq : ℕ) → cut_from rounds seq none ≡ []
  unfolding cut_from
  cut_none zero seq = refl
  cut_none (suc rounds) seq = refl

  pub cut : ℕ → OutboundMessage → List Packet
  unfolding cut_from cursor_for
  cut seq m = cut_from (suc (cursor_for m).count) seq (some (cursor_for m))

  module _ (m : OutboundMessage) (small : length m.body ≤ max_message_payload) where
    abbrev assembled : AssembledMessage
    assembled = record { tag = m.tag; body = m.body }

    abbrev count : ℕ
    count = fragments_of (length m.body)

    abbrev at : ℕ → FragmentCursor
    at i = record { message = m; count = count; next = i }

    bytes_at :
        (i : ℕ)
        → i < count
        → fragment_bytes (fragment_at (at i))
          ≡ take max_fragment_body (drop (i * max_fragment_body) m.body)
    unfolding fragment_at
    bytes_at i h =
        ap₂ (λ offset size. take size (drop offset m.body)) offset_is size_is
        ∙ take-min max_fragment_body (drop (i * max_fragment_body) m.body)
      where
        offset_is : i * max_fragment_body % 2 ^ 64 % 2 ^ 32 ≡ i * max_fragment_body
        offset_is = omega (arith, fragments_before (length m.body) i h)

        size_is :
            min max_fragment_body
                ((length m.body + 2 ^ 64 - i * max_fragment_body % 2 ^ 64) % 2 ^ 64)
              % 2 ^ 32
            ≡ min max_fragment_body (length (drop (i * max_fragment_body) m.body))
        size_is = omega (
          arith,
          fragments_before (length m.body) i h,
          length-drop (i * max_fragment_body) m.body,
        )

    part-IsFragment :
        (i seq : ℕ)
        → i < count
        → 2 ≤ count
        → IsFragment assembled i (packet_at seq (at i)).0 (packet_at seq (at i)).1
    unfolding header_of fragment_at make_header
    part-IsFragment i seq h many =
        subst (λ g. IsFragment assembled i g (fragment_bytes (fragment_at (at i)))) (sym header_is)
          (record {
            fragmented = (fragment_flags l (i % 2 ^ 16 + 1 == count % 2 ^ 16)).0;
            index = small_index;
            count = small_count;
            is_last =
                (fragment_flags l (i % 2 ^ 16 + 1 == count % 2 ^ 16)).1
                ∙ ap₂ (λ a b. a + 1 == b) small_index small_count;
            start_tag = λ e. refl;
            start_length = λ e. omega (arith, small);
            part = bytes_at i h;
          })
      where
        fits : count < 2 ^ 16
        fits = fragments_bound (length m.body) small

        small_index : i % 2 ^ 16 ≡ i
        small_index = omega (arith, fits)

        small_count : count % 2 ^ 16 ≡ count
        small_count = omega (arith, fits)

        is_many : ltb 1 (count % 2 ^ 16) ≡ true
        is_many = lt→ltb 1 (count % 2 ^ 16) (omega (arith, fits))

        header_is :
            header_of l seq (fragment_at (at i)) k ≡ record (make_header (data_flags l) seq k) {
              flags = set_fragment true (i % 2 ^ 16 + 1 == count % 2 ^ 16) (data_flags l);
              tag = m.tag;
              frag_index = i % 2 ^ 16;
              frag_count = count % 2 ^ 16;
              total_length = length m.body % 2 ^ 32;
            }
        header_is = rw is_many

    -- All of them, from the `i`-th one on.
    from-Fragments :
        (rounds i seq : ℕ)
        → count < rounds + i
        → i < count
        → 2 ≤ count
        → Fragments assembled i (cut_from rounds seq (some (at i)))
    unfolding cut_from
    from-Fragments zero i seq enough h many = absurd (omega arith)
    from-Fragments (suc rounds) i seq enough h many = (
      h,
      part-IsFragment i seq h many,
      following (λ (more : i + 1 < count).
          from-Fragments rounds (i + 1) (next seq) (omega arith) more many),
    )
      where
        next_is : next i ≡ i + 1
        next_is = omega (arith, fragments_bound (length m.body) small)

        following :
            (i + 1 < count
              → Fragments assembled (i + 1) (cut_from rounds (next seq) (some (at (i + 1)))))
            → Fragments assembled (i + 1) (cut_from rounds (next seq) (advanced (at i)))
        following go = elim (Bool-cases (leb count (next i))) [
          | inl done ↦
              rw (done, cut_none rounds (next seq))
                (omega (arith, leb→le count (next i) done, next_is, h))
          | inr more ↦ rw (more, next_is) (go (ground (arith, next_is, more)))
        ]

    cut_one : (seq : ℕ) → count ≡ 1 → cut seq m ≡ packet_at seq (at 0) ∷ []
    unfolding cut
    cut_one seq one =
        ap (λ c. packet_at seq (at 0) ∷ cut_from count (next seq) c) done
        ∙ ap (λ r. packet_at seq (at 0) ∷ r) (cut_none count (next seq))
      where
        done : advanced (at 0) ≡ none
        done = ground arith

    plain_header :
        (seq : ℕ)
        → count ≡ 1
        → header_of l seq (fragment_at (at 0)) k
          ≡ record (make_header (data_flags l) seq k) { tag = m.tag }
    unfolding header_of fragment_at
    plain_header seq one = rw one

    whole_packet :
        (seq : ℕ)
        → count ≡ 1
        → (is_fragmented (packet_at seq (at 0)).0.flags ≡ false)
          × ((packet_at seq (at 0)).0.tag ≡ m.tag)
          × ((packet_at seq (at 0)).1 ≡ m.body)
    unfolding make_header
    whole_packet seq one =
        let plain = plain_header seq one in
        (
          ap (λ h. is_fragmented h.flags) plain ∙ whole_flags l,
          ap (λ h. h.tag) plain,
          bytes_at 0 (fragments_pos (length m.body))
              ∙ take-all max_fragment_body m.body (one_part (length m.body) one),
        )

    one_packet :
        (seq : ℕ) (s : State)
        → count ≡ 1
        → accept (packet_at seq (at 0)).0 (packet_at seq (at 0)).1 s ≡ (some assembled, reset s)
    one_packet seq s one =
        let (whole, tag, body) = whole_packet seq one in
        accept_whole (packet_at seq (at 0)).0 (packet_at seq (at 0)).1 s whole
        ∙ ap₂ (λ tag body. (some (record { tag = tag; body = body }), reset s)) tag body

    single :
        (p : Packet) (s : State)
        → accept p.0 p.1 s ≡ (some assembled, reset s)
        → accept_all (p ∷ []) s ≡ (some assembled ∷ [], reset s)
    unfolding accept_all
    single p s e = ap (λ r. (r.0 ∷ [], r.1)) e

    all-Fragments : (seq : ℕ) → 2 ≤ count → Fragments assembled 0 (cut seq m)
    unfolding cut
    all-Fragments seq many = from-Fragments (suc count) 0 seq (omega arith) (omega arith) many

    -- The packets of a message, one after another, give the message to the remote, with the last of them
    -- and not before, and leave its assembler as it was without a message in progress.
    pub accept_all-cut :
        (seq others : ℕ) (s : State)
        → IsBalanced others s
        → fits_in (length m.body) (reset s).0 ≡ true
        → accept_all (cut seq m) s ≡ (only_last assembled (cut seq m), reset s)
    accept_all-cut seq others s v room = elim (Bool-cases (count == 1)) [
      | inl one ↦
          rw (cut_one seq ((==_iff count 1).0 one))
            (single (packet_at seq (at 0)) s (one_packet seq s ((==_iff count 1).0 one)))
      | inr many ↦
          accept_all-Fragments assembled (cut seq m) others s small v room
            (all-Fragments seq (ground (arith, fragments_pos (length m.body))))
    ]

    -- What `Messages.Carries` asks of the packets of a message.
    pub cut-Fragments :
        (seq : ℕ)
        → ((cut seq m ≡ packet_at seq (at 0) ∷ [])
            × (is_fragmented (packet_at seq (at 0)).0.flags ≡ false)
            × ((packet_at seq (at 0)).0.tag ≡ m.tag)
            × ((packet_at seq (at 0)).1 ≡ m.body))
          ⊎ Fragments assembled 0 (cut seq m)
    cut-Fragments seq = elim (Bool-cases (count == 1)) [
      | inl one ↦
          let is = (==_iff count 1).0 one in
          let (whole, tag, body) = whole_packet seq is in inl (cut_one seq is, whole, tag, body)
      | inr many ↦ inr (all-Fragments seq (ground (arith, fragments_pos (length m.body))))
    ]
