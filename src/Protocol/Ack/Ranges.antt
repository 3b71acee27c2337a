-- ===== src/Protocol/Ack/Ranges.antt =====
-- AckRanges.h: `toRanges` names exactly the seqs that it is given, ascending and merged.
use net_link.Common.{
  ℕ, ◌+◌, ◌-◌, ◌^◌, ◌≤◌, ◌<◌, ◌≡◌, ◌↔◌, ◌⊎◌, inl, inr, Bool-cases, List, [], ◌∷◌, All, arith,
}
use net_link.Protocol.Ack.{SeqRange, is_sorted, sort, add_seq, add_seqs, to_ranges}
use net_link.Protocol.Ack.Sorting.{Elem, Sorted, is_sorted-Sorted, sort-Sorted, sort-Elem, sort-All}
use net_link.Protocol.Ack.Codec.{IsRange, last_of_range}

-- The seqs of a range, and of a list of ranges.
abbrev pub InRange : ℕ → SeqRange → Type 0
InRange s r = (r.first ≤ s) × (s < r.first + r.count)

abbrev pub InRanges : ℕ → List SeqRange → Type 0
InRanges s [] = ⊥
InRanges s (r ∷ rs) = InRange s r ⊎ InRanges s rs

-- What follows a range lies behind it, with a gap between them except where the range can count no
-- further.
abbrev pub Follows : SeqRange → List SeqRange → Type 0
Follows r [] = Unit
Follows r (r' ∷ rs) =
    (r.first + r.count ≤ r'.first) × (r.first + r.count ≡ r'.first → r.count ≡ 2 ^ 16 - 1)

abbrev pub Ascending : List SeqRange → Type 0
Ascending [] = Unit
Ascending (r ∷ rs) = IsRange r × Follows r rs × Ascending rs

-- The seqs so far end at `s` or below.
abbrev EndsBy : ℕ → List SeqRange → Type 0
EndsBy s [] = Unit
EndsBy s (r ∷ []) = r.first + r.count ≤ s + 1
EndsBy s (r ∷ r' ∷ rs) = EndsBy s (r' ∷ rs)

abbrev pub IsSeq : ℕ → Type 0
IsSeq s = (0 < s) × (s < 2 ^ 64)

add_seq-Follows :
    (r r' : SeqRange) (rs : List SeqRange) (s : ℕ)
    → IsRange r'
    → Follows r (r' ∷ rs)
    → Follows r (add_seq (r' ∷ rs) s)
unfolding add_seq
add_seq-Follows r r' [] s v h = ground arith
add_seq-Follows r r' (r'' ∷ rs) s v h = h

-- The end of a list is not at its first range where others follow.
ends :
    (r r' : SeqRange) (rs : List SeqRange) (s : ℕ)
    → EndsBy s (add_seq (r' ∷ rs) s)
    → EndsBy s (r ∷ add_seq (r' ∷ rs) s)
unfolding add_seq
ends r r' [] s h = ground arith
ends r r' (r'' ∷ rs) s h = h

-- One round of the loop.
add_seq_sound :
    (rs : List SeqRange) (s : ℕ)
    → IsSeq s
    → Ascending rs
    → EndsBy s rs
    → Ascending (add_seq rs s) × EndsBy s (add_seq rs s)
unfolding add_seq
add_seq_sound [] s q a e = omega arith
add_seq_sound (r ∷ []) s q a e = ground (arith, last_of_range r a.0)
add_seq_sound (r ∷ r' ∷ rs) s q a e =
    let (a', e') = add_seq_sound (r' ∷ rs) s q a.2 e in
    ((a.0, add_seq-Follows r r' rs s a.2.0 a.1, a'), ends r r' rs s e')

add_seq_names :
    (rs : List SeqRange) (s t : ℕ)
    → IsSeq s
    → Ascending rs
    → EndsBy s rs
    → InRanges t (add_seq rs s) ↔ (InRanges t rs ⊎ (t ≡ s))
unfolding add_seq
add_seq_names [] s t q a e = (λ h. ground arith, λ h. ground arith)
add_seq_names (r ∷ []) s t q a e =
    (λ h. ground (arith, last_of_range r a.0), λ h. ground (arith, last_of_range r a.0))
add_seq_names (r ∷ r' ∷ rs) s t q a e =
    let ih = add_seq_names (r' ∷ rs) s t q a.2 e in
    (
      λ h. elim h [
        | inl x ↦ inl (inl x)
        | inr y ↦ elim (ih.0 y) [ inl z ↦ inl (inr z) | inr w ↦ inr w ]
      ],
      λ h. elim h [
        | inl p ↦ elim p [ inl x ↦ inl x | inr z ↦ inr (ih.1 (inl z)) ]
        | inr w ↦ inr (ih.1 (inr w))
      ],
    )

EndsBy-mono : (rs : List SeqRange) (s t : ℕ) → s ≤ t → EndsBy s rs → EndsBy t rs
EndsBy-mono [] s t h e = tt
EndsBy-mono (r ∷ []) s t h e = omega arith
EndsBy-mono (r ∷ r' ∷ rs) s t h e = EndsBy-mono (r' ∷ rs) s t h e

EndsBy-All :
    (rs : List SeqRange) (s : ℕ) (seqs : List ℕ)
    → All (λ y. s ≤ y) seqs
    → EndsBy s rs
    → All (λ y. EndsBy y rs) seqs
EndsBy-All rs s [] h e = tt
EndsBy-All rs s (y ∷ seqs) h e = (EndsBy-mono rs s y h.0 e, EndsBy-All rs s seqs h.1 e)

-- The loop, from any ranges so far.
add_seqs_sound :
    (seqs : List ℕ) (rs : List SeqRange)
    → All IsSeq seqs
    → Sorted seqs
    → Ascending rs
    → All (λ y. EndsBy y rs) seqs
    → Ascending (add_seqs rs seqs)
      × ((t : ℕ) → InRanges t (add_seqs rs seqs) ↔ (InRanges t rs ⊎ Elem t seqs))
unfolding add_seqs
add_seqs_sound [] rs q o a e = (a, λ t. (λ h. inl h, λ h. elim h [ inl x ↦ x | inr y ↦ absurd y ]))
add_seqs_sound (s ∷ seqs) rs q o a e =
    let (a', e') = add_seq_sound rs s q.0 a e.0 in
    let (all, names) =
      add_seqs_sound seqs (add_seq rs s) q.1 o.1 a' (EndsBy-All (add_seq rs s) s seqs o.0 e') in
    (
      all,
      λ t.
          let one = add_seq_names rs s t q.0 a e.0 in
          (
            λ h. elim ((names t).0 h) [
              | inl x ↦ elim (one.0 x) [ inl y ↦ inl y | inr z ↦ inr (inl z) ]
              | inr w ↦ inr (inr w)
            ],
            λ h. (names t).1 (elim h [
              | inl y ↦ inl (one.1 (inl y))
              | inr p ↦ elim p [ inl z ↦ inl (one.1 (inr z)) | inr w ↦ inr w ]
            ]),
          ),
    )

no_ends : (seqs : List ℕ) → All (λ y. EndsBy y []) seqs
no_ends [] = tt
no_ends (y ∷ seqs) = (tt, no_ends seqs)

-- Of any seqs, in any order and with any duplicates, `toRanges` makes well-formed, ascending ranges
-- that name exactly these seqs, and no two of them could have been one.
pub to_ranges_lem :
    (seqs : List ℕ)
    → All IsSeq seqs
    → Ascending (to_ranges seqs) × ((t : ℕ) → InRanges t (to_ranges seqs) ↔ Elem t seqs)
unfolding to_ranges
to_ranges_lem seqs q = elim (Bool-cases (is_sorted seqs)) [
  | inl e ↦
      let (a, names) = add_seqs_sound seqs [] q (is_sorted-Sorted seqs e) tt (no_ends seqs) in
      rw e (
        a,
        λ t. (λ h. elim ((names t).0 h) [ inl x ↦ absurd x | inr w ↦ w ], λ h. (names t).1 (inr h)),
      )
  | inr e ↦
      let (a, names) =
        add_seqs_sound (sort seqs) [] (sort-All IsSeq seqs q) (sort-Sorted seqs) tt
          (no_ends (sort seqs)) in
      rw e (
        a,
        λ t. (
          λ h. elim ((names t).0 h) [ inl x ↦ absurd x | inr w ↦ (sort-Elem t seqs).0 w ],
          λ h. (names t).1 (inr ((sort-Elem t seqs).1 h)),
        ),
      )
]
