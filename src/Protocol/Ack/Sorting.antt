-- ===== src/Protocol/Ack/Sorting.antt =====
-- AckRanges.h: the sorting in `toRanges`.
use net_link.Common.{
  ℕ, ◌≤◌, ◌≡◌, ◌↔◌, ◌⊎◌, inl, inr, leb, true, Bool-cases, List, [], ◌∷◌, All, arith,
}
use net_link.Protocol.Ack.{is_sorted, insert_sorted, sort}

abbrev pub Elem : ℕ → List ℕ → Type 0
Elem s [] = ⊥
Elem s (x ∷ xs) = (s ≡ x) ⊎ Elem s xs

abbrev pub Sorted : List ℕ → Type 0
Sorted [] = Unit
Sorted (x ∷ xs) = All (λ y. x ≤ y) xs × Sorted xs

All-le_trans : (x y : ℕ) (xs : List ℕ) → x ≤ y → All (λ z. y ≤ z) xs → All (λ z. x ≤ z) xs
All-le_trans x y [] h a = tt
All-le_trans x y (z ∷ xs) h a = (omega arith, All-le_trans x y xs h a.1)

pub is_sorted-Sorted : (xs : List ℕ) → is_sorted xs ≡ true → Sorted xs
unfolding is_sorted
is_sorted-Sorted [] e = tt
is_sorted-Sorted (x ∷ []) e = (tt, tt)
is_sorted-Sorted (x ∷ y ∷ xs) e =
    let rest = is_sorted-Sorted (y ∷ xs) (ground arith) in
    let h : x ≤ y = ground arith in ((h, All-le_trans x y xs h rest.0), rest)

insert_sorted-All :
    (P : ℕ → Type 0) (x : ℕ) (ys : List ℕ) → P x → All P ys → All P (insert_sorted x ys)
unfolding insert_sorted
insert_sorted-All P x [] p a = (p, tt)
insert_sorted-All P x (y ∷ ys) p a = elim (Bool-cases (leb x y)) [
  | inl e ↦ rw e (p, a)
  | inr e ↦ rw e (a.0, insert_sorted-All P x ys p a.1)
]

insert_sorted-Sorted : (x : ℕ) (ys : List ℕ) → Sorted ys → Sorted (insert_sorted x ys)
unfolding insert_sorted
insert_sorted-Sorted x [] o = (tt, tt)
insert_sorted-Sorted x (y ∷ ys) o = elim (Bool-cases (leb x y)) [
  | inl e ↦ let h : x ≤ y = ground arith in rw e ((h, All-le_trans x y ys h o.0), o)
  | inr e ↦
      let h : y ≤ x = ground arith in
      rw e (insert_sorted-All (λ z. y ≤ z) x ys h o.0, insert_sorted-Sorted x ys o.1)
]

insert_sorted-Elem : (t x : ℕ) (ys : List ℕ) → Elem t (insert_sorted x ys) ↔ ((t ≡ x) ⊎ Elem t ys)
unfolding insert_sorted
insert_sorted-Elem t x [] = (λ h. h, λ h. h)
insert_sorted-Elem t x (y ∷ ys) = elim (Bool-cases (leb x y)) [
  | inl e ↦ rw e (λ h. h, λ h. h)
  | inr e ↦
      let ih = insert_sorted-Elem t x ys in
      rw e (
        λ h. elim h [
          | inl p ↦ inr (inl p)
          | inr q ↦ elim (ih.0 q) [ inl p ↦ inl p | inr r ↦ inr (inr r) ]
        ],
        λ h. elim h [
          | inl p ↦ inr (ih.1 (inl p))
          | inr q ↦ elim q [ inl p ↦ inl p | inr r ↦ inr (ih.1 (inr r)) ]
        ],
      )
]

pub sort-Sorted : (xs : List ℕ) → Sorted (sort xs)
unfolding sort
sort-Sorted [] = tt
sort-Sorted (x ∷ xs) = insert_sorted-Sorted x (sort xs) (sort-Sorted xs)

pub sort-Elem : (t : ℕ) (xs : List ℕ) → Elem t (sort xs) ↔ Elem t xs
unfolding sort
sort-Elem t [] = (λ h. h, λ h. h)
sort-Elem t (x ∷ xs) =
    let one = insert_sorted-Elem t x (sort xs) in
    let ih = sort-Elem t xs in
    (
      λ h. elim (one.0 h) [ inl p ↦ inl p | inr q ↦ inr (ih.0 q) ],
      λ h. elim h [ inl p ↦ one.1 (inl p) | inr q ↦ one.1 (inr (ih.1 q)) ],
    )

pub sort-All : (P : ℕ → Type 0) (xs : List ℕ) → All P xs → All P (sort xs)
unfolding sort
sort-All P [] h = tt
sort-All P (x ∷ xs) h = insert_sorted-All P x (sort xs) h.0 (sort-All P xs h.1)
