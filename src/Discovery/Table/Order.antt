-- ===== src/Discovery/Table/Order.antt =====
-- Lookup in a table, and the order of its keys.
use net_link.Common.{
  ℕ, ◌+◌, ◌≤◌, ◌<◌, ◌≡◌, refl, sym, ap, subst, ◌∙◌, ◌==◌, ltb, if◌then◌else◌, Bool, true, false,
  Bool-cases, inl, inr, List, [], ◌∷◌, length, suc, Option, none, some, ==_iff, arith,
}
use net_link.Discovery.Table.{lookup, put, keep_if}

module _ {A : Type 0} where
  -- Every entry, with its key.
  abbrev pub Entries : (ℕ → A → Type 0) → List (ℕ × A) → Type 0
  Entries P [] = Unit
  Entries P ((k, a) ∷ table) = P k a × Entries P table

  abbrev pub Ascending : List (ℕ × A) → Type 0
  Ascending [] = Unit
  Ascending ((k, a) ∷ table) = Entries (λ k' a'. k < k') table × Ascending table

  pub lookup-put :
      (j k : ℕ) (a : A) (table : List (ℕ × A))
      → lookup j (put k a table) ≡ (if j == k then some a else lookup j table)
  lookup-put j k a [] = refl
  lookup-put j k a ((k', a') ∷ table) = ground (arith, lookup-put j k a table)

  pub put-Entries :
      (P : ℕ → A → Type 0) (k : ℕ) (a : A) (table : List (ℕ × A))
      → P k a
      → Entries P table
      → Entries P (put k a table)
  put-Entries P k a [] p es = (p, tt)
  put-Entries P k a ((k', a') ∷ table) p (e, es) = elim (Bool-cases (k == k')) [
    | inl same ↦ rw same (p, es)
    | inr other ↦ elim (Bool-cases (ltb k k')) [
      | inl before ↦ rw (other, before) (p, (e, es))
      | inr behind ↦ rw (other, behind) (e, put-Entries P k a table p es)
    ]
  ]

  Entries-mono :
      (P Q : ℕ → A → Type 0) (table : List (ℕ × A))
      → ((k : ℕ) (a : A) → P k a → Q k a)
      → Entries P table
      → Entries Q table
  Entries-mono P Q [] f es = tt
  Entries-mono P Q ((k, a) ∷ table) f (e, es) = (f k a e, Entries-mono P Q table f es)

  pub put-Ascending :
      (k : ℕ) (a : A) (table : List (ℕ × A)) → Ascending table → Ascending (put k a table)
  put-Ascending k a [] o = (tt, tt)
  put-Ascending k a ((k', a') ∷ table) (above, o) = elim (Bool-cases (k == k')) [
    | inl same ↦ rw same (
      Entries-mono (λ j b. k' < j) (λ j b. k < j) table
          (λ j b h. omega (arith, (==_iff k k').0 same, h)) above,
      o,
    )
    | inr other ↦ elim (Bool-cases (ltb k k')) [
      | inl before ↦
          let less : k < k' = ground arith in
          rw (other, before)
            (
              (
                less,
                Entries-mono (λ j b. k' < j) (λ j b. k < j) table (λ j b h. omega (arith, less, h))
                    above,
              ),
              (above, o),
            )
      | inr behind ↦
          rw (other, behind)
            (put-Entries (λ j b. k' < j) k a table (ground arith) above, put-Ascending k a table o)
    ]
  ]

  lookup_above :
      (k : ℕ) (table : List (ℕ × A)) → Entries (λ j b. k < j) table → lookup k table ≡ none
  lookup_above k [] es = refl
  lookup_above k ((k', a') ∷ table) (e, es) = ground (arith, lookup_above k table es)

  pub length-put_known :
      (k : ℕ) (a b : A) (table : List (ℕ × A))
      → Ascending table
      → lookup k table ≡ some b
      → length (put k a table) ≡ length table
  length-put_known k a b [] o known = absurd cc
  length-put_known k a b ((k', a') ∷ table) (above, o) known = elim (Bool-cases (k == k')) [
    | inl same ↦ rw same
    | inr other ↦
        let deeper : lookup k table ≡ some b = ground arith in
        elim (Bool-cases (ltb k k')) [
          | inl before ↦
              let less : k < k' = ground arith in
              let missing : lookup k table ≡ none = lookup_above k table (
                Entries-mono (λ j b. k' < j) (λ j b. k < j) table (λ j b h. omega (arith, less, h))
                  above) in
              absurd cc
          | inr behind ↦ rw (other, behind) (ap suc (length-put_known k a b table o deeper))
        ]
  ]

  pub length-put :
      (k : ℕ) (a : A) (table : List (ℕ × A)) → length (put k a table) ≤ length table + 1
  length-put k a [] = omega arith
  length-put k a ((k', a') ∷ table) = ground (arith, length-put k a table)

  pub keep_if-Entries :
      (P : ℕ → A → Type 0) (stays : ℕ → A → Bool) (table : List (ℕ × A))
      → Entries P table
      → Entries P (keep_if stays table)
  keep_if-Entries P stays [] es = tt
  keep_if-Entries P stays ((k, a) ∷ table) (e, es) = elim (Bool-cases (stays k a)) [
    | inl on ↦ rw on (e, keep_if-Entries P stays table es)
    | inr off ↦ rw off (keep_if-Entries P stays table es)
  ]

  pub keep_if-Ascending :
      (stays : ℕ → A → Bool) (table : List (ℕ × A))
      → Ascending table
      → Ascending (keep_if stays table)
  keep_if-Ascending stays [] o = tt
  keep_if-Ascending stays ((k, a) ∷ table) (above, o) = elim (Bool-cases (stays k a)) [
    | inl on ↦
        rw on (keep_if-Entries (λ j b. k < j) stays table above, keep_if-Ascending stays table o)
    | inr off ↦ rw off (keep_if-Ascending stays table o)
  ]

  pub length-keep_if :
      (stays : ℕ → A → Bool) (table : List (ℕ × A)) → length (keep_if stays table) ≤ length table
  length-keep_if stays [] = omega arith
  length-keep_if stays ((k, a) ∷ table) = ground (arith, length-keep_if stays table)

  -- An entry, if it is to stay.
  abbrev pub staying : (ℕ → A → Bool) → ℕ → Option A → Option A
  staying stays j none = none
  staying stays j (some a) = if stays j a then some a else none

  pub lookup-keep_if :
      (j : ℕ) (stays : ℕ → A → Bool) (table : List (ℕ × A))
      → Ascending table
      → lookup j (keep_if stays table) ≡ staying stays j (lookup j table)
  lookup-keep_if j stays [] o = refl
  lookup-keep_if j stays ((k, a) ∷ table) (above, o) = elim (Bool-cases (j == k)) [
    | inl same ↦
        let e : j ≡ k = (==_iff j k).0 same in
        elim (Bool-cases (stays k a)) [
          | inl on ↦
              let on' : stays j a ≡ true = ap (λ n. stays n a) e ∙ on in
              rw (same, on) (ground arith)
          | inr off ↦
              let off' : stays j a ≡ false = ap (λ n. stays n a) e ∙ off in
              let behind : Entries (λ i b. j < i) table =
                Entries-mono (λ i b. k < i) (λ i b. j < i) table (λ i b h. omega (arith, e, h))
                  above in
              rw (same, off)
                (lookup_above j (keep_if stays table)
                    (keep_if-Entries (λ i b. j < i) stays table behind)
                  ∙ sym (ap (λ t. if t then some a else none) off'))
        ]
    | inr other ↦ elim (Bool-cases (stays k a)) [
      | inl on ↦ rw (on, other) (lookup-keep_if j stays table o)
      | inr off ↦ rw (off, other) (lookup-keep_if j stays table o)
    ]
  ]

  -- An entry that is looked up.
  pub lookup-Entries :
      (P : ℕ → A → Type 0) (j : ℕ) (a : A) (table : List (ℕ × A))
      → Entries P table
      → lookup j table ≡ some a
      → P j a
  lookup-Entries P j a [] es e = absurd cc
  lookup-Entries P j a ((k, a') ∷ table) (p, es) e = elim (Bool-cases (j == k)) [
    | inl same ↦
        let e1 : j ≡ k = (==_iff j k).0 same in
        let e2 : a' ≡ a = ground arith in subst (λ i. P i a) (sym e1) (subst (P k) e2 p)
    | inr other ↦ lookup-Entries P j a table es (ground arith)
  ]
