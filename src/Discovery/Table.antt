-- ===== src/Discovery/Table.antt =====
-- std::map from numbers, as the list of its entries in the order of their keys.
pub mod Order
use net_link.Common.{
  ℕ, ◌<◌, ◌==◌, ltb, if◌then◌else◌, Bool, true, false, List, [], ◌∷◌, map, Option, none, some,
}

module _ {A : Type 0} where
  abbrev pub lookup : ℕ → List (ℕ × A) → Option A
  lookup j [] = none
  lookup j ((k, a) ∷ table) = if j == k then some a else lookup j table

  -- What is under the key, or a new entry.
  abbrev pub put : ℕ → A → List (ℕ × A) → List (ℕ × A)
  put k a [] = (k, a) ∷ []
  put k a ((k', a') ∷ table) =
      if k == k'
      then (k, a) ∷ table
      else if ltb k k'
      then (k, a) ∷ (k', a') ∷ table
      else (k', a') ∷ put k a table

  -- The loop that erases entries.
  abbrev pub keep_if : (ℕ → A → Bool) → List (ℕ × A) → List (ℕ × A)
  keep_if stays [] = []
  keep_if stays ((k, a) ∷ table) =
      if stays k a then (k, a) ∷ keep_if stays table else keep_if stays table

  abbrev pub keys : List (ℕ × A) → List ℕ
  keys [] = []
  keys ((k, a) ∷ table) = k ∷ keys table
