-- ===== src/Text/Decimal.antt =====
-- Reading a decimal text gives back the number.
use net_link.Common.{
  ℕ, zero, suc, ◌+◌, ◌-◌, ◌*◌, ◌/◌, ◌%◌, ◌^◌, ◌<◌, ◌≡◌, refl, sym, ap, ◌∙◌, ltb, true, false,
  Bool-cases, inl, inr, List, [], ◌∷◌, ◌++◌, append_assoc, All, All-append, some, arith,
}
use net_link.Text.{is_digit, digits_of, to_string, read_digits, from_chars}
use native.Mathlib.Nat.{pow-suc}

-- What stands behind a number does not go on with it.
abbrev pub NoDigit : List ℕ → Type 0
NoDigit [] = Unit
NoDigit (c ∷ cs) = is_digit c ≡ false

pub read_digits_stop : (acc : ℕ) (rest : List ℕ) → NoDigit rest → read_digits acc rest ≡ acc
unfolding read_digits
read_digits_stop acc [] h = refl
read_digits_stop acc (c ∷ cs) h = rw h

-- One digit.
pub read_digits_step :
    (acc d : ℕ) (cs : List ℕ)
    → d < 10
    → read_digits acc ((b'0' + d) ∷ cs) ≡ read_digits (acc * 10 + d) cs
unfolding read_digits
read_digits_step acc d cs h = rw (digit, amount) refl
  where
    digit : is_digit (b'0' + d) ≡ true
    digit = ground arith

    amount : b'0' + d - b'0' ≡ d
    amount = omega arith

read_digits_of :
    (k n : ℕ) (cs : List ℕ) → n < 10 ^ k → read_digits 0 (digits_of k n ++ cs) ≡ read_digits n cs
unfolding digits_of
read_digits_of zero n cs h = ap (λ m. read_digits m cs) (let e : 0 ≡ n = omega arith in e)
read_digits_of (suc k) n cs h = elim (Bool-cases (ltb n 10)) [
  | inl e ↦ rw e (read_digits_step 0 n cs (ground arith) ∙ ap (λ m. read_digits m cs) (omega arith))
  | inr e ↦
      rw (e, append_assoc)
        (read_digits_of k (n / 10) ((b'0' + n % 10) ∷ cs) (omega (arith, pow-suc 10 k))
          ∙ read_digits_step (n / 10) (n % 10) cs (omega arith)
          ∙ ap (λ m. read_digits m cs) (omega arith))
]

digit-is_digit : (d : ℕ) → d < 10 → is_digit (b'0' + d) ≡ true
digit-is_digit d h = ground arith

-- A text of digits starts with one.
digits_of-cons :
    (k n : ℕ) (cs : List ℕ)
    → (c : ℕ) × (rest : List ℕ) × (digits_of (suc k) n ++ cs ≡ c ∷ rest) × (is_digit c ≡ true)
unfolding digits_of
digits_of-cons zero n cs = elim (Bool-cases (ltb n 10)) [
  | inl e ↦ (b'0' + n, cs, rw e, digit-is_digit n (ground arith))
  | inr e ↦ (b'0' + n % 10, cs, rw e, digit-is_digit (n % 10) (omega arith))
]
digits_of-cons (suc k) n cs =
    let (c, rest, e', digit) = digits_of-cons k (n / 10) ((b'0' + n % 10) ∷ cs) in
    elim (Bool-cases (ltb n 10)) [
      | inl e ↦ (b'0' + n, cs, rw e, digit-is_digit n (ground arith))
      | inr e ↦ (c, rest, rw (e, append_assoc) e', digit)
    ]

from_chars-cons :
    (limit n c : ℕ) (cs : List ℕ)
    → is_digit c ≡ true
    → read_digits 0 (c ∷ cs) ≡ n
    → n < limit
    → from_chars limit (c ∷ cs) ≡ some n
unfolding from_chars
from_chars-cons limit n c cs digit value h = ground arith

-- `from_chars` reads back what `to_string` wrote, up to what is no digit.
pub from_chars-to_string :
    (limit n : ℕ) (rest : List ℕ)
    → n < limit
    → n < 10 ^ 20
    → NoDigit rest
    → from_chars limit (to_string n ++ rest) ≡ some n
unfolding to_string
from_chars-to_string limit n rest h big stop =
    let (c, cs, e, digit) = digits_of-cons 19 n rest in
    let value : read_digits 0 (c ∷ cs) ≡ n =
      ap (read_digits 0) (sym e) ∙ read_digits_of 20 n rest big ∙ read_digits_stop n rest stop in
    ap (from_chars limit) e ∙ from_chars-cons limit n c cs digit value h

pub digits_of-All : (k n : ℕ) → All (λ c. is_digit c ≡ true) (digits_of k n)
unfolding digits_of
digits_of-All zero n = tt
digits_of-All (suc k) n = elim (Bool-cases (ltb n 10)) [
  | inl e ↦ rw e (digit-is_digit n (ground arith), tt)
  | inr e ↦ rw e (
      All-append (λ c. is_digit c ≡ true) (digits_of k (n / 10)) ((b'0' + n % 10) ∷ [])
        (digits_of-All k (n / 10)) (digit-is_digit (n % 10) (omega arith), tt))
]
