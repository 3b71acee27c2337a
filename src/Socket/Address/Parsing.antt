-- ===== src/Socket/Address/Parsing.antt =====
-- IPv4Address.h: an address is read back from its text.
use net_link.Common.{
  ℕ, ◌+◌, ◌-◌, ◌*◌, ◌/◌, ◌%◌, ◌^◌, ◌<◌, ◌≡◌, refl, sym, ap, ◌∙◌, ◌==◌, ltb, Bool, true, false, ◌&&◌,
  ◌||◌, not, Bool-cases, inl, inr, List, [], ◌∷◌, ◌++◌, append-nil, bit_and, bit_or, all_below,
  all_below_sound, bit_or_shifted, bit_and_mask, IsU32, Option, none, some, ◌>>=◌, arith,
}
use net_link.Text.{is_digit, to_string, digits_of}
use net_link.Socket.Address.{
  IPv4Address, from_host_order, octet_loop, starts_with, parse_octet, with_octet, parse_octets,
  parse_address, octet_text, address_to_string,
}

-- What does not go on with the digits.
abbrev pub Stops : List ℕ → Type 0
Stops [] = Unit
Stops (c ∷ cs) = is_digit c ≡ false

abbrev behind : List ℕ → ℕ × ℕ × List ℕ → Option (ℕ × ℕ × List ℕ)
behind rest (octet, digits, more) = some (octet, digits, more ++ rest)

octet_loop-append :
    (octet digits : ℕ) (text rest : List ℕ)
    → Stops rest
    → octet_loop octet digits (text ++ rest) ≡ (octet_loop octet digits text >>= behind rest)
unfolding octet_loop
octet_loop-append octet digits [] [] s = refl
octet_loop-append octet digits [] (c ∷ rest) s = rw s
octet_loop-append octet digits (x ∷ text) rest s = elim (Bool-cases (is_digit x)) [
  | inr e ↦ rw e
  | inl e ↦ elim (Bool-cases (ltb 255 (octet * 10 + (x - b'0')) || ltb 3 (digits + 1))) [
    | inl big ↦ rw (e, big)
    | inr fine ↦ rw (e, fine) (octet_loop-append (octet * 10 + (x - b'0')) (digits + 1) text rest s)
  ]
]

-- The texts of the 256 octets.
abbrev is_read : ℕ → List ℕ → Option (ℕ × ℕ × List ℕ) → Bool
is_read n text none = false
is_read n text (some (octet, digits, [])) =
    octet == n
    && starts_with is_digit text
    && not (starts_with (λ c. c == b'0') text && ltb 1 digits)
is_read n text (some (octet, digits, (c ∷ cs))) = false

octet_row : ℕ → Bool
unfolding octet_loop to_string digits_of
octet_row n = is_read n (to_string n) (octet_loop 0 0 (to_string n))

octet_table : all_below 256 octet_row ≡ true
unfolding all_below octet_row
octet_table = refl

is_read_inv :
    (n : ℕ) (text : List ℕ) (o : Option (ℕ × ℕ × List ℕ))
    → is_read n text o ≡ true
    → (digits : ℕ) × (o ≡ some (n, digits, []))
      × (starts_with is_digit text ≡ true)
      × ((starts_with (λ c. c == b'0') text && ltb 1 digits) ≡ false)
is_read_inv n text none e = absurd cc
is_read_inv n text (some (octet, digits, [])) e =
    let same : octet ≡ n = ground arith in
    (digits, ap (λ m. some (m, digits, [])) same, ground arith, ground arith)
is_read_inv n text (some (octet, digits, (c ∷ cs))) e = absurd cc

starts_with-append :
    (test : ℕ → Bool) (text rest : List ℕ)
    → starts_with is_digit text ≡ true
    → starts_with test (text ++ rest) ≡ starts_with test text
starts_with-append test [] rest e = absurd cc
starts_with-append test (c ∷ text) rest e = refl

octet_read : (n : ℕ) → n < 256 → is_read n (to_string n) (octet_loop 0 0 (to_string n)) ≡ true
unfolding octet_row
octet_read n small = all_below_sound 256 octet_row n octet_table small

-- An octet is read from its text, whatever follows, as long as that is no digit.
parse_octet-to_string :
    (n : ℕ) (rest : List ℕ)
    → n < 256
    → Stops rest
    → parse_octet (to_string n ++ rest) ≡ some (n, rest)
unfolding parse_octet
parse_octet-to_string n rest small s =
    let (digits, loop, digit, no_zero) =
      is_read_inv n (to_string n) (octet_loop 0 0 (to_string n)) (octet_read n small) in
    rw (
      starts_with-append is_digit (to_string n) rest digit,
      starts_with-append (λ c. c == b'0') (to_string n) rest digit,
      octet_loop-append 0 0 (to_string n) rest s,
      digit,
      loop,
      no_zero,
    )

octet_value : (shift : ℕ) (a : IPv4Address) → bit_and (a.value / 2 ^ shift) 0xFF < 256
octet_value shift a = omega (arith, bit_and_mask 8 (a.value / 2 ^ shift))

parse_octet-octet_text :
    (shift : ℕ) (a : IPv4Address) (rest : List ℕ)
    → Stops rest
    → parse_octet (octet_text shift a ++ rest) ≡ some (bit_and (a.value / 2 ^ shift) 0xFF, rest)
unfolding octet_text
parse_octet-octet_text shift a rest s =
    parse_octet-to_string (bit_and (a.value / 2 ^ shift) 0xFF) rest (octet_value shift a) s

with_octet_lem :
    (value octet : ℕ) → value < 2 ^ 24 → octet < 256 → with_octet value octet ≡ value * 256 + octet
with_octet_lem value octet h small =
    ap (λ v. bit_or v octet) narrow ∙ bit_or_shifted 8 value octet (omega arith)
  where
    narrow : value * 2 ^ 8 % 2 ^ 32 ≡ value * 2 ^ 8
    narrow = omega arith

four_octets :
    (v a b c d : ℕ)
    → IsU32 v
    → a ≡ v / 2 ^ 24 % 256
    → b ≡ v / 2 ^ 16 % 256
    → c ≡ v / 2 ^ 8 % 256
    → d ≡ v % 256
    → with_octet (with_octet (with_octet (with_octet 0 a) b) c) d ≡ v
four_octets v a b c d fits ea eb ec ed =
    ap (λ t. with_octet (with_octet (with_octet t b) c) d)
      (with_octet_lem 0 a (omega arith) (omega arith))
    ∙ ap (λ t. with_octet (with_octet t c) d)
        (with_octet_lem (0 * 256 + a) b (omega arith) (omega arith))
    ∙ ap (λ t. with_octet t d)
        (with_octet_lem ((0 * 256 + a) * 256 + b) c (omega arith) (omega arith))
    ∙ with_octet_lem (((0 * 256 + a) * 256 + b) * 256 + c) d (omega arith) (omega arith)
    ∙ omega arith

together :
    (a : IPv4Address)
    → IsU32 a.value
    → with_octet
        (with_octet
          (with_octet
            (with_octet 0 (bit_and (a.value / 2 ^ 24) 0xFF))
            (bit_and (a.value / 2 ^ 16) 0xFF))
          (bit_and (a.value / 2 ^ 8) 0xFF))
        (bit_and (a.value / 2 ^ 0) 0xFF)
      ≡ a.value
together a fits =
    four_octets a.value _ _ _ _ fits (bit_and_mask 8 (a.value / 2 ^ 24))
      (bit_and_mask 8 (a.value / 2 ^ 16)) (bit_and_mask 8 (a.value / 2 ^ 8))
      (omega (arith, bit_and_mask 8 (a.value / 2 ^ 0)))

-- An address is read back from its text.
pub parse-address_to_string :
    (a : IPv4Address) → IsU32 a.value → parse_address (address_to_string a) ≡ some a
unfolding parse_address parse_octets address_to_string
parse-address_to_string a fits =
    rw
      (
        parse_octet-octet_text 24 a
            (b'.' ∷ (octet_text 16 a ++ (b'.' ∷ (octet_text 8 a ++ (b'.' ∷ octet_text 0 a))))) refl,
        parse_octet-octet_text 16 a (b'.' ∷ (octet_text 8 a ++ (b'.' ∷ octet_text 0 a))) refl,
        parse_octet-octet_text 8 a (b'.' ∷ octet_text 0 a) refl,
        last,
      )
      (ap (λ v. some (from_host_order v)) (together a fits))
  where
    last : parse_octet (octet_text 0 a) ≡ some (bit_and (a.value / 2 ^ 0) 0xFF, [])
    last = ap parse_octet (sym (append-nil (octet_text 0 a))) ∙ parse_octet-octet_text 0 a [] tt
