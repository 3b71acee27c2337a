-- ===== src/Text.antt =====
-- The standard library's decimal texts: `std::to_string` and `std::from_chars` of unsigned numbers.
pub mod Decimal
use net_link.Common.{
  ℕ, zero, suc, ◌+◌, ◌-◌, ◌*◌, ◌/◌, ◌%◌, ◌<◌, ltb, leb, if◌then◌else◌, Bool, true, false, ◌&&◌,
  List, [], ◌∷◌, ◌++◌, Option, none, some,
}

abbrev pub is_digit : ℕ → Bool
is_digit c = leb b'0' c && leb c b'9'

-- Twenty digits are enough for any 64-bit number.
unfoldable pub digits_of : ℕ → ℕ → List ℕ
digits_of zero n = []
digits_of (suc k) n =
    let more = digits_of k (n / 10) in
    if ltb n 10 then (b'0' + n) ∷ [] else more ++ ((b'0' + n % 10) ∷ [])

unfoldable pub to_string : ℕ → List ℕ
to_string n = digits_of 20 n

-- The value of the digits at the front, after those that make `acc`.
unfoldable pub read_digits : ℕ → List ℕ → ℕ
read_digits acc [] = acc
read_digits acc (c ∷ cs) =
    let more = read_digits (acc * 10 + (c - b'0')) cs in if is_digit c then more else acc

-- `from_chars` at a type of `limit` values: no digit at the front and a value out of range are errors.
unfoldable pub from_chars : ℕ → List ℕ → Option ℕ
unfolding read_digits
from_chars limit [] = none
from_chars limit (c ∷ cs) =
    if is_digit c
    then (if ltb (read_digits 0 (c ∷ cs)) limit then some (read_digits 0 (c ∷ cs)) else none)
    else none
