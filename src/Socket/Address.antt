-- ===== src/Socket/Address.antt =====
-- src/internal/Socket/IPv4Address.h, and SocketAddress of SocketTypes.h.
pub mod Parsing
mod Tests
use net_link.Common.{
  ℕ, zero, suc, ◌+◌, ◌-◌, ◌*◌, ◌/◌, ◌%◌, ◌^◌, ◌==◌, ltb, if◌then◌else◌, Bool, true, false, ◌&&◌,
  ◌||◌, not, List, [], ◌∷◌, ◌++◌, bit_and, bit_or, Option, none, some, ◌>>=◌,
}
use net_link.Text.{is_digit, to_string}

pub record IPv4Address : Type 0 where
  pub value : ℕ

abbrev pub from_host_order : ℕ → IPv4Address
from_host_order value = record { value = value }

-- The loop over the digits of an octet: the octet and the number of its digits so far. The octet is
-- at most 255 before a round, so that it does not wrap.
unfoldable pub octet_loop : ℕ → ℕ → List ℕ → Option (ℕ × ℕ × List ℕ)
octet_loop octet digits [] = some (octet, digits, [])
octet_loop octet digits (c ∷ cs) =
    let octet' = octet * 10 + (c - b'0') in
    let later = octet_loop octet' (digits + 1) cs in
    if not (is_digit c)
    then some (octet, digits, c ∷ cs)
    else if ltb 255 octet' || ltb 3 (digits + 1)
    then none
    else later

abbrev pub starts_with : (ℕ → Bool) → List ℕ → Bool
starts_with test [] = false
starts_with test (c ∷ cs) = test c

-- One octet, and what follows it.
unfoldable pub parse_octet : List ℕ → Option (ℕ × List ℕ)
unfolding octet_loop
parse_octet text =
    if not (starts_with is_digit text)
    then none
    else octet_loop 0 0 text >>= λ (octet, digits, rest).
        if starts_with (λ c. c == b'0') text && ltb 1 digits then none else some (octet, rest)

-- The separator.
abbrev pub after_dot : List ℕ → Option (List ℕ)
after_dot [] = none
after_dot (c ∷ cs) = if c == b'.' then some cs else none

abbrev pub with_octet : ℕ → ℕ → ℕ
with_octet value octet = bit_or (value * 2 ^ 8 % 2 ^ 32) octet

-- The loop over the octets, by those that are left, of which there is one at least.
unfoldable pub parse_octets : ℕ → ℕ → List ℕ → Option (ℕ × List ℕ)
unfolding parse_octet
parse_octets zero value text = do
  (octet, rest) ← parse_octet text
  some (with_octet value octet, rest)
parse_octets (suc left) value text = do
  (octet, rest) ← parse_octet text
  next ← after_dot rest
  parse_octets left (with_octet value octet) next

abbrev pub whole : ℕ × List ℕ → Option IPv4Address
whole (value, []) = some (from_host_order value)
whole (value, (c ∷ cs)) = none

pub parse_address : List ℕ → Option IPv4Address
unfolding parse_octets
parse_address text = parse_octets 3 0 text >>= whole

-- One octet of the dotted text.
unfoldable pub octet_text : ℕ → IPv4Address → List ℕ
octet_text shift a = to_string (bit_and (a.value / 2 ^ shift) 0xFF)

pub address_to_string : IPv4Address → List ℕ
address_to_string a =
    octet_text 24 a
    ++ (b'.' ∷ (octet_text 16 a ++ (b'.' ∷ (octet_text 8 a ++ (b'.' ∷ octet_text 0 a)))))

-- `~value` of 32 bits.
abbrev pub inverted : ℕ → ℕ
inverted value = 2 ^ 32 - 1 - value

unfoldable pub is_netmask : IPv4Address → Bool
is_netmask a =
    if a.value == 0
    then false
    else bit_and (inverted a.value) ((inverted a.value + 1) % 2 ^ 32) == 0

abbrev pub everyone : IPv4Address
everyone = from_host_order 0xFFFFFFFF

pub subnet_broadcast : IPv4Address → IPv4Address → IPv4Address
subnet_broadcast address mask = from_host_order (bit_or address.value (inverted mask.value))

pub same_subnet : IPv4Address → IPv4Address → IPv4Address → Bool
same_subnet first second mask = bit_and first.value mask.value == bit_and second.value mask.value

pub record SocketAddress : Type 0 where
  pub ip : IPv4Address
  pub port : ℕ

abbrev pub address_eq : SocketAddress → SocketAddress → Bool
address_eq a b = a.ip.value == b.ip.value && a.port == b.port
