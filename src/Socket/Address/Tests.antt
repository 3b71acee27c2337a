-- ===== src/Socket/Address/Tests.antt =====
-- IPv4Address.h: an address and its text.
use net_link.Common.{◌≡◌, some, arith}
use net_link.Socket.Address.{IPv4Address, parse_address, address_to_string}
use net_link.Socket.Address.Parsing.{parse-address_to_string}

abbrev router : IPv4Address
router = record { value = 0xC0A80001 }

parse-address_to_string_example : parse_address (address_to_string router) ≡ some router
parse-address_to_string_example = parse-address_to_string router (omega arith)
