-- ===== src/Session/Tests.antt =====
-- ControlMessage.h: messages at work.
use net_link.Common.{ℕ, ◌≡◌, List, [], ◌∷◌, none, some, arith}
use net_link.Protocol.Wire.Laws.{cut_text}
use net_link.Session.{Hello, decode_hello}
use net_link.Session.Ext.{Fields}
use net_link.Session.Messages.{IsHello, hello_bytes, decode_hello-bytes}

abbrev greeting : Hello
greeting = record {
  from_instance = 17;
  to_instance = 0;
  app_id_hash = 99;
  ver_major = 1;
  ver_minor = 4;
  name = b'P' ∷ b'C' ∷ [];
}

greeting-IsHello : IsHello greeting
greeting-IsHello = record {
  from_pos = omega arith;
  from_fits = omega arith;
  to_fits = omega arith;
  app_fits = omega arith;
  major_fits = omega arith;
  minor_fits = omega arith;
}

-- One field of a type that this version does not know.
abbrev unknown_field : List ℕ
unknown_field = 200 ∷ 2 ∷ 5 ∷ 6 ∷ []

decode_hello-bytes_example :
    (Fields unknown_field
      → decode_hello (hello_bytes greeting unknown_field)
        ≡ some (record greeting { name = cut_text greeting.name }))
    × (¬ Fields unknown_field → decode_hello (hello_bytes greeting unknown_field) ≡ none)
decode_hello-bytes_example =
    decode_hello-bytes greeting unknown_field greeting-IsHello (omega arith)
