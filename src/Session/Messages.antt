-- ===== src/Session/Messages.antt =====
-- ControlMessage.h: each message is read as it was written, whatever extension follows it.
use net_link.Common.{
  ℕ, ◌≡◌, ◌≢◌, refl, ap, ◌∙◌, List, [], ◌∷◌, ◌++◌, append_assoc, append-nil, length, none, some,
  IsU16, IsU64, arith,
}
use net_link.Protocol.ByteOrder.{write_uint16, write_uint64}
use net_link.Protocol.Wire.{reader}
use net_link.Protocol.Wire.Laws.{
  read_u8-cons, read_u16-append, read_u64-append, read_text-append, cut_text, text_bytes,
  complete-reader,
}
use net_link.Session.{
  reason_value, Hello, Accept, Decline, encode_hello, read_hello, decode_hello, encode_accept,
  decode_accept, encode_decline, decode_decline,
}
use net_link.Session.Ext.{Fields, none_left, ext_bytes, skip_ext_taken, skip_ext_refused}

pub record IsHello (h : Hello) : Type 0 where
  pub from_pos : h.from_instance ≢ 0
  pub from_fits : IsU64 h.from_instance
  pub to_fits : IsU64 h.to_instance
  pub app_fits : IsU64 h.app_id_hash
  pub major_fits : IsU16 h.ver_major
  pub minor_fits : IsU16 h.ver_minor

-- A Hello with an extension, as some version of the protocol writes it.
abbrev pub hello_bytes : Hello → List ℕ → List ℕ
hello_bytes h ext =
    write_uint64 h.from_instance
    ++ (write_uint64 h.to_instance
        ++ (write_uint64 h.app_id_hash
            ++ (write_uint16 h.ver_major
                ++ (write_uint16 h.ver_minor ++ (text_bytes h.name ++ ext_bytes ext)))))

-- This version writes none.
pub encode_hello_lem : (h : Hello) → encode_hello h ≡ hello_bytes h []
unfolding encode_hello
encode_hello_lem h = simp (append_assoc, append-nil)

read_hello-append :
    (h : Hello) (rest : List ℕ)
    → IsHello h
    → read_hello (
        reader (
          write_uint64 h.from_instance
          ++ (write_uint64 h.to_instance
              ++ (write_uint64 h.app_id_hash
                  ++ (write_uint16 h.ver_major
                      ++ (write_uint16 h.ver_minor ++ (text_bytes h.name ++ rest)))))))
      ≡ (record h { name = cut_text h.name }, reader rest)
unfolding read_hello
read_hello-append h rest v = rw (
  read_u64-append h.from_instance _ v.from_fits,
  read_u64-append h.to_instance _ v.to_fits,
  read_u64-append h.app_id_hash _ v.app_fits,
  read_u16-append h.ver_major _ v.major_fits,
  read_u16-append h.ver_minor _ v.minor_fits,
  read_text-append h.name rest,
)

-- A Hello is read as it was written, its name cut to 255 bytes, with any extension that is whole
-- fields; with any other it is rejected.
pub decode_hello-bytes :
    (h : Hello) (ext : List ℕ)
    → IsHello h
    → IsU16 (length ext)
    → (Fields ext → decode_hello (hello_bytes h ext) ≡ some (record h { name = cut_text h.name }))
      × (¬ Fields ext → decode_hello (hello_bytes h ext) ≡ none)
unfolding decode_hello
decode_hello-bytes h ext v fits = (
  λ f.
      rw (read_hello-append h (ext_bytes ext) v, skip_ext_taken ext fits f, complete-reader [])
        (ground (arith, v.from_pos)),
  λ f. rw (read_hello-append h (ext_bytes ext) v, skip_ext_refused ext fits f),
)

-- A Hello that `encode` wrote.
pub decode-encode_hello :
    (h : Hello)
    → IsHello h
    → decode_hello (encode_hello h) ≡ some (record h { name = cut_text h.name })
decode-encode_hello h v =
    ap decode_hello (encode_hello_lem h)
    ∙ (decode_hello-bytes h [] v (omega arith)).0 (none_left refl)

pub decode_accept-bytes :
    (a : Accept) (ext : List ℕ)
    → IsU16 (length ext)
    → (Fields ext
        → decode_accept (text_bytes a.name ++ ext_bytes ext)
          ≡ some (record { name = cut_text a.name }))
      × (¬ Fields ext → decode_accept (text_bytes a.name ++ ext_bytes ext) ≡ none)
unfolding decode_accept
decode_accept-bytes a ext fits = (
  λ f. rw (read_text-append a.name (ext_bytes ext), skip_ext_taken ext fits f, complete-reader []),
  λ f. rw (read_text-append a.name (ext_bytes ext), skip_ext_refused ext fits f),
)

encode_accept_lem : (a : Accept) → encode_accept a ≡ text_bytes a.name ++ ext_bytes []
unfolding encode_accept
encode_accept_lem a = simp (append_assoc, append-nil)

encode_decline_lem :
    (d : Decline) → encode_decline d ≡ reason_value d.reason ∷ (text_bytes d.text ++ [])
unfolding encode_decline
encode_decline_lem d = simp (append_assoc, append-nil)

decode_decline-bytes :
    (d : Decline)
    → decode_decline (reason_value d.reason ∷ (text_bytes d.text ++ []))
      ≡ some (record d { text = cut_text d.text })
unfolding decode_decline
decode_decline-bytes d =
    rw
      (
        read_u8-cons (reason_value d.reason) (text_bytes d.text ++ []),
        read_text-append d.text [],
        complete-reader [],
      )
      (ground arith)

-- The answers to a Hello are read as they were written, their texts cut to 255 bytes.
pub decode-encode_answers :
    ((a : Accept) → decode_accept (encode_accept a) ≡ some (record { name = cut_text a.name }))
    × ((d : Decline)
        → decode_decline (encode_decline d) ≡ some (record d { text = cut_text d.text }))
decode-encode_answers = (
  λ a.
      ap decode_accept (encode_accept_lem a)
      ∙ (decode_accept-bytes a [] (omega arith)).0 (none_left refl),
  λ d. ap decode_decline (encode_decline_lem d) ∙ decode_decline-bytes d,
)
