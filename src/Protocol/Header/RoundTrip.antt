-- ===== src/Protocol/Header/RoundTrip.antt =====
-- PacketHeader.h: decoding what was encoded.
use net_link.Common.{
  ℕ, drop-add, ◌≤◌, ◌≡◌, sym, ap, ◌∙◌, true, List, ◌∷◌, ◌++◌, append_assoc, length, length-append,
  drop, drop-length_append, drop-append_of_length, get_or, get_or-drop, ◌≢◌, some, arith,
}
use net_link.Protocol.ByteOrder.{
  write_uint16, write_uint32, write_uint64, read_uint16, read_uint32, read_uint64,
  read-write_uint16, read-write_uint32, read-write_uint64, length-write_uint16, length-write_uint32,
}
use net_link.Protocol.Flags.{data_kind, beacon_kind, kind, is_valid}
use net_link.Protocol.Header.{
  PacketHeader, base_header, fragment_extension, tag_extension, length_extension, encode_header,
  protocol_magic, protocol_version, decode_fragment, decode_tag, decode_length, base_fields,
  decode_base, decode_header,
}
use net_link.Protocol.Header.Parts.{
  start, with_fragment, with_tag, fragment_part, tag_part, length_part,
}
use net_link.Protocol.Header.Valid.{IsWellFormed, length-base_header}

base_taken :
    (datagram : List ℕ) (g : PacketHeader)
    → 20 ≤ length datagram
    → read_uint16 datagram ≡ protocol_magic
    → get_or datagram 2 0 ≡ protocol_version
    → base_fields datagram ≡ g
    → is_valid g.flags ≡ true
    → kind g.flags ≢ beacon_kind
    → g.src_stream_id ≢ 0
    → (kind g.flags ≡ data_kind → g.seq ≢ 0)
    → decode_base datagram ≡ some (g, 20)
unfolding decode_base
base_taken datagram g long magic version fields valid not_beacon src seq = rw fields (ground arith)

-- Where each field of the base header stands.
module _ (h : PacketHeader) (rest : List ℕ) where
  abbrev datagram : List ℕ
  datagram = base_header h ++ rest

  after_magic :
      drop 2 datagram
      ≡ protocol_version
        ∷ h.flags.bits
        ∷ (write_uint32 h.src_stream_id
            ++ (write_uint32 h.dst_stream_id ++ (write_uint64 h.seq ++ rest)))
  unfolding base_header
  after_magic =
      ap (drop 2) (append_assoc (write_uint16 protocol_magic) _ rest)
      ∙ drop-append_of_length 2 (write_uint16 protocol_magic) tail
          (length-write_uint16 protocol_magic)
      ∙ ap (λ t. protocol_version ∷ h.flags.bits ∷ t) (simp append_assoc)
    where
      tail : List ℕ
      tail =
          ((protocol_version
            ∷ h.flags.bits
            ∷ (write_uint32 h.src_stream_id
                ++ (write_uint32 h.dst_stream_id ++ write_uint64 h.seq))))
          ++ rest

  src_part :
      drop 4 datagram
      ≡ write_uint32 h.src_stream_id
        ++ (write_uint32 h.dst_stream_id ++ (write_uint64 h.seq ++ rest))
  src_part = drop-add 2 2 datagram ∙ ap (drop 2) after_magic

  dst_part : drop 8 datagram ≡ write_uint32 h.dst_stream_id ++ (write_uint64 h.seq ++ rest)
  dst_part =
      drop-add 4 4 datagram
      ∙ ap (drop 4) src_part
      ∙ drop-append_of_length 4 (write_uint32 h.src_stream_id) _
          (length-write_uint32 h.src_stream_id)

  seq_part : drop 12 datagram ≡ write_uint64 h.seq ++ rest
  seq_part =
      drop-add 8 4 datagram
      ∙ ap (drop 4) dst_part
      ∙ drop-append_of_length 4 (write_uint32 h.dst_stream_id) _
          (length-write_uint32 h.dst_stream_id)

  base_fields-base_header : IsWellFormed h → base_fields datagram ≡ start h
  unfolding base_fields
  base_fields-base_header w = λ i. record {
    flags = record { bits = flags_read i };
    src_stream_id = (ap read_uint32 src_part ∙ read-write_uint32 h.src_stream_id _ w.src) i;
    dst_stream_id = (ap read_uint32 dst_part ∙ read-write_uint32 h.dst_stream_id _ w.dst) i;
    seq = (ap read_uint64 seq_part ∙ read-write_uint64 h.seq rest w.seq_fits) i;
    frag_index = 0;
    frag_count = 0;
    tag = 0;
    total_length = 0;
  }
    where
      flags_read : get_or datagram 3 0 ≡ h.flags.bits
      flags_read = get_or-drop datagram 2 1 0 ∙ ap (λ xs. get_or xs 1 0) after_magic

  base_part : IsWellFormed h → decode_base datagram ≡ some (start h, length (base_header h))
  unfolding base_header
  base_part w =
      base_taken datagram (start h)
        (omega (arith, length-append (base_header h) rest, length-base_header h))
        (ap read_uint16 (append_assoc (write_uint16 protocol_magic) _ rest)
          ∙ read-write_uint16 protocol_magic _ (omega arith))
        (get_or-drop datagram 2 0 0 ∙ ap (λ xs. get_or xs 0 0) after_magic)
        (base_fields-base_header w) w.valid w.not_beacon w.src_pos w.data_seq
      ∙ ap (λ n. some (start h, n)) (sym (length-base_header h))

-- `decodeHeader` gives back every header that a link sends, and the body as it is.
pub decode-encode_header :
    (h : PacketHeader) (body : List ℕ)
    → IsWellFormed h
    → decode_header (encode_header h ++ body) ≡ some (record { header = h; body = body })
unfolding decode_header encode_header
decode-encode_header h body w =
    rw (nested, s1, s2, s3, s4) (ap (λ b. some (record { header = h; body = b })) rest)
  where
    b : List ℕ
    b = base_header h

    f : List ℕ
    f = fragment_extension h

    t : List ℕ
    t = tag_extension h

    l : List ℕ
    l = length_extension h

    d : List ℕ
    d = b ++ (f ++ (t ++ (l ++ body)))

    nested : (b ++ (f ++ (t ++ l))) ++ body ≡ d
    nested = simp append_assoc

    s1 : decode_base d ≡ some (start h, length b)
    s1 = base_part h _ w

    s2 : decode_fragment d (start h, length b) ≡ some (with_fragment h, length (b ++ f))
    s2 = fragment_part h b _ w.fragment

    s3 : decode_tag d (with_fragment h, length (b ++ f)) ≡ some (with_tag h, length ((b ++ f) ++ t))
    s3 =
        ap (λ xs. decode_tag xs (with_fragment h, length (b ++ f))) (sym (append_assoc b f _))
        ∙ tag_part h (b ++ f) _ w.tagged

    deep : ((b ++ f) ++ t) ++ (l ++ body) ≡ d
    deep = simp append_assoc

    s4 :
        decode_length d (with_tag h, length ((b ++ f) ++ t))
        ≡ some (h, length (((b ++ f) ++ t) ++ l))
    s4 =
        ap (λ xs. decode_length xs (with_tag h, length ((b ++ f) ++ t))) (sym deep)
        ∙ length_part h ((b ++ f) ++ t) body w.total

    rest : drop (length (((b ++ f) ++ t) ++ l)) d ≡ body
    rest =
        ap (drop (length (((b ++ f) ++ t) ++ l)))
          (sym deep ∙ sym (append_assoc ((b ++ f) ++ t) l body))
        ∙ drop-length_append (((b ++ f) ++ t) ++ l) body
