-- ===== src/Protocol/Header/Canonical.antt =====
-- PacketHeader.h: what `decodeHeader` accepts is exactly what `encodeHeader` writes.
use net_link.Common.{
  ℕ, ◌+◌, ◌≤◌, ◌≡◌, ◌≢◌, refl, sym, ap, ap₂, subst, ◌∙◌, true, List, [], ◌∷◌, ◌++◌, append_assoc,
  length, drop, length-drop, get_or, All, All-drop, IsByte, IsU32, IsU64, All-get_or, some,
  >>=-eq-some, arith,
}
use net_link.Protocol.ByteOrder.{
  write_uint16, write_uint32, write_uint64, read_uint16, read_uint32, read_uint64,
}
use net_link.Protocol.ByteOrder.Reading.{read_uint32-IsU32, read_uint64-IsU64}
use net_link.Protocol.Flags.{
  PacketFlags, data_kind, beacon_kind, kind, is_fragmented, is_valid, from_raw,
}
use net_link.Protocol.Header.{
  PacketHeader, DecodedPacket, starts_message, base_header, fragment_extension, tag_extension,
  length_extension, encode_header, protocol_magic, protocol_version, decode_fragment, decode_tag,
  decode_length, base_fields, decode_base, decode_header,
}
use net_link.Protocol.Header.Valid.{IsWellFormed, FragmentFields, TagField}
use net_link.Protocol.Header.Inversion.{
  again_uint16, again_uint32, again_uint64, base_inv, fragment_sound, tag_sound, length_sound,
}
use mathlib.Core.Option.{some-injective}

flags_bytes : (d : List ℕ) → 4 ≤ length d → get_or d 2 0 ∷ get_or d 3 0 ∷ drop 4 d ≡ drop 2 d
flags_bytes [] long = absurd (omega arith)
flags_bytes (x ∷ []) long = absurd (omega arith)
flags_bytes (x ∷ y ∷ []) long = absurd (omega arith)
flags_bytes (x ∷ y ∷ z ∷ []) long = absurd (omega arith)
flags_bytes (x ∷ y ∷ z ∷ w ∷ d) long = refl

base_sound :
    (d : List ℕ)
    → All IsByte d
    → 20 ≤ length d
    → read_uint16 d ≡ protocol_magic
    → get_or d 2 0 ≡ protocol_version
    → base_header (base_fields d) ++ drop 20 d ≡ d
unfolding base_header base_fields
base_sound d b long magic version =
    append_assoc (write_uint16 protocol_magic) _ (drop 20 d)
    ∙ ap₂ (λ m v. write_uint16 m ++ (v ∷ get_or d 3 0 ∷ ids ++ drop 20 d)) (sym magic) (sym version)
    ∙ ap (λ t. write_uint16 (read_uint16 d) ++ (get_or d 2 0 ∷ get_or d 3 0 ∷ t)) rest
    ∙ ap (λ t. write_uint16 (read_uint16 d) ++ t) (flags_bytes d (omega arith))
    ∙ again_uint16 d b 0 (omega arith)
  where
    src : List ℕ
    src = write_uint32 (read_uint32 (drop 4 d))

    dst : List ℕ
    dst = write_uint32 (read_uint32 (drop 8 d))

    seq : List ℕ
    seq = write_uint64 (read_uint64 (drop 12 d))

    ids : List ℕ
    ids = src ++ (dst ++ seq)

    rest : ids ++ drop 20 d ≡ drop 4 d
    rest =
        append_assoc src (dst ++ seq) (drop 20 d)
        ∙ ap (λ t. src ++ t)
            (append_assoc dst seq (drop 20 d)
              ∙ ap (λ t. dst ++ t) (again_uint64 d b 12 (omega arith))
              ∙ again_uint32 d b 8 (omega arith))
        ∙ again_uint32 d b 4 (omega arith)

reassembled :
    (d base fragment tag total : List ℕ) (n1 n2 n3 : ℕ)
    → base ++ drop 20 d ≡ d
    → fragment ++ drop n1 d ≡ drop 20 d
    → tag ++ drop n2 d ≡ drop n1 d
    → total ++ drop n3 d ≡ drop n2 d
    → (base ++ (fragment ++ (tag ++ total))) ++ drop n3 d ≡ d
reassembled d base fragment tag total n1 n2 n3 e0 e1 e2 e3 =
    simp append_assoc (rw (e3, e2, e1, e0) refl)

-- The four parts together.
module _ (d : List ℕ) (b : All IsByte d) (h0 h1 h2 h3 : PacketHeader) (n0 n1 n2 n3 : ℕ)
    (e0 : decode_base d ≡ some (h0, n0)) (e1 : decode_fragment d (h0, n0) ≡ some (h1, n1))
    (e2 : decode_tag d (h1, n1) ≡ some (h2, n2))
    (e3 : decode_length d (h2, n2) ≡ some (h3, n3)) where
  parts_sound : IsWellFormed h3 × (encode_header h3 ++ drop n3 d ≡ d)
  unfolding base_fields base_header fragment_extension tag_extension starts_message encode_header
  parts_sound =
      let (i0, size, long, magic, version, valid, not_beacon, src, seq) = base_inv d h0 n0 e0 in
      let (i1, f1, x1) =
        fragment_sound d b h0 n0 h1 n1 e1 (ap (λ x. x.frag_index) i0, ap (λ x. x.frag_count) i0) in
      let (i2, f2, x2) = tag_sound d b h1 n1 h2 n2 e2 (ap (λ x. x.tag) i1 ∙ ap (λ x. x.tag) i0) in
      let (i3, f3, x3) =
        length_sound d b h2 n2 h3 n3 e3 (
          ap (λ x. x.total_length) i2
          ∙ ap (λ x. x.total_length) i1
          ∙ ap (λ x. x.total_length) i0) in
      let j1 : h3 ≡ record h1 { tag = h3.tag; total_length = h3.total_length } = cc in
      let j0 : h3 ≡ record h0 {
        frag_index = h3.frag_index;
        frag_count = h3.frag_count;
        tag = h3.tag;
        total_length = h3.total_length;
      } =
        cc in
      let same : (h3.flags ≡ get_or_flags)
          × (h3.src_stream_id ≡ read_uint32 (drop 4 d))
          × (h3.dst_stream_id ≡ read_uint32 (drop 8 d))
          × (h3.seq ≡ read_uint64 (drop 12 d)) =
        (cc, cc, cc, cc) in
      let header_bytes : base_header h3 ≡ base_header (base_fields d) =
        ap base_header j0 ∙ ap base_header i0 in
      (
        record {
          byte =
              subst IsByte (sym (ap (λ f. f.bits) same.0))
                (All-get_or IsByte d 3 0 b (omega arith));
          valid = subst (λ x. is_valid x.flags ≡ true) (sym j0) valid;
          not_beacon = subst (λ x. kind x.flags ≢ beacon_kind) (sym j0) not_beacon;
          src = subst IsU32 (sym same.1) (field32 4 (omega arith));
          src_pos = subst (λ x. x.src_stream_id ≢ 0) (sym j0) src;
          dst = subst IsU32 (sym same.2) (field32 8 (omega arith));
          seq_fits = subst IsU64 (sym same.3) (
              read_uint64-IsU64 (drop 12 d) (All-drop IsByte 12 d b)
                (omega (arith, length-drop 12 d)));
          data_seq = subst (λ x. kind x.flags ≡ data_kind → x.seq ≢ 0) (sym j0) seq;
          fragment = subst (λ x. FragmentFields x (is_fragmented x.flags)) (sym j1) f1;
          tagged = subst (λ x. TagField x (starts_message x)) (sym i3) f2;
          total = f3;
        },
        reassembled d (base_header h3) (fragment_extension h3) (tag_extension h3)
            (length_extension h3) n1 n2 n3
            (ap (λ t. t ++ drop 20 d) header_bytes ∙ base_sound d b long magic version)
            (ap (λ t. t ++ drop n1 d) (ap fragment_extension j1) ∙ x1 ∙ ap (λ n. drop n d) size)
            (ap (λ t. t ++ drop n2 d) (ap tag_extension i3) ∙ x2) x3,
      )
    where
      get_or_flags : PacketFlags
      get_or_flags = from_raw (get_or d 3 0)

      field32 : (n : ℕ) → n + 4 ≤ length d → IsU32 (read_uint32 (drop n d))
      field32 n room =
          read_uint32-IsU32 (drop n d) (All-drop IsByte n d b) (omega (arith, length-drop n d))

-- Whatever `decodeHeader` takes, it took apart without loss: the header is one that a link sends, and
-- encoding it in front of the body gives back the datagram.
pub encode-decode_header :
    (d : List ℕ) {p : DecodedPacket}
    → All IsByte d
    → decode_header d ≡ some p
    → IsWellFormed p.header × (encode_header p.header ++ p.body ≡ d)
unfolding decode_header
encode-decode_header d {p} b e =
    let ((h0, n0), e0, r0) = >>=-eq-some (decode_base d) _ e in
    let ((h1, n1), e1, r1) = >>=-eq-some (decode_fragment d (h0, n0)) _ r0 in
    let ((h2, n2), e2, r2) = >>=-eq-some (decode_tag d (h1, n1)) _ r1 in
    let ((h3, n3), e3, r3) = >>=-eq-some (decode_length d (h2, n2)) _ r2 in
    subst (λ q. IsWellFormed q.header × (encode_header q.header ++ q.body ≡ d))
      (some-injective _ _ r3) (parts_sound d b h0 h1 h2 h3 n0 n1 n2 n3 e0 e1 e2 e3)
