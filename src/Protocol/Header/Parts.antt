-- ===== src/Protocol/Header/Parts.antt =====
-- PacketHeader.h: each part of `decodeHeader` reads back the extension that `encodeHeader` wrote.
use net_link.Common.{
  ℕ, ◌+◌, ◌^◌, drop-add, ◌≤◌, ◌<◌, ◌≡◌, sym, ap, ap₂, ◌∙◌, append-nil, ◌==◌, true, false,
  Bool-cases, inl, inr, List, ◌++◌, append_assoc, length, length-append, drop, drop-length_append,
  some, IsU16, arith,
}
use net_link.Protocol.ByteOrder.{
  write_uint16, write_uint32, read_uint16, read_uint32, read-write_uint16, read-write_uint32,
  length-write_uint16, length-write_uint32,
}
use net_link.Protocol.Flags.{Lane, lane, is_fragmented, is_last_fragment}
use net_link.Protocol.Header.{
  PacketHeader, fragments_of, max_message_size, starts_message, starts_fragmented_message,
  fragment_extension, tag_extension, length_extension, decode_fragment, decode_tag, decode_length,
}
use net_link.Protocol.Header.Valid.{FragmentFields, TagField, LengthField}

-- The header after each part of `decodeHeader`.
abbrev pub start : PacketHeader → PacketHeader
start h = record h { frag_index = 0; frag_count = 0; tag = 0; total_length = 0 }

abbrev pub with_fragment : PacketHeader → PacketHeader
with_fragment h = record h { tag = 0; total_length = 0 }

abbrev pub with_tag : PacketHeader → PacketHeader
with_tag h = record h { total_length = 0 }

max_fragments : (l : Lane) → fragments_of (max_message_size l) < 2 ^ 16
unfolding fragments_of max_message_size
max_fragments l = ground arith

-- What each part of `decodeHeader` returns where it reads its extension.
module _ (datagram : List ℕ) (h : PacketHeader) (size : ℕ) where
  fragment_taken :
      (i c : ℕ)
      → is_fragmented h.flags ≡ true
      → size + 4 ≤ length datagram
      → read_uint16 (drop size datagram) ≡ i
      → read_uint16 (drop (size + 2) datagram) ≡ c
      → 2 ≤ c
      → c ≤ fragments_of (max_message_size (lane h.flags))
      → i < c
      → is_last_fragment h.flags ≡ (i + 1 == c)
      → decode_fragment datagram (h, size)
        ≡ some (record h { frag_index = i; frag_count = c }, size + 4)
  unfolding decode_fragment
  fragment_taken i c e room ei ec two most less last = ground arith

  tag_taken :
      (t : ℕ)
      → starts_message h ≡ true
      → size + 4 ≤ length datagram
      → read_uint32 (drop size datagram) ≡ t
      → decode_tag datagram (h, size) ≡ some (record h { tag = t }, size + 4)
  unfolding decode_tag
  tag_taken t e room et = ground arith

  length_taken :
      (n : ℕ)
      → starts_fragmented_message h ≡ true
      → size + 4 ≤ length datagram
      → read_uint32 (drop size datagram) ≡ n
      → n ≤ max_message_size (lane h.flags)
      → fragments_of n ≡ h.frag_count
      → decode_length datagram (h, size) ≡ some (record h { total_length = n }, size + 4)
  unfolding decode_length
  length_taken n e room en most count = ground arith

  fragment_skipped :
      is_fragmented h.flags ≡ false → decode_fragment datagram (h, size) ≡ some (h, size)
  unfolding decode_fragment
  fragment_skipped e = rw e

  tag_skipped : starts_message h ≡ false → decode_tag datagram (h, size) ≡ some (h, size)
  unfolding decode_tag
  tag_skipped e = rw e

  length_skipped :
      starts_fragmented_message h ≡ false → decode_length datagram (h, size) ≡ some (h, size)
  unfolding decode_length
  length_skipped e = rw e

-- Reading behind what came before.
module _ (front ext rest : List ℕ) where
  here : drop (length front) (front ++ (ext ++ rest)) ≡ ext ++ rest
  here = drop-length_append front (ext ++ rest)

  whole : length (front ++ (ext ++ rest)) ≡ length front + length ext + length rest
  whole = omega (arith, length-append front (ext ++ rest), length-append ext rest)

max_size : (l : Lane) → max_message_size l < 2 ^ 32
unfolding max_message_size
max_size l = ground arith

module _ (h : PacketHeader) (front rest : List ℕ) where
  fragment_bytes : length (write_uint16 h.frag_index ++ write_uint16 h.frag_count) ≡ 4
  fragment_bytes = omega (
    arith,
    length-append (write_uint16 h.frag_index) (write_uint16 h.frag_count),
    length-write_uint16 h.frag_index,
    length-write_uint16 h.frag_count,
  )

  fragment_index :
      IsU16 h.frag_index
      → read_uint16 (
          drop
            (length front)
            (front ++ ((write_uint16 h.frag_index ++ write_uint16 h.frag_count) ++ rest)))
        ≡ h.frag_index
  fragment_index fits =
      ap read_uint16 (
        here front (write_uint16 h.frag_index ++ write_uint16 h.frag_count) rest
        ∙ append_assoc (write_uint16 h.frag_index) (write_uint16 h.frag_count) rest)
      ∙ read-write_uint16 h.frag_index (write_uint16 h.frag_count ++ rest) fits

  fragment_count :
      IsU16 h.frag_count
      → read_uint16 (
          drop
            (length front + 2)
            (front ++ ((write_uint16 h.frag_index ++ write_uint16 h.frag_count) ++ rest)))
        ≡ h.frag_count
  fragment_count fits =
      ap read_uint16 (
        drop-add (length front) 2 _
        ∙ ap (drop 2) (
            here front (write_uint16 h.frag_index ++ write_uint16 h.frag_count) rest
            ∙ append_assoc (write_uint16 h.frag_index) (write_uint16 h.frag_count) rest)
        ∙ ap (λ n. drop n (write_uint16 h.frag_index ++ (write_uint16 h.frag_count ++ rest)))
            (sym (length-write_uint16 h.frag_index))
        ∙ drop-length_append (write_uint16 h.frag_index) (write_uint16 h.frag_count ++ rest))
      ∙ read-write_uint16 h.frag_count rest fits

  -- Each part reads back the extension that `encodeHeader` wrote.
  pub fragment_part :
      FragmentFields h (is_fragmented h.flags)
      → decode_fragment (front ++ (fragment_extension h ++ rest)) (start h, length front)
        ≡ some (with_fragment h, length (front ++ fragment_extension h))
  unfolding fragment_extension
  fragment_part f = elim (Bool-cases (is_fragmented h.flags)) [
    | inl e ↦
        let g : FragmentFields h true = rw e at f in
        rw (e, length-append)
          (fragment_taken _ (start h) (length front) h.frag_index h.frag_count e
              (omega (
                arith,
                whole front (write_uint16 h.frag_index ++ write_uint16 h.frag_count) rest,
                fragment_bytes,
              ))
              (fragment_index (omega (arith, max_fragments (lane h.flags))))
              (fragment_count (omega (arith, max_fragments (lane h.flags)))) g.0 g.1 g.2 g.3
            ∙ ap (λ n. some (with_fragment h, n)) (omega (arith, fragment_bytes)))
    | inr e ↦
        let g : FragmentFields h false = rw e at f in
        rw (e, append-nil)
          (fragment_skipped _ (start h) (length front) e
            ∙ ap₂
                (λ i c. some (
                  record h { frag_index = i; frag_count = c; tag = 0; total_length = 0 },
                  length front,
                ))
                (sym g.0) (sym g.1))
  ]

  pub tag_part :
      TagField h (starts_message h)
      → decode_tag (front ++ (tag_extension h ++ rest)) (with_fragment h, length front)
        ≡ some (with_tag h, length (front ++ tag_extension h))
  unfolding tag_extension
  tag_part f = elim (Bool-cases (starts_message h)) [
    | inl e ↦
        let g : TagField h true = rw e at f in
        rw (e, length-append)
          (tag_taken _ (with_fragment h) (length front) h.tag (unfold starts_message in e)
              (omega (arith, whole front (write_uint32 h.tag) rest, length-write_uint32 h.tag))
              (ap read_uint32 (here front (write_uint32 h.tag) rest)
                ∙ read-write_uint32 h.tag rest g)
            ∙ ap (λ n. some (with_tag h, n)) (omega (arith, length-write_uint32 h.tag)))
    | inr e ↦
        let g : TagField h false = rw e at f in
        rw (e, append-nil)
          (tag_skipped _ (with_fragment h) (length front) (unfold starts_message in e)
            ∙ ap (λ t. some (record h { tag = t; total_length = 0 }, length front)) (sym g))
  ]

  pub length_part :
      LengthField h (starts_fragmented_message h)
      → decode_length (front ++ (length_extension h ++ rest)) (with_tag h, length front)
        ≡ some (h, length (front ++ length_extension h))
  unfolding length_extension
  length_part f = elim (Bool-cases (starts_fragmented_message h)) [
    | inl e ↦
        let g : LengthField h true = rw e at f in
        rw (e, length-append)
          (length_taken _ (with_tag h) (length front) h.total_length
              (unfold starts_fragmented_message in e)
              (omega (
                arith,
                whole front (write_uint32 h.total_length) rest,
                length-write_uint32 h.total_length,
              ))
              (ap read_uint32 (here front (write_uint32 h.total_length) rest)
                ∙ read-write_uint32 h.total_length rest (omega (arith, max_size (lane h.flags))))
              g.0 g.1
            ∙ ap (λ n. some (h, n)) (omega (arith, length-write_uint32 h.total_length)))
    | inr e ↦
        let g : LengthField h false = rw e at f in
        rw (e, append-nil)
          (length_skipped _ (with_tag h) (length front) (unfold starts_fragmented_message in e)
            ∙ ap (λ t. some (record h { total_length = t }, length front)) (sym g))
  ]
