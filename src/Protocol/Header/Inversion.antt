-- ===== src/Protocol/Header/Inversion.antt =====
-- PacketHeader.h: what each part of `decodeHeader` has read when it succeeds.
use net_link.Common.{
  ℕ, ◌+◌, ◌≤◌, ◌≡◌, ◌≢◌, refl, ap, ap₂, ◌∙◌, true, false, ◌⊎◌, inl, inr, List, ◌++◌, append_assoc,
  length, drop, drop-add, take-append-drop, length-drop, get_or, All, All-drop, IsByte, some, arith,
}
use net_link.Protocol.ByteOrder.{
  write_uint16, write_uint32, write_uint64, read_uint16, read_uint32, read_uint64,
}
use net_link.Protocol.ByteOrder.Reading.{
  write-read_uint16, write-read_uint32, write-read_uint64, read_uint32-IsU32,
}
use net_link.Protocol.Flags.{data_kind, beacon_kind, kind, is_fragmented, is_valid}
use net_link.Protocol.Header.{
  PacketHeader, starts_message, starts_fragmented_message, fragment_extension, tag_extension,
  length_extension, protocol_magic, protocol_version, decode_fragment, decode_tag, decode_length,
  base_fields, decode_base,
}
use net_link.Protocol.Header.Valid.{FragmentFields, TagField, LengthField}

-- A field that is read at some place, written again.
module _ (d : List ℕ) (h : All IsByte d) (n : ℕ) where
  abbrev pub Fits : ℕ → Type 0
  Fits k = n + k ≤ length d

  pub again_uint16 : Fits 2 → write_uint16 (read_uint16 (drop n d)) ++ drop (n + 2) d ≡ drop n d
  again_uint16 fits =
      ap₂ ◌++◌
        (write-read_uint16 (drop n d) (All-drop IsByte n d h) (omega (arith, length-drop n d)))
        (drop-add n 2 d)
      ∙ take-append-drop 2 (drop n d)

  pub again_uint32 : Fits 4 → write_uint32 (read_uint32 (drop n d)) ++ drop (n + 4) d ≡ drop n d
  again_uint32 fits =
      ap₂ ◌++◌
        (write-read_uint32 (drop n d) (All-drop IsByte n d h) (omega (arith, length-drop n d)))
        (drop-add n 4 d)
      ∙ take-append-drop 4 (drop n d)

  pub again_uint64 : Fits 8 → write_uint64 (read_uint64 (drop n d)) ++ drop (n + 8) d ≡ drop n d
  again_uint64 fits =
      ap₂ ◌++◌
        (write-read_uint64 (drop n d) (All-drop IsByte n d h) (omega (arith, length-drop n d)))
        (drop-add n 8 d)
      ∙ take-append-drop 8 (drop n d)

-- What each part of `decodeHeader` has found out when it succeeds.
module _ (d : List ℕ) (h : PacketHeader) (size : ℕ) (h' : PacketHeader) (size' : ℕ) where
  fragment_inv :
      decode_fragment d (h, size) ≡ some (h', size')
      → ((is_fragmented h.flags ≡ false) × (h' ≡ h) × (size' ≡ size))
        ⊎ ((is_fragmented h.flags ≡ true)
            × (size + 4 ≤ length d)
            × (h' ≡ record h {
              frag_index = read_uint16 (drop size d);
              frag_count = read_uint16 (drop (size + 2) d);
            })
            × (size' ≡ size + 4)
            × FragmentFields h' true)
  unfolding decode_fragment
  fragment_inv e = ground arith

  tag_inv :
      decode_tag d (h, size) ≡ some (h', size')
      → ((starts_message h ≡ false) × (h' ≡ h) × (size' ≡ size))
        ⊎ ((starts_message h ≡ true)
            × (size + 4 ≤ length d)
            × (h' ≡ record h { tag = read_uint32 (drop size d) })
            × (size' ≡ size + 4))
  unfolding decode_tag
  tag_inv e = ground arith

  length_inv :
      decode_length d (h, size) ≡ some (h', size')
      → ((starts_fragmented_message h ≡ false) × (h' ≡ h) × (size' ≡ size))
        ⊎ ((starts_fragmented_message h ≡ true)
            × (size + 4 ≤ length d)
            × (h' ≡ record h { total_length = read_uint32 (drop size d) })
            × (size' ≡ size + 4)
            × LengthField h' true)
  unfolding decode_length
  length_inv e = ground arith

pub base_inv :
    (d : List ℕ) (h : PacketHeader) (size : ℕ)
    → decode_base d ≡ some (h, size)
    → (h ≡ base_fields d)
      × (size ≡ 20)
      × (20 ≤ length d)
      × (read_uint16 d ≡ protocol_magic)
      × (get_or d 2 0 ≡ protocol_version)
      × (is_valid h.flags ≡ true)
      × (kind h.flags ≢ beacon_kind)
      × (h.src_stream_id ≢ 0)
      × (kind h.flags ≡ data_kind → h.seq ≢ 0)
unfolding decode_base
base_inv d h size e = ground arith

starts_message_tag :
    (h : PacketHeader) (t : ℕ) → starts_message (record h { tag = t }) ≡ starts_message h
unfolding starts_message
starts_message_tag h t = refl

starts_fragmented_total :
    (h : PacketHeader) (n : ℕ)
    → starts_fragmented_message (record h { total_length = n }) ≡ starts_fragmented_message h
unfolding starts_fragmented_message
starts_fragmented_total h n = refl

-- Each part keeps the other fields, finds fields that a sender writes, and has read its extension.
module _ (d : List ℕ) (b : All IsByte d) (h : PacketHeader) (size : ℕ) (h' : PacketHeader)
    (size' : ℕ) where
  again_fragment :
      size + 4 ≤ length d
      → (write_uint16 (read_uint16 (drop size d)) ++ write_uint16 (read_uint16 (drop (size + 2) d)))
          ++ drop (size + 4) d
        ≡ drop size d
  again_fragment room =
      append_assoc (write_uint16 (read_uint16 (drop size d))) _ _
      ∙ ap (λ xs. write_uint16 (read_uint16 (drop size d)) ++ xs)
          (ap (λ n. write_uint16 (read_uint16 (drop (size + 2) d)) ++ drop n d)
              (let e : size + 4 ≡ size + 2 + 2 = omega arith in e)
            ∙ again_uint16 d b (size + 2) (omega arith))
      ∙ again_uint16 d b size (omega arith)

  pub fragment_sound :
      decode_fragment d (h, size) ≡ some (h', size')
      → FragmentFields h false
      → (h' ≡ record h { frag_index = h'.frag_index; frag_count = h'.frag_count })
        × FragmentFields h' (is_fragmented h'.flags)
        × (fragment_extension h' ++ drop size' d ≡ drop size d)
  unfolding fragment_extension
  fragment_sound e z = elim (fragment_inv d h size h' size' e) [
    | inl (e0, eh, es) ↦ rw (eh, es, e0) (refl, z, refl)
    | inr (e1, room, eh, es, f) ↦ rw (eh, es, e1) (refl, rw eh at f, again_fragment room)
  ]

  pub tag_sound :
      decode_tag d (h, size) ≡ some (h', size')
      → h.tag ≡ 0
      → (h' ≡ record h { tag = h'.tag })
        × TagField h' (starts_message h')
        × (tag_extension h' ++ drop size' d ≡ drop size d)
  unfolding tag_extension
  tag_sound e z = elim (tag_inv d h size h' size' e) [
    | inl (e0, eh, es) ↦ rw (eh, es, e0) (refl, z, refl)
    | inr (e1, room, eh, es) ↦
        rw (eh, es, starts_message_tag h (read_uint32 (drop size d)), e1)
          (
            refl,
            read_uint32-IsU32 (drop size d) (All-drop IsByte size d b)
                (omega (arith, length-drop size d)),
            again_uint32 d b size room,
          )
  ]

  pub length_sound :
      decode_length d (h, size) ≡ some (h', size')
      → h.total_length ≡ 0
      → (h' ≡ record h { total_length = h'.total_length })
        × LengthField h' (starts_fragmented_message h')
        × (length_extension h' ++ drop size' d ≡ drop size d)
  unfolding length_extension
  length_sound e z = elim (length_inv d h size h' size' e) [
    | inl (e0, eh, es) ↦ rw (eh, es, e0) (refl, z, refl)
    | inr (e1, room, eh, es, f) ↦
        rw (eh, es, starts_fragmented_total h (read_uint32 (drop size d)), e1)
          (refl, rw eh at f, again_uint32 d b size room)
  ]
