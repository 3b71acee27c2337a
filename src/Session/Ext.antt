-- ===== src/Session/Ext.antt =====
-- ControlMessage.h: the extension of a message, which a reader skips.
use net_link.Common.{
  ℕ, zero, suc, ◌+◌, ◌<◌, ◌≡◌, ◌↔◌, refl, sym, ap, ap₂, ◌∙◌, true, false, Bool-cases, inl, inr,
  List, [], ◌∷◌, ◌++◌, length, length-append, append-nil, subst, IsU16, arith,
}
use net_link.Protocol.ByteOrder.{write_uint16}
use net_link.Protocol.Wire.{WireReader, reader, next, read_u8, complete}
use net_link.Protocol.Wire.Laws.{
  next-append, read_u8-cons, read_u16-append, next_inv, read_u8_inv, complete-reader, complete_inv,
}
use net_link.Session.{skip_fields, skip_ext}

-- The reader behind one field.
abbrev after_field : WireReader → WireReader
after_field r = (next (read_u8 (read_u8 r).1).0 (read_u8 (read_u8 r).1).1).1

-- What one more round of a successful loop has done.
skip_round :
    (fuel : ℕ) (r : WireReader)
    → complete r ≡ false
    → skip_fields (suc fuel) r ≡ true
    → ((after_field r).has_failed ≡ false) × (skip_fields fuel (after_field r) ≡ true)
unfolding skip_fields
skip_round fuel r more e = ground arith

-- Whole fields, one after another: a type, the length of the value, the value.
pub data Fields : List ℕ → Type 0 where
  none_left : {bytes : List ℕ} → bytes ≡ [] → Fields bytes
  field :
      {bytes : List ℕ} (type : ℕ) (value rest : List ℕ)
      → bytes ≡ type ∷ length value ∷ (value ++ rest)
      → Fields rest
      → Fields bytes

skip_fields-Fields :
    (fuel : ℕ) (r : WireReader) → r.has_failed ≡ false → skip_fields fuel r ≡ true → Fields r.bytes
skip_fields-Fields zero r good e = unfold skip_fields in cc
skip_fields-Fields (suc fuel) r good e = elim (Bool-cases (complete r)) [
  | inl done ↦ none_left (complete_inv r done).1
  | inr more ↦
      let (ok3, later) = skip_round fuel r more e in
      let (ok2, size, whole) = next_inv (read_u8 (read_u8 r).1).0 (read_u8 (read_u8 r).1).1 ok3 in
      let (ok1, second) = read_u8_inv (read_u8 r).1 ok2 in
      let (_, first) = read_u8_inv r ok1 in
      field (read_u8 r).0 (next (read_u8 (read_u8 r).1).0 (read_u8 (read_u8 r).1).1).0
        (after_field r).bytes
        (first ∙ ap (λ t. (read_u8 r).0 ∷ t) (second ∙ ap₂ ◌∷◌ (sym size) whole))
        (skip_fields-Fields fuel (after_field r) ok3 later)
]

-- A field at the front is skipped.
skip_fields-field :
    (fuel type : ℕ) (value rest : List ℕ)
    → skip_fields (suc fuel) (reader (type ∷ length value ∷ (value ++ rest)))
      ≡ skip_fields fuel (reader rest)
unfolding skip_fields
skip_fields-field fuel type value rest = rw (
  read_u8-cons type (length value ∷ (value ++ rest)),
  read_u8-cons (length value) (value ++ rest),
  next-append (length value) value rest refl,
  complete-reader (type ∷ length value ∷ (value ++ rest)),
)

skip_fields-nil : (fuel : ℕ) → skip_fields (suc fuel) (reader []) ≡ true
unfolding skip_fields
skip_fields-nil fuel = rw (complete-reader [])

Fields-skip_fields :
    (fuel : ℕ) (bytes : List ℕ)
    → length bytes < fuel
    → Fields bytes
    → skip_fields fuel (reader bytes) ≡ true
Fields-skip_fields zero bytes h f = absurd (omega arith)
Fields-skip_fields (suc fuel) bytes h (none_left e) = rw e (skip_fields-nil fuel)
Fields-skip_fields (suc fuel) bytes h (field type value rest e more) = rw e (
    skip_fields-field fuel type value rest
    ∙ Fields-skip_fields fuel rest (omega (arith, ap length e, length-append value rest)) more)

-- How an extension stands on the wire.
abbrev pub ext_bytes : List ℕ → List ℕ
ext_bytes ext = write_uint16 (length ext) ++ ext

-- `skipExt` takes an extension exactly when it is whole fields, and leaves what stands behind it.
skip_ext-append :
    (ext rest : List ℕ)
    → IsU16 (length ext)
    → (skip_ext (reader (write_uint16 (length ext) ++ (ext ++ rest)))).1 ≡ reader rest
      × (((skip_ext (reader (write_uint16 (length ext) ++ (ext ++ rest)))).0 ≡ true) ↔ Fields ext)
unfolding skip_ext
skip_ext-append ext rest fits =
    rw (read_u16-append (length ext) (ext ++ rest) fits, next-append (length ext) ext rest refl)
      (
        refl,
        (
          skip_fields-Fields (length ext + 1) (reader ext) refl,
          Fields-skip_fields (length ext + 1) ext (omega arith),
        ),
      )

-- At the end of a message.
module _ (ext : List ℕ) (fits : IsU16 (length ext)) where
  at_end :
      ((skip_ext (reader (ext_bytes ext))).1 ≡ reader [])
      × (((skip_ext (reader (ext_bytes ext))).0 ≡ true) ↔ Fields ext)
  at_end =
      subst
        (λ t.
          ((skip_ext (reader (write_uint16 (length ext) ++ t))).1 ≡ reader [])
          × (((skip_ext (reader (write_uint16 (length ext) ++ t))).0 ≡ true) ↔ Fields ext))
        (append-nil ext) (skip_ext-append ext [] fits)

  pub skip_ext_taken : Fields ext → skip_ext (reader (ext_bytes ext)) ≡ (true, reader [])
  skip_ext_taken f = λ i. (at_end.1.1 f i, at_end.0 i)

  pub skip_ext_refused : ¬ Fields ext → skip_ext (reader (ext_bytes ext)) ≡ (false, reader [])
  skip_ext_refused f = elim (Bool-cases (skip_ext (reader (ext_bytes ext))).0) [
    | inl e ↦ absurd (f (at_end.1.0 e))
    | inr e ↦ λ i. (e i, at_end.0 i)
  ]
