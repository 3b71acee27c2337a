-- ===== src/Discovery/Beacon/Version.antt =====
-- Beacon.h: `parseAppVersion` reads major and minor, whatever follows them.
use net_link.Common.{
  ℕ, ◌^◌, ◌≡◌, refl, sym, ap, ◌∙◌, true, List, [], ◌∷◌, ◌++◌, append-nil, append_assoc, All, IsU16,
  some, arith,
}
use net_link.Text.{is_digit, to_string, from_chars}
use net_link.Text.Decimal.{digits_of-All, from_chars-to_string}
use net_link.Discovery.Beacon.{
  AppVersion, version_to_string, version_number, before_dot, after_dot, minor_part,
  parse_app_version,
}

-- What may stand behind the minor number: nothing, or the patch number.
abbrev pub Patch : List ℕ → Type 0
Patch [] = Unit
Patch (c ∷ cs) = c ≡ b'.'

before_dot-digits :
    (digits rest : List ℕ)
    → All (λ c. is_digit c ≡ true) digits
    → Patch rest
    → before_dot (digits ++ rest) ≡ digits
unfolding before_dot
before_dot-digits [] [] d p = refl
before_dot-digits [] (c ∷ rest) d p = ground arith
before_dot-digits (c ∷ digits) rest d p =
    let ih = before_dot-digits digits rest d.1 p in ground arith

after_dot-digits :
    (digits rest : List ℕ)
    → All (λ c. is_digit c ≡ true) digits
    → after_dot (digits ++ (b'.' ∷ rest)) ≡ some rest
unfolding after_dot
after_dot-digits [] rest d = refl
after_dot-digits (c ∷ digits) rest d = let ih = after_dot-digits digits rest d.1 in ground arith

to_string-All : (n : ℕ) → All (λ c. is_digit c ≡ true) (to_string n)
unfolding to_string
to_string-All n = digits_of-All 20 n

version_number-to_string : (n : ℕ) → IsU16 n → version_number (to_string n) ≡ n
unfolding version_number
version_number-to_string n h =
    let e : from_chars (2 ^ 16) (to_string n) ≡ some n =
      ap (from_chars (2 ^ 16)) (sym (append-nil (to_string n)))
      ∙ from_chars-to_string (2 ^ 16) n [] h (omega arith) tt in
    rw (e, version_number)

parse_parts :
    (text major rest minor : List ℕ)
    → before_dot text ≡ major
    → after_dot text ≡ some rest
    → before_dot rest ≡ minor
    → parse_app_version text
      ≡ record { ver_major = version_number major; ver_minor = version_number minor }
unfolding parse_app_version
parse_parts text major rest minor e1 e2 e3 = λ i. record {
  ver_major = version_number (e1 i);
  ver_minor = (ap minor_part e2 ∙ ap version_number e3) i;
}

-- A version is read back from its text, also where a patch number follows.
parse-version_to_string :
    (v : AppVersion) (patch : List ℕ)
    → IsU16 v.ver_major
    → IsU16 v.ver_minor
    → Patch patch
    → parse_app_version (version_to_string v ++ patch) ≡ v
unfolding version_to_string
parse-version_to_string v patch hmajor hminor p =
    ap parse_app_version (append_assoc major (b'.' ∷ minor) patch)
    ∙ parse_parts (major ++ (b'.' ∷ (minor ++ patch))) major (minor ++ patch) minor
        (before_dot-digits major (b'.' ∷ (minor ++ patch)) (to_string-All v.ver_major) refl)
        (after_dot-digits major (minor ++ patch) (to_string-All v.ver_major))
        (before_dot-digits minor patch (to_string-All v.ver_minor) p)
    ∙ (λ i. record {
      ver_major = version_number-to_string v.ver_major hmajor i;
      ver_minor = version_number-to_string v.ver_minor hminor i;
    })
  where
    major : List ℕ
    major = to_string v.ver_major

    minor : List ℕ
    minor = to_string v.ver_minor
