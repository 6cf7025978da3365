-- ===== src/Go/Form.antt =====
-- url.QueryEscape and Values.Encode, and that a form is read back as it was written.
use ozone_oidc_proxy.Base.{
  ℕ, ◌+◌, ◌*◌, ◌/◌, ◌%◌, ◌<◌, ◌≡◌, ◌≢◌, refl, ap, ◌∙◌, inl, inr, Bool, true, false, ◌&&◌, ◌||◌, [],
  ◌∷◌, ◌++◌, map, arith, leb, ◌==◌, All, All-append, All-weaken, any, is_nil, some, Bool-cases,
  if◌then◌else◌,
}
use ozone_oidc_proxy.Text.{Text, split, cut, join}
use ozone_oidc_proxy.Text.Parts.{Lacks, split-join, cut-append}
use ozone_oidc_proxy.Go.Hex.{hex_digit, is_hex, unhex}
use ozone_oidc_proxy.Go.Percent.{query_unescape}
use ozone_oidc_proxy.Go.Query.{Values, parameter, parameters, has_bad_part}

-- Every number of the text is a byte.
abbrev pub IsBytes : Text → Type 0
IsBytes = All (λ c. c < 256)

-- A byte that `url.QueryEscape` leaves alone.
abbrev is_plain : ℕ → Bool
is_plain c =
    (leb b'a' c && leb c b'z')
    || (leb b'A' c && leb c b'Z')
    || (leb b'0' c && leb c b'9')
    || c == b'-'
    || c == b'_'
    || c == b'.'
    || c == b'~'

-- `url.QueryEscape`
unfoldable pub query_escape : Text → Text
query_escape [] = []
query_escape (c ∷ s) =
    let rest = query_escape s in
    if is_plain c
    then c ∷ rest
    else if c == b' '
    then b'+' ∷ rest
    else b'%' ∷ hex_digit b'A' (c / 16) ∷ hex_digit b'A' (c % 16) ∷ rest

unfoldable pub write_field : Text × Text → Text
write_field (k, v) = query_escape k ++ (b'=' ∷ query_escape v)

-- `Values.Encode` of fields with the keys in order and one value each.
unfoldable pub encode_form : Values → Text
encode_form fields = join b'&' (map write_field fields)

hex_digit-is_hex : (n : ℕ) → n < 16 → is_hex (hex_digit b'A' n) ≡ true
hex_digit-is_hex n h = ground arith

unhex-hex_digit : (n : ℕ) → n < 16 → unhex (hex_digit b'A' n) ≡ n
unhex-hex_digit n h = ground arith

byte_of_digits :
    (c : ℕ) → c < 256 → 16 * unhex (hex_digit b'A' (c / 16)) + unhex (hex_digit b'A' (c % 16)) ≡ c
byte_of_digits c h =
    omega (arith, unhex-hex_digit (c / 16) (omega arith), unhex-hex_digit (c % 16) (omega arith))

-- One byte that stands for itself, or a plus sign that stands for a space.
query_unescape-byte :
    (c d : ℕ) (s t : Text)
    → (c == b'%') ≡ false
    → (if c == b'+' then b' ' else c) ≡ d
    → query_unescape s ≡ some t
    → query_unescape (c ∷ s) ≡ some (d ∷ t)
unfolding query_unescape
query_unescape-byte c d [] t h e r = ground arith
query_unescape-byte c d (a ∷ []) t h e r = rw (h, r) (ap (λ x. some (x ∷ t)) e)
query_unescape-byte c d (a ∷ b ∷ s) t h e r = rw (h, r) (ap (λ x. some (x ∷ t)) e)

query_unescape-escape :
    (a b : ℕ) (s t : Text)
    → is_hex a ≡ true
    → is_hex b ≡ true
    → query_unescape s ≡ some t
    → query_unescape (b'%' ∷ a ∷ b ∷ s) ≡ some ((16 * unhex a + unhex b) ∷ t)
unfolding query_unescape
query_unescape-escape a b s t p q r = rw (p, q, r)

-- Decoding an escaped text of bytes gives the text back.
pub query_unescape-query_escape : (s : Text) → IsBytes s → query_unescape (query_escape s) ≡ some s
unfolding query_escape
query_unescape-query_escape [] h = unfold query_unescape in refl
query_unescape-query_escape (c ∷ s) (p, h) =
    let ih = query_unescape-query_escape s h in
    elim (Bool-cases (is_plain c)) [
      | inl plain ↦
          rw plain (query_unescape-byte c c (query_escape s) s (ground arith) (ground arith) ih)
      | inr other ↦ elim (Bool-cases (c == b' ')) [
        | inl space ↦
            rw (other, space) (query_unescape-byte b'+' c (query_escape s) s refl (ground arith) ih)
        | inr escaped ↦
            rw (other, escaped)
              (query_unescape-escape (hex_digit b'A' (c / 16)) (hex_digit b'A' (c % 16))
                  (query_escape s) s (hex_digit-is_hex (c / 16) (omega arith))
                  (hex_digit-is_hex (c % 16) (omega arith)) ih
                ∙ ap (λ d. some (d ∷ s)) (byte_of_digits c p))
      ]
    ]

-- A byte of an escaped text, which is no separator of a form.
abbrev IsPart : ℕ → Type 0
IsPart c = ((c == b'&') ≡ false) × ((c == b'=') ≡ false) × ((c == b';') ≡ false)

digit-IsPart : (n : ℕ) → n < 16 → IsPart (hex_digit b'A' n)
digit-IsPart n h = ground arith

plain-IsPart : (c : ℕ) → is_plain c ≡ true → IsPart c
plain-IsPart c h = ground arith

query_escape-IsPart : (s : Text) → IsBytes s → All IsPart (query_escape s)
unfolding query_escape
query_escape-IsPart [] h = tt
query_escape-IsPart (c ∷ s) (p, h) =
    let ih = query_escape-IsPart s h in
    elim (Bool-cases (is_plain c)) [
      | inl plain ↦ rw plain (plain-IsPart c plain, ih)
      | inr other ↦ elim (Bool-cases (c == b' ')) [
        | inl space ↦ rw (other, space) ((refl, refl, refl), ih)
        | inr escaped ↦
            rw (other, escaped)
              (
                (refl, refl, refl),
                (digit-IsPart (c / 16) (omega arith), (digit-IsPart (c % 16) (omega arith), ih)),
              )
      ]
    ]

-- The fields of a form: bytes in every key and value.
abbrev pub AreFields : Values → Type 0
AreFields = All (λ (f : Text × Text). IsBytes f.0 × IsBytes f.1)

any-Lacks : (test : ℕ → Bool) (s : Text) → Lacks test s → any test s ≡ false
any-Lacks test [] h = refl
any-Lacks test (c ∷ s) (p, h) = rw (p, any-Lacks test s h)

write_field-IsPart :
    (k v : Text)
    → IsBytes k
    → IsBytes v
    → All (λ c. ((c == b'&') ≡ false) × ((c == b';') ≡ false)) (write_field (k, v))
unfolding write_field
write_field-IsPart k v hk hv =
    All-append _ (query_escape k) (b'=' ∷ query_escape v)
      (All-weaken (query_escape k) (λ c p. (p.0, p.2)) (query_escape-IsPart k hk))
      ((refl, refl), All-weaken (query_escape v) (λ c p. (p.0, p.2)) (query_escape-IsPart v hv))

cut-write_field :
    (k v : Text)
    → IsBytes k
    → cut b'=' (write_field (k, v)) ≡ (query_escape k, query_escape v, true)
unfolding write_field
cut-write_field k v hk =
    cut-append b'=' (query_escape k) (query_escape v)
      (All-weaken (query_escape k) (λ c p. p.1) (query_escape-IsPart k hk))

-- One written field is read as its key and value.
parameter-write_field :
    (k v : Text) → IsBytes k → IsBytes v → parameter (write_field (k, v)) ≡ some (k, v)
unfolding parameter
parameter-write_field k v hk hv = rw (
  any-Lacks (λ c. c == b';') (write_field (k, v))
      (All-weaken (write_field (k, v)) (λ c p. p.1) (write_field-IsPart k v hk hv)),
  cut-write_field k v hk,
  query_unescape-query_escape k hk,
  query_unescape-query_escape v hv,
)

write_field-ne-nil : (k v : Text) → is_nil (write_field (k, v)) ≡ false
unfolding write_field
write_field-ne-nil k v =
    elim (query_escape k) as (λ e. is_nil (e ++ (b'=' ∷ query_escape v)) ≡ false) [
      | [] ↦ refl
      | c ∷ s ↦ refl
    ]

parameters-write_field :
    (fields : Values) → AreFields fields → parameters (map write_field fields) ≡ fields
unfolding parameters
parameters-write_field [] h = refl
parameters-write_field ((k, v) ∷ fields) ((hk, hv), h) =
    rw (write_field-ne-nil k v, parameter-write_field k v hk hv, parameters-write_field fields h)

has_bad_part-write_field :
    (fields : Values) → AreFields fields → has_bad_part (map write_field fields) ≡ false
unfolding has_bad_part
has_bad_part-write_field [] h = refl
has_bad_part-write_field ((k, v) ∷ fields) ((hk, hv), h) =
    rw (write_field-ne-nil k v, parameter-write_field k v hk hv, has_bad_part-write_field fields h)

fields_lack_ampersand :
    (fields : Values) → AreFields fields → All (Lacks (λ c. c == b'&')) (map write_field fields)
fields_lack_ampersand [] h = tt
fields_lack_ampersand ((k, v) ∷ fields) ((hk, hv), h) = (
  All-weaken (write_field (k, v)) (λ c p. p.0) (write_field-IsPart k v hk hv),
  fields_lack_ampersand fields h,
)

-- A written form that has a field is read back field by field, and without an error.
pub parameters-encode_form :
    (fields : Values)
    → fields ≢ []
    → AreFields fields
    → (parameters (split b'&' (encode_form fields)) ≡ fields)
      × (has_bad_part (split b'&' (encode_form fields)) ≡ false)
unfolding encode_form
parameters-encode_form [] ne h = absurd (ne refl)
parameters-encode_form (f ∷ fields) ne h =
    rw (split-join b'&' (map write_field (f ∷ fields)) (cc) (fields_lack_ampersand (f ∷ fields) h))
      (parameters-write_field (f ∷ fields) h, has_bad_part-write_field (f ∷ fields) h)
