-- ===== src/SigV4/Auth/RoundTrip.antt =====
-- The header that the proxy writes is read back as the fields it was written from.
use ozone_oidc_proxy.Base.{
  ℕ, ◌≡◌, refl, ap, ◌∙◌, ◌≢◌, Bool, true, false, not, ◌||◌, List, [], ◌∷◌, ◌++◌, append_assoc,
  arith, ◌==◌, length, is_nil, all, All, All-append, All-weaken, ok, append-nil,
}
use ozone_oidc_proxy.Text.{Text, codes, text_eq, join, to_lower, trim_space, is_space}
use ozone_oidc_proxy.Text.Equality.{cut_prefix-append, text_eq_refl}
use ozone_oidc_proxy.Text.Parts.{Lacks, split-join, cut-append}
use ozone_oidc_proxy.Text.Trim.{trim_space-Lacks, trim_space-blank}
use ozone_oidc_proxy.Go.Hex.{is_hex, is_lower_hex, decodes_hex}
use ozone_oidc_proxy.SigV4.{
  Authorization, algorithm, aws4_request, credential_scope, header_parts, authorization_header,
}
use ozone_oidc_proxy.SigV4.Auth.{
  no_authorization, set_scope, set_credential, add_headers, set_signed_headers, set_signature,
  set_component, component, components, complete, parse_authorization,
}
use ozone_oidc_proxy.SigV4.Auth.WellFormed.{IsHeaderName, IsSignature}

-- A byte that ends a field of the header, or that is trimmed from it.
abbrev pub is_delimiter : ℕ → Bool
is_delimiter c = c == b',' || c == b';' || c == b'/' || is_space c

ne→is_nil : (s : Text) → s ≢ [] → is_nil s ≡ false
ne→is_nil s h = ground arith

-- A field that the header can carry.
abbrev pub IsField : Text → Type 0
IsField = Lacks is_delimiter

-- Fields that the header can carry unchanged.
pub record IsWritable (a : Authorization) : Type 0 where
  pub key : a.access_key_id ≢ []
  pub key_field : IsField a.access_key_id
  pub date : length a.date ≡ 8
  pub date_field : IsField a.date
  pub region_field : IsField a.region
  pub service_field : IsField a.service
  pub headers_ne_nil : a.signed_headers ≢ []
  pub headers : All IsHeaderName a.signed_headers
  pub header_fields : All IsField a.signed_headers
  pub signature : IsSignature a.signature

field_Lacks :
    (test : ℕ → Bool) (s : Text)
    → ((c : ℕ) → is_delimiter c ≡ false → test c ≡ false)
    → IsField s
    → Lacks test s
field_Lacks test s weaker h = All-weaken s weaker h

field_no_slash : (s : Text) → IsField s → Lacks (λ c. c == b'/') s
field_no_slash s = field_Lacks (λ c. c == b'/') s (λ c h. ground arith)

field_no_comma : (s : Text) → IsField s → Lacks (λ c. c == b',') s
field_no_comma s = field_Lacks (λ c. c == b',') s (λ c h. ground arith)

field_no_semicolon : (s : Text) → IsField s → Lacks (λ c. c == b';') s
field_no_semicolon s = field_Lacks (λ c. c == b';') s (λ c h. ground arith)

field_no_space : (s : Text) → IsField s → Lacks is_space s
field_no_space s = field_Lacks is_space s (λ c h. ground arith)

-- A literal without delimiters, by evaluation.
pub all-IsField : (s : Text) → all (λ c. not (is_delimiter c)) s ≡ true → IsField s
all-IsField [] h = tt
all-IsField (c ∷ s) h = (ground arith, all-IsField s (ground arith))

literal-IsField : IsField aws4_request
literal-IsField = all-IsField aws4_request refl

set_scope_lem :
    (a b : Authorization)
    → a.access_key_id ≢ []
    → length a.date ≡ 8
    → set_scope b (a.access_key_id ∷ a.date ∷ a.region ∷ a.service ∷ aws4_request ∷ [])
      ≡ ok (record b {
        access_key_id = a.access_key_id;
        date = a.date;
        region = a.region;
        service = a.service;
      })
unfolding set_scope
set_scope_lem a b key date = ground (arith, text_eq_refl aws4_request)

set_credential_lem :
    (a b : Authorization)
    → IsWritable a
    → set_credential b (credential_scope a)
      ≡ ok (record b {
        access_key_id = a.access_key_id;
        date = a.date;
        region = a.region;
        service = a.service;
      })
unfolding set_credential
set_credential_lem a b w =
    let parts = a.access_key_id ∷ a.date ∷ a.region ∷ a.service ∷ aws4_request ∷ [] in
    ap (set_scope b) (
      split-join b'/' parts (cc) (
        field_no_slash a.access_key_id w.key_field,
        (
          field_no_slash a.date w.date_field,
          (
            field_no_slash a.region w.region_field,
            (
              field_no_slash a.service w.service_field,
              (field_no_slash aws4_request literal-IsField, tt),
            ),
          ),
        ),
      ))
    ∙ set_scope_lem a b w.key w.date

add_headers_lem :
    (hs : List Text) (b : Authorization)
    → All IsHeaderName hs
    → All IsField hs
    → add_headers b hs ≡ ok (record b { signed_headers = b.signed_headers ++ hs })
unfolding add_headers
add_headers_lem [] b n f = rw append-nil
add_headers_lem (h ∷ hs) b (n, ns) (f, fs) =
    rw (trim_space-Lacks h (field_no_space h f), n.1, ne→is_nil h n.0)
      (add_headers_lem hs (record b { signed_headers = b.signed_headers ++ (h ∷ []) }) ns fs
        ∙ rw append_assoc)

set_signed_headers_lem :
    (hs : List Text) (b : Authorization)
    → hs ≢ []
    → All IsHeaderName hs
    → All IsField hs
    → set_signed_headers b (join b';' hs)
      ≡ ok (record b { signed_headers = b.signed_headers ++ hs })
unfolding set_signed_headers
set_signed_headers_lem hs b ne n f =
    ap (add_headers b) (split-join b';' hs ne (All-weaken hs field_no_semicolon f))
    ∙ add_headers_lem hs b n f

to_lower-hex : (s : Text) → All (λ c. is_lower_hex c ≡ true) s → to_lower s ≡ s
unfolding to_lower
to_lower-hex [] h = refl
to_lower-hex (c ∷ s) (p, h) = ground (arith, to_lower-hex s h)

all-hex : (s : Text) → All (λ c. is_lower_hex c ≡ true) s → all is_hex s ≡ true
all-hex [] h = refl
all-hex (c ∷ s) (p, h) = ground (arith, all-hex s h)

hex-IsField : (s : Text) → All (λ c. is_lower_hex c ≡ true) s → IsField s
hex-IsField [] h = tt
hex-IsField (c ∷ s) (p, h) = (ground arith, hex-IsField s h)

set_signature_lem :
    (s : Text) (b : Authorization)
    → IsSignature s
    → set_signature b s ≡ ok (record b { signature = s })
unfolding set_signature decodes_hex
set_signature_lem s b (n, h) =
    rw (trim_space-Lacks s (field_no_space s (hex-IsField s h)), to_lower-hex s h, n, all-hex s h)

-- A part "<name>=<value>" behind a blank is read as its name and its value.
component_lem :
    (b : Authorization) (c : ℕ) (name v : Text)
    → Lacks (λ d. d == b'=') (c ∷ name)
    → Lacks is_space (c ∷ name)
    → Lacks is_space v
    → component b (trim_space (32 ∷ c ∷ name ++ (b'=' ∷ v))) ≡ set_component b (c ∷ name) v
unfolding component
component_lem b c name v eq sp sv = rw (
  trim_space-blank (c ∷ name ++ (b'=' ∷ v)) (All-append _ (c ∷ name) (b'=' ∷ v) sp (refl, sv)),
  cut-append b'=' (c ∷ name) v eq,
)

join-Lacks :
    (test : ℕ → Bool) (sep : ℕ) (ps : List Text)
    → test sep ≡ false
    → All (Lacks test) ps
    → Lacks test (join sep ps)
unfolding join
join-Lacks test sep [] h _ = tt
join-Lacks test sep (p ∷ []) h (k, _) = k
join-Lacks test sep (p ∷ q ∷ ps) h (k, ks) =
    All-append _ p (sep ∷ join sep (q ∷ ps)) k (h, join-Lacks test sep (q ∷ ps) h ks)

all-Lacks : (test : ℕ → Bool) (s : Text) → all (λ c. not (test c)) s ≡ true → Lacks test s
all-Lacks test [] h = tt
all-Lacks test (c ∷ s) h = (ground arith, all-Lacks test s (ground arith))

set_component-credential :
    (b : Authorization) (v : Text) → set_component b (codes "Credential") v ≡ set_credential b v
unfolding set_component text_eq
set_component-credential b v = refl

set_component-signed_headers :
    (b : Authorization) (v : Text)
    → set_component b (codes "SignedHeaders") v ≡ set_signed_headers b v
unfolding set_component text_eq
set_component-signed_headers b v = refl

set_component-signature :
    (b : Authorization) (v : Text) → set_component b (codes "Signature") v ≡ set_signature b v
unfolding set_component text_eq
set_component-signature b v = refl

module _ (a : Authorization) (w : IsWritable a) where
  scope_Lacks :
      (test : ℕ → Bool)
      → ((c : ℕ) → is_delimiter c ≡ false → test c ≡ false)
      → test b'/' ≡ false
      → Lacks test (credential_scope a)
  scope_Lacks test weaker slash =
      join-Lacks test b'/' (a.access_key_id ∷ a.date ∷ a.region ∷ a.service ∷ aws4_request ∷ [])
        slash
        (
          field_Lacks test a.access_key_id weaker w.key_field,
          (
            field_Lacks test a.date weaker w.date_field,
            (
              field_Lacks test a.region weaker w.region_field,
              (
                field_Lacks test a.service weaker w.service_field,
                (field_Lacks test aws4_request weaker literal-IsField, tt),
              ),
            ),
          ),
        )

  names_Lacks :
      (test : ℕ → Bool)
      → ((c : ℕ) → is_delimiter c ≡ false → test c ≡ false)
      → test b';' ≡ false
      → Lacks test (join b';' a.signed_headers)
  names_Lacks test weaker semicolon =
      join-Lacks test b';' a.signed_headers semicolon
        (All-weaken a.signed_headers (λ s. field_Lacks test s weaker) w.header_fields)

  parts_no_comma : All (Lacks (λ c. c == b',')) (header_parts a)
  parts_no_comma = (
    All-append _ (codes " Credential=") (credential_scope a)
        (all-Lacks (λ c. c == b',') (codes " Credential=") refl)
        (scope_Lacks (λ c. c == b',') (λ c h. ground arith) refl),
    (
      All-append _ (codes " SignedHeaders=") (join b';' a.signed_headers)
          (all-Lacks (λ c. c == b',') (codes " SignedHeaders=") refl)
          (names_Lacks (λ c. c == b',') (λ c h. ground arith) refl),
      (
        All-append _ (codes " Signature=") a.signature
            (all-Lacks (λ c. c == b',') (codes " Signature=") refl)
            (field_no_comma a.signature (hex-IsField a.signature w.signature.1)),
        tt,
      ),
    ),
  )

  components_lem : components no_authorization (header_parts a) ≡ ok a
  unfolding components
  components_lem =
      let b0 = no_authorization in
      let b1 = record b0 {
        access_key_id = a.access_key_id;
        date = a.date;
        region = a.region;
        service = a.service;
      } in
      let b2 = record b1 { signed_headers = a.signed_headers } in
      rw (
        component_lem b0 b'C' (codes "redential") (credential_scope a)
            (all-Lacks (λ d. d == b'=') (codes "Credential") refl)
            (all-Lacks is_space (codes "Credential") refl)
            (scope_Lacks is_space (λ c h. ground arith) refl),
        set_component-credential b0 (credential_scope a),
        set_credential_lem a b0 w,
        component_lem b1 b'S' (codes "ignedHeaders") (join b';' a.signed_headers)
            (all-Lacks (λ d. d == b'=') (codes "SignedHeaders") refl)
            (all-Lacks is_space (codes "SignedHeaders") refl)
            (names_Lacks is_space (λ c h. ground arith) refl),
        set_component-signed_headers b1 (join b';' a.signed_headers),
        set_signed_headers_lem a.signed_headers b1 w.headers_ne_nil w.headers w.header_fields,
        component_lem b2 b'S' (codes "ignature") a.signature
            (all-Lacks (λ d. d == b'=') (codes "Signature") refl)
            (all-Lacks is_space (codes "Signature") refl)
            (field_no_space a.signature (hex-IsField a.signature w.signature.1)),
        set_component-signature b2 a.signature,
        set_signature_lem a.signature b2 w.signature,
      )

signature_ne_nil : (s : Text) → length s ≡ 64 → s ≢ []
signature_ne_nil [] h = absurd (omega arith)
signature_ne_nil (c ∷ s) h = cc

headers_ne_nil : (hs : List Text) → hs ≢ [] → is_nil hs ≡ false
headers_ne_nil hs h = ground arith

-- Reading the Authorization header that is written for writable fields gives these fields back.
-- Writable fields have no delimiter of the header in them, a key and at least one header name, a
-- date of eight characters, names in lower case and a signature of 64 digits.
pub parse_authorization-authorization_header :
    (a : Authorization) → IsWritable a → parse_authorization (authorization_header a) ≡ ok a
unfolding parse_authorization authorization_header
parse_authorization-authorization_header a w = rw (
  cut_prefix-append algorithm (join b',' (header_parts a)),
  split-join b',' (header_parts a) (cc) (parts_no_comma a w),
  components_lem a w,
  complete,
  ne→is_nil a.access_key_id w.key,
  ne→is_nil a.signature (signature_ne_nil a.signature w.signature.0),
  headers_ne_nil a.signed_headers w.headers_ne_nil,
)
