-- ===== src/SigV4/Sign/Written.antt =====
-- The header that `Sign` writes can be read.
use ozone_oidc_proxy.Base.{
  ◌<◌, ◌*◌, ◌≡◌, ◌≢◌, refl, sym, ap, ◌∙◌, subst, inl, inr, List, [], ◌∷◌, length, All, Bool-cases,
  true,
}
use ozone_oidc_proxy.Text.{Text, codes, text_lt, to_lower, has_prefix}
use ozone_oidc_proxy.Text.Sort.{sort, insert}
use ozone_oidc_proxy.Text.Trim.{to_lower_idem}
use ozone_oidc_proxy.Go.Clock.{format_date}
use ozone_oidc_proxy.Go.Clock.Format.{take-format_amz, length-format_date, format_date-IsDigits}
use ozone_oidc_proxy.Go.Hex.{length-encode_hex, encode_hex-lower}
use ozone_oidc_proxy.Go.Http.{Header}
use ozone_oidc_proxy.Platform.{Platform}
use ozone_oidc_proxy.Forward.Identity.{IsCarried, digits-IsField}
use ozone_oidc_proxy.SigV4.Auth.RoundTrip.{IsField, IsWritable}
use ozone_oidc_proxy.SigV4.Auth.WellFormed.{IsHeaderName, IsSignature}
use ozone_oidc_proxy.SigV4.Sign.{
  SignInput, prepare, amz_names, signed_header_names, signed_authorization,
}
use ozone_oidc_proxy.SigV4.Sign.Headers.{sort-All}
use ozone_oidc_proxy.SigV4.Verify.{expected_signature}

-- SHA-256 in HMAC gives 32 bytes.
pub record IsHashing (p : Platform) : Type 0 where
  pub hmac_length : (key text : Text) → length (p.hmac_sha256 key text) ≡ 32
  pub hmac_bytes : (key text : Text) → All (λ c. c < 256) (p.hmac_sha256 key text)

-- The key, the region, the service and the names of the signed headers fit between the delimiters of
-- the header.
pub record IsSignable (i : SignInput) : Type 0 where
  pub key : IsCarried i.access_key_id
  pub region : IsField i.region
  pub service : IsField i.service
  pub names : All IsField (signed_header_names (prepare i).header)

expected_signature-IsSignature :
    (p : Platform) (secret amz_date date region service canonical : Text)
    → IsHashing p
    → IsSignature (expected_signature p secret amz_date date region service canonical)
unfolding expected_signature
expected_signature-IsSignature p secret amz_date date region service canonical h = (
  length-encode_hex _ ∙ ap (λ n. 2 * n) (h.hmac_length _ _),
  encode_hex-lower _ (h.hmac_bytes _ _),
)

lower-IsHeaderName :
    (key : Text) → has_prefix (to_lower key) (codes "x-amz-") ≡ true → IsHeaderName (to_lower key)
unfolding has_prefix
lower-IsHeaderName key e = (λ nil. cc (rw (nil, has_prefix) at e), to_lower_idem key)

amz_names-IsHeaderName : (h : Header) → All IsHeaderName (amz_names h)
unfolding amz_names
amz_names-IsHeaderName [] = tt
amz_names-IsHeaderName ((key, vs) ∷ h) =
    elim (Bool-cases (has_prefix (to_lower key) (codes "x-amz-"))) [
      | inl e ↦ rw e (lower-IsHeaderName key e, amz_names-IsHeaderName h)
      | inr e ↦ rw e (amz_names-IsHeaderName h)
    ]

signed_header_names-IsHeaderName : (h : Header) → All IsHeaderName (signed_header_names h)
unfolding signed_header_names to_lower
signed_header_names-IsHeaderName h =
    sort-All IsHeaderName text_lt (codes "host" ∷ amz_names h)
      ((cc, refl), amz_names-IsHeaderName h)

insert-ne_nil : (name : Text) (names : List Text) → insert text_lt name names ≢ []
unfolding insert
insert-ne_nil name [] h = cc
insert-ne_nil name (n ∷ names) h = elim (Bool-cases (text_lt n name)) [
  | inl e ↦ cc (rw (e, insert) at h)
  | inr e ↦ cc (rw (e, insert) at h)
]

signed_header_names-ne_nil : (h : Header) → signed_header_names h ≢ []
unfolding signed_header_names sort
signed_header_names-ne_nil h = insert-ne_nil (codes "host") (sort text_lt (amz_names h))

-- The fields that `Sign` writes can be read back.
pub signed_authorization-IsWritable :
    (p : Platform) (i : SignInput) (canonical : Text)
    → IsHashing p
    → IsSignable i
    → IsWritable (signed_authorization p i canonical)
unfolding signed_authorization
signed_authorization-IsWritable p i canonical h s = record {
  key = s.key.named;
  key_field = s.key.field;
  date = ap length (take-format_amz i.now) ∙ length-format_date i.now;
  date_field =
      subst IsField (sym (take-format_amz i.now))
        (digits-IsField (format_date i.now) (format_date-IsDigits i.now));
  region_field = s.region;
  service_field = s.service;
  headers_ne_nil = signed_header_names-ne_nil (prepare i).header;
  headers = signed_header_names-IsHeaderName (prepare i).header;
  header_fields = s.names;
  signature = expected_signature-IsSignature p _ _ _ _ _ canonical h;
}
