-- ===== src/SigV4/Sign/Accepted.antt =====
-- A request that `Sign` has signed is accepted by `Verify` under the same secret, region and
-- service, at any time within the clock skew of the signing time.
use ozone_oidc_proxy.Base.{
  ◌≡◌, refl, sym, ap, ◌∙◌, false, List, [], ◌∷◌, is_nil, take, All, Option, none, some, ok,
  Result-cases, inl, inr, ◌≤ℤ◌, neg, Bool-cases,
}
use ozone_oidc_proxy.Text.{Text, codes, text_eq}
use ozone_oidc_proxy.Go.Clock.{Time, Duration, sub, parse_amz, format_amz}
use ozone_oidc_proxy.Go.Http
use ozone_oidc_proxy.Go.Http.{Header, Request, canonical_key}
use ozone_oidc_proxy.Go.Http.Laws.{values-set, values-set_self}
use ozone_oidc_proxy.Platform.{Platform}
use ozone_oidc_proxy.SigV4.{Error, Authorization, authorization_header}
use ozone_oidc_proxy.SigV4.Canonical.{
  canonical_headers, header_value, canonical_uri, build_canonical, canonical_request, declared_hash,
}
use ozone_oidc_proxy.SigV4.Presign.{unsigned_payload}
use ozone_oidc_proxy.SigV4.Sign.{
  SignInput, prepare, signed_header_names, signed_authorization, authorize, sign,
}
use ozone_oidc_proxy.SigV4.Sign.Headers.{
  IsSigned, signed_header_names-IsSigned, signed_not_authorization,
}
use ozone_oidc_proxy.SigV4.Verify.{Input, expected_signature, verify}
use ozone_oidc_proxy.SigV4.Verify.Sound.{IsVerified, verify_iff}

header_value-authorize :
    (r : Request) (a : Authorization) (name : Text)
    → IsSigned name
    → header_value (authorize r a) name ≡ header_value r name
unfolding header_value authorize
header_value-authorize r a name h = rw (
  values-set r.header (codes "Authorization") (authorization_header a) name,
  signed_not_authorization name h,
)

canonical_headers-authorize :
    (r : Request) (a : Authorization) (names : List Text)
    → All IsSigned names
    → canonical_headers (authorize r a) names ≡ canonical_headers r names
unfolding canonical_headers
canonical_headers-authorize r a [] h = refl
canonical_headers-authorize r a (name ∷ names) (p, h) =
    rw (header_value-authorize r a name p, canonical_headers-authorize r a names h)

-- The new Authorization header does not enter the canonical request.
build_canonical-authorize :
    (p : Platform) (r : Request) (a : Authorization) (names : List Text) (skip hash : Text)
    → All IsSigned names
    → build_canonical p (authorize r a) names skip hash ≡ build_canonical p r names skip hash
unfolding build_canonical authorize canonical_uri
build_canonical-authorize p r a names skip hash h = simp (canonical_headers-authorize r a names h)

-- A header that is not the Authorization header.
pub get-authorize :
    (r : Request) (a : Authorization) (name : Text)
    → text_eq (canonical_key (codes "Authorization")) (canonical_key name) ≡ false
    → Http.get (authorize r a).header name ≡ Http.get r.header name
unfolding authorize
get-authorize r a name h =
    rw (values-set r.header (codes "Authorization") (authorization_header a) name, h)

declared_of_full : (s : Text) → is_nil s ≡ false → declared_hash s ≡ s
declared_of_full [] h = cc
declared_of_full (c ∷ s) h = refl

module _ (i : SignInput) where
  abbrev pub content_hash : Text
  content_hash = Http.get (prepare i).header (codes "X-Amz-Content-Sha256")

  keys_differ :
      text_eq (canonical_key (codes "X-Amz-Content-Sha256")) (canonical_key (codes "X-Amz-Date"))
      ≡ false
  unfolding canonical_key text_eq
  keys_differ = refl

  prepare-date : Http.get (prepare i).header (codes "X-Amz-Date") ≡ format_amz i.now
  unfolding prepare
  prepare-date =
      let dated = Http.set i.request.header (codes "X-Amz-Date") (format_amz i.now) in
      let set_date = values-set_self i.request.header (codes "X-Amz-Date") (format_amz i.now) in
      elim (Bool-cases (is_nil (Http.get dated (codes "X-Amz-Content-Sha256")))) [
        | inl e ↦ rw (
          e,
          values-set dated (codes "X-Amz-Content-Sha256") unsigned_payload (codes "X-Amz-Date"),
          keys_differ,
          set_date,
        )
        | inr e ↦ rw (e, set_date)
      ]

  declared-content_hash : declared_hash content_hash ≡ content_hash
  unfolding prepare
  declared-content_hash =
      let dated = Http.set i.request.header (codes "X-Amz-Date") (format_amz i.now) in
      elim (Bool-cases (is_nil (Http.get dated (codes "X-Amz-Content-Sha256")))) [
        | inl e ↦ rw (e, values-set_self dated (codes "X-Amz-Content-Sha256") unsigned_payload)
        | inr e ↦ rw e (declared_of_full (Http.get dated (codes "X-Amz-Content-Sha256")) e)
      ]

signed_request : {r s : Request} → ◌≡◌ {A = Request × Option Error} (s, none) (r, none) → r ≡ s
signed_request e = λ i. (sym e i).0

-- What a successful call has computed.
pub sign-eq-ok :
    (p : Platform) (i : SignInput) (r : Request)
    → sign p i ≡ (r, none)
    → (canonical : Text) × (build_canonical p
          (prepare i)
          (signed_header_names (prepare i).header)
          []
          (content_hash i)
        ≡ ok canonical)
      × (r ≡ authorize (prepare i) (signed_authorization p i canonical))
unfolding sign
sign-eq-ok p i r e =
    let names = signed_header_names (prepare i).header in
    elim (Result-cases (build_canonical p (prepare i) names [] (content_hash i))) [
      | inl (canonical, built) ↦ (canonical, built, signed_request (rw (built, sign) at e))
      | inr (error, failed) ↦ cc (rw (failed, sign) at e)
    ]

-- What `Verify` asks of a freshly signed request.
abbrev pub verification : SignInput → Request → Authorization → Time → Duration → Input
verification i r a now skew = record {
  request = r;
  auth = a;
  secret = i.secret;
  region = i.region;
  service = i.service;
  now = now;
  clock_skew = skew;
}

date_key :
    text_eq (canonical_key (codes "Authorization")) (canonical_key (codes "X-Amz-Date")) ≡ false
unfolding canonical_key text_eq
date_key = refl

hash_key :
    text_eq (canonical_key (codes "Authorization")) (canonical_key (codes "X-Amz-Content-Sha256"))
    ≡ false
unfolding canonical_key text_eq
hash_key = refl

authorized_date :
    (i : SignInput) (a : Authorization)
    → Http.get (authorize (prepare i) a).header (codes "X-Amz-Date") ≡ format_amz i.now
authorized_date i a = get-authorize (prepare i) a (codes "X-Amz-Date") date_key ∙ prepare-date i

authorized_canonical :
    (p : Platform) (i : SignInput) (a : Authorization)
    → canonical_request p (authorize (prepare i) a) (signed_header_names (prepare i).header)
      ≡ build_canonical p (prepare i) (signed_header_names (prepare i).header) [] (content_hash i)
unfolding canonical_request
authorized_canonical p i a =
    rw
      (get-authorize (prepare i) a (codes "X-Amz-Content-Sha256") hash_key, declared-content_hash i)
      (build_canonical-authorize p (prepare i) a (signed_header_names (prepare i).header) []
        (content_hash i) (signed_header_names-IsSigned (prepare i).header))

authorized-IsVerified :
    (p : Platform) (i : SignInput) (canonical : Text) (t now : Time) (skew : Duration)
    → build_canonical p (prepare i) (signed_header_names (prepare i).header) [] (content_hash i)
      ≡ ok canonical
    → parse_amz (format_amz i.now) ≡ some t
    → sub now t ≤ℤ skew
    → neg skew ≤ℤ sub now t
    → IsVerified p (
        verification i
          (authorize (prepare i) (signed_authorization p i canonical))
          (signed_authorization p i canonical)
          now
          skew)
unfolding signed_authorization
authorized-IsVerified p i canonical t now skew built dated late early =
    let a = signed_authorization p i canonical in
    let date = authorized_date i a in
    record {
      service = refl;
      region = refl;
      time = t;
      dated = ap parse_amz date ∙ dated;
      not_late = late;
      not_early = early;
      scope_date = ap (take 8) date;
      canonical = canonical;
      rebuilt = authorized_canonical p i a ∙ built;
      signature =
          ap
            (λ d.
              expected_signature p i.secret d (take 8 (format_amz i.now)) i.region i.service
                canonical)
            (sym date);
    }

-- A signed request is the prepared one with an Authorization header that `Verify` accepts.
pub sign-IsAccepted :
    (p : Platform) (i : SignInput) (r : Request) (t now : Time) (skew : Duration)
    → sign p i ≡ (r, none)
    → parse_amz (format_amz i.now) ≡ some t
    → sub now t ≤ℤ skew
    → neg skew ≤ℤ sub now t
    → (canonical : Text) × (r ≡ authorize (prepare i) (signed_authorization p i canonical))
      × (verify p (verification i r (signed_authorization p i canonical) now skew) ≡ ok tt)
sign-IsAccepted p i r t now skew signed dated late early =
    let (canonical, built, same) = sign-eq-ok p i r signed in
    let verified = authorized-IsVerified p i canonical t now skew built dated late early in
    (canonical, same, rw same ((verify_iff p _).1 verified))

-- A signed request carries the Authorization header of some fields with which `Verify` accepts it,
-- whenever the signing time, read back from its header, is within the clock skew.
pub verify-sign :
    (p : Platform) (i : SignInput) (r : Request) (t now : Time) (skew : Duration)
    → sign p i ≡ (r, none)
    → parse_amz (format_amz i.now) ≡ some t
    → sub now t ≤ℤ skew
    → neg skew ≤ℤ sub now t
    → (a : Authorization) × (Http.get r.header (codes "Authorization") ≡ authorization_header a)
      × (a.access_key_id ≡ i.access_key_id)
      × (verify p (verification i r a now skew) ≡ ok tt)
unfolding authorize signed_authorization
verify-sign p i r t now skew signed dated late early =
    let (canonical, same, verified) = sign-IsAccepted p i r t now skew signed dated late early in
    (signed_authorization p i canonical, rw (same, authorize, values-set_self), refl, verified)
