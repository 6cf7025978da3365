-- ===== src/Server/Upstream/Verified.antt =====
-- In resign mode the signature is still valid at the gateway.
use ozone_oidc_proxy.Base.{
  ◌≡◌, refl, ap, ◌∙◌, ◌⊎◌, inl, inr, true, false, List, [], ◌∷◌, All, Option, none, some, ok,
  is_nil, ◌≤ℤ◌, neg, Bool-cases,
}
use ozone_oidc_proxy.Go.Query.{has_bad_part}
use ozone_oidc_proxy.Base.{◌++◌, if◌then◌else◌}
use ozone_oidc_proxy.Text.{split, Text, codes, text_eq, has_prefix}
use ozone_oidc_proxy.Text.Equality.{text_eq_of_eq}
use ozone_oidc_proxy.Go.Clock.{Time, Duration, sub, parse_amz, format_amz}
use ozone_oidc_proxy.Go.Http
use ozone_oidc_proxy.Go.Http.{Request, canonical_key}
use ozone_oidc_proxy.Go.Http.Laws.{values-set, values-set_self, values-del}
use ozone_oidc_proxy.SigV4.Presign.{unsigned_payload}
use ozone_oidc_proxy.Config.{Config, mode_resign}
use ozone_oidc_proxy.Forward.{apply_resign, resign_input, resign_secret, service_s3, security_token}
use ozone_oidc_proxy.Platform.{Platform}
use ozone_oidc_proxy.SigV4.{Authorization, authorization_header}
use ozone_oidc_proxy.SigV4.Canonical.{
  canonical_headers, header_value, canonical_uri, build_canonical, canonical_request,
}
use ozone_oidc_proxy.SigV4.Sign.{prepare, signed_authorization, authorize, SignInput}
use ozone_oidc_proxy.SigV4.Sign.Accepted.{sign-IsAccepted, verification}
use ozone_oidc_proxy.SigV4.Sign.Headers.{IsSigned, signed_header_names-IsSigned}
use ozone_oidc_proxy.SigV4.Verify.{Input, verify}
use ozone_oidc_proxy.Server.{apply_identity}
use ozone_oidc_proxy.Server.Upstream.{Transport, outgoing}

-- The headers that the gateway reads of the signature.
abbrev pub IsRead : Text → Type 0
IsRead name =
    (name ≡ codes "Authorization")
    ⊎ (has_prefix name (codes "x-amz-") ≡ true)
    ⊎ (name ≡ codes "X-Amz-Date")
    ⊎ (name ≡ codes "X-Amz-Content-Sha256")

-- A request that httputil passes on as it is: the request line is what the URL of the request is
-- written as, every query parameter can be parsed (httputil removes the others), and no Connection
-- header names headers to drop.
pub record IsPlain (r : Request) : Type 0 where
  pub unnamed : Http.values r.header (codes "Connection") ≡ []
  pub parsable : has_bad_part (split b'&' r.raw_query) ≡ false
  pub rooted : has_prefix r.escaped_path (codes "/") ≡ true
  pub written :
      r.request_uri
      ≡ (if is_nil r.raw_query then r.escaped_path else r.escaped_path ++ (b'?' ∷ r.raw_query))

-- For a target without a path and a query of its own, httputil leaves the request line of such a request
-- as it is. It may change other headers than those of the signature, as the X-Forwarded ones.
pub record IsTransparent (t : Transport) : Type 0 where
  pub method : (r : Request) → IsPlain r → (t.rewrite r).method ≡ r.method
  pub request_uri : (r : Request) → IsPlain r → (t.rewrite r).request_uri ≡ r.request_uri
  pub escaped_path : (r : Request) → IsPlain r → (t.rewrite r).escaped_path ≡ r.escaped_path
  pub raw_query : (r : Request) → IsPlain r → (t.rewrite r).raw_query ≡ r.raw_query
  pub content_length : (r : Request) → IsPlain r → (t.rewrite r).content_length ≡ r.content_length
  pub header :
      (r : Request) (name : Text)
      → IsPlain r
      → IsRead name
      → Http.values (t.rewrite r).header name ≡ Http.values r.header name

canonical_uri-fields :
    (p : Platform) (r s : Request)
    → r.request_uri ≡ s.request_uri
    → r.escaped_path ≡ s.escaped_path
    → canonical_uri p r ≡ canonical_uri p s
unfolding canonical_uri
canonical_uri-fields p r s uri path =
    λ i. canonical_uri p (record s { request_uri = uri i; escaped_path = path i })

module _ (t : Transport) (laws : IsTransparent t) (host : Text) (r : Request)
    (given : is_nil host ≡ false) (same_host : r.host ≡ host) (plain : IsPlain r) where
  header_value-outgoing :
      (name : Text) → IsSigned name → header_value (outgoing t host r) name ≡ header_value r name
  unfolding header_value outgoing Http.values text_eq
  header_value-outgoing name (inl e) = rw (e, same_host, given) refl
  header_value-outgoing name (inr e) =
      rw (laws.header r name plain (inr (inl e)), laws.content_length r plain, same_host, given)
        refl

  canonical_headers-outgoing :
      (names : List Text)
      → All IsSigned names
      → canonical_headers (outgoing t host r) names ≡ canonical_headers r names
  unfolding canonical_headers
  canonical_headers-outgoing [] h = refl
  canonical_headers-outgoing (name ∷ names) (p, h) =
      rw (header_value-outgoing name p, canonical_headers-outgoing names h)

  -- The gateway verifies what was signed.
  verify-outgoing :
      (p : Platform) (i : Input)
      → i.request ≡ r
      → All IsSigned i.auth.signed_headers
      → verify p (record i { request = outgoing t host r }) ≡ verify p (record i { request = r })
  unfolding verify canonical_request build_canonical outgoing
  verify-outgoing p i same names =
      rw
        (
          canonical_uri-fields p (outgoing t host r) r (laws.request_uri r plain)
              (laws.escaped_path r plain),
          canonical_headers-outgoing i.auth.signed_headers names,
          laws.header r (codes "X-Amz-Date") plain (inr (inr (inl refl))),
          laws.header r (codes "X-Amz-Content-Sha256") plain (inr (inr (inr refl))),
          laws.method r plain,
          laws.raw_query r plain,
        )
        refl

connection_keys :
    (text_eq (canonical_key (codes "X-Amz-Date")) (canonical_key (codes "Connection")) ≡ false)
    × (text_eq (canonical_key (codes "X-Amz-Content-Sha256")) (canonical_key (codes "Connection"))
        ≡ false)
    × (text_eq (canonical_key (codes "Authorization")) (canonical_key (codes "Connection")) ≡ false)
    × (text_eq (canonical_key security_token) (canonical_key (codes "Connection")) ≡ false)
unfolding canonical_key text_eq
connection_keys = (refl, refl, refl, refl)

prepare-Connection :
    (i : SignInput)
    → Http.values (prepare i).header (codes "Connection")
      ≡ Http.values i.request.header (codes "Connection")
unfolding prepare
prepare-Connection i =
    let dated = Http.set i.request.header (codes "X-Amz-Date") (format_amz i.now) in
    let kept =
      values-set i.request.header (codes "X-Amz-Date") (format_amz i.now) (codes "Connection") in
    elim (Bool-cases (is_nil (Http.get dated (codes "X-Amz-Content-Sha256")))) [
      | inl e ↦
          rw
            (
              e,
              values-set dated (codes "X-Amz-Content-Sha256") unsigned_payload (codes "Connection"),
              connection_keys.1,
              kept,
              connection_keys.0,
            )
            refl
      | inr e ↦ rw (e, kept, connection_keys.0) refl
    ]

module _ (r : Request) (username host region : Text) (now : Time) where
  abbrev resigned : SignInput
  resigned = resign_input r username host region now

  signed-Connection :
      (a : Authorization)
      → Http.values r.header (codes "Connection") ≡ []
      → Http.values (authorize (prepare resigned) a).header (codes "Connection") ≡ []
  unfolding authorize
  signed-Connection a unnamed =
      rw
        (
          values-set (prepare resigned).header (codes "Authorization") (authorization_header a)
              (codes "Connection"),
          connection_keys.2,
          prepare-Connection resigned,
          values-del r.header security_token (codes "Connection"),
          connection_keys.3,
        )
        unnamed

  signed-IsPlain : (a : Authorization) → IsPlain r → IsPlain (authorize (prepare resigned) a)
  unfolding authorize prepare
  signed-IsPlain a plain = record {
    unnamed = signed-Connection a plain.unnamed;
    parsable = plain.parsable;
    rooted = plain.rooted;
    written = plain.written;
  }

  signed-host :
      (a : Authorization) → is_nil host ≡ false → (authorize (prepare resigned) a).host ≡ host
  unfolding authorize prepare
  signed-host a given = rw given refl

outgoing-Authorization :
    (t : Transport) (laws : IsTransparent t) (host : Text) (r : Request) (a : Authorization)
    → IsPlain (authorize r a)
    → Http.get (outgoing t host (authorize r a)).header (codes "Authorization")
      ≡ authorization_header a
unfolding outgoing authorize
outgoing-Authorization t laws host r a plain =
    ap Http.first (laws.header (authorize r a) (codes "Authorization") plain (inl refl))
    ∙ ap Http.first (values-set_self r.header (codes "Authorization") (authorization_header a))

-- In resign mode, where `Sign` succeeds, a request that httputil passes on as it is goes to the gateway
-- with the Authorization header of fields whose access key is the user, and with these fields `Verify`
-- accepts it under the resign secret, at any time within the clock skew of the signing. Such a request
-- has no Connection header, its query parameters can all be parsed, and its request line is written as
-- its URL is.
pub verify-apply_identity :
    (p : Platform) (cfg : Config) (host username : Text) (carrier : Transport) (r sent : Request)
    (auth : Option Authorization) (now later t at : Time) (skew : Duration)
    → IsTransparent carrier
    → cfg.upstream.forward_mode ≡ mode_resign
    → is_nil host ≡ false
    → IsPlain r
    → apply_resign p r username host cfg.security.region now ≡ (sent, none)
    → parse_amz (format_amz now) ≡ some t
    → sub at t ≤ℤ skew
    → neg skew ≤ℤ sub at t
    → (a : Authorization) × (Http.get
          (outgoing carrier host (apply_identity p cfg host r username auth now later)).header
          (codes "Authorization")
        ≡ authorization_header a)
      × (a.access_key_id ≡ username)
      × (verify p (record {
        request = outgoing carrier host (apply_identity p cfg host r username auth now later);
        auth = a;
        secret = resign_secret;
        region = cfg.security.region;
        service = service_s3;
        now = at;
        clock_skew = skew;
      })
          ≡ ok tt)
unfolding apply_identity apply_resign signed_authorization
verify-apply_identity p cfg host username carrier r sent auth now later t at skew laws mode given
      plain signed dated late early =
    let i = resign_input r username host cfg.security.region now in
    let (canonical, same, verified) = sign-IsAccepted p i sent t at skew signed dated late early in
    let a = signed_authorization p i canonical in
    let out = authorize (prepare i) a in
    let at_gateway = signed-host r username host cfg.security.region now a given in
    let kept = signed-IsPlain r username host cfg.security.region now a plain in
    rw (text_eq_of_eq cfg.upstream.forward_mode mode_resign mode, signed, same)
      (
        a,
        outgoing-Authorization carrier laws host (prepare i) a kept,
        refl,
        verify-outgoing carrier laws host out given at_gateway kept p (verification i out a at skew)
              refl (signed_header_names-IsSigned (prepare i).header)
            ∙ rw same at verified,
      )
