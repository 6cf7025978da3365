-- ===== src/Server/Admits.antt =====
-- The header lane lets the holder of live credentials through.
pub mod Granted
use ozone_oidc_proxy.Base.{
  ◌≡◌, refl, ap, ◌∙◌, subst, false, is_nil, Bool-cases, inl, inr, Option, none, some, Result, ok,
  ◌≤ℤ◌, neg,
}
use ozone_oidc_proxy.Text.{Text, codes, text_eq}
use ozone_oidc_proxy.Go.Clock.{Time, sub, parse_amz, format_amz}
use ozone_oidc_proxy.Go.Http
use ozone_oidc_proxy.Go.Http.{Request, canonical_key}
use ozone_oidc_proxy.Go.Http.Laws.{values-set, values-set_self}
use ozone_oidc_proxy.Config.{Config}
use ozone_oidc_proxy.Forward.{security_token, service_s3}
use ozone_oidc_proxy.Platform.{Platform}
use ozone_oidc_proxy.SigV4.{Authorization, authorization_header}
use ozone_oidc_proxy.SigV4.Auth.{parse_authorization}
use ozone_oidc_proxy.SigV4.Auth.RoundTrip.{parse_authorization-authorization_header}
use ozone_oidc_proxy.SigV4.Presign.{unsigned_payload}
use ozone_oidc_proxy.SigV4.Sign.{SignInput, prepare, signed_authorization, authorize, sign}
use ozone_oidc_proxy.SigV4.Sign.Accepted.{verification, get-authorize, sign-IsAccepted}
use ozone_oidc_proxy.SigV4.Sign.Written.{IsHashing, IsSignable, signed_authorization-IsWritable}
use ozone_oidc_proxy.SigV4.Verify.{verify}
use ozone_oidc_proxy.Store.{Credentials, expired as has_expired, Failure}
use ozone_oidc_proxy.Server.{Readings, apply_identity, forwarded, serve_sigv4, sigv4_input}
use ozone_oidc_proxy.Server.Strict.{IsByHeader}
use ozone_oidc_proxy.Server.Exactly.{serve_sigv4_iff}
use ozone_oidc_proxy.Server.Attribution.{IsAttributedTo, apply_identity-IsAttributedTo}

-- The signer uses these credentials for the proxy: their key, secret and session token, and the
-- proxy's region and service.
pub record IsHolder (cfg : Config) (c : Credentials) (i : SignInput) : Type 0 where
  pub key : i.access_key_id ≡ c.access_key_id
  pub secret : i.secret ≡ c.secret_access_key
  pub region : i.region ≡ cfg.security.region
  pub service : i.service ≡ service_s3
  pub token : Http.get i.request.header security_token ≡ c.session_token

token_key : text_eq (canonical_key (codes "Authorization")) (canonical_key security_token) ≡ false
unfolding canonical_key text_eq
token_key = refl

get-set-other :
    (h : Http.Header) (k v j : Text)
    → text_eq (canonical_key k) (canonical_key j) ≡ false
    → Http.get (Http.set h k v) j ≡ Http.get h j
get-set-other h k v j e = rw (values-set h k v j, e) refl

hash_not_token :
    text_eq (canonical_key (codes "X-Amz-Content-Sha256")) (canonical_key security_token) ≡ false
unfolding canonical_key text_eq
hash_not_token = refl

date_not_token : text_eq (canonical_key (codes "X-Amz-Date")) (canonical_key security_token) ≡ false
unfolding canonical_key text_eq
date_not_token = refl

prepare-token :
    (i : SignInput)
    → Http.get (prepare i).header security_token ≡ Http.get i.request.header security_token
unfolding prepare
prepare-token i =
    let dated = Http.set i.request.header (codes "X-Amz-Date") (format_amz i.now) in
    let same =
      get-set-other i.request.header (codes "X-Amz-Date") (format_amz i.now) security_token
        date_not_token in
    elim (Bool-cases (is_nil (Http.get dated (codes "X-Amz-Content-Sha256")))) [
      | inl e ↦ rw e (
          get-set-other dated (codes "X-Amz-Content-Sha256") unsigned_payload security_token
            hash_not_token
          ∙ same)
      | inr e ↦ rw e same
    ]

module _ (p : Platform) (cfg : Config) (host : Text)
    (get : Text → Result Failure (Option Credentials)) (i : SignInput) (c : Credentials)
    (t : Readings) (canonical : Text) (holder : IsHolder cfg c i) where
  abbrev fields : Authorization
  fields = signed_authorization p i canonical

  abbrev request : Request
  request = authorize (prepare i) fields

  verified_as :
      verify p (verification i request fields t.verified cfg.security.sigv4_clock_skew) ≡ ok tt
      → verify p (sigv4_input p cfg host request fields c t.verified) ≡ ok tt
  verified_as h =
      subst
        (λ (s : Text × Text × Text).
          verify p (record {
            request = request;
            auth = fields;
            secret = s.0;
            region = s.1;
            service = s.2;
            now = t.verified;
            clock_skew = cfg.security.sigv4_clock_skew;
          })
          ≡ ok tt)
        (λ k. (holder.secret k, holder.region k, holder.service k)) h

  header_of : Http.get request.header (codes "Authorization") ≡ authorization_header fields
  unfolding authorize
  header_of = rw values-set_self refl

  presented : Http.get request.header security_token ≡ c.session_token
  presented =
      get-authorize (prepare i) fields security_token token_key ∙ prepare-token i ∙ holder.token

  request-IsByHeader :
      IsHashing p
      → IsSignable i
      → get c.access_key_id ≡ ok (some c)
      → has_expired c t.checked ≡ false
      → verify p (verification i request fields t.verified cfg.security.sigv4_clock_skew) ≡ ok tt
      → IsByHeader p cfg host get request
          (Http.get request.header (codes "Authorization"))
          t
          (apply_identity p cfg host request c.username (some fields) t.applied t.reapplied)
  unfolding signed_authorization
  request-IsByHeader hashing signable found live verified = record {
    auth = fields;
    parsed =
        ap parse_authorization header_of
        ∙ parse_authorization-authorization_header fields
            (signed_authorization-IsWritable p i canonical hashing signable);
    creds = c;
    usable = record { found = ap get holder.key ∙ found; live = live; presented = presented };
    signed = verified_as verified;
    sent_as = refl;
  }

-- A client that signs a request with stored credentials that have not expired, for the region of the
-- proxy, with a clock that is within the skew, and that presents their session token, is let through:
-- the request is sent upstream as one of the user of the credentials. Its key, region and header names
-- have no delimiter of the Authorization header in them, and HMAC-SHA-256 gives 32 bytes.
pub serve_sigv4-sign :
    (p : Platform) (cfg : Config) (host : Text) (get : Text → Result Failure (Option Credentials))
    (i : SignInput) (r : Request) (c : Credentials) (t : Readings) (dated : Time)
    → sign p i ≡ (r, none)
    → IsHolder cfg c i
    → IsHashing p
    → IsSignable i
    → get c.access_key_id ≡ ok (some c)
    → has_expired c t.checked ≡ false
    → parse_amz (format_amz i.now) ≡ some dated
    → sub t.verified dated ≤ℤ cfg.security.sigv4_clock_skew
    → neg cfg.security.sigv4_clock_skew ≤ℤ sub t.verified dated
    → (sent : Request) × ((serve_sigv4 p cfg host get r
          (Http.get r.header (codes "Authorization"))
          t).reply
        ≡ forwarded sent)
      × IsAttributedTo sent c.username
serve_sigv4-sign p cfg host get i r c t dated signed holder hashing signable found live read late
      early =
    let (canonical, same, verified) =
      sign-IsAccepted p i r dated t.verified cfg.security.sigv4_clock_skew signed read late early in
    let request = authorize (prepare i) (signed_authorization p i canonical) in
    let auth = some (signed_authorization p i canonical) in
    let sent = apply_identity p cfg host request c.username auth t.applied t.reapplied in
    let by =
      request-IsByHeader p cfg host get i c t canonical holder hashing signable found live
        (rw same at verified) in
    (
      sent,
      rw same (
          (serve_sigv4_iff p cfg host get request (Http.get request.header (codes "Authorization"))
              t sent).1
            by),
      apply_identity-IsAttributedTo p cfg host c.username t.applied t.reapplied request auth,
    )
