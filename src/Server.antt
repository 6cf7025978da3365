-- ===== src/Server.antt =====
-- internal/server/server.go: dispatch of a request to the lanes, and revocation. What the reverse
-- proxy sends upstream is the request in `forwarded`; metrics are events in the order of the calls.
pub mod Strict
pub mod Attribution
pub mod Lanes
pub mod Admits
pub mod Admin
pub mod Exactly
pub mod Runs
pub mod Accounts
pub mod Upstream
use ozone_oidc_proxy.Base.{
  ℕ, Bool, true, false, not, ◌&&◌, ◌||◌, List, [], ◌∷◌, ◌++◌, if◌then◌else◌, is_nil, Option, none,
  some, Result, ok, err, leb,
}
use ozone_oidc_proxy.Text.{Text, codes, text_eq, has_prefix, cut_prefix}
use ozone_oidc_proxy.Go.Clock.{Time}
use ozone_oidc_proxy.Go.Http
use ozone_oidc_proxy.Go.Http.{Request}
use ozone_oidc_proxy.Config
use ozone_oidc_proxy.Config.{Config, mode_resign, bearer_enabled, strict_enabled}
use ozone_oidc_proxy.Forward.{
  security_token, service_s3, apply_synthetic, apply_resign, rewrite_access_key_id,
  strip_presigned_query,
}
use ozone_oidc_proxy.Oidc
use ozone_oidc_proxy.Oidc.{Identity}
use ozone_oidc_proxy.Platform.{Platform}
use ozone_oidc_proxy.SigV4
use ozone_oidc_proxy.SigV4.{Authorization}
use ozone_oidc_proxy.SigV4.Auth.{is_sigv4, parse_authorization}
use ozone_oidc_proxy.SigV4.Presign.{
  Presigned, PresignInput, is_presigned, is_sigv2_query, parse_presigned, verify_presigned,
}
use ozone_oidc_proxy.SigV4.Verify.{Input, verify}
use ozone_oidc_proxy.Store.{Credentials, expired as has_expired, Failure, Store}
use ozone_oidc_proxy.Store.Mint.{Randomness}
use ozone_oidc_proxy.Sts
use ozone_oidc_proxy.Sts.{TokenValidator, Exchanged, exchange}

-- The S3 error codes.
pub data Code : Type 0 where
  access_denied invalid_access_key_id expired_token invalid_token signature_does_not_match : Code
  request_time_too_skewed authorization_header_malformed : Code
  authorization_query_parameters_error invalid_request missing_security_header : Code
  internal_error service_unavailable : Code

pub data Lane : Type 0 where
  sts bearer sigv4 presigned unauthenticated : Lane

-- The label `result` of a verification counter.
pub data Label : Type 0 where
  success disabled malformed store_error unknown_akid expired bad_token skew scope : Label
  missing_date mismatch url_expired : Label
  -- the bearer lane counts a refused token under its error code
  refused : Code → Label

pub data Event : Type 0 where
  -- a verification counter of a lane, with the issuer on the bearer lane ([] for unknown)
  verification : Lane → Text → Label → Event
  -- `observeVerification` and `observeDuration`
  verification_time request_time : Lane → Event
  -- `OnExchange`: the issuer, and the error code unless it succeeded
  sts_exchange : Text → Option Sts.Code → Event

-- What a data-path request comes to: an S3 error of the proxy's own, or the request sent upstream.
pub data Reply : Type 0 where
  s3_error : ℕ → Code → Reply
  forwarded : Request → Reply

pub record Outcome : Type 0 where
  pub reply : Reply
  pub events : List Event

-- The readings of the clock by one request, in the order of the calls.
pub record Readings : Type 0 where
  pub checked : Time
  pub verified : Time
  pub applied : Time
  pub reapplied : Time

abbrev pub max_sts_body_bytes : ℕ
max_sts_body_bytes = 1048576

module _ (p : Platform) (cfg : Config) (upstream_host : Text) where
  abbrev fall_back : Request → Text → Option Authorization → Time → Request
  fall_back r username none now = apply_synthetic r username cfg.security.region now
  fall_back r username (some auth) now = rewrite_access_key_id r auth username

  -- In resign mode a failed signature falls back to the other shape, on the changed request.
  abbrev signed_or : Text → Option Authorization → Time → Request × Option SigV4.Error → Request
  signed_or username auth now (r, none) = r
  signed_or username auth now (r, some e) = fall_back r username auth now

  -- The clock is read again for the other shape.
  unfoldable pub apply_identity : Request → Text → Option Authorization → Time → Time → Request
  apply_identity r username auth now later =
      let resigned = apply_resign p r username upstream_host cfg.security.region now in
      if text_eq cfg.upstream.forward_mode mode_resign
      then signed_or username auth later resigned
      else fall_back r username auth now

  -- `mapBearerError`
  unfoldable pub map_bearer_error : Oidc.Error → ℕ × Code
  map_bearer_error Oidc.Error.token_expired = (403, expired_token)
  map_bearer_error Oidc.Error.issuer_unavailable = (503, service_unavailable)
  map_bearer_error e = (403, access_denied)

  abbrev reject : Lane → ℕ → Label → Code → Outcome
  reject lane status label code = record {
    reply = s3_error status code;
    events = verification lane [] label ∷ request_time lane ∷ [];
  }

  -- A rejection behind the timed part of the verification.
  abbrev reject_timed : Lane → ℕ → Label → Code → Outcome
  reject_timed lane status label code = record {
    reply = s3_error status code;
    events = verification_time lane ∷ verification lane [] label ∷ request_time lane ∷ [];
  }

  abbrev accept : Lane → Text → Request → Outcome
  accept lane issuer r = record {
    reply = forwarded r;
    events = verification_time lane ∷ verification lane issuer success ∷ request_time lane ∷ [];
  }

  abbrev with_bearer : Request → Readings → Result Oidc.Error Identity → Outcome
  with_bearer r t (err e) = record {
    reply = s3_error (map_bearer_error e).0 (map_bearer_error e).1;
    events =
        verification_time bearer
        ∷ verification bearer [] (refused (map_bearer_error e).1)
        ∷ request_time bearer
        ∷ [];
  }
  with_bearer r t (ok i) =
      accept bearer i.issuer_name (apply_identity r i.username none t.applied t.reapplied)

  unfoldable pub serve_bearer :
      (tv : TokenValidator) → Request → Text → Readings → tv.State → Outcome × tv.State
  serve_bearer tv r token t v =
      let (verdict, v') = tv.validate v token in
      if bearer_enabled cfg.data_path
      then (with_bearer r t verdict, v')
      else (reject bearer 403 disabled access_denied, v)

  -- How an error of `Verify` is answered.
  unfoldable pub sigv4_failure : SigV4.Error → Outcome
  sigv4_failure SigV4.Error.skew = reject_timed sigv4 403 skew request_time_too_skewed
  sigv4_failure SigV4.Error.scope = reject_timed sigv4 400 scope authorization_header_malformed
  sigv4_failure SigV4.Error.missing_date =
      reject_timed sigv4 400 missing_date missing_security_header
  sigv4_failure SigV4.Error.malformed =
      reject_timed sigv4 400 malformed authorization_header_malformed
  sigv4_failure e = reject_timed sigv4 403 mismatch signature_does_not_match

  -- How an error of `VerifyPresigned` is answered.
  unfoldable pub presigned_failure : SigV4.Error → Outcome
  presigned_failure SigV4.Error.presign_expired =
      reject_timed presigned 403 url_expired access_denied
  presigned_failure SigV4.Error.skew = reject_timed presigned 403 skew request_time_too_skewed
  presigned_failure SigV4.Error.scope =
      reject_timed presigned 400 malformed authorization_query_parameters_error
  presigned_failure SigV4.Error.malformed =
      reject_timed presigned 400 malformed authorization_query_parameters_error
  presigned_failure e = reject_timed presigned 403 mismatch signature_does_not_match

  -- The looked-up credentials, or the lane's refusal: both SigV4 lanes share these checks.
  unfoldable pub checked_credentials :
      Lane → Text → Time → Result Failure (Option Credentials) → Result Outcome Credentials
  checked_credentials lane token now (err e) = err (reject lane 500 store_error internal_error)
  checked_credentials lane token now (ok none) =
      err (reject lane 403 unknown_akid invalid_access_key_id)
  checked_credentials lane token now (ok (some c)) =
      if has_expired c now
      then err (reject lane 403 expired expired_token)
      else if text_eq token c.session_token
      then ok c
      else err (reject lane 403 bad_token invalid_token)

  abbrev sigv4_input : Request → Authorization → Credentials → Time → Input
  sigv4_input r auth c now = record {
    request = r;
    auth = auth;
    secret = c.secret_access_key;
    region = cfg.security.region;
    service = service_s3;
    now = now;
    clock_skew = cfg.security.sigv4_clock_skew;
  }

  abbrev presign_input : Request → Presigned → Credentials → Time → PresignInput
  presign_input r auth c now = record {
    request = r;
    auth = auth;
    secret = c.secret_access_key;
    region = cfg.security.region;
    service = service_s3;
    now = now;
    clock_skew = cfg.security.sigv4_clock_skew;
  }

  module _ (get : Text → Result Failure (Option Credentials)) where
    abbrev sigv4_decided :
        Request → Authorization → Credentials → Readings → Result SigV4.Error (Unit {0}) → Outcome
    sigv4_decided r auth c t (err e) = sigv4_failure e
    sigv4_decided r auth c t (ok done) =
        accept sigv4 [] (apply_identity r c.username (some auth) t.applied t.reapplied)

    abbrev sigv4_verified : Request → Authorization → Credentials → Readings → Outcome
    sigv4_verified r auth c t =
        sigv4_decided r auth c t (verify p (sigv4_input r auth c t.verified))

    abbrev sigv4_checked : Request → Authorization → Readings → Result Outcome Credentials → Outcome
    sigv4_checked r auth t (err o) = o
    sigv4_checked r auth t (ok c) = sigv4_verified r auth c t

    abbrev sigv4_parsed : Request → Readings → Result SigV4.Error Authorization → Outcome
    sigv4_parsed r t (err e) = reject sigv4 400 malformed authorization_header_malformed
    sigv4_parsed r t (ok auth) = sigv4_checked r auth t (
        checked_credentials sigv4 (Http.get r.header security_token) t.checked
          (get auth.access_key_id))

    unfoldable pub serve_sigv4 : Request → Text → Readings → Outcome
    serve_sigv4 r header t = sigv4_parsed r t (parse_authorization header)

    abbrev presigned_decided :
        Request → Credentials → Readings → Result SigV4.Error (Unit {0}) → Outcome
    presigned_decided r c t (err e) = presigned_failure e
    presigned_decided r c t (ok done) =
        accept presigned []
          (apply_identity (strip_presigned_query r) c.username none t.applied t.reapplied)

    abbrev presigned_verified : Request → Presigned → Credentials → Readings → Outcome
    presigned_verified r auth c t =
        presigned_decided r c t (verify_presigned p (presign_input r auth c t.verified))

    abbrev presigned_checked : Request → Presigned → Readings → Result Outcome Credentials → Outcome
    presigned_checked r auth t (err o) = o
    presigned_checked r auth t (ok c) = presigned_verified r auth c t

    abbrev presigned_parsed : Request → Readings → Result SigV4.Error Presigned → Outcome
    presigned_parsed r t (err e) =
        reject presigned 400 malformed authorization_query_parameters_error
    presigned_parsed r t (ok auth) = presigned_checked r auth t (
        checked_credentials presigned auth.security_token t.checked
          (get auth.authorization.access_key_id))

    unfoldable pub serve_presigned : Request → Readings → Outcome
    serve_presigned r t = presigned_parsed r t (parse_presigned r)

  unfoldable pub serve_unauthenticated : Request → Outcome
  serve_unauthenticated r =
      let answer = λ (reply : Reply).
        let o : Outcome = record { reply = reply; events = request_time unauthenticated ∷ [] } in
        o in
      if strict_enabled cfg.data_path
      then (if is_sigv2_query r
          then answer (s3_error 400 invalid_request)
          else answer (s3_error 403 access_denied))
      else answer (forwarded r)

-- The answer of the main handler: of the exchange, or of the data path.
pub data Answer : Type 0 where
  exchanged : Result Sts.Rejection Sts.Granted → Answer
  answered : Reply → Answer

abbrev is_root : Text → Bool
is_root path = text_eq path (b'/' ∷ []) || is_nil path

-- `isSTSRequest`
unfoldable pub is_sts_request : Platform → Request → Bool
is_sts_request p r =
    let media = p.media_type (Http.get r.header (codes "Content-Type")) in
    let is_form : Bool = elim media [ none ↦ false | some m ↦ text_eq m Sts.form_type ] in
    text_eq r.method (codes "POST") && is_root r.path && is_form

abbrev error_code : Result Sts.Rejection Sts.Granted → Option Sts.Code
error_code (ok g) = none
error_code (err e) = some e.code

module _ (p : Platform) (cfg : Config) (upstream_host : Text) (tv : TokenValidator)
    (st : Store) where
  -- What a request leaves behind.
  pub record Served : Type 0 where
    pub answer : Answer
    pub events : List Event
    pub validator : tv.State
    pub store : st.State

  abbrev of_exchange : Exchanged tv st → Served
  of_exchange x = record {
    answer = exchanged x.response;
    events = sts_exchange x.issuer (error_code x.response) ∷ request_time sts ∷ [];
    validator = x.validator;
    store = x.store;
  }

  abbrev of_outcome : Outcome → tv.State → st.State → Served
  of_outcome o v s = record {
    answer = answered o.reply;
    events = o.events;
    validator = v;
    store = s;
  }

  abbrev of_bearer : st.State → Outcome × tv.State → Served
  of_bearer s (o, v) = of_outcome o v s

  abbrev with_other_header : Request → Text → Readings → tv.State → st.State → Served
  with_other_header r header t v s =
      if is_sigv4 header
      then of_outcome (serve_sigv4 p cfg upstream_host (st.get s) r header t) v s
      else if is_nil header && is_presigned r
      then of_outcome (serve_presigned p cfg upstream_host (st.get s) r t) v s
      else of_outcome (serve_unauthenticated p cfg upstream_host r) v s

  abbrev with_token : Request → Text → Readings → tv.State → st.State → Option Text → Served
  with_token r header t v s (some token) =
      of_bearer s (serve_bearer p cfg upstream_host tv r token t v)
  with_token r header t v s none = with_other_header r header t v s

  -- The `switch` on the Authorization header.
  unfoldable pub serve_data_path : Request → Readings → tv.State → st.State → Served
  serve_data_path r t v s =
      let header = Http.get r.header (codes "Authorization") in
      with_token r header t v s (cut_prefix header (codes "Bearer "))

  -- `Server.serve`
  unfoldable pub serve : Request → Readings → Randomness → tv.State → st.State → Served
  serve r t random v s =
      if is_sts_request p r
      then of_exchange (exchange tv st p cfg.sts max_sts_body_bytes r random t.checked v s)
      else serve_data_path r t v s

-- The answer of a revocation and its label, with the store that it leaves.
pub data Revocation : Type 0 where
  revoked unknown failed : Revocation

module _ (st : Store) where
  abbrev with_deleted : st.State → Result Failure st.State → Revocation × st.State
  with_deleted s (err e) = (failed, s)
  with_deleted s (ok s') = (revoked, s')

  abbrev with_found : st.State → Text → Result Failure (Option Credentials) → Revocation × st.State
  with_found s akid (err e) = (failed, s)
  with_found s akid (ok none) = (unknown, s)
  with_found s akid (ok (some c)) = with_deleted s (st.delete s akid)

  -- `handleRevoke`
  unfoldable pub handle_revoke : st.State → Text → Revocation × st.State
  handle_revoke s akid = with_found s akid (st.get s akid)

-- The HTTP status of a revocation.
abbrev pub revocation_status : Revocation → ℕ
revocation_status revoked = 204
revocation_status unknown = 404
revocation_status failed = 503
