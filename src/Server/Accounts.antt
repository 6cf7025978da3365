-- ===== src/Server/Accounts.antt =====
-- What is counted of a request: the metrics of the lanes and of the reverse proxy.
use ozone_oidc_proxy.Base.{
  ℕ, ◌≡◌, refl, ◌⊎◌, inl, inr, Bool, true, false, Bool-cases, ◌&&◌, List, [], ◌∷◌, Option, none,
  some, Option-cases, Result, ok, err, Result-cases, if◌then◌else◌, is_nil,
}
use ozone_oidc_proxy.Text.{Text, codes, cut_prefix}
use ozone_oidc_proxy.Go.Clock.{Time}
use ozone_oidc_proxy.Go.Http
use ozone_oidc_proxy.Go.Http.{Request}
use ozone_oidc_proxy.Config.{Config, bearer_enabled, strict_enabled}
use ozone_oidc_proxy.Platform.{Platform}
use ozone_oidc_proxy.SigV4
use ozone_oidc_proxy.SigV4.Auth.{is_sigv4, parse_authorization}
use ozone_oidc_proxy.SigV4.Presign.{is_presigned, is_sigv2_query, parse_presigned, verify_presigned}
use ozone_oidc_proxy.SigV4.Verify.{verify}
use ozone_oidc_proxy.Store.{Credentials, Failure, Store, expired as has_expired}
use ozone_oidc_proxy.Store.Mint.{Randomness}
use ozone_oidc_proxy.Sts.{TokenValidator, exchange}
use ozone_oidc_proxy.Text.{text_eq}
use ozone_oidc_proxy.Forward.{security_token}
use ozone_oidc_proxy.Server.{
  Code, Lane, sts, bearer, sigv4, presigned, unauthenticated, Label, success, store_error,
  unknown_akid, expired, bad_token, internal_error, invalid_access_key_id, expired_token,
  invalid_token, sigv4_input, presign_input, Event, verification, verification_time, request_time,
  sts_exchange, s3_error, forwarded, Outcome, Readings, Answer, exchanged, answered,
  max_sts_body_bytes, is_sts_request, serve, serve_data_path, serve_bearer, serve_sigv4,
  serve_presigned, serve_unauthenticated, sigv4_failure, presigned_failure, checked_credentials,
}

-- The lane of a request, by its headers and its query.
abbrev pub lane_of : Platform → Request → Lane
lane_of p r =
    let header = Http.get r.header (codes "Authorization") in
    if is_sts_request p r then sts else elim (cut_prefix header (codes "Bearer ")) [
      | some token ↦ bearer
      | none ↦
          if is_sigv4 header
          then sigv4
          else if is_nil header && is_presigned r
          then presigned
          else unauthenticated
    ]

-- The request was let through: credentials were granted, or it is sent upstream.
abbrev pub is_admitted : Answer → Bool
is_admitted (exchanged (ok d)) = true
is_admitted (exchanged (err e)) = false
is_admitted (answered (s3_error status code)) = false
is_admitted (answered (forwarded sent)) = true

abbrev pub is_open : Lane → Bool
is_open unauthenticated = true
is_open sts = false
is_open bearer = false
is_open sigv4 = false
is_open presigned = false

abbrev is_success : Label → Bool
is_success success = true
is_success l = false

-- The durations of requests among the events.
abbrev pub times : List Event → List Lane
times [] = []
times (request_time lane ∷ es) = lane ∷ times es
times (verification lane issuer label ∷ es) = times es
times (verification_time lane ∷ es) = times es
times (sts_exchange issuer code ∷ es) = times es

-- The verdicts among the events, by lane: whether a success is counted.
abbrev pub verdicts : List Event → List (Lane × Bool)
verdicts [] = []
verdicts (request_time lane ∷ es) = verdicts es
verdicts (verification lane issuer label ∷ es) = (lane, is_success label) ∷ verdicts es
verdicts (verification_time lane ∷ es) = verdicts es
verdicts (sts_exchange issuer none ∷ es) = (sts, true) ∷ verdicts es
verdicts (sts_exchange issuer (some code) ∷ es) = (sts, false) ∷ verdicts es

-- One duration, of the lane, and one verdict of the lane, a success if and only if the request is let
-- through; no verdict where nothing is verified.
pub record IsCounted (lane : Lane) (admitted : Bool) (events : List Event) : Type 0 where
  pub timed : times events ≡ lane ∷ []
  pub decided : verdicts events ≡ (if is_open lane then [] else (lane, admitted) ∷ [])

abbrev CountsOf : Lane → Outcome → Type 0
CountsOf lane o = IsCounted lane (is_admitted (answered o.reply)) o.events

module _ (p : Platform) (cfg : Config) (host : Text) where
  sigv4_failure-IsCounted : (e : SigV4.Error) → CountsOf sigv4 (sigv4_failure p cfg host e)
  unfolding sigv4_failure
  sigv4_failure-IsCounted SigV4.Error.malformed = record { timed = refl; decided = refl }
  sigv4_failure-IsCounted SigV4.Error.missing_date = record { timed = refl; decided = refl }
  sigv4_failure-IsCounted SigV4.Error.skew = record { timed = refl; decided = refl }
  sigv4_failure-IsCounted SigV4.Error.scope = record { timed = refl; decided = refl }
  sigv4_failure-IsCounted SigV4.Error.signature_mismatch = record { timed = refl; decided = refl }
  sigv4_failure-IsCounted SigV4.Error.presign_expired = record { timed = refl; decided = refl }

  presigned_failure-IsCounted :
      (e : SigV4.Error) → CountsOf presigned (presigned_failure p cfg host e)
  unfolding presigned_failure
  presigned_failure-IsCounted SigV4.Error.malformed = record { timed = refl; decided = refl }
  presigned_failure-IsCounted SigV4.Error.missing_date = record { timed = refl; decided = refl }
  presigned_failure-IsCounted SigV4.Error.skew = record { timed = refl; decided = refl }
  presigned_failure-IsCounted SigV4.Error.scope = record { timed = refl; decided = refl }
  presigned_failure-IsCounted SigV4.Error.signature_mismatch = record {
    timed = refl;
    decided = refl;
  }
  presigned_failure-IsCounted SigV4.Error.presign_expired = record { timed = refl; decided = refl }

  refused_as : Lane → ℕ → Label → Code → Outcome
  refused_as lane status label code = record {
    reply = s3_error status code;
    events = verification lane [] label ∷ request_time lane ∷ [];
  }

  refused_as-IsCounted :
      (lane : Lane) (status : ℕ) (label : Label) (code : Code)
      → is_open lane ≡ false
      → is_success label ≡ false
      → CountsOf lane (refused_as lane status label code)
  unfolding refused_as
  refused_as-IsCounted lane status label code gated l = record {
    timed = refl;
    decided = rw (gated, l) refl;
  }

  -- The checks of the credentials succeed, or refuse and are counted.
  checked_credentials-cases :
      (lane : Lane) (token : Text) (now : Time) (found : Result Failure (Option Credentials))
      → is_open lane ≡ false
      → ((c : Credentials) × (checked_credentials p cfg host lane token now found ≡ ok c))
        ⊎ ((o : Outcome) × (checked_credentials p cfg host lane token now found ≡ err o)
            × CountsOf lane o)
  unfolding checked_credentials refused_as
  checked_credentials-cases lane token now (err e) gated =
      inr (_, refl, refused_as-IsCounted lane 500 store_error internal_error gated refl)
  checked_credentials-cases lane token now (ok none) gated =
      inr (_, refl, refused_as-IsCounted lane 403 unknown_akid invalid_access_key_id gated refl)
  checked_credentials-cases lane token now (ok (some c)) gated =
      elim (Bool-cases (has_expired c now)) [
        | inl old ↦ inr (
          refused_as lane 403 expired expired_token,
          rw old refl,
          refused_as-IsCounted lane 403 expired expired_token gated refl,
        )
        | inr live ↦ elim (Bool-cases (text_eq token c.session_token)) [
          | inl same ↦ inl (c, rw (live, same) refl)
          | inr other ↦ inr (
            refused_as lane 403 bad_token invalid_token,
            rw (live, other) refl,
            refused_as-IsCounted lane 403 bad_token invalid_token gated refl,
          )
        ]
      ]

  serve_bearer-IsCounted :
      (tv : TokenValidator) (r : Request) (token : Text) (t : Readings) (v : tv.State)
      → CountsOf bearer (serve_bearer p cfg host tv r token t v).0
  unfolding serve_bearer
  serve_bearer-IsCounted tv r token t v = elim (Bool-cases (bearer_enabled cfg.data_path)) [
    | inr off ↦ rw off (record { timed = refl; decided = refl })
    | inl on ↦ elim (Result-cases (tv.validate v token).0) [
      | inl (i, e) ↦ rw (on, e) (record { timed = refl; decided = refl })
      | inr (e, h) ↦ rw (on, h) (record { timed = refl; decided = refl })
    ]
  ]

  serve_unauthenticated-IsCounted :
      (r : Request) → CountsOf unauthenticated (serve_unauthenticated p cfg host r)
  unfolding serve_unauthenticated
  serve_unauthenticated-IsCounted r = elim (Bool-cases (strict_enabled cfg.data_path)) [
    | inr off ↦ rw off (record { timed = refl; decided = refl })
    | inl on ↦ elim (Bool-cases (is_sigv2_query r)) [
      | inl old ↦ rw (on, old) (record { timed = refl; decided = refl })
      | inr other ↦ rw (on, other) (record { timed = refl; decided = refl })
    ]
  ]

  module _ (get : Text → Result Failure (Option Credentials)) where
    serve_sigv4-IsCounted :
        (r : Request) (header : Text) (t : Readings)
        → CountsOf sigv4 (serve_sigv4 p cfg host get r header t)
    unfolding serve_sigv4
    serve_sigv4-IsCounted r header t = elim (Result-cases (parse_authorization header)) [
      | inr (e, bad) ↦ rw bad (record { timed = refl; decided = refl })
      | inl (auth, parsed) ↦
          elim (checked_credentials-cases sigv4 (Http.get r.header security_token) t.checked
            (get auth.access_key_id) refl) [
              | inr (o, refused, counted) ↦ rw (parsed, refused) counted
              | inl (c, usable) ↦
                  elim (Result-cases (verify p (sigv4_input p cfg host r auth c t.verified))) [
                    | inl (done, verified) ↦
                        rw (parsed, usable, verified) (record { timed = refl; decided = refl })
                    | inr (e, failed) ↦ rw (parsed, usable, failed) (sigv4_failure-IsCounted e)
                  ]
            ]
    ]

    serve_presigned-IsCounted :
        (r : Request) (t : Readings) → CountsOf presigned (serve_presigned p cfg host get r t)
    unfolding serve_presigned
    serve_presigned-IsCounted r t = elim (Result-cases (parse_presigned r)) [
      | inr (e, bad) ↦ rw bad (record { timed = refl; decided = refl })
      | inl (auth, parsed) ↦
          elim (checked_credentials-cases presigned auth.security_token t.checked
            (get auth.authorization.access_key_id) refl) [
              | inr (o, refused, counted) ↦ rw (parsed, refused) counted
              | inl (c, usable) ↦
                  elim (Result-cases
                    (verify_presigned p (presign_input p cfg host r auth c t.verified))) [
                      | inl (done, verified) ↦
                          rw (parsed, usable, verified) (record { timed = refl; decided = refl })
                      | inr (e, failed) ↦
                          rw (parsed, usable, failed) (presigned_failure-IsCounted e)
                    ]
            ]
    ]

module _ (p : Platform) (cfg : Config) (host : Text) (tv : TokenValidator) (st : Store) where
  -- Every request is counted once: one duration and, but for a request without authentication, one verdict,
  -- both under its lane. The verdict is a success exactly where the request is let through: where
  -- credentials are granted, or the request is sent upstream.
  pub serve-IsCounted :
      (r : Request) (t : Readings) (random : Randomness) (v : tv.State) (s : st.State)
      → IsCounted
          (lane_of p r)
          (is_admitted (serve p cfg host tv st r t random v s).answer)
          (serve p cfg host tv st r t random v s).events
  unfolding serve serve_data_path
  serve-IsCounted r t random v s =
      let header = Http.get r.header (codes "Authorization") in
      elim (Bool-cases (is_sts_request p r)) [
        | inl form ↦
            elim (Result-cases
              (exchange tv st p cfg.sts max_sts_body_bytes r random t.checked v s).response) [
                | inl (d, e) ↦ rw (form, e) (record { timed = refl; decided = refl })
                | inr (x, e) ↦ rw (form, e) (record { timed = refl; decided = refl })
              ]
        | inr other ↦ elim (Option-cases (cut_prefix header (codes "Bearer "))) [
          | inr (token, e) ↦ rw (other, e) (serve_bearer-IsCounted p cfg host tv r token t v)
          | inl e ↦ elim (Bool-cases (is_sigv4 header)) [
            | inl signed ↦
                rw (other, e, signed) (serve_sigv4-IsCounted p cfg host (st.get s) r header t)
            | inr plain ↦ elim (Bool-cases (is_nil header && is_presigned r)) [
              | inl pre ↦
                  rw (other, e, plain, pre) (serve_presigned-IsCounted p cfg host (st.get s) r t)
              | inr post ↦ rw (other, e, plain, post) (serve_unauthenticated-IsCounted p cfg host r)
            ]
          ]
        ]
      ]
