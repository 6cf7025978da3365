-- ===== src/Server/Strict.antt =====
-- What a request has proved when it is sent upstream.
use ozone_oidc_proxy.Base.{
  ◌≡◌, sym, ap, ◌∙◌, ◌≢◌, ◌⊎◌, inl, inr, true, false, Bool-cases, Option, none, some, Option-cases,
  Result, ok, err, Result-cases, is_nil, ◌&&◌,
}
use ozone_oidc_proxy.Text.{Text, codes, text_eq, cut_prefix}
use ozone_oidc_proxy.Text.Equality.{text_eq_sound}
use ozone_oidc_proxy.Go.Clock.{Time}
use ozone_oidc_proxy.Go.Http
use ozone_oidc_proxy.Go.Http.{Request}
use ozone_oidc_proxy.Config.{Config, bearer_enabled, strict_enabled}
use ozone_oidc_proxy.Forward.{security_token, strip_presigned_query}
use ozone_oidc_proxy.Oidc.{Identity}
use ozone_oidc_proxy.Platform.{Platform}
use ozone_oidc_proxy.SigV4
use ozone_oidc_proxy.SigV4.{Authorization}
use ozone_oidc_proxy.SigV4.Auth.{is_sigv4, parse_authorization}
use ozone_oidc_proxy.SigV4.Presign.{
  Presigned, is_presigned, is_sigv2_query, parse_presigned, verify_presigned,
}
use ozone_oidc_proxy.SigV4.Verify.{verify}
use ozone_oidc_proxy.Store.{Credentials, expired as has_expired, Failure, Store}
use ozone_oidc_proxy.Sts.{TokenValidator}
use ozone_oidc_proxy.Server.{
  forwarded, Outcome, Readings, apply_identity, sigv4_failure, presigned_failure,
  checked_credentials, sigv4_input, presign_input, serve_bearer, serve_sigv4, serve_presigned,
  serve_unauthenticated, serve_data_path, Lane, answered, sigv4, presigned,
}

abbrev header_of : Request → Text
header_of r = Http.get r.header (codes "Authorization")

-- Stored credentials that a request may use: they are found under the access key, have not expired,
-- and their session token is the one presented.
pub record IsUsable (looked_up : Result Failure (Option Credentials)) (token : Text) (now : Time)
    (c : Credentials) : Type 0 where
  pub found : looked_up ≡ ok (some c)
  pub live : has_expired c now ≡ false
  pub presented : token ≡ c.session_token

checked_credentials-IsUsable :
    (p : Platform) (cfg : Config) (host : Text) (lane : Lane) (token : Text) (now : Time)
    (looked_up : Result Failure (Option Credentials)) (c : Credentials)
    → checked_credentials p cfg host lane token now looked_up ≡ ok c
    → IsUsable looked_up token now c
unfolding checked_credentials
checked_credentials-IsUsable p cfg host lane token now (err e) c h = cc
checked_credentials-IsUsable p cfg host lane token now (ok none) c h = cc
checked_credentials-IsUsable p cfg host lane token now (ok (some d)) c h =
    elim (Bool-cases (has_expired d now)) [
      | inl e ↦ cc (rw e at h)
      | inr e ↦ elim (Bool-cases (text_eq token d.session_token)) [
        | inl same ↦
            let eq : d ≡ c = cc (rw (e, same) at h) in
            record {
              found = ap (λ x. ok (some x)) eq;
              live = ap (λ (x : Credentials). has_expired x now) (sym eq) ∙ e;
              presented = text_eq_sound _ _ same ∙ ap (λ (x : Credentials). x.session_token) eq;
            }
        | inr differs ↦ cc (rw (e, differs) at h)
      ]
    ]

module _ (p : Platform) (cfg : Config) (host : Text) where
  sigv4_failure_refuses :
      (e : SigV4.Error) (r : Request) → (sigv4_failure p cfg host e).reply ≢ forwarded r
  unfolding sigv4_failure
  sigv4_failure_refuses SigV4.Error.malformed r h = cc
  sigv4_failure_refuses SigV4.Error.missing_date r h = cc
  sigv4_failure_refuses SigV4.Error.skew r h = cc
  sigv4_failure_refuses SigV4.Error.scope r h = cc
  sigv4_failure_refuses SigV4.Error.signature_mismatch r h = cc
  sigv4_failure_refuses SigV4.Error.presign_expired r h = cc

  presigned_failure_refuses :
      (e : SigV4.Error) (r : Request) → (presigned_failure p cfg host e).reply ≢ forwarded r
  unfolding presigned_failure
  presigned_failure_refuses SigV4.Error.malformed r h = cc
  presigned_failure_refuses SigV4.Error.missing_date r h = cc
  presigned_failure_refuses SigV4.Error.skew r h = cc
  presigned_failure_refuses SigV4.Error.scope r h = cc
  presigned_failure_refuses SigV4.Error.signature_mismatch r h = cc
  presigned_failure_refuses SigV4.Error.presign_expired r h = cc

  checked_credentials_refuses :
      (lane : Lane) (token : Text) (now : Time) (looked_up : Result Failure (Option Credentials))
      (o : Outcome) (r : Request)
      → checked_credentials p cfg host lane token now looked_up ≡ err o
      → o.reply ≢ forwarded r
  unfolding checked_credentials
  checked_credentials_refuses lane token now (err e) o r h k = cc
  checked_credentials_refuses lane token now (ok none) o r h k = cc
  checked_credentials_refuses lane token now (ok (some c)) o r h k =
      elim (Bool-cases (has_expired c now)) [
        | inl e ↦ cc (rw e at h)
        | inr e ↦ elim (Bool-cases (text_eq token c.session_token)) [
          | inl same ↦ cc (rw (e, same) at h)
          | inr differs ↦ cc (rw (e, differs) at h)
        ]
      ]

  -- The three proofs of an identity.
  pub record IsByToken (tv : TokenValidator) (r : Request) (t : Readings) (v : tv.State)
      (sent : Request) : Type 0 where
    pub token : Text
    pub header : cut_prefix (header_of r) (codes "Bearer ") ≡ some token
    pub enabled : bearer_enabled cfg.data_path ≡ true
    pub identity : Identity
    pub validated : (tv.validate v token).0 ≡ ok identity
    pub sent_as : sent ≡ apply_identity p cfg host r identity.username none t.applied t.reapplied

  pub record IsByHeader (get : Text → Result Failure (Option Credentials)) (r : Request)
      (header : Text) (t : Readings) (sent : Request) : Type 0 where
    pub auth : Authorization
    pub parsed : parse_authorization header ≡ ok auth
    pub creds : Credentials
    pub usable :
        IsUsable (get auth.access_key_id) (Http.get r.header security_token) t.checked creds
    pub signed : verify p (sigv4_input p cfg host r auth creds t.verified) ≡ ok tt
    pub sent_as :
        sent ≡ apply_identity p cfg host r creds.username (some auth) t.applied t.reapplied

  pub record IsByUrl (get : Text → Result Failure (Option Credentials)) (r : Request) (t : Readings)
      (sent : Request) : Type 0 where
    pub auth : Presigned
    pub parsed : parse_presigned r ≡ ok auth
    pub creds : Credentials
    pub usable : IsUsable (get auth.authorization.access_key_id) auth.security_token t.checked creds
    pub signed : verify_presigned p (presign_input p cfg host r auth creds t.verified) ≡ ok tt
    pub sent_as :
        sent
        ≡ apply_identity p cfg host
            (strip_presigned_query r)
            creds.username
            none
            t.applied
            t.reapplied

  pub serve_sigv4-IsByHeader :
      (get : Text → Result Failure (Option Credentials)) (r : Request) (header : Text)
      (t : Readings) (sent : Request)
      → (serve_sigv4 p cfg host get r header t).reply ≡ forwarded sent
      → IsByHeader get r header t sent
  unfolding serve_sigv4
  serve_sigv4-IsByHeader get r header t sent h = elim (Result-cases (parse_authorization header)) [
    | inr (e, failed) ↦ cc (rw (serve_sigv4, failed) at h)
    | inl (auth, parsed) ↦
        let checks =
          checked_credentials p cfg host sigv4 (Http.get r.header security_token) t.checked
            (get auth.access_key_id) in
        elim (Result-cases checks) [
          | inr (o, failed) ↦ absurd (
              checked_credentials_refuses sigv4 _ _ _ o sent failed
                (rw (serve_sigv4, parsed, failed) at h))
          | inl (c, usable) ↦
              elim (Result-cases (verify p (sigv4_input p cfg host r auth c t.verified))) [
                | inr (e, failed) ↦
                    absurd
                      (sigv4_failure_refuses e sent (rw (serve_sigv4, parsed, usable, failed) at h))
                | inl (_, signed) ↦ record {
                  auth = auth;
                  parsed = parsed;
                  creds = c;
                  usable = checked_credentials-IsUsable p cfg host sigv4 _ _ _ c usable;
                  signed = signed;
                  sent_as = cc (rw (serve_sigv4, parsed, usable, signed) at h);
                }
              ]
        ]
  ]

  pub serve_presigned-IsByUrl :
      (get : Text → Result Failure (Option Credentials)) (r : Request) (t : Readings)
      (sent : Request)
      → (serve_presigned p cfg host get r t).reply ≡ forwarded sent
      → IsByUrl get r t sent
  unfolding serve_presigned
  serve_presigned-IsByUrl get r t sent h = elim (Result-cases (parse_presigned r)) [
    | inr (e, failed) ↦ cc (rw (serve_presigned, failed) at h)
    | inl (auth, parsed) ↦
        let checks =
          checked_credentials p cfg host presigned auth.security_token t.checked
            (get auth.authorization.access_key_id) in
        elim (Result-cases checks) [
          | inr (o, failed) ↦ absurd (
              checked_credentials_refuses presigned _ _ _ o sent failed
                (rw (serve_presigned, parsed, failed) at h))
          | inl (c, usable) ↦
              elim (Result-cases
                (verify_presigned p (presign_input p cfg host r auth c t.verified))) [
                  | inr (e, failed) ↦ absurd (
                      presigned_failure_refuses e sent
                        (rw (serve_presigned, parsed, usable, failed) at h))
                  | inl (_, signed) ↦ record {
                    auth = auth;
                    parsed = parsed;
                    creds = c;
                    usable = checked_credentials-IsUsable p cfg host presigned _ _ _ c usable;
                    signed = signed;
                    sent_as = cc (rw (serve_presigned, parsed, usable, signed) at h);
                  }
                ]
        ]
  ]

  serve_bearer-IsByToken :
      (tv : TokenValidator) (r : Request) (token : Text) (t : Readings) (v : tv.State)
      (sent : Request)
      → cut_prefix (header_of r) (codes "Bearer ") ≡ some token
      → (serve_bearer p cfg host tv r token t v).0.reply ≡ forwarded sent
      → IsByToken tv r t v sent
  unfolding serve_bearer
  serve_bearer-IsByToken tv r token t v sent header h =
      elim (Bool-cases (bearer_enabled cfg.data_path)) [
        | inr e ↦ cc (rw (serve_bearer, e) at h)
        | inl enabled ↦ elim (Result-cases (tv.validate v token).0) [
          | inr (e, failed) ↦ cc (rw (serve_bearer, enabled, failed) at h)
          | inl (i, validated) ↦ record {
            token = token;
            header = header;
            enabled = enabled;
            identity = i;
            validated = validated;
            sent_as = cc (rw (serve_bearer, enabled, validated) at h);
          }
        ]
      ]

  serve_unauthenticated_refuses :
      (r sent : Request)
      → strict_enabled cfg.data_path ≡ true
      → (serve_unauthenticated p cfg host r).reply ≢ forwarded sent
  unfolding serve_unauthenticated
  serve_unauthenticated_refuses r sent strict h = elim (Bool-cases (is_sigv2_query r)) [
    | inl e ↦ cc (rw (serve_unauthenticated, strict, e) at h)
    | inr e ↦ cc (rw (serve_unauthenticated, strict, e) at h)
  ]

  -- A proof of identity behind a request that is sent upstream.
  abbrev pub IsProved :
      (tv : TokenValidator) (st : Store)
      → Request
      → Readings
      → tv.State
      → st.State
      → Request
      → Type 0
  IsProved tv st r t v s sent =
      IsByToken tv r t v sent
      ⊎ (IsByHeader (st.get s) r (header_of r) t sent ⊎ IsByUrl (st.get s) r t sent)

  -- In strict mode, a request is sent upstream only with a proof of an identity: a bearer token
  -- that the validator accepts while the bearer lane is enabled, or a verified signature, in the
  -- header or in the query, under stored credentials that have not expired and whose session token
  -- is presented. What is sent is then the request with that identity applied.
  pub serve_data_path-IsProved :
      (tv : TokenValidator) (st : Store) (r : Request) (t : Readings) (v : tv.State) (s : st.State)
      (sent : Request)
      → strict_enabled cfg.data_path ≡ true
      → (serve_data_path p cfg host tv st r t v s).answer ≡ answered (forwarded sent)
      → IsProved tv st r t v s sent
  unfolding serve_data_path
  serve_data_path-IsProved tv st r t v s sent strict h =
      elim (Option-cases (cut_prefix (header_of r) (codes "Bearer "))) [
        | inl none_ ↦ elim (Bool-cases (is_sigv4 (header_of r))) [
          | inl signed ↦ inr (
              inl (
                serve_sigv4-IsByHeader (st.get s) r (header_of r) t sent
                  (cc (rw (none_, signed) at h))))
          | inr unsigned ↦ elim (Bool-cases (is_nil (header_of r) && is_presigned r)) [
            | inl pre ↦ inr (
                inr (
                  serve_presigned-IsByUrl (st.get s) r t sent
                    (cc (rw (none_, unsigned, pre) at h))))
            | inr post ↦
                absurd (
                  serve_unauthenticated_refuses r sent strict
                    (cc (rw (none_, unsigned, post) at h)))
          ]
        ]
        | inr (token, header) ↦
            inl (serve_bearer-IsByToken tv r token t v sent header (cc (rw header at h)))
      ]
