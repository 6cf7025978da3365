-- ===== src/Server/Lanes.antt =====
-- Which refusals a lane answers with, and what a revocation does to the requests that follow.
use ozone_oidc_proxy.Base.{◌≡◌, refl, ◌∙◌, inl, inr, none, some, ok, Result-cases}
use ozone_oidc_proxy.Text.{Text}
use ozone_oidc_proxy.Text.Equality.{text_eq_refl}
use ozone_oidc_proxy.Go.Http.{Request}
use ozone_oidc_proxy.Config.{Config}
use ozone_oidc_proxy.Platform.{Platform}
use ozone_oidc_proxy.SigV4.{Authorization}
use ozone_oidc_proxy.SigV4.Auth.{parse_authorization}
use ozone_oidc_proxy.SigV4.Presign.{Presigned, parse_presigned}
use ozone_oidc_proxy.Store.{Store, IsStore}
use ozone_oidc_proxy.Server.{
  s3_error, Readings, checked_credentials, serve_sigv4, serve_presigned, handle_revoke, revoked,
  invalid_access_key_id,
}

module _ (st : Store) (laws : IsStore st) where
  -- A revocation that answers `revoked` leaves a store without the access key.
  pub get-handle_revoke :
      (s : st.State) (akid : Text)
      → (handle_revoke st s akid).0 ≡ revoked
      → st.get (handle_revoke st s akid).1 akid ≡ ok none
  unfolding handle_revoke
  get-handle_revoke s akid done = elim (Result-cases (st.get s akid)) [
    | inr (e, h) ↦ cc (rw (h, handle_revoke) at done)
    | inl (none, h) ↦ cc (rw (h, handle_revoke) at done)
    | inl (some c, h) ↦ elim (Result-cases (st.delete s akid)) [
      | inr (e, d) ↦ cc (rw (h, d, handle_revoke) at done)
      | inl (s', d) ↦ rw (h, d) (laws.get-delete s akid s' akid d ∙ rw text_eq_refl refl)
    ]
  ]

  module _ (p : Platform) (cfg : Config) (host : Text) (s : st.State) (r : Request)
      (t : Readings) where
    -- After a revocation that answers `revoked`, on a store that keeps the laws, no Authorization
    -- header of the access key is accepted any more: the answer is 403 InvalidAccessKeyId,
    -- whatever else the request carries.
    pub serve_sigv4-handle_revoke :
        (header : Text) (auth : Authorization)
        → parse_authorization header ≡ ok auth
        → (handle_revoke st s auth.access_key_id).0 ≡ revoked
        → (serve_sigv4 p cfg host
            (st.get (handle_revoke st s auth.access_key_id).1)
            r
            header
            t).reply
          ≡ s3_error 403 invalid_access_key_id
    unfolding serve_sigv4 checked_credentials
    serve_sigv4-handle_revoke header auth parsed done =
        rw (parsed, get-handle_revoke s auth.access_key_id done)

    -- After a revocation that answers `revoked`, no presigned URL of the access key is accepted
    -- any more, also none that was signed before: the answer is 403 InvalidAccessKeyId.
    pub serve_presigned-handle_revoke :
        (auth : Presigned)
        → parse_presigned r ≡ ok auth
        → (handle_revoke st s auth.authorization.access_key_id).0 ≡ revoked
        → (serve_presigned p cfg host
            (st.get (handle_revoke st s auth.authorization.access_key_id).1)
            r
            t).reply
          ≡ s3_error 403 invalid_access_key_id
    unfolding serve_presigned checked_credentials
    serve_presigned-handle_revoke auth parsed done =
        rw (parsed, get-handle_revoke s auth.authorization.access_key_id done)
