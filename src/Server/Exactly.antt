-- ===== src/Server/Exactly.antt =====
-- The signature lanes let through exactly what is proved.
use ozone_oidc_proxy.Base.{◌≡◌, ◌↔◌, Option, Result, ok}
use ozone_oidc_proxy.Text.{Text}
use ozone_oidc_proxy.Text.Equality.{text_eq_of_eq}
use ozone_oidc_proxy.Go.Clock.{Time}
use ozone_oidc_proxy.Go.Http.{Request}
use ozone_oidc_proxy.Config.{Config}
use ozone_oidc_proxy.Platform.{Platform}
use ozone_oidc_proxy.Store.{Credentials, Failure}
use ozone_oidc_proxy.Server.{
  Lane, sigv4, presigned, forwarded, Readings, checked_credentials, serve_sigv4, serve_presigned,
}
use ozone_oidc_proxy.Server.Strict.{
  IsUsable, IsByHeader, IsByUrl, serve_sigv4-IsByHeader, serve_presigned-IsByUrl,
}

module _ (p : Platform) (cfg : Config) (host : Text)
    (get : Text → Result Failure (Option Credentials)) where
  IsUsable-checked_credentials :
      (lane : Lane) (token : Text) (now : Time) (looked_up : Result Failure (Option Credentials))
      (c : Credentials)
      → IsUsable looked_up token now c
      → checked_credentials p cfg host lane token now looked_up ≡ ok c
  unfolding checked_credentials
  IsUsable-checked_credentials lane token now looked_up c u =
      rw (u.found, u.live, text_eq_of_eq token c.session_token u.presented)

  IsByHeader-serve_sigv4 :
      (r : Request) (header : Text) (t : Readings) (sent : Request)
      → IsByHeader p cfg host get r header t sent
      → (serve_sigv4 p cfg host get r header t).reply ≡ forwarded sent
  unfolding serve_sigv4
  IsByHeader-serve_sigv4 r header t sent b =
      rw (b.parsed, IsUsable-checked_credentials sigv4 _ _ _ b.creds b.usable, b.signed, b.sent_as)

  -- The header lane sends a request upstream exactly when its Authorization header parses, the
  -- credentials of its access key are found, alive and presented with their session token, and the
  -- signature verifies; what is sent is the request with the credentials' user applied.
  pub serve_sigv4_iff :
      (r : Request) (header : Text) (t : Readings) (sent : Request)
      → ((serve_sigv4 p cfg host get r header t).reply ≡ forwarded sent)
        ↔ IsByHeader p cfg host get r header t sent
  serve_sigv4_iff r header t sent = (
    serve_sigv4-IsByHeader p cfg host get r header t sent,
    IsByHeader-serve_sigv4 r header t sent,
  )

  IsByUrl-serve_presigned :
      (r : Request) (t : Readings) (sent : Request)
      → IsByUrl p cfg host get r t sent
      → (serve_presigned p cfg host get r t).reply ≡ forwarded sent
  unfolding serve_presigned
  IsByUrl-serve_presigned r t sent b =
      rw (
        b.parsed,
        IsUsable-checked_credentials presigned _ _ _ b.creds b.usable,
        b.signed,
        b.sent_as,
      )

  -- The presigned lane sends a request upstream exactly when its query parses, the credentials of
  -- its access key are found, alive and presented with their session token, and the signature
  -- verifies; what is sent is the stripped request with the credentials' user applied.
  pub serve_presigned_iff :
      (r : Request) (t : Readings) (sent : Request)
      → ((serve_presigned p cfg host get r t).reply ≡ forwarded sent)
        ↔ IsByUrl p cfg host get r t sent
  serve_presigned_iff r t sent =
      (serve_presigned-IsByUrl p cfg host get r t sent, IsByUrl-serve_presigned r t sent)
