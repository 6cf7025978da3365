-- ===== src/Server/Admits/Granted.antt =====
-- From the exchange of a token to a request of the holder of its credentials.
use ozone_oidc_proxy.Base.{
  ℕ, ◌<◌, ◌≡◌, refl, sym, ◌∙◌, subst, not, All, All-weaken, ◌++◌, none, some, ok, ◌≤ℤ◌, neg, false,
  arith,
}
use ozone_oidc_proxy.Text.{Text, codes}
use ozone_oidc_proxy.Go.Clock.{Time, sub, parse_amz, format_amz}
use ozone_oidc_proxy.Go.Http
use ozone_oidc_proxy.Go.Http.{Request}
use ozone_oidc_proxy.Config.{Config}
use ozone_oidc_proxy.Forward.{service_s3}
use ozone_oidc_proxy.Forward.Identity.{IsCarried}
use ozone_oidc_proxy.Oidc.{Identity}
use ozone_oidc_proxy.Platform.{Platform}
use ozone_oidc_proxy.SigV4.Auth.RoundTrip.{IsField, is_delimiter, all-IsField}
use ozone_oidc_proxy.SigV4.Sign.{SignInput, prepare, signed_header_names, sign}
use ozone_oidc_proxy.SigV4.Sign.Written.{IsHashing, IsSignable}
use ozone_oidc_proxy.Store.{Credentials, expired as has_expired, Store, IsStore}
use ozone_oidc_proxy.Store.Mint.{Randomness, akid_prefix, crockford}
use ozone_oidc_proxy.Store.Mint.Shape.{crockford-all}
use ozone_oidc_proxy.Sts.{Granted, TokenValidator, exchange}
use ozone_oidc_proxy.Sts.Exchange.{exchange-IsExchanged}
use ozone_oidc_proxy.Server.{Readings, forwarded, serve_sigv4}
use ozone_oidc_proxy.Server.Attribution.{IsAttributedTo}
use ozone_oidc_proxy.Server.Admits.{IsHolder, serve_sigv4-sign}

crockford-IsField : (bytes : Text) → IsField (crockford bytes)
crockford-IsField bytes =
    All-weaken (crockford bytes) (λ c h. ground arith)
      (crockford-all (λ c. not (is_delimiter c)) bytes refl refl)

-- A minted key stands in the header.
akid-IsCarried : (akid bytes : Text) → akid ≡ akid_prefix ++ crockford bytes → IsCarried akid
akid-IsCarried akid bytes e =
    rw e
      (record { named = λ h. cc; field = (refl, (refl, (refl, (refl, crockford-IsField bytes)))) })

not_expired : (c : Credentials) (now : Time) → now < c.expires_at → has_expired c now ≡ false
not_expired c now h = ground arith

-- Whoever is granted credentials by an exchange can use them: a request that is signed with them and
-- presents their session token, for the region of the proxy and with a clock within the skew, is sent
-- upstream until they expire, as a request of the user whose token the exchange has validated. The
-- store keeps its laws, the region and the names of the signed headers have no delimiter of the
-- Authorization header in them, and HMAC-SHA-256 gives 32 bytes.
pub serve_sigv4-exchange :
    (tv : TokenValidator) (st : Store) (p : Platform) (cfg : Config) (host : Text) (limit : ℕ)
    (asked : Request) (random : Randomness) (now : Time) (v : tv.State) (s : st.State)
    (doc : Granted) (i : SignInput) (r : Request) (t : Readings) (dated : Time)
    → IsStore st
    → (exchange tv st p cfg.sts limit asked random now v s).response ≡ ok doc
    → sign p i ≡ (r, none)
    → IsHolder cfg doc.creds i
    → IsHashing p
    → IsField cfg.security.region
    → All IsField (signed_header_names (prepare i).header)
    → t.checked < doc.creds.expires_at
    → parse_amz (format_amz i.now) ≡ some dated
    → sub t.verified dated ≤ℤ cfg.security.sigv4_clock_skew
    → neg cfg.security.sigv4_clock_skew ≤ℤ sub t.verified dated
    → (token : Text) × (identity : Identity) × ((tv.validate v token).0 ≡ ok identity)
      × ((sent : Request) × ((serve_sigv4 p cfg host
              (st.get (exchange tv st p cfg.sts limit asked random now v s).store)
              r
              (Http.get r.header (codes "Authorization"))
              t).reply
            ≡ forwarded sent)
          × IsAttributedTo sent identity.username)
serve_sigv4-exchange tv st p cfg host limit asked random now v s doc i r t dated laws granted signed
      holder hashing region names live read late early =
    let done = exchange-IsExchanged tv st laws p cfg.sts limit asked random now v s doc granted in
    let signable : IsSignable i = record {
      key = akid-IsCarried i.access_key_id done.granted.key.0 (holder.key ∙ done.granted.key.1);
      region = subst IsField (sym holder.region) region;
      service = subst IsField (sym holder.service) (all-IsField service_s3 refl);
      names = names;
    } in
    let (sent, reply, as_user) =
      serve_sigv4-sign p cfg host
        (st.get (exchange tv st p cfg.sts limit asked random now v s).store) i r doc.creds t dated
        signed holder hashing signable done.holds (not_expired doc.creds t.checked live) read late
        early in
    (
      done.grant.token,
      done.identity,
      done.validated,
      (sent, reply, subst (IsAttributedTo sent) done.granted.user as_user),
    )
