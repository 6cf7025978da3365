-- ===== src/Server/Runs.antt =====
-- The proxy over time: requests, revocations and records that run out, one after another in any
-- order. A request takes the states of validator and store that the one before has left.
pub mod Vouched
pub mod Revoked
use ozone_oidc_proxy.Base.{
  ◌≡◌, refl, ◌⊎◌, inl, inr, List, [], ◌∷◌, ◌∙◌, none, some, ok, err, Result-cases, Result, true,
  false, Bool-cases, Option-cases, Option, is_nil, ◌&&◌, if◌then◌else◌,
}
use ozone_oidc_proxy.Text.{Text, text_eq, codes, cut_prefix}
use ozone_oidc_proxy.Go.Http
use ozone_oidc_proxy.Go.Http.{Request}
use ozone_oidc_proxy.Config.{Config}
use ozone_oidc_proxy.Platform.{Platform}
use ozone_oidc_proxy.Store.{Credentials, Store, IsStore}
use ozone_oidc_proxy.Store.Mint.{Randomness}
use ozone_oidc_proxy.SigV4.Auth.{is_sigv4}
use ozone_oidc_proxy.SigV4.Presign.{is_presigned}
use ozone_oidc_proxy.Sts.{TokenValidator, Granted, Exchanged, exchange}
use ozone_oidc_proxy.Sts.Exchange.{IsExchanged, exchange-IsExchanged, exchange-refused}
use ozone_oidc_proxy.Server.{
  Readings, Answer, exchanged, Served, max_sts_body_bytes, is_sts_request, serve, serve_data_path,
  handle_revoke,
}

module _ (p : Platform) (cfg : Config) (host : Text) (tv : TokenValidator) (st : Store) where
  -- The states that the requests share.
  pub record Proxy : Type 0 where
    pub validator : tv.State
    pub store : st.State

  -- A request, with what it reads of the clock and of the randomness, and the states it has met.
  pub record Seen : Type 0 where
    pub request : Request
    pub readings : Readings
    pub random : Randomness
    pub before : Proxy

  abbrev pub served : Seen → Served p cfg host tv st
  served e = serve p cfg host tv st e.request e.readings e.random e.before.validator e.before.store

  abbrev pub behind : Seen → Proxy
  behind e = record { validator = (served e).validator; store = (served e).store }

  abbrev pub revoke : Proxy → Text → Proxy
  revoke s akid = record s { store = (handle_revoke st s.store akid).1 }

  -- Records that a sweep, or the server of the store, has dropped.
  abbrev pub Loses : st.State → st.State → Type 0
  Loses s s' = (akid : Text) → (st.get s' akid ≡ st.get s akid) ⊎ (st.get s' akid ≡ ok none)

  -- What may happen from one state to another, with the requests that were served, the last one
  -- first.
  pub data Run (s : Proxy) : List Seen → Proxy → Type 0 where
    start : Run s [] s
    request :
        {log : List Seen} {u : Proxy} (r : Request) (t : Readings) (random : Randomness)
        → Run s log u
        → Run s
            (record { request = r; readings = t; random = random; before = u } ∷ log)
            (behind (record { request = r; readings = t; random = random; before = u }))
    revocation :
        {log : List Seen} {u : Proxy} (akid : Text) → Run s log u → Run s log (revoke u akid)
    loss :
        {log : List Seen} {u : Proxy} (s' : st.State)
        → Run s log u
        → Loses u.store s'
        → Run s log (record u { store = s' })

  -- The exchange of a request's token.
  abbrev pub exchange_of : Seen → Exchanged tv st
  exchange_of e =
      exchange tv st p cfg.sts max_sts_body_bytes e.request e.random e.readings.checked
        e.before.validator e.before.store

  -- This request was an exchange, and it granted the credentials.
  pub record Grants (c : Credentials) (e : Seen) : Type 0 where
    pub is_sts : is_sts_request p e.request ≡ true
    pub doc : Granted
    pub granted : (exchange_of e).response ≡ ok doc
    pub creds : doc.creds ≡ c

  serve_data_path-store :
      (r : Request) (t : Readings) (v : tv.State) (s : st.State)
      → (serve_data_path p cfg host tv st r t v s).store ≡ s
  unfolding serve_data_path
  serve_data_path-store r t v s =
      let header = Http.get r.header (codes "Authorization") in
      elim (Option-cases (cut_prefix header (codes "Bearer "))) [
        | inr (token, e) ↦ rw e refl
        | inl e ↦ elim (Bool-cases (is_sigv4 header)) [
          | inl signed ↦ rw (e, signed) refl
          | inr plain ↦ elim (Bool-cases (is_nil header && is_presigned r)) [
            | inl pre ↦ rw (e, plain, pre) refl
            | inr post ↦ rw (e, plain, post) refl
          ]
        ]
      ]

  -- A request that changes the store is an exchange that grants credentials, and puts these.
  pub data Change (e : Seen) : Type 0 where
    same : (served e).store ≡ e.before.store → Change e
    stores :
        (c : Credentials) → Grants c e → st.put e.before.store c ≡ ok (served e).store → Change e

  pub served-Change : IsStore st → (e : Seen) → Change e
  unfolding serve
  served-Change laws e = elim (Bool-cases (is_sts_request p e.request)) [
    | inr other ↦
        same
          (rw other (serve_data_path-store e.request e.readings e.before.validator e.before.store))
    | inl sts ↦ elim (Result-cases (exchange_of e).response) [
      | inl (doc, granted) ↦
          let done =
            exchange-IsExchanged tv st laws p cfg.sts max_sts_body_bytes e.request e.random
              e.readings.checked e.before.validator e.before.store doc granted in
          stores doc.creds (record { is_sts = sts; doc = doc; granted = granted; creds = refl })
            (rw sts done.stored)
      | inr (rejection, refused) ↦ same (
          rw sts (
            exchange-refused tv st p cfg.sts max_sts_body_bytes e.request e.random
              e.readings.checked e.before.validator e.before.store rejection refused))
    ]
  ]

  -- A revocation leaves the store, or deletes the key.
  pub handle_revoke-cases :
      (s : st.State) (akid : Text)
      → ((handle_revoke st s akid).1 ≡ s) ⊎ (st.delete s akid ≡ ok (handle_revoke st s akid).1)
  unfolding handle_revoke
  handle_revoke-cases s akid = elim (Result-cases (st.get s akid)) [
    | inr (e, h) ↦ inl (rw h refl)
    | inl (none, h) ↦ inl (rw h refl)
    | inl (some c, h) ↦ elim (Result-cases (st.delete s akid)) [
      | inr (e, d) ↦ inl (rw (h, d) refl)
      | inl (s', d) ↦ inr (rw (h, d) refl)
    ]
  ]
