-- ===== src/Server/Runs/Vouched.antt =====
-- Behind every request that is sent upstream stands a token.
use ozone_oidc_proxy.Sts.{Grant, checked}
use ozone_oidc_proxy.Text.{codes}
use ozone_oidc_proxy.SigV4.{Authorization}
use ozone_oidc_proxy.Go.Http
use ozone_oidc_proxy.Server.{apply_identity}
use ozone_oidc_proxy.Base.{
  refl, ◌≡◌, ◌<◌, sym, ap, ◌∙◌, ◌⊎◌, subst, inl, inr, List, ◌∷◌, none, some, ok, true, false,
  Bool-cases, Any, Any-witness, arith, if◌then◌else◌, Option, Result, Bool,
}
use ozone_oidc_proxy.Text.{Text, text_eq}
use ozone_oidc_proxy.Go.Http.{Request}
use ozone_oidc_proxy.Go.Clock.{Time}
use ozone_oidc_proxy.Config.{Config, strict_enabled}
use ozone_oidc_proxy.Oidc.{Identity}
use ozone_oidc_proxy.Platform.{Platform}
use ozone_oidc_proxy.Store.{Credentials, Store, IsStore, Failure, expired as has_expired}
use ozone_oidc_proxy.Sts.{TokenValidator}
use ozone_oidc_proxy.Sts.Exchange.{IsExchanged, exchange-IsExchanged}
use ozone_oidc_proxy.Server.{
  answered, forwarded, max_sts_body_bytes, is_sts_request, serve, handle_revoke,
}
use ozone_oidc_proxy.Server.Attribution.{IsAttributedTo, apply_identity-IsAttributedTo}
use ozone_oidc_proxy.Server.Strict.{
  IsByToken, IsByHeader, IsByUrl, IsUsable, IsProved, serve_data_path-IsProved,
}
use ozone_oidc_proxy.Server.Runs.{
  Proxy, Seen, served, Loses, Run, start, request, revocation, loss, Grants, same, stores,
  served-Change, handle_revoke-cases, exchange_of,
}

module _ (p : Platform) (cfg : Config) (host : Text) (tv : TokenValidator) (st : Store) where
  abbrev Seen' : Type 0
  Seen' = Seen p cfg host tv st

  -- Every record of the store was granted by a request of the run.
  abbrev pub IsBacked : List (Seen p cfg host tv st) → st.State → Type 0
  IsBacked log s =
      (akid : Text) (c : Credentials)
      → st.get s akid ≡ ok (some c)
      → Any (Grants p cfg host tv st c) log

  abbrev pub IsEmpty : st.State → Type 0
  IsEmpty s = (akid : Text) → st.get s akid ≡ ok none

  found_if :
      (b : Bool) (c d : Credentials) (other : Result Failure (Option Credentials))
      → (if b then ok (some c) else other) ≡ ok (some d)
      → (c ≡ d) ⊎ (other ≡ ok (some d))
  found_if true c d other h = inl (cc)
  found_if false c d other h = inr h

  absent_if :
      (b : Bool) (d : Credentials) (other : Result Failure (Option Credentials))
      → (if b then ok none else other) ≡ ok (some d)
      → other ≡ ok (some d)
  absent_if true d other h = cc
  absent_if false d other h = h

  module _ (laws : IsStore st) where
    request-IsBacked :
        (log : List Seen') (e : Seen')
        → IsBacked log e.before.store
        → IsBacked (e ∷ log) (served p cfg host tv st e).store
    request-IsBacked log e backed akid c found = elim (served-Change p cfg host tv st laws e) [
      | same unchanged ↦ inr (backed akid c (ap (λ s. st.get s akid) (sym unchanged) ∙ found))
      | stores d grants put ↦
          elim (found_if (text_eq d.access_key_id akid) d c (st.get e.before.store akid) (
            sym (laws.get-put e.before.store d (served p cfg host tv st e).store akid put)
            ∙ found)) [
              | inl e' ↦ inl (subst (λ x. Grants p cfg host tv st x e) e' grants)
              | inr old ↦ inr (backed akid c old)
            ]
    ]

    revoke-IsBacked :
        (log : List Seen') (s : st.State) (akid : Text)
        → IsBacked log s
        → IsBacked log (handle_revoke st s akid).1
    revoke-IsBacked log s k backed akid c found = elim (handle_revoke-cases p cfg host tv st s k) [
      | inl unchanged ↦ backed akid c (ap (λ u. st.get u akid) (sym unchanged) ∙ found)
      | inr deleted ↦ backed akid c (
          absent_if (text_eq k akid) c (st.get s akid)
            (sym (laws.get-delete s k (handle_revoke st s k).1 akid deleted) ∙ found))
    ]

    loss-IsBacked :
        (log : List Seen') (s s' : st.State)
        → Loses p cfg host tv st s s'
        → IsBacked log s
        → IsBacked log s'
    loss-IsBacked log s s' loses backed akid c found = elim (loses akid) [
      | inl kept ↦ backed akid c (sym kept ∙ found)
      | inr gone ↦ cc (gone, found)
    ]

    -- In every state of a run that begins with an empty store.
    pub Run-IsBacked :
        {s u : Proxy p cfg host tv st} {log : List Seen'}
        → IsEmpty s.store
        → Run p cfg host tv st s log u
        → IsBacked log u.store
    Run-IsBacked empty start = λ akid c found. cc (empty akid, found)
    Run-IsBacked empty (request {log} {u} r t random run) =
        request-IsBacked log (record { request = r; readings = t; random = random; before = u })
          (Run-IsBacked empty run)
    Run-IsBacked empty (revocation {log} {u} akid run) =
        revoke-IsBacked log u.store akid (Run-IsBacked empty run)
    Run-IsBacked empty (loss {log} {u} s' run loses) =
        loss-IsBacked log u.store s' loses (Run-IsBacked empty run)

  -- The exchange behind credentials: a request of the run, whose form the exchange has accepted. The
  -- validator accepted the token of the form, which has not expired since, for the user of the
  -- credentials, and the answer has granted them.
  pub record IsBehind (log : List (Seen p cfg host tv st)) (now : Time) (c : Credentials)
      : Type 0 where
    pub exchanging : Seen p cfg host tv st
    pub member : Any (λ x. x ≡ exchanging) log
    pub grants : Grants p cfg host tv st c exchanging
    pub grant : Grant
    pub accepted : checked p cfg.sts max_sts_body_bytes exchanging.request ≡ ok grant
    pub identity : Identity
    pub validated : (tv.validate exchanging.before.validator grant.token).0 ≡ ok identity
    pub user : c.username ≡ identity.username
    pub unexpired : now < identity.expiry

  -- The token behind a request that is sent upstream: the bearer token in the header of the request, or
  -- the token of the exchange that has granted the credentials with which the request is signed.
  pub data IsVouched (log : List (Seen p cfg host tv st)) (now : Seen p cfg host tv st)
      (sent : Request) : Type 0 where
    by_bearer :
        (b : IsByToken p cfg host tv now.request now.readings now.before.validator sent)
        → IsAttributedTo sent b.identity.username
        → IsVouched log now sent
    by_header :
        (b : IsByHeader p cfg host
          (st.get now.before.store)
          now.request
          (Http.get now.request.header (codes "Authorization"))
          now.readings
          sent)
        → (x : IsBehind log now.readings.checked b.creds) → IsAttributedTo sent x.identity.username
        → IsVouched log now sent
    by_url :
        (b : IsByUrl p cfg host (st.get now.before.store) now.request now.readings sent)
        → (x : IsBehind log now.readings.checked b.creds) → IsAttributedTo sent x.identity.username
        → IsVouched log now sent

  live_lt : (c : Credentials) (now : Time) → has_expired c now ≡ false → now < c.expires_at
  live_lt c now h = ground arith

  -- What is behind usable credentials of the run.
  usable-IsBehind :
      IsStore st
      → (log : List Seen') (s : st.State) (akid token : Text) (now : Time) (c : Credentials)
      → IsBacked log s
      → IsUsable (st.get s akid) token now c
      → IsBehind log now c
  usable-IsBehind laws log s akid token now c backed usable =
      let (e, grants, member) = Any-witness log (backed akid c usable.found) in
      let done =
        subst
          (IsExchanged tv st laws p cfg.sts max_sts_body_bytes e.request e.readings.checked
            e.before.validator e.before.store (exchange_of p cfg host tv st e).store)
          grants.creds
          (exchange-IsExchanged tv st laws p cfg.sts max_sts_body_bytes e.request e.random
            e.readings.checked e.before.validator e.before.store grants.doc grants.granted) in
      record {
        exchanging = e;
        member = member;
        grants = grants;
        grant = done.grant;
        accepted = done.accepted;
        identity = done.identity;
        validated = done.validated;
        user = done.granted.user;
        unexpired = omega (arith, live_lt c now usable.live, done.granted.within_token);
      }

  attributed :
      (sent r : Request) (username other : Text) (auth : Option Authorization) (now later : Time)
      → sent ≡ apply_identity p cfg host r username auth now later
      → username ≡ other
      → IsAttributedTo sent other
  attributed sent r username other auth now later sent_as user = subst (IsAttributedTo sent) user (
      subst (λ x. IsAttributedTo x username) (sym sent_as)
        (apply_identity-IsAttributedTo p cfg host username now later r auth))

  proved-IsVouched :
      IsStore st
      → (log : List Seen') (now : Seen') (sent : Request) → IsBacked log now.before.store
      → IsProved p cfg host tv st now.request now.readings now.before.validator now.before.store
          sent
      → IsVouched log now sent
  proved-IsVouched laws log now sent backed (inl b) =
      by_bearer b (attributed sent _ _ _ _ _ _ b.sent_as refl)
  proved-IsVouched laws log now sent backed (inr (inl h)) =
      let x =
        usable-IsBehind laws log now.before.store _ _ now.readings.checked h.creds backed
          h.usable in
      by_header h x (attributed sent _ _ _ _ _ _ h.sent_as x.user)
  proved-IsVouched laws log now sent backed (inr (inr h)) =
      let x =
        usable-IsBehind laws log now.before.store _ _ now.readings.checked h.creds backed
          h.usable in
      by_url h x (attributed sent _ _ _ _ _ _ h.sent_as x.user)

-- In strict mode, on a store that keeps the laws and that was empty at the start, a request is sent
-- upstream only as a request of a user with a token that the validator has accepted: the bearer token
-- in its own header, or the token of the form of an earlier request of the run, an exchange that
-- granted the stored credentials under which the signature of the request verifies; that token has not
-- expired since. This holds after any requests, revocations and losses of records, in any order.
pub serve-IsVouched :
    (p : Platform) (cfg : Config) (host : Text) (tv : TokenValidator) (st : Store)
    (s : Proxy p cfg host tv st) (log : List (Seen p cfg host tv st)) (now : Seen p cfg host tv st)
    (sent : Request)
    → IsStore st
    → strict_enabled cfg.data_path ≡ true
    → IsEmpty p cfg host tv st s.store
    → Run p cfg host tv st s log now.before
    → (served p cfg host tv st now).answer ≡ answered (forwarded sent)
    → IsVouched p cfg host tv st log now sent
unfolding serve
serve-IsVouched p cfg host tv st s log now sent laws strict empty run h =
    elim (Bool-cases (is_sts_request p now.request)) [
      | inl sts ↦ cc (rw (sts, serve) at h)
      | inr other ↦
          proved-IsVouched p cfg host tv st laws log now sent
            (Run-IsBacked p cfg host tv st laws empty run)
            (serve_data_path-IsProved p cfg host tv st now.request now.readings now.before.validator
              now.before.store sent strict (rw (other, serve) at h))
    ]
