-- ===== src/Oidc/Sound.antt =====
-- What a validated token has been checked for.
pub mod Exactly
use ozone_oidc_proxy.Base.{
  ◌≡◌, refl, sym, ap, ◌∙◌, inl, inr, true, false, Bool-cases, Option, none, some, Option-cases, ok,
  err, Result-cases, List, [], ◌∷◌, not, ◌&&◌, ◌||◌, is_nil, arith,
}
use ozone_oidc_proxy.Text.{Text}
use ozone_oidc_proxy.Go.Clock.{Time}
use ozone_oidc_proxy.Config.{Issuer, UsernamePolicy, member, validate_username}
use ozone_oidc_proxy.Oidc.{
  Identity, Verdict, verified, is_expired, is_invalid, Jwt, IssuerState, intersects, find_issuer,
  Step, resolve_jwks, needs_refresh, refreshed, lookup_key, username_of, identity_of, first_header,
  validate_with, select_issuer, Validator, validate, of_set, judge, first_look, second_look,
  with_url, register,
}

module _ (j : Jwt) where
  register-cfg : (i : IssuerState) (x : Option Text × j.World) → (register j i x).1.cfg ≡ i.cfg
  unfolding register
  register-cfg i (none, w) = refl
  register-cfg i (some url, w) = elim (Bool-cases (j.cache_register w url).0) [
    | inl e ↦ rw e
    | inr e ↦ rw e
  ]

  resolve_jwks-cfg : (i : IssuerState) (w : j.World) → (resolve_jwks j i w).1.cfg ≡ i.cfg
  unfolding resolve_jwks
  resolve_jwks-cfg i w = elim (Bool-cases (is_nil i.jwks_url)) [
    | inr e ↦ rw e
    | inl e ↦ rw e (register-cfg i _)
  ]

  of_set-cfg : (i : IssuerState) (x : Option j.KeySet × j.World) → (of_set j x i).1.cfg ≡ i.cfg
  of_set-cfg i (none, w) = refl
  of_set-cfg i (some set, w) = refl

  refreshed-cfg :
      (i : IssuerState) (w : j.World) (now : Time) (url : Text)
      → (refreshed j i w now url).1.cfg ≡ i.cfg
  unfolding refreshed
  refreshed-cfg i w now url = elim (Bool-cases (needs_refresh j i now)) [
    | inl e ↦ rw e (of_set-cfg (record i { last_refresh = now }) _)
    | inr e ↦ rw e (of_set-cfg i _)
  ]

  second_look-cfg : (kid : Text) (x : Step j j.KeySet) → (second_look j kid x).1.cfg ≡ x.1.cfg
  second_look-cfg kid (err e, i, w) = refl
  second_look-cfg kid (ok set, i, w) = refl

  first_look-cfg :
      (kid : Text) (now : Time) (url : Text) (x : Step j j.KeySet)
      → (first_look j kid now url x).1.cfg ≡ x.1.cfg
  first_look-cfg kid now url (err e, i, w) = refl
  first_look-cfg kid now url (ok set, i, w) = elim (Option-cases (j.lookup_key_id set kid)) [
    | inl e ↦ rw e (second_look-cfg kid (refreshed j i w now url) ∙ refreshed-cfg i w now url)
    | inr (key, e) ↦ rw e
  ]

  with_url-cfg :
      (kid : Text) (now : Time) (x : Step j Text) → (with_url j kid now x).1.cfg ≡ x.1.cfg
  with_url-cfg kid now (err e, i, w) = refl
  with_url-cfg kid now (ok url, i, w) =
      first_look-cfg kid now url (of_set j (j.cache_get w url) i) ∙ of_set-cfg i (j.cache_get w url)

  pub lookup_key-cfg :
      (i : IssuerState) (w : j.World) (now : Time) (kid : Text)
      → (lookup_key j i w now kid).1.cfg ≡ i.cfg
  unfolding lookup_key
  lookup_key-cfg i w now kid = with_url-cfg kid now (resolve_jwks j i w) ∙ resolve_jwks-cfg i w

  -- What the identity of a token is known to satisfy.
  pub record IsIdentityOf (policy : UsernamePolicy) (cfg : Issuer) (token : j.Token)
      (who : Identity) : Type 0 where
    pub audience : intersects (j.audience token) cfg.audiences ≡ true
    pub user : who.username ≡ username_of j cfg token
    pub given : is_nil who.username ≡ false
    pub permitted : validate_username policy who.username ≡ true
    pub subject : who.subject ≡ j.subject token
    pub origin : who.issuer_name ≡ cfg.name
    pub origin_url : who.issuer_url ≡ cfg.issuer
    pub expiry : who.expiry ≡ j.expiration token

  identity_of-IsIdentityOf :
      (policy : UsernamePolicy) (cfg : Issuer) (token : j.Token) (who : Identity)
      → identity_of j policy cfg token ≡ ok who
      → IsIdentityOf policy cfg token who
  unfolding identity_of
  identity_of-IsIdentityOf policy cfg token who h =
      let name = username_of j cfg token in
      elim (Bool-cases (intersects (j.audience token) cfg.audiences)) [
        | inr e ↦ cc (rw e at h)
        | inl audience ↦ elim (Bool-cases (is_nil name || not (validate_username policy name))) [
          | inl e ↦ cc (rw (audience, e) at h)
          | inr fine ↦
              let permits : validate_username policy name ≡ true = ground arith in
              let made = rw (audience, fine) at h in
              let user : name ≡ who.username = cc in
              let given : is_nil name ≡ false = ground arith in
              record {
                audience = audience;
                user = sym user;
                given = ap is_nil (sym user) ∙ given;
                subject = cc;
                origin = cc;
                origin_url = cc;
                expiry = cc;
                permitted = ap (validate_username policy) (sym user) ∙ permits;
              }
        ]
      ]

  -- What is behind a validated token.
  pub record IsValidated (v : Validator j) (raw : Text) (now : Time) (who : Identity) : Type 0 where
    pub given : is_nil raw ≡ false
    pub url : Text
    pub named : j.unverified_issuer raw ≡ some url
    pub issuer : IssuerState
    pub known : find_issuer v.issuers url ≡ some issuer
    pub alg : Text
    pub kid : Text
    pub allowed : first_header j v.allowed_algs raw ≡ ok (alg, kid)
    pub listed : member alg v.allowed_algs ≡ true
    pub key : j.Key
    pub found : (lookup_key j issuer v.world now kid).0 ≡ ok key
    pub token : j.Token
    pub signed : j.parse raw alg key now ≡ verified token
    pub identity : IsIdentityOf v.policy issuer.cfg token who

  first_header-listed :
      (algs : List Text) (raw : Text) (h : Text × Text)
      → first_header j algs raw ≡ ok h
      → member h.0 algs ≡ true
  unfolding first_header
  first_header-listed algs raw h e = elim (Option-cases (j.protected_headers raw)) [
    | inl n ↦ cc (rw n at e)
    | inr ([], n) ↦ cc (rw n at e)
    | inr ((k ∷ ks), n) ↦ elim (Bool-cases (member k.0 algs && not (is_nil k.1))) [
      | inr differs ↦ cc (rw (n, differs) at e)
      | inl fits ↦
          let same : k ≡ h = cc (rw (n, fits) at e) in
          ap (λ (x : Text × Text). member x.0 algs) (sym same) ∙ ground arith
    ]
  ]

  select_issuer-eq-ok :
      (issuers : List IssuerState) (raw : Text) (i : IssuerState)
      → select_issuer j issuers raw ≡ ok i
      → (is_nil raw ≡ false)
        × (url : Text) × (j.unverified_issuer raw ≡ some url)
        × (find_issuer issuers url ≡ some i)
  unfolding select_issuer
  select_issuer-eq-ok issuers raw i h = elim (Bool-cases (is_nil raw)) [
    | inl e ↦ cc (rw e at h)
    | inr e ↦ elim (Option-cases (j.unverified_issuer raw)) [
      | inl n ↦ cc (rw (e, n) at h)
      | inr (url, named) ↦ elim (Option-cases (find_issuer issuers url)) [
        | inl n ↦ cc (rw (e, named, n) at h)
        | inr (k, found) ↦ (e, url, named, found ∙ ap some (cc (rw (e, named, found) at h)))
      ]
    ]
  ]

  validate_with-eq-ok :
      (v : Validator j) (raw : Text) (now : Time) (i : IssuerState) (who : Identity)
      → (validate_with j v.policy v.allowed_algs raw now i v.world).0 ≡ ok who
      → (h : Text × Text) × (key : j.Key) × (token : j.Token) × (first_header j v.allowed_algs raw
          ≡ ok h)
        × ((lookup_key j i v.world now h.1).0 ≡ ok key)
        × (j.parse raw h.0 key now ≡ verified token)
        × (identity_of j v.policy i.cfg token ≡ ok who)
  unfolding validate_with
  validate_with-eq-ok v raw now i who h = elim (Result-cases (first_header j v.allowed_algs raw)) [
    | inr (e, refused) ↦ cc (rw refused at h)
    | inl ((alg, kid), allowed) ↦ elim (Result-cases (lookup_key j i v.world now kid).0) [
      | inr (e, missing) ↦ cc (rw (allowed, missing) at h)
      | inl (key, found) ↦
          let judged = rw (allowed, found, lookup_key-cfg i v.world now kid) at h in
          let (token, signed, named) =
            judge-eq-ok v.policy i.cfg (j.parse raw alg key now) who judged in
          ((alg, kid), key, token, allowed, found, signed, named)
    ]
  ]
    where
      judge-eq-ok :
          (policy : UsernamePolicy) (cfg : Issuer) (x : Verdict j.Token) (who : Identity)
          → judge j policy cfg x ≡ ok who
          → (token : j.Token) × (x ≡ verified token) × (identity_of j policy cfg token ≡ ok who)
      judge-eq-ok policy cfg (verified token) who h = (token, refl, h)
      judge-eq-ok policy cfg is_expired who h = cc
      judge-eq-ok policy cfg is_invalid who h = cc

  -- A validated token names a configured issuer and an allowed algorithm, is signed with a key of
  -- that issuer and verified at this time, is meant for one of the issuer's audiences, and the
  -- identity is the configured claim, or else the subject, that the username policy permits.
  pub validate-IsValidated :
      (v : Validator j) (raw : Text) (now : Time) (who : Identity)
      → (validate j v raw now).0 ≡ ok who
      → IsValidated v raw now who
  unfolding validate
  validate-IsValidated v raw now who h = elim (Result-cases (select_issuer j v.issuers raw)) [
    | inr (e, refused) ↦ cc (rw refused at h)
    | inl (i, chosen) ↦
        let (given, url, named, known) = select_issuer-eq-ok v.issuers raw i chosen in
        let ((alg, kid), key, token, allowed, found, signed, made) =
          validate_with-eq-ok v raw now i who (rw chosen at h) in
        record {
          given = given;
          url = url;
          named = named;
          issuer = i;
          known = known;
          alg = alg;
          kid = kid;
          allowed = allowed;
          listed = first_header-listed v.allowed_algs raw (alg, kid) allowed;
          key = key;
          found = found;
          token = token;
          signed = signed;
          identity = identity_of-IsIdentityOf v.policy i.cfg token who made;
        }
  ]
