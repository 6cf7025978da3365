-- ===== src/Sts/Exchange.antt =====
-- What an exchange does to the store, and the credentials that it grants.
use ozone_oidc_proxy.Base.{
  ℕ, ◌≡◌, refl, sym, ap, subst, ◌∙◌, ◌≤◌, ◌<◌, inl, inr, true, Option, none, some, Option-cases,
  ◌++◌, Result, ok, err, Result-cases, >>=-eq-ok, guard-eq-ok, guard, of_option, ◌≤ℤ◌, lt_ℤ, pos,
  arith,
}
use ozone_oidc_proxy.Text.{Text}
use ozone_oidc_proxy.Text.Equality.{text_eq_refl}
use ozone_oidc_proxy.Go.Clock.{Time, Duration, add, sub, seconds}
use ozone_oidc_proxy.Go.Http.{Request}
use ozone_oidc_proxy.Config
use ozone_oidc_proxy.Oidc.{Identity}
use ozone_oidc_proxy.Platform.{Platform}
use ozone_oidc_proxy.Store.{Credentials, Store, IsStore}
use ozone_oidc_proxy.Store.Mint.{Randomness, akid_prefix, crockford, mint}
use ozone_oidc_proxy.Sts.{
  Grant, Granted, Rejection, lifetime, checked, issue, exchange, TokenValidator, failed,
  grant_document,
}
use ozone_oidc_proxy.Sts.Lifetime.{lifetime_le}

mint-some :
    (random : Randomness) (username issuer : Text) (t : Time) (c : Credentials)
    → mint random username issuer t ≡ some c
    → (c.username ≡ username)
      × (c.issuer ≡ issuer)
      × (c.expires_at ≡ t)
      × ((key : Text) × (c.access_key_id ≡ akid_prefix ++ crockford key))
unfolding mint
mint-some random username issuer t c h = elim (Option-cases random.key_bytes) [
  | inl e ↦ cc (rw (e, mint) at h)
  | inr (k, ek) ↦ elim (Option-cases random.secret_bytes) [
    | inl e ↦ cc (rw (ek, e, mint) at h)
    | inr (s, es) ↦ elim (Option-cases random.token_bytes) [
      | inl e ↦ cc (rw (ek, es, e, mint) at h)
      | inr (b, eb) ↦ let same = rw (ek, es, eb, mint) at h in (cc, cc, cc, (k, cc))
    ]
  ]
]

-- Credentials that an exchange may grant for an identity.
pub record IsGranted (cfg : Config.Sts) (g : Grant) (i : Identity) (now : Time) (c : Credentials)
    : Type 0 where
  pub key : (bytes : Text) × (c.access_key_id ≡ akid_prefix ++ crockford bytes)
  pub user : c.username ≡ i.username
  pub origin : c.issuer ≡ i.issuer_name
  pub live : now < c.expires_at
  pub within_token : c.expires_at ≤ i.expiry
  pub within_max : c.expires_at ≤ add now (seconds cfg.max_duration)
  pub lasts : c.expires_at ≡ add now (lifetime cfg g.requested i.expiry now)

add_positive : (now : Time) (d : Duration) → lt_ℤ (pos 0) d ≡ true → now < add now d
unfolding add
add_positive now d h = ground arith

add_le : (now : Time) (d e : Duration) → lt_ℤ (pos 0) d ≡ true → d ≤ℤ e → add now d ≤ add now e
unfolding add
add_le now d e h le = ground arith

add-sub_le :
    (expiry now : Time) (d : Duration)
    → lt_ℤ (pos 0) d ≡ true
    → d ≤ℤ sub expiry now
    → add now d ≤ expiry
unfolding add sub
add-sub_le expiry now d h le = ground arith

minted-IsGranted :
    (cfg : Config.Sts) (g : Grant) (i : Identity) (random : Randomness) (now : Time)
    (c : Credentials)
    → lt_ℤ (pos 0) (lifetime cfg g.requested i.expiry now) ≡ true
    → mint random i.username i.issuer_name (add now (lifetime cfg g.requested i.expiry now))
      ≡ some c
    → IsGranted cfg g i now c
minted-IsGranted cfg g i random now c positive minted =
    let ttl = lifetime cfg g.requested i.expiry now in
    let (user, origin, at, key) =
      mint-some random i.username i.issuer_name (add now ttl) c minted in
    let (token, max) = lifetime_le cfg g.requested i.expiry now in
    record {
      key = key;
      user = user;
      origin = origin;
      live = rw at (add_positive now ttl positive);
      within_token = rw at (add-sub_le i.expiry now ttl positive token);
      within_max = rw at (add_le now ttl (seconds cfg.max_duration) positive max);
      lasts = at;
    }

some_minted :
    (e : Rejection) (d : Credentials) (m : Option Credentials) → of_option e m ≡ ok d → m ≡ some d
some_minted e d none h = cc
some_minted e d (some c) h = cc

module _ (st : Store) where
  pub issue-IsGranted :
      (cfg : Config.Sts) (g : Grant) (i : Identity) (random : Randomness) (now : Time)
      (s : st.State) (c : Credentials) (s' : st.State)
      → issue st cfg g i random now s ≡ ok (c, s')
      → IsGranted cfg g i now c × (st.put s c ≡ ok s')
  unfolding issue
  issue-IsGranted cfg g i random now s c s' h =
      let (_, positive, h) =
        >>=-eq-ok (guard (lt_ℤ (pos 0) (lifetime cfg g.requested i.expiry now)) _) _ h in
      let expires_at = add now (lifetime cfg g.requested i.expiry now) in
      let (d, minted, h) =
        >>=-eq-ok (of_option (failed i) (mint random i.username i.issuer_name expires_at)) _ h in
      elim (Result-cases (st.put s d)) [
        | inr (e, put) ↦ cc (rw put at h)
        | inl (s'', put) ↦
            let same : (d ≡ c) × (s'' ≡ s') = let h' = rw put at h in (cc, cc) in
            (
              minted-IsGranted cfg g i random now c (guard-eq-ok _ _ positive)
                  (some_minted (failed i) d _ minted ∙ ap some same.0),
              ap (st.put s) (sym same.0) ∙ put ∙ ap ok same.1,
            )
      ]

creds_eq : (d e : Granted) → ◌≡◌ {A = Result Rejection Granted} (ok d) (ok e) → d.creds ≡ e.creds
creds_eq d e h = cc

module _ (tv : TokenValidator) (st : Store) (laws : IsStore st) where
  -- What a successful exchange has done.
  pub record IsExchanged (p : Platform) (cfg : Config.Sts) (limit : ℕ) (r : Request) (now : Time)
      (v : tv.State) (s s' : st.State) (c : Credentials) : Type 0 where
    pub grant : Grant
    pub accepted : checked p cfg limit r ≡ ok grant
    pub identity : Identity
    pub validated : (tv.validate v grant.token).0 ≡ ok identity
    pub granted : IsGranted cfg grant identity now c
    pub stored : st.put s c ≡ ok s'
    pub holds : st.get s' c.access_key_id ≡ ok (some c)

  -- A successful exchange, on a store that keeps the laws, validated the token of the request and
  -- grants credentials for its identity that are alive and end with the token and after the
  -- configured maximum at the latest; the store holds them under their access key.
  pub exchange-IsExchanged :
      (p : Platform) (cfg : Config.Sts) (limit : ℕ) (r : Request) (random : Randomness) (now : Time)
      (v : tv.State) (s : st.State) (doc : Granted)
      → (exchange tv st p cfg limit r random now v s).response ≡ ok doc
      → IsExchanged p cfg limit r now v s
          (exchange tv st p cfg limit r random now v s).store
          doc.creds
  unfolding exchange
  exchange-IsExchanged p cfg limit r random now v s doc h =
      elim (Result-cases (checked p cfg limit r)) [
        | inr (e, refused) ↦ cc (rw refused at h)
        | inl (g, accepted) ↦ elim (Result-cases (tv.validate v g.token).0) [
          | inr (e, invalid) ↦ cc (rw (accepted, invalid) at h)
          | inl (i, validated) ↦ elim (Result-cases (issue st cfg g i random now s)) [
            | inr (e, failed_) ↦ cc (rw (accepted, validated, failed_) at h)
            | inl ((c, s'), issued) ↦
                let (granted, stored) = issue-IsGranted st cfg g i random now s c s' issued in
                let same : c ≡ doc.creds =
                  creds_eq (grant_document tv st g i c) doc
                    (rw (accepted, validated, issued) at h) in
                rw (accepted, validated, issued)
                  (subst (IsExchanged p cfg limit r now v s s') same (record {
                    grant = g;
                    accepted = accepted;
                    identity = i;
                    validated = validated;
                    granted = granted;
                    stored = stored;
                    holds =
                        laws.get-put s c s' c.access_key_id stored
                        ∙ rw (text_eq_refl c.access_key_id) refl;
                  }))
          ]
        ]
      ]

module _ (tv : TokenValidator) (st : Store) where
  -- An exchange that is refused leaves the store as it is.
  pub exchange-refused :
      (p : Platform) (cfg : Config.Sts) (limit : ℕ) (r : Request) (random : Randomness) (now : Time)
      (v : tv.State) (s : st.State) (e : Rejection)
      → (exchange tv st p cfg limit r random now v s).response ≡ err e
      → (exchange tv st p cfg limit r random now v s).store ≡ s
  unfolding exchange
  exchange-refused p cfg limit r random now v s e h = elim (Result-cases (checked p cfg limit r)) [
    | inr (e, refused) ↦ rw refused
    | inl (g, accepted) ↦ elim (Result-cases (tv.validate v g.token).0) [
      | inr (e, invalid) ↦ rw (accepted, invalid)
      | inl (i, validated) ↦ elim (Result-cases (issue st cfg g i random now s)) [
        | inr (e, failed_) ↦ rw (accepted, validated, failed_)
        | inl (done, issued) ↦ cc (rw (accepted, validated, issued) at h)
      ]
    ]
  ]
