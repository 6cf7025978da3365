-- ===== src/Config/Valid.antt =====
-- What an accepted configuration satisfies.
use ozone_oidc_proxy.Base.{
  ◌≡◌, refl, ◌⊎◌, inl, inr, Bool, true, false, Bool-cases, Option, none, some, ok, if◌then◌else◌,
  List, [], ◌∷◌, is_nil, not, ◌||◌, all, All, arith, guard, guard-eq-ok, >>=-eq-ok, of_option, lt_ℤ,
  pos, ok_injective, subst,
}
use ozone_oidc_proxy.Text.{Text, text_eq}
use ozone_oidc_proxy.Text.Equality.{text_eq_sound}
use ozone_oidc_proxy.Platform.{Platform}
use ozone_oidc_proxy.Config.{
  Config, Issuer, CredentialStore, member, mode_rewrite, mode_resign, store_memory, store_valkey,
  supported_signing_algs, check_http_url, check_store, check_issuer, check_issuers, validate, parse,
  bad_pattern,
}

-- An issuer that is complete, and not one of those before it.
pub record IsIssuer (names urls : List Text) (i : Issuer) : Type 0 where
  pub named : is_nil i.name ≡ false
  pub new_name : member i.name names ≡ false
  pub located : is_nil i.issuer ≡ false
  pub new_url : member i.issuer urls ≡ false
  pub has_audience : is_nil i.audiences ≡ false

-- Every issuer is complete, and no two have a name or a URL in common.
abbrev pub AreIssuers : List Text → List Text → List Issuer → Type 0
AreIssuers names urls [] = Unit {0}
AreIssuers names urls (i ∷ is) =
    IsIssuer names urls i × AreIssuers (i.name ∷ names) (i.issuer ∷ urls) is

not-true : (b : Bool) → not b ≡ true → b ≡ false
not-true true h = cc
not-true false h = refl

module _ (p : Platform) where
  check_issuer-IsIssuer :
      (names urls : List Text) (i : Issuer)
      → check_issuer p names urls i ≡ ok tt
      → IsIssuer names urls i
  unfolding check_issuer
  check_issuer-IsIssuer names urls i e =
      let (_, named, e) = >>=-eq-ok (guard (not (is_nil i.name)) _) _ e in
      let (_, new_name, e) = >>=-eq-ok (guard (not (member i.name names)) _) _ e in
      let (_, located, e) = >>=-eq-ok (guard (not (is_nil i.issuer)) _) _ e in
      let (_, new_url, e) = >>=-eq-ok (guard (not (member i.issuer urls)) _) _ e in
      let (_, _, e) = >>=-eq-ok (check_http_url p i.issuer) _ e in
      let (_, _, e) =
        >>=-eq-ok (if is_nil i.jwks_uri then ok tt else check_http_url p i.jwks_uri) _ e in
      let n1 = guard-eq-ok _ _ named in
      let n2 = guard-eq-ok _ _ new_name in
      let n3 = guard-eq-ok _ _ located in
      let n4 = guard-eq-ok _ _ new_url in
      let n5 = guard-eq-ok _ _ e in
      record {
        named = not-true _ n1;
        new_name = not-true _ n2;
        located = not-true _ n3;
        new_url = not-true _ n4;
        has_audience = not-true _ n5;
      }

  check_issuers-AreIssuers :
      (names urls : List Text) (is : List Issuer)
      → check_issuers p names urls is ≡ ok tt
      → AreIssuers names urls is
  unfolding check_issuers
  check_issuers-AreIssuers names urls [] e = tt
  check_issuers-AreIssuers names urls (i ∷ is) e =
      let (_, first, e) = >>=-eq-ok (check_issuer p names urls i) _ e in
      (check_issuer-IsIssuer names urls i first, check_issuers-AreIssuers _ _ is e)

  check_store-kind :
      (s : CredentialStore)
      → check_store p s ≡ ok tt
      → (s.kind ≡ store_memory) ⊎ ((s.kind ≡ store_valkey) × (is_nil s.addr ≡ false))
  unfolding check_store
  check_store-kind s e = elim (Bool-cases (text_eq s.kind store_memory)) [
    | inl m ↦ inl (text_eq_sound _ _ m)
    | inr n ↦ elim (Bool-cases (text_eq s.kind store_valkey)) [
      | inr k ↦ cc (rw (n, k) at e)
      | inl k ↦
          inr (text_eq_sound _ _ k, not-true (is_nil s.addr) (guard-eq-ok _ _ (rw (n, k) at e)))
    ]
  ]

  all-All : (P : Text → Bool) (xs : List Text) → all P xs ≡ true → All (λ x. P x ≡ true) xs
  all-All P [] h = tt
  all-All P (x ∷ xs) h = elim (Bool-cases (P x)) [
    | inl e ↦ (e, all-All P xs (rw e at h))
    | inr e ↦ cc (rw e at h)
  ]

  -- What an accepted configuration satisfies.
  pub record IsValid (c : Config) : Type 0 where
    pub has_endpoint : is_nil c.upstream.s3_endpoint ≡ false
    pub endpoint : check_http_url p c.upstream.s3_endpoint ≡ ok tt
    pub mode : (c.upstream.forward_mode ≡ mode_rewrite) ⊎ (c.upstream.forward_mode ≡ mode_resign)
    pub store :
        (c.credential_store.kind ≡ store_memory)
        ⊎ ((c.credential_store.kind ≡ store_valkey) × (is_nil c.credential_store.addr ≡ false))
    pub has_issuer : is_nil c.issuers ≡ false
    pub issuers : AreIssuers [] [] c.issuers
    pub duration : lt_ℤ (pos 0) c.sts.max_duration ≡ true
    pub skew : lt_ℤ (pos 0) c.security.sigv4_clock_skew ≡ true
    pub algs : All (λ alg. member alg supported_signing_algs ≡ true) c.security.allowed_signing_algs
    pub regex : Text → Bool
    pub compiled : p.compile_pattern c.username_policy.pattern ≡ some regex
    pub policy : c.username_policy.regex ≡ some regex

  mode_of :
      (m : Text)
      → (text_eq m mode_rewrite || text_eq m mode_resign) ≡ true
      → (m ≡ mode_rewrite) ⊎ (m ≡ mode_resign)
  mode_of m h = elim (Bool-cases (text_eq m mode_rewrite)) [
    | inl e ↦ inl (text_eq_sound _ _ e)
    | inr e ↦ inr (text_eq_sound _ _ (ground arith))
  ]

  validate-IsValid : (c c' : Config) → validate p c ≡ ok c' → IsValid c'
  unfolding validate
  validate-IsValid c c' e =
      let (_, endpoint, e) = >>=-eq-ok (guard (not (is_nil c.upstream.s3_endpoint)) _) _ e in
      let (_, located, e) = >>=-eq-ok (check_http_url p c.upstream.s3_endpoint) _ e in
      let (_, mode, e) =
        >>=-eq-ok
          (guard
            (text_eq c.upstream.forward_mode mode_rewrite
              || text_eq c.upstream.forward_mode mode_resign)
            _)
          _ e in
      let (_, store, e) = >>=-eq-ok (check_store p c.credential_store) _ e in
      let (_, nonempty, e) = >>=-eq-ok (guard (not (is_nil c.issuers)) _) _ e in
      let (_, issuers, e) = >>=-eq-ok (check_issuers p [] [] c.issuers) _ e in
      let (_, duration, e) = >>=-eq-ok (guard (lt_ℤ (pos 0) c.sts.max_duration) _) _ e in
      let (_, skew, e) = >>=-eq-ok (guard (lt_ℤ (pos 0) c.security.sigv4_clock_skew) _) _ e in
      let (_, algs, e) =
        >>=-eq-ok
          (guard (all (λ alg. member alg supported_signing_algs) c.security.allowed_signing_algs) _)
          _ e in
      let (regex, compiled, e) =
        >>=-eq-ok (of_option bad_pattern (p.compile_pattern c.username_policy.pattern)) _ e in
      subst IsValid (ok_injective _ c' e) (record {
        endpoint = located;
        has_endpoint = not-true _ (guard-eq-ok _ _ endpoint);
        mode = mode_of _ (guard-eq-ok _ _ mode);
        store = check_store-kind c.credential_store store;
        has_issuer = not-true _ (guard-eq-ok _ _ nonempty);
        issuers = check_issuers-AreIssuers [] [] c.issuers issuers;
        duration = guard-eq-ok _ _ duration;
        skew = guard-eq-ok _ _ skew;
        algs =
            all-All (λ alg. member alg supported_signing_algs) c.security.allowed_signing_algs
              (guard-eq-ok _ _ algs);
        regex = regex;
        compiled = some_of (p.compile_pattern c.username_policy.pattern) compiled;
        policy = refl;
      })
    where
      some_of :
          (m : Option (Text → Bool)) {f : Text → Bool} → of_option bad_pattern m ≡ ok f → m ≡ some f
      some_of none h = cc
      some_of (some g) h = cc

  -- A configuration that `Parse` accepts is complete: an endpoint, a known forward mode and store,
  -- at least one issuer, no two issuers of one name or URL, each with an audience, positive limits,
  -- supported algorithms only, and a compiled username policy.
  pub parse-IsValid : (env : Text → Text) (c c' : Config) → parse p env c ≡ ok c' → IsValid c'
  unfolding parse
  parse-IsValid env c c' e = validate-IsValid _ c' e
