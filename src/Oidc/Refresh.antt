-- ===== src/Oidc/Refresh.antt =====
-- The refresh of an issuer's keys: once within the cool-down, and how a rotated key is found.
use ozone_oidc_proxy.Oidc.{discover}
use ozone_oidc_proxy.Base.{
  ℕ, ◌+◌, ◌≡◌, refl, subst, ◌⊎◌, inl, inr, true, false, Bool-cases, Option, none, some,
  Option-cases, ok, err, is_nil, lt_ℤ,
}
use ozone_oidc_proxy.Text.{Text}
use ozone_oidc_proxy.Go.Clock.{Time, sub}
use ozone_oidc_proxy.Oidc.{
  refresh_cooldown, Jwt, IssuerState, Step, resolve_jwks, needs_refresh, refreshed, lookup_key,
  of_set, first_look, second_look, with_url, register,
}

-- The same library, with a count of the calls of `cache_refresh` in the world.
abbrev pub counting : Jwt → Jwt
counting j = record {
  World = j.World × ℕ;
  Key = j.Key;
  KeySet = j.KeySet;
  Token = j.Token;
  unverified_issuer = j.unverified_issuer;
  protected_headers = j.protected_headers;
  parse = j.parse;
  audience = j.audience;
  subject = j.subject;
  expiration = j.expiration;
  claim = j.claim;
  lookup_key_id = j.lookup_key_id;
  cache_get = λ (w, n) url. let r = j.cache_get w url in (r.0, (r.1, n));
  cache_refresh = λ (w, n) url. let r = j.cache_refresh w url in (r.0, (r.1, n + 1));
  cache_register = λ (w, n) url. let r = j.cache_register w url in (r.0, (r.1, n));
  fetch_jwks_uri = λ (w, n) url. let r = j.fetch_jwks_uri w url in (r.0, (r.1, n));
}

-- Behind a step that began with this refresh time and this count: nothing was refreshed and the time
-- stays, or there was one refresh, more than the cool-down after the last one, and its time is recorded.
abbrev pub IsCooled : (last now : Time) (n : ℕ) → (next : Time) (n' : ℕ) → Type 0
IsCooled last now n next n' =
    ((n' ≡ n) × (next ≡ last))
    ⊎ ((n' ≡ n + 1) × (next ≡ now) × (lt_ℤ refresh_cooldown (sub now last) ≡ true))

module _ (j : Jwt) where
  open j use {World}

  abbrev c : Jwt
  c = counting j

  -- A step that refreshes nothing.
  abbrev IsIdle : {A : Type 0} → IssuerState → ℕ → Step c A → Type 0
  IsIdle i n r = (r.2.1 ≡ n) × (r.1.last_refresh ≡ i.last_refresh)

  register-IsIdle :
      (i : IssuerState) (x : Option Text) (w : World) (n : ℕ)
      → IsIdle i n (register c i (x, (w, n)))
  unfolding register
  register-IsIdle i none w n = (refl, refl)
  register-IsIdle i (some url) w n = elim (Bool-cases (j.cache_register w url).0) [
    | inl e ↦ rw e (refl, refl)
    | inr e ↦ rw e (refl, refl)
  ]

  resolve_jwks-IsIdle : (i : IssuerState) (w : World) (n : ℕ) → IsIdle i n (resolve_jwks c i (w, n))
  unfolding resolve_jwks discover
  resolve_jwks-IsIdle i w n = elim (Bool-cases (is_nil i.jwks_url)) [
    | inr e ↦ rw e (refl, refl)
    | inl e ↦ elim (Bool-cases (is_nil i.cfg.jwks_uri)) [
      | inl f ↦ rw (e, f) (register-IsIdle i _ (j.fetch_jwks_uri w _).1 n)
      | inr f ↦ rw (e, f) (register-IsIdle i (some i.cfg.jwks_uri) w n)
    ]
  ]

  of_set-IsIdle :
      (i : IssuerState) (x : Option j.KeySet) (w : World) (n : ℕ)
      → IsIdle i n (of_set c (x, (w, n)) i)
  of_set-IsIdle i none w n = (refl, refl)
  of_set-IsIdle i (some set) w n = (refl, refl)

  abbrev CooledFrom : {A : Type 0} → Time → IssuerState → ℕ → Step c A → Type 0
  CooledFrom now i n r = IsCooled i.last_refresh now n r.1.last_refresh r.2.1

  idle-IsCooled :
      {A : Type 0} (now : Time) (i : IssuerState) (n : ℕ) (r : Step c A)
      → IsIdle i n r
      → CooledFrom now i n r
  idle-IsCooled now i n r idle = inl idle

  refreshed-IsCooled :
      (i : IssuerState) (w : World) (n : ℕ) (now : Time) (url : Text)
      → CooledFrom now i n (refreshed c i (w, n) now url)
  unfolding refreshed needs_refresh
  refreshed-IsCooled i w n now url =
      elim (Bool-cases (lt_ℤ refresh_cooldown (sub now i.last_refresh))) [
        | inl e ↦
            let (count, last) =
              of_set-IsIdle (record i { last_refresh = now }) (j.cache_refresh w url).0
                (j.cache_refresh w url).1 (n + 1) in
            rw e (inr (count, last, refl))
        | inr e ↦ rw e (inl (of_set-IsIdle i (j.cache_get w url).0 (j.cache_get w url).1 n))
      ]

  second_look-IsCooled :
      (now : Time) (i : IssuerState) (n : ℕ) (kid : Text) (x : Step c j.KeySet)
      → CooledFrom now i n x
      → CooledFrom now i n (second_look c kid x)
  second_look-IsCooled now i n kid (err e, k, w) h = h
  second_look-IsCooled now i n kid (ok set, k, w) h = h

  first_look-IsCooled :
      (kid : Text) (now : Time) (url : Text) (x : Step c j.KeySet)
      → CooledFrom now x.1 x.2.1 (first_look c kid now url x)
  first_look-IsCooled kid now url (err e, i, w) = inl (refl, refl)
  first_look-IsCooled kid now url (ok set, i, (w, n)) =
      elim (Option-cases (j.lookup_key_id set kid)) [
        | inr (key, e) ↦ rw e (inl (refl, refl))
        | inl e ↦ rw e (
            second_look-IsCooled now i n kid (refreshed c i (w, n) now url)
              (refreshed-IsCooled i w n now url))
      ]

  after_idle :
      {A : Type 0} (now : Time) (i k : IssuerState) (n n' : ℕ) (r : Step c A)
      → (n' ≡ n) × (k.last_refresh ≡ i.last_refresh)
      → CooledFrom now k n' r
      → CooledFrom now i n r
  after_idle now i k n n' r (count, last) h =
      subst (λ m. IsCooled i.last_refresh now m r.1.last_refresh r.2.1) count
        (subst (λ t. IsCooled t now n' r.1.last_refresh r.2.1) last h)

  with_url-IsCooled :
      (kid : Text) (now : Time) (x : Step c Text) → CooledFrom now x.1 x.2.1 (with_url c kid now x)
  with_url-IsCooled kid now (err e, i, w) = inl (refl, refl)
  with_url-IsCooled kid now (ok url, i, (w, n)) =
      let x = of_set c (c.cache_get (w, n) url) i in
      after_idle now i x.1 n x.2.1 (first_look c kid now url x)
        (of_set-IsIdle i (j.cache_get w url).0 (j.cache_get w url).1 n)
        (first_look-IsCooled kid now url x)

  -- Looking up a key refreshes the cached keys at most once, and only when more than the cool-down has
  -- passed since the refresh that is recorded; the refresh is then recorded with the present time. With
  -- no refresh the recorded time stays. The calls of `cache_refresh` are counted in the world.
  pub lookup_key-IsCooled :
      (i : IssuerState) (w : j.World) (n : ℕ) (now : Time) (kid : Text)
      → IsCooled i.last_refresh now n
          (lookup_key (counting j) i (w, n) now kid).1.last_refresh
          (lookup_key (counting j) i (w, n) now kid).2.1
  unfolding lookup_key
  lookup_key-IsCooled i w n now kid =
      let x = resolve_jwks c i (w, n) in
      after_idle now i x.1 n x.2.1 (with_url c kid now x) (resolve_jwks-IsIdle i w n)
        (with_url-IsCooled kid now x)

  -- A rotated key is found: where the JWKS address is known and the cool-down is over, a key that
  -- the cached set lacks and the refreshed set has is returned, and the refresh is recorded.
  pub lookup_key-rotated :
      (i : IssuerState) (w w' w'' : j.World) (now : Time) (kid : Text) (old new : j.KeySet)
      (key : j.Key)
      → is_nil i.jwks_url ≡ false
      → j.cache_get w i.jwks_url ≡ (some old, w')
      → j.lookup_key_id old kid ≡ none
      → needs_refresh j i now ≡ true
      → j.cache_refresh w' i.jwks_url ≡ (some new, w'')
      → j.lookup_key_id new kid ≡ some key
      → lookup_key j i w now kid ≡ (ok key, record i { last_refresh = now }, w'')
  unfolding lookup_key resolve_jwks refreshed
  lookup_key-rotated i w w' w'' now kid old new key known cached missing cooled fresh found =
      rw (known, cached, missing, cooled, fresh, found)
