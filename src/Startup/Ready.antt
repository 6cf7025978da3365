-- ===== src/Startup/Ready.antt =====
-- An accepted configuration starts.
use ozone_oidc_proxy.Base.{
  ◌≡◌, refl, ◌∙◌, ◌⊎◌, subst, inl, inr, Bool, true, false, Bool-cases, List, [], ◌∷◌, Option, none,
  some, All, arith, is_nil, not, Result, ok, err, Result-cases, of_option, guard-eq-ok, ◌>>=◌, ◌&&◌,
  >>=-eq-ok, ok_injective,
}
use ozone_oidc_proxy.Text.{Text, text_eq}
use ozone_oidc_proxy.Text.Equality.{text_eq_sound, text_eq_refl, text_eq_iff}
use ozone_oidc_proxy.Config
use ozone_oidc_proxy.Config.{
  Config, Issuer, absolute, member, store_valkey, check_http_url, bad_url,
}
use ozone_oidc_proxy.Config.Valid.{AreIssuers, IsValid, parse-IsValid}
use ozone_oidc_proxy.Oidc.{IssuerState, find_issuer}
use ozone_oidc_proxy.Platform.{Platform}
use ozone_oidc_proxy.Store.Valkey.{parse_store_key, new_aead}
use ozone_oidc_proxy.Startup.{
  Host, Failure, no_store_key, bad_store_key, not_connected, Chosen, in_memory, shared, Running,
  new_issuer, without_issuer, new_issuers, load, decoded, of_problem, of_fault, new_valkey,
  new_store, new_server, start,
}

member-ne :
    (u v : Text) (urls : List Text)
    → member u urls ≡ true
    → member v urls ≡ false
    → text_eq v u ≡ false
unfolding member
member-ne u v [] h k = cc
member-ne u v (w ∷ urls) h k =
    ground (arith, member-ne u v urls, text_eq_iff w u, text_eq_iff v u, text_eq_iff w v)

member_head : (u : Text) (urls : List Text) → member u (u ∷ urls) ≡ true
unfolding member
member_head u urls = rw (text_eq_refl u) refl

member_tail : (u v : Text) (urls : List Text) → member u urls ≡ true → member u (v ∷ urls) ≡ true
unfolding member
member_tail u v urls h = ground arith

find-without :
    (is : List IssuerState) (u v : Text)
    → text_eq v u ≡ false
    → find_issuer (without_issuer is v) u ≡ find_issuer is u
unfolding find_issuer without_issuer
find-without [] u v h = refl
find-without (i ∷ is) u v h = ground (
  arith,
  find-without is u v,
  text_eq_iff i.cfg.issuer v,
  text_eq_iff i.cfg.issuer u,
  text_eq_iff v u,
)

-- An issuer that is there already is not replaced by others.
find-new_issuers :
    (names urls : List Text) (is : List Issuer) (acc : List IssuerState) (u : Text)
    → AreIssuers names urls is
    → member u urls ≡ true
    → find_issuer (new_issuers is acc) u ≡ find_issuer acc u
unfolding new_issuers find_issuer
find-new_issuers names urls [] acc u ok_ h = refl
find-new_issuers names urls (i ∷ is) acc u (first, rest) h =
    let apart = member-ne u i.issuer urls h first.new_url in
    find-new_issuers (i.name ∷ names) (i.issuer ∷ urls) is
      (new_issuer i ∷ without_issuer acc i.issuer) u rest (member_tail u i.issuer urls h)
    ∙ rw apart (find-without acc u i.issuer apart)

-- Every configured issuer is found under its URL, with its own settings.
new_issuers-found :
    (names urls : List Text) (is : List Issuer) (acc : List IssuerState)
    → AreIssuers names urls is
    → All (λ i. find_issuer (new_issuers is acc) i.issuer ≡ some (new_issuer i)) is
unfolding new_issuers find_issuer
new_issuers-found names urls [] acc h = tt
new_issuers-found names urls (i ∷ is) acc (first, rest) = (
  find-new_issuers (i.name ∷ names) (i.issuer ∷ urls) is
        (new_issuer i ∷ without_issuer acc i.issuer) i.issuer rest (member_head i.issuer urls)
      ∙ rw (text_eq_refl i.issuer) refl,
  new_issuers-found (i.name ∷ names) (i.issuer ∷ urls) is
      (new_issuer i ∷ without_issuer acc i.issuer) rest,
)

-- The failures that are the store's.
abbrev pub IsStoreFailure : Failure → Type 0
IsStoreFailure Failure.no_store_key = Unit {0}
IsStoreFailure (Failure.bad_store_key e) = Unit {0}
IsStoreFailure Failure.not_connected = Unit {0}
IsStoreFailure Failure.unreadable = ⊥
IsStoreFailure Failure.undecodable = ⊥
IsStoreFailure (Failure.rejected e) = ⊥
IsStoreFailure Failure.bad_endpoint = ⊥

-- A server with this configuration, whose upstream has a host and which knows every issuer.
pub record IsReady (c : Config) (run : Running) : Type 0 where
  pub cfg : run.cfg ≡ c
  pub host : is_nil run.upstream_host ≡ false
  pub issuers : All (λ i. find_issuer run.issuers i.issuer ≡ some (new_issuer i)) c.issuers

module _ (p : Platform) (h : Host) where
  endpoint_host :
      (url : Text)
      → check_http_url p url ≡ ok tt
      → (scheme : Text) × (host : Text) × (p.parse_url url ≡ some (scheme, host))
        × (is_nil host ≡ false)
  unfolding check_http_url
  endpoint_host url e =
      host_given (p.parse_url url) (guard-eq-ok (absolute p (p.parse_url url)) bad_url e)
    where
      conj : (a b : Bool) → (a && not b) ≡ true → b ≡ false
      conj a b k = ground arith

      host_given :
          (o : Option (Text × Text))
          → absolute p o ≡ true
          → (scheme : Text) × (host : Text) × (o ≡ some (scheme, host)) × (is_nil host ≡ false)
      host_given none k = cc
      host_given (some (scheme, host)) k = (scheme, host, refl, conj _ (is_nil host) k)

  load-IsValid : (path : Text) (c : Config) → load p h path ≡ ok c → IsValid p c
  unfolding load
  load-IsValid path c e =
      let (raw, read, e) = >>=-eq-ok (of_option Failure.unreadable (h.read_file path)) _ e in
      from_decoded (h.decode_yaml raw) e
    where
      from_parsed :
          (d : Config) (r : Result Config.Problem Config)
          → Config.parse p h.getenv d ≡ r
          → of_problem r ≡ ok c
          → IsValid p c
      from_parsed d (ok c') accepted k =
          subst (IsValid p) (ok_injective c' c k) (parse-IsValid p h.getenv d c' accepted)
      from_parsed d (err problem) accepted k = cc

      from_decoded : (o : Option Config) → decoded p h o ≡ ok c → IsValid p c
      from_decoded none k = cc
      from_decoded (some d) k = from_parsed d (Config.parse p h.getenv d) refl k

  opened-cases :
      (addr raw : Text)
      → ((store : Chosen) × ((of_fault (parse_store_key h.remote raw) >>= new_valkey p h addr)
            ≡ ok store))
        ⊎ ((e : Failure) × ((of_fault (parse_store_key h.remote raw) >>= new_valkey p h addr)
              ≡ err e)
            × IsStoreFailure e)
  opened-cases addr raw = elim (Result-cases (parse_store_key h.remote raw)) [
    | inr (e, refused) ↦ inr (bad_store_key e, rw refused refl, tt)
    | inl (key, parsed) ↦ elim (Result-cases (new_aead h.remote key)) [
      | inr (e, refused) ↦ inr (bad_store_key e, rw (parsed, refused) refl, tt)
      | inl (aead, made) ↦ elim (Bool-cases (h.connects addr)) [
        | inl up ↦ inl (shared addr aead, rw (parsed, made, up) refl)
        | inr down ↦ inr (not_connected, rw (parsed, made, down) refl, tt)
      ]
    ]
  ]

  -- A store that cannot be used is a Valkey store.
  new_store-cases :
      (c : Config)
      → ((store : Chosen) × (new_store p h c ≡ ok store))
        ⊎ ((c.credential_store.kind ≡ store_valkey)
            × (e : Failure) × (new_store p h c ≡ err e)
            × IsStoreFailure e)
  unfolding new_store
  new_store-cases c = elim (Bool-cases (text_eq c.credential_store.kind store_valkey)) [
    | inr other ↦ inl (in_memory, rw other refl)
    | inl valkey ↦ elim (Bool-cases (is_nil (h.getenv c.credential_store.key_env))) [
      | inl unset ↦ inr (text_eq_sound _ _ valkey, no_store_key, rw (valkey, unset) refl, tt)
      | inr set ↦
          elim (opened-cases c.credential_store.addr (h.getenv c.credential_store.key_env)) [
            | inl (store, opened) ↦ inl (store, rw (valkey, set) opened)
            | inr (e, refused, kind) ↦
                inr (text_eq_sound _ _ valkey, e, rw (valkey, set) refused, kind)
          ]
    ]
  ]

  new_server-IsReady :
      (c : Config) (store : Chosen)
      → IsValid p c
      → (run : Running) × (new_server p h c store ≡ ok run) × IsReady c run
  unfolding new_server
  new_server-IsReady c store valid =
      let (scheme, host, parsed, given) = endpoint_host c.upstream.s3_endpoint valid.endpoint in
      (
        record { cfg = c; store = store; issuers = new_issuers c.issuers []; upstream_host = host },
        rw parsed refl,
        record {
          cfg = refl;
          host = given;
          issuers = new_issuers-found [] [] c.issuers [] valid.issuers;
        },
      )

  -- Where the configuration is accepted, either the program starts with a server that is ready (it has this
  -- configuration, an upstream with a host, and finds every configured issuer under its URL), or the
  -- credential store is Valkey and the program ends because of it: no key in the environment, a key that
  -- cannot be used, or no connection.
  pub start-IsReady :
      (path : Text) (c : Config)
      → load p h path ≡ ok c
      → ((run : Running) × (start p h path ≡ ok run) × IsReady c run)
        ⊎ ((c.credential_store.kind ≡ store_valkey)
            × (e : Failure) × (start p h path ≡ err e)
            × IsStoreFailure e)
  unfolding start
  start-IsReady path c loaded = elim (new_store-cases c) [
    | inr (kind, e, refused, cause) ↦ inr (kind, e, rw (loaded, refused) refl, cause)
    | inl (store, made) ↦
        let (run, built, ready) = new_server-IsReady c store (load-IsValid path c loaded) in
        inl (run, rw (loaded, made) built, ready)
  ]
