-- ===== src/Oidc.antt =====
-- internal/oidc/oidc.go: validation of a token against the configured issuers. The JWT library and
-- its JWKS cache are parameters; the state of an issuer is passed along.
pub mod Sound
pub mod Refresh
use ozone_oidc_proxy.Base.{
  ℕ, ◌*◌, Bool, true, false, not, ◌&&◌, ◌||◌, List, [], ◌∷◌, ◌++◌, Option, none, some,
  if◌then◌else◌, is_nil, any, ℤ, pos, lt_ℤ, Result, of_option, ok, err,
}
use ozone_oidc_proxy.Text.{Text, codes, text_eq}
use ozone_oidc_proxy.Go.Clock.{Time, second, sub}
use ozone_oidc_proxy.Config.{Issuer, UsernamePolicy, validate_username, member}

pub data Error : Type 0 where
  unknown_issuer token_expired token_invalid bad_username issuer_unavailable : Error

pub record Identity : Type 0 where
  pub username : Text
  pub subject : Text
  pub issuer_name : Text
  pub issuer_url : Text
  pub expiry : Time

-- The verdict of `jwt.Parse` with a key: a verified token, an expired one, or another failure.
pub data Verdict (Token : Type 0) : Type 0 where
  verified : Token → Verdict Token
  is_expired : Verdict Token
  is_invalid : Verdict Token

-- What the validator calls of the JWT library, of the JWKS cache and of the issuer's discovery
-- document. `World` is the state of the cache and of the network.
pub record Jwt : Type 1 where
  pub World : Type 0
  pub Key : Type 0
  pub KeySet : Type 0
  pub Token : Type 0
  -- the issuer of `jwt.ParseInsecure`
  pub unverified_issuer : Text → Option Text
  -- algorithm and key id of each protected header of `jws.Parse`
  pub protected_headers : Text → Option (List (Text × Text))
  -- `jwt.Parse` with the algorithm, the key and the time, and with the options of `Validate`: claims
  -- are validated, `exp` is required, and the clocks may differ by `clockSkew`, a minute
  pub parse : Text → Text → Key → Time → Verdict Token
  pub audience : Token → List Text
  pub subject : Token → Text
  pub expiration : Token → Time
  -- a claim, if it is there and a string
  pub claim : Token → Text → Option Text
  pub lookup_key_id : KeySet → Text → Option Key
  pub cache_get : World → Text → Option KeySet × World
  pub cache_refresh : World → Text → Option KeySet × World
  pub cache_register : World → Text → Bool × World
  -- the `jwks_uri` of the discovery document at this URL
  pub fetch_jwks_uri : World → Text → Option Text × World

abbrev pub refresh_cooldown : ℤ
refresh_cooldown = pos (10 * second)

-- The mutable part of an issuer.
pub record IssuerState : Type 0 where
  pub cfg : Issuer
  pub jwks_url : Text
  pub last_refresh : Time

unfoldable pub intersects : List Text → List Text → Bool
intersects [] ys = false
intersects (x ∷ xs) ys = member x ys || intersects xs ys

unfoldable pub find_issuer : List IssuerState → Text → Option IssuerState
find_issuer [] url = none
find_issuer (i ∷ is) url =
    let rest = find_issuer is url in if text_eq i.cfg.issuer url then some i else rest

abbrev or_empty : Option Text → Text
or_empty none = []
or_empty (some s) = s

module _ (j : Jwt) where
  open j use {World, Key, KeySet, Token}

  -- The state that a step leaves behind, with its result.
  abbrev pub Step : Type 0 → Type 0
  Step A = Result Error A × IssuerState × World

  abbrev of_set : Option KeySet × World → IssuerState → Step KeySet
  of_set (none, w) i = (err issuer_unavailable, i, w)
  of_set (some set, w) i = (ok set, i, w)

  -- `discoverJWKS`, with an empty URI as an error.
  discover : World → Issuer → Option Text × World
  discover w cfg =
      let (found, w') =
        j.fetch_jwks_uri w (cfg.issuer ++ codes "/.well-known/openid-configuration") in
      (elim found [ none ↦ none | some uri ↦ if is_nil uri then none else some uri ], w')

  register : IssuerState → Option Text × World → Step Text
  register i (none, w) = (err issuer_unavailable, i, w)
  register i (some url, w) =
      let (done, w') = j.cache_register w url in
      if done then (ok url, record i { jwks_url = url }, w') else (err issuer_unavailable, i, w')

  unfoldable pub resolve_jwks : IssuerState → World → Step Text
  unfolding discover register
  resolve_jwks i w =
      let found = if is_nil i.cfg.jwks_uri then discover w i.cfg else (some i.cfg.jwks_uri, w) in
      if is_nil i.jwks_url then register i found else (ok i.jwks_url, i, w)

  unfoldable pub needs_refresh : IssuerState → Time → Bool
  needs_refresh i now = lt_ℤ refresh_cooldown (sub now i.last_refresh)

  -- The second look at the keys: a refresh, or the cache again during the cool-down.
  unfoldable pub refreshed : IssuerState → World → Time → Text → Step KeySet
  refreshed i w now url =
      if needs_refresh i now
      then of_set (j.cache_refresh w url) (record i { last_refresh = now })
      else of_set (j.cache_get w url) i

  -- The key of the refreshed set, if it is there now.
  abbrev second_look : Text → Step KeySet → Step Key
  second_look kid (err e, i, w) = (err e, i, w)
  second_look kid (ok set, i, w) =
      (elim (j.lookup_key_id set kid) [ none ↦ err token_invalid | some key ↦ ok key ], i, w)

  abbrev found_or : IssuerState → World → Step Key → Option Key → Step Key
  found_or i w again none = again
  found_or i w again (some key) = (ok key, i, w)

  -- The key of the cached set, else the second look.
  abbrev first_look : Text → Time → Text → Step KeySet → Step Key
  first_look kid now url (err e, i, w) = (err e, i, w)
  first_look kid now url (ok set, i, w) =
      found_or i w (second_look kid (refreshed i w now url)) (j.lookup_key_id set kid)

  abbrev with_url : Text → Time → Step Text → Step Key
  with_url kid now (err e, i, w) = (err e, i, w)
  with_url kid now (ok url, i, w) = first_look kid now url (of_set (j.cache_get w url) i)

  unfoldable pub lookup_key : IssuerState → World → Time → Text → Step Key
  lookup_key i w now kid = with_url kid now (resolve_jwks i w)

  -- The username claim, with the subject in its place where it is absent or empty.
  unfoldable pub username_of : Issuer → Token → Text
  username_of cfg token =
      let name = or_empty (j.claim token cfg.username_claim) in
      if is_nil name then j.subject token else name

  unfoldable pub identity_of : UsernamePolicy → Issuer → Token → Result Error Identity
  identity_of policy cfg token =
      let username = username_of cfg token in
      if not (intersects (j.audience token) cfg.audiences)
      then err token_invalid
      else if is_nil username || not (validate_username policy username)
      then err bad_username
      else ok (record {
        username = username;
        subject = j.subject token;
        issuer_name = cfg.name;
        issuer_url = cfg.issuer;
        expiry = j.expiration token;
      })

  abbrev judge : UsernamePolicy → Issuer → Verdict Token → Result Error Identity
  judge policy cfg (verified token) = identity_of policy cfg token
  judge policy cfg is_expired = err token_expired
  judge policy cfg is_invalid = err token_invalid

  -- The last steps: signature and claims, with the key that was found.
  abbrev with_key : UsernamePolicy → Text → Text → Time → Step Key → Step Identity
  with_key policy raw alg now (err e, i, w) = (err e, i, w)
  with_key policy raw alg now (ok key, i, w) = (judge policy i.cfg (j.parse raw alg key now), i, w)

  abbrev checked_header : List Text → Option (List (Text × Text)) → Result Error (Text × Text)
  checked_header algs none = err token_invalid
  checked_header algs (some []) = err token_invalid
  checked_header algs (some (h ∷ hs)) =
      if member h.0 algs && not (is_nil h.1) then ok h else err token_invalid

  -- The protected header of the first signature, checked against the allowed algorithms.
  unfoldable pub first_header : List Text → Text → Result Error (Text × Text)
  first_header algs raw = checked_header algs (j.protected_headers raw)

  abbrev with_header :
      UsernamePolicy
      → Text
      → Time
      → IssuerState
      → World
      → Result Error (Text × Text)
      → Step Identity
  with_header policy raw now i w (err e) = (err e, i, w)
  with_header policy raw now i w (ok (alg, kid)) =
      with_key policy raw alg now (lookup_key i w now kid)

  -- `Validate` once the issuer is known. The clock is read once.
  unfoldable pub validate_with :
      UsernamePolicy → List Text → Text → Time → IssuerState → World → Step Identity
  validate_with policy algs raw now i w = with_header policy raw now i w (first_header algs raw)

  abbrev named_issuer : List IssuerState → Option Text → Result Error IssuerState
  named_issuer issuers none = err token_invalid
  named_issuer issuers (some url) = of_option unknown_issuer (find_issuer issuers url)

  -- The issuer that a token names, before anything is verified.
  unfoldable pub select_issuer : List IssuerState → Text → Result Error IssuerState
  select_issuer issuers raw =
      if is_nil raw then err token_invalid else named_issuer issuers (j.unverified_issuer raw)

-- The other issuers keep their states.
unfoldable pub update_issuer : List IssuerState → IssuerState → List IssuerState
update_issuer [] i = []
update_issuer (k ∷ ks) i =
    let rest = update_issuer ks i in if text_eq k.cfg.issuer i.cfg.issuer then i ∷ ks else k ∷ rest

-- The configuration and the state of a validator.
pub record Validator (j : Jwt) : Type 0 where
  pub issuers : List IssuerState
  pub allowed_algs : List Text
  pub policy : UsernamePolicy
  pub world : j.World

module _ (j : Jwt) where
  abbrev keep : Validator j → Step j Identity → Result Error Identity × Validator j
  keep v (r, i, w) = (r, record v { issuers = update_issuer v.issuers i; world = w })

  abbrev with_issuer :
      Validator j → Text → Time → Result Error IssuerState → Result Error Identity × Validator j
  with_issuer v raw now (err e) = (err e, v)
  with_issuer v raw now (ok i) = keep v (validate_with j v.policy v.allowed_algs raw now i v.world)

  -- `Validator.Validate`
  unfoldable pub validate : Validator j → Text → Time → Result Error Identity × Validator j
  validate v raw now = with_issuer v raw now (select_issuer j v.issuers raw)
