-- ===== src/Examples/Tokens.antt =====
-- Runs of the token validator, of the exchange and of the configuration.
use ozone_oidc_proxy.Base.{
  ◌≡◌, ◌*◌, ◌↔◌, refl, Bool, true, false, [], ◌∷◌, none, some, ok, err, pos, arith, if◌then◌else◌,
}
use ozone_oidc_proxy.Text.{Text, codes, text_eq, split_by, cut}
use ozone_oidc_proxy.Go.Clock.{second, sub, add, seconds}
use ozone_oidc_proxy.Go.Http.{values, canonical_key}
use ozone_oidc_proxy.Go.Percent.{path_unescape, query_unescape}
use ozone_oidc_proxy.Go.Query
use ozone_oidc_proxy.Go.Query.{parameters, parameter, has_bad_part}
use ozone_oidc_proxy.Config
use ozone_oidc_proxy.Config.{
  Config, parse, apply_defaults, apply_env, check_http_url, check_store, check_issuer,
  check_issuers, member,
}
use ozone_oidc_proxy.Config.Valid.{IsValid, parse-IsValid}
use ozone_oidc_proxy.Oidc
use ozone_oidc_proxy.Oidc.{
  Identity, Jwt, IssuerState, Validator, Verdict, verified, lookup_key, needs_refresh,
}
use ozone_oidc_proxy.Oidc.Sound.{IsValidated}
use ozone_oidc_proxy.Oidc.Sound.Exactly.{validate_iff}
use ozone_oidc_proxy.Oidc.Refresh.{IsCooled, counting, lookup_key-IsCooled}
use ozone_oidc_proxy.Store.Memory.{memory_store}
use ozone_oidc_proxy.Store.Memory.Laws.{memory_store-IsStore}
use ozone_oidc_proxy.Store.Mint.{Randomness, mint, crockford, base64url}
use ozone_oidc_proxy.Sts.{
  Grant, Granted, exchange, checked, issue, lifetime, post_form, requested_of, is_session_name,
  expired_token,
}
use ozone_oidc_proxy.Sts.Exchange.{IsExchanged, exchange-IsExchanged}
use ozone_oidc_proxy.Sts.Wrap.{issue-wraps}
use ozone_oidc_proxy.Examples.Data.{
  platform, now, alice, exchange_request, config, identity, issuer, validator, memory,
}

-- A library whose cached key set is old, and whose refreshed key set has the key.
abbrev pub jwt : Jwt
jwt = record {
  World = Unit {0};
  Key = Unit {0};
  KeySet = Bool;
  Token = Text;
  unverified_issuer = λ raw. some (codes "https://idp");
  protected_headers = λ raw. some ((codes "RS256", codes "kid") ∷ []);
  parse = λ raw alg key t. verified raw;
  audience = λ token. codes "s3" ∷ [];
  subject = λ token. alice;
  expiration = λ token. now;
  claim = λ token name. none;
  lookup_key_id = λ set kid. if set then some tt else none;
  cache_get = λ w url. (some false, w);
  cache_refresh = λ w url. (some true, w);
  cache_register = λ w url. (true, w);
  fetch_jwks_uri = λ w url. (none, w);
}

abbrev pub issuer_state : IssuerState
issuer_state = record { cfg = issuer; jwks_url = codes "https://idp/keys"; last_refresh = 0 }

abbrev token_validator : Validator jwt
token_validator = record {
  issuers = issuer_state ∷ [];
  allowed_algs = codes "RS256" ∷ [];
  policy = record { pattern = []; regex = some (λ name. true) };
  world = tt;
}

abbrev validated : Identity
validated = record {
  username = alice;
  subject = alice;
  issuer_name = codes "idp";
  issuer_url = codes "https://idp";
  expiry = now;
}

token_accepted : (Oidc.validate jwt token_validator (codes "token") now).0 ≡ ok validated
unfolding Oidc.validate Oidc.select_issuer Oidc.find_issuer Oidc.validate_with Oidc.first_header
    Oidc.lookup_key Oidc.resolve_jwks Oidc.refreshed Oidc.needs_refresh Oidc.identity_of
    Oidc.username_of Oidc.intersects member text_eq sub
token_accepted = refl

validate_iff_example :
    ((Oidc.validate jwt token_validator (codes "token") now).0 ≡ ok validated)
    ↔ IsValidated jwt token_validator (codes "token") now validated
validate_iff_example = validate_iff jwt token_validator (codes "token") now validated

token_checked : IsValidated jwt token_validator (codes "token") now validated
token_checked = (validate_iff jwt token_validator (codes "token") now validated).0 token_accepted

lookup_key-IsCooled_example :
    IsCooled 0 now 0
      (lookup_key (counting jwt) issuer_state (tt, 0) now (codes "kid")).1.last_refresh
      (lookup_key (counting jwt) issuer_state (tt, 0) now (codes "kid")).2.1
lookup_key-IsCooled_example = lookup_key-IsCooled jwt issuer_state tt 0 now (codes "kid")

abbrev pub random : Randomness
random = record {
  key_bytes = some (0 ∷ 33 ∷ []);
  secret_bytes = some (0 ∷ 0 ∷ 0 ∷ []);
  token_bytes = some (0 ∷ []);
}

abbrev pub document : Granted
document = record {
  subject = alice;
  assumed_role_id = codes "OZPXROLEID:web-identity";
  arn = codes "role/web-identity";
  creds = record {
    access_key_id = codes "OZPX01";
    secret_access_key = codes "AAAA";
    session_token = codes "AA";
    username = alice;
    issuer = codes "idp";
    expires_at = 63876470999 * second;
  };
  provider = codes "https://idp";
}

exchange_granted :
    (exchange validator memory_store platform config.sts 1000 exchange_request random now tt
      memory).response
    ≡ ok document
unfolding exchange checked post_form parameters parameter has_bad_part split_by cut query_unescape
    path_unescape Query.get text_eq values canonical_key requested_of is_session_name issue lifetime
    mint crockford base64url sub add seconds
exchange_granted = refl

exchange-IsExchanged_example :
    IsExchanged validator memory_store memory_store-IsStore platform config.sts 1000
      exchange_request now tt memory
      (exchange validator memory_store platform config.sts 1000 exchange_request random now tt
        memory).store
      document.creds
exchange-IsExchanged_example =
    exchange-IsExchanged validator memory_store memory_store-IsStore platform config.sts 1000
      exchange_request random now tt memory document exchange_granted

abbrev long_grant : Grant
long_grant = record {
  token = codes "token";
  role_arn = codes "role";
  session_name = codes "web-identity";
  requested = pos 9223372037;
}

issue-wraps_example :
    issue memory_store config.sts long_grant identity random now memory
    ≡ err (record { status = 400; code = expired_token; issuer = codes "idp" })
issue-wraps_example =
    issue-wraps memory_store config.sts long_grant identity random now memory 9223372037 refl
      (omega arith) (omega arith)

abbrev no_env : Text → Text
no_env name = []

config_accepted :
    parse platform no_env config
    ≡ ok (record (apply_defaults (apply_env no_env config)) {
      username_policy = record { pattern = Config.default_pattern; regex = some (λ name. true) };
    })
unfolding parse Config.validate apply_defaults apply_env check_http_url check_store check_issuer
    check_issuers member text_eq
config_accepted = refl

parse-IsValid_example : IsValid platform (record (apply_defaults (apply_env no_env config)) {
  username_policy = record { pattern = Config.default_pattern; regex = some (λ name. true) };
})
parse-IsValid_example = parse-IsValid platform no_env config _ config_accepted
