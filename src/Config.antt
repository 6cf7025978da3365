-- ===== src/Config.antt =====
-- internal/config/config.go: the configuration with its environment overrides, defaults and
-- validation. The YAML decoder is not modelled; the environment is a function.
pub mod Valid
use ozone_oidc_proxy.Base.{
  ℕ, suc, ◌*◌, Bool, true, false, not, ◌&&◌, ◌||◌, List, [], ◌∷◌, map, Option, none, some,
  if◌then◌else◌, is_nil, any, all, ℤ, pos, lt_ℤ, Result, ok, err, ◌>>=◌, ◌>>◌, guard, of_option,
}
use ozone_oidc_proxy.Text.{Text, codes, text_eq}
use ozone_oidc_proxy.Go.Clock.{Duration, second}
use ozone_oidc_proxy.Platform.{Platform}

pub record Upstream : Type 0 where
  pub s3_endpoint : Text
  pub forward_mode : Text

-- `none` is an omitted key.
pub record DataPath : Type 0 where
  pub accept_bearer : Option Bool
  pub strict : Option Bool

pub record Issuer : Type 0 where
  pub name : Text
  pub issuer : Text
  pub jwks_uri : Text
  pub audiences : List Text
  pub username_claim : Text

pub record Sts : Type 0 where
  pub max_duration : ℤ
  pub role_arn_allowlist : List Text

pub record CredentialStore : Type 0 where
  pub kind : Text
  pub addr : Text
  pub key_env : Text

pub record Security : Type 0 where
  pub sigv4_clock_skew : Duration
  pub allowed_signing_algs : List Text
  pub region : Text

-- `regex` is what validation compiles the pattern to.
pub record UsernamePolicy : Type 0 where
  pub pattern : Text
  pub regex : Option (Text → Bool)

pub record Config : Type 0 where
  pub listen : Text
  pub admin_listen : Text
  pub upstream : Upstream
  pub data_path : DataPath
  pub issuers : List Issuer
  pub sts : Sts
  pub credential_store : CredentialStore
  pub security : Security
  pub username_policy : UsernamePolicy

abbrev enabled : Option Bool → Bool
enabled none = true
enabled (some b) = b

-- `DataPath.BearerEnabled`
abbrev pub bearer_enabled : DataPath → Bool
bearer_enabled d = enabled d.accept_bearer

-- `DataPath.StrictEnabled`
abbrev pub strict_enabled : DataPath → Bool
strict_enabled d = enabled d.strict

-- `UsernamePolicy.Validate`
abbrev pub validate_username : UsernamePolicy → Text → Bool
validate_username policy username = elim policy.regex [
  | none ↦ false
  | some matches ↦ matches username
]

abbrev pub mode_rewrite : Text
mode_rewrite = codes "rewrite"

abbrev pub mode_resign : Text
mode_resign = codes "resign"

abbrev pub store_memory : Text
store_memory = codes "memory"

abbrev pub store_valkey : Text
store_valkey = codes "valkey"

abbrev pub supported_signing_algs : List Text
supported_signing_algs =
    codes "RS256"
    ∷ codes "RS384"
    ∷ codes "RS512"
    ∷ codes "PS256"
    ∷ codes "PS384"
    ∷ codes "PS512"
    ∷ codes "ES256"
    ∷ codes "ES384"
    ∷ codes "ES512"
    ∷ []

unfoldable pub member : Text → List Text → Bool
member x xs = any (λ y. text_eq y x) xs

-- `strconv.ParseBool`
parse_bool : Text → Option Bool
unfolding member
parse_bool s =
    if member s
      (codes "1" ∷ codes "t" ∷ codes "T" ∷ codes "true" ∷ codes "TRUE" ∷ codes "True" ∷ [])
    then some true
    else if member s
        (codes "0" ∷ codes "f" ∷ codes "F" ∷ codes "false" ∷ codes "FALSE" ∷ codes "False" ∷ [])
    then some false
    else none

abbrev or_default : Text → Text → Text
or_default s d = if is_nil s then d else s

-- The environment variable if it is set, else the setting.
abbrev override_text : Text → Text → Text
override_text v s = if is_nil v then s else v

-- A value that is not a Boolean overrides nothing.
override_bool : Text → Option Bool → Option Bool
unfolding parse_bool
override_bool v s = if is_nil v then s else elim (parse_bool v) [ none ↦ s | some b ↦ some b ]

unfoldable pub apply_env : (Text → Text) → Config → Config
unfolding override_bool
apply_env env c = record c {
  listen = override_text (env (codes "OZPX_LISTEN")) c.listen;
  admin_listen = override_text (env (codes "OZPX_ADMIN_LISTEN")) c.admin_listen;
  upstream = record {
    s3_endpoint = override_text (env (codes "OZPX_UPSTREAM_S3_ENDPOINT")) c.upstream.s3_endpoint;
    forward_mode = c.upstream.forward_mode;
  };
  data_path = record {
    strict = override_bool (env (codes "OZPX_STRICT")) c.data_path.strict;
    accept_bearer = override_bool (env (codes "OZPX_ACCEPT_BEARER")) c.data_path.accept_bearer;
  };
}

abbrev nonzero : ℤ → ℤ → ℤ
nonzero (pos n) d = elim n [ ℕ.zero ↦ d | ℕ.suc k ↦ pos (suc k) ]
nonzero z d = z

default_claim : Issuer → Issuer
default_claim i = record i {
  username_claim = or_default i.username_claim (codes "preferred_username");
}

abbrev pub default_pattern : Text
default_pattern = codes "^[A-Za-z0-9._@-]{1,64}$"

unfoldable pub apply_defaults : Config → Config
unfolding default_claim
apply_defaults c = record c {
  listen = or_default c.listen (codes "0.0.0.0:9000");
  admin_listen = or_default c.admin_listen (codes "0.0.0.0:9090");
  upstream = record {
    s3_endpoint = c.upstream.s3_endpoint;
    forward_mode = or_default c.upstream.forward_mode mode_rewrite;
  };
  sts = record {
    max_duration = nonzero c.sts.max_duration (pos 3600);
    role_arn_allowlist = c.sts.role_arn_allowlist;
  };
  credential_store = record {
    kind = or_default c.credential_store.kind store_memory;
    addr = c.credential_store.addr;
    key_env = or_default c.credential_store.key_env (codes "OZPX_STORE_KEY");
  };
  security = record {
    sigv4_clock_skew = nonzero c.security.sigv4_clock_skew (pos (900 * second));
    allowed_signing_algs =
        if is_nil c.security.allowed_signing_algs
        then codes "RS256" ∷ codes "ES256" ∷ []
        else c.security.allowed_signing_algs;
    region = or_default c.security.region (codes "us-east-1");
  };
  username_policy = record {
    pattern = or_default c.username_policy.pattern default_pattern;
    regex = c.username_policy.regex;
  };
  issuers = map default_claim c.issuers;
}

-- Why a configuration is refused.
pub data Problem : Type 0 where
  no_endpoint bad_url bad_mode no_addr bad_store no_issuer no_name duplicate_name : Problem
  no_issuer_url duplicate_issuer no_audience bad_duration bad_skew bad_alg bad_pattern : Problem

module _ (p : Platform) where
  unfoldable pub absolute : Option (Text × Text) → Bool
  absolute none = false
  absolute (some (scheme, host)) =
      (text_eq scheme (codes "http") || text_eq scheme (codes "https")) && not (is_nil host)

  -- `checkHTTPURL`
  unfoldable pub check_http_url : Text → Result Problem (Unit {0})
  unfolding absolute
  check_http_url raw = guard (absolute (p.parse_url raw)) bad_url

  unfoldable pub check_store : CredentialStore → Result Problem (Unit {0})
  check_store s =
      if text_eq s.kind store_memory
      then ok tt
      else if text_eq s.kind store_valkey
      then guard (not (is_nil s.addr)) no_addr
      else err bad_store

  -- The checks of one issuer, given the names and the URLs of those before it.
  unfoldable pub check_issuer : List Text → List Text → Issuer → Result Problem (Unit {0})
  check_issuer names urls i = do
    guard (not (is_nil i.name)) no_name
    guard (not (member i.name names)) duplicate_name
    guard (not (is_nil i.issuer)) no_issuer_url
    guard (not (member i.issuer urls)) duplicate_issuer
    check_http_url i.issuer
    if is_nil i.jwks_uri then ok tt else check_http_url i.jwks_uri
    guard (not (is_nil i.audiences)) no_audience

  unfoldable pub check_issuers : List Text → List Text → List Issuer → Result Problem (Unit {0})
  check_issuers names urls [] = ok tt
  check_issuers names urls (i ∷ is) =
      check_issuer names urls i >> check_issuers (i.name ∷ names) (i.issuer ∷ urls) is

  -- The configuration with its pattern compiled, or the first problem.
  unfoldable pub validate : Config → Result Problem Config
  validate c = do
    guard (not (is_nil c.upstream.s3_endpoint)) no_endpoint
    check_http_url c.upstream.s3_endpoint
    guard
        (text_eq c.upstream.forward_mode mode_rewrite
          || text_eq c.upstream.forward_mode mode_resign)
        bad_mode
    check_store c.credential_store
    guard (not (is_nil c.issuers)) no_issuer
    check_issuers [] [] c.issuers
    guard (lt_ℤ (pos 0) c.sts.max_duration) bad_duration
    guard (lt_ℤ (pos 0) c.security.sigv4_clock_skew) bad_skew
    guard (all (λ alg. member alg supported_signing_algs) c.security.allowed_signing_algs) bad_alg
    regex ← of_option bad_pattern (p.compile_pattern c.username_policy.pattern)
    ok (record c {
      username_policy = record { pattern = c.username_policy.pattern; regex = some regex };
    })

  -- `Parse`, behind the YAML decoder.
  unfoldable pub parse : (Text → Text) → Config → Result Problem Config
  parse env c = validate (apply_defaults (apply_env env c))
