-- ===== src/Startup.antt =====
-- cmd/proxy: from the command line to a server that can listen, with `oidc.New` and `server.New`. Flags,
-- logging, the listeners and the shutdown are left out.
pub mod Ready
use ozone_oidc_proxy.Base.{
  ℕ, ◌*◌, Bool, true, false, List, [], ◌∷◌, Option, none, some, if◌then◌else◌, is_nil, Result, ok,
  err, of_option, guard, ◌>>=◌, ◌>>◌,
}
use ozone_oidc_proxy.Text.{Text, text_eq}
use ozone_oidc_proxy.Config
use ozone_oidc_proxy.Config.{Config, store_valkey}
use ozone_oidc_proxy.Go.Clock.{Time, second}
use ozone_oidc_proxy.Oidc.{IssuerState}
use ozone_oidc_proxy.Platform.{Platform}
use ozone_oidc_proxy.Store.Valkey.{Fault, Aead, Remote, parse_store_key, new_aead}

-- What the program finds on its host, and the connection to a Valkey server.
pub record Host : Type 1 where
  pub remote : Remote
  pub read_file : Text → Option Text
  -- the YAML decoder, which refuses unknown fields
  pub decode_yaml : Text → Option Config
  -- `os.Getenv`, empty where the variable is not set
  pub getenv : Text → Text
  pub connects : Text → Bool

-- Why the program ends at once.
pub data Failure : Type 0 where
  unreadable undecodable : Failure
  rejected : Config.Problem → Failure
  no_store_key : Failure
  bad_store_key : Fault → Failure
  not_connected : Failure
  bad_endpoint : Failure

-- The credential store in use.
pub data Chosen : Type 0 where
  in_memory : Chosen
  shared : Text → Aead → Chosen

abbrev pub of_fault {ℓ} : {A : Type ℓ} → Result Fault A → Result Failure A
of_fault (ok a) = ok a
of_fault (err e) = err (bad_store_key e)

abbrev pub of_problem : Result Config.Problem Config → Result Failure Config
of_problem (ok c) = ok c
of_problem (err e) = err (rejected e)

-- The zero `time.Time`, the first of January of the year 1.
abbrev pub zero_time : Time
zero_time = 31622400 * second

abbrev pub new_issuer : Config.Issuer → IssuerState
new_issuer i = record { cfg = i; jwks_url = []; last_refresh = zero_time }

-- `v.byIssuerURL[iss.Issuer] = ...`
unfoldable pub without_issuer : List IssuerState → Text → List IssuerState
without_issuer [] url = []
without_issuer (i ∷ is) url =
    let rest = without_issuer is url in if text_eq i.cfg.issuer url then rest else i ∷ rest

-- The map of `oidc.New`, from the entries that it has already.
unfoldable pub new_issuers : List Config.Issuer → List IssuerState → List IssuerState
new_issuers [] acc = acc
new_issuers (i ∷ is) acc = new_issuers is (new_issuer i ∷ without_issuer acc i.issuer)

-- A server that can listen.
pub record Running : Type 0 where
  pub cfg : Config
  pub store : Chosen
  pub issuers : List IssuerState
  pub upstream_host : Text

abbrev host_of : Option (Text × Text) → Result Failure Text
host_of none = err bad_endpoint
host_of (some (scheme, host)) = ok host

module _ (p : Platform) (h : Host) where
  abbrev pub decoded : Option Config → Result Failure Config
  decoded none = err undecodable
  decoded (some c) = of_problem (Config.parse p h.getenv c)

  -- `config.Load`
  unfoldable pub load : Text → Result Failure Config
  load path = do raw ← of_option unreadable (h.read_file path); decoded (h.decode_yaml raw)

  -- `store.NewValkey`
  abbrev pub new_valkey : Text → Text → Result Failure Chosen
  new_valkey addr key = do
    aead ← of_fault (new_aead h.remote key)
    guard (h.connects addr) not_connected >> ok (shared addr aead)

  -- `newStore`
  unfoldable pub new_store : Config → Result Failure Chosen
  new_store c =
      let raw = h.getenv c.credential_store.key_env in
      let opened = of_fault (parse_store_key h.remote raw) >>= new_valkey c.credential_store.addr in
      if text_eq c.credential_store.kind store_valkey
      then (if is_nil raw then err no_store_key else opened)
      else ok in_memory

  -- `server.New`
  unfoldable pub new_server : Config → Chosen → Result Failure Running
  new_server c store = do
    host ← host_of (p.parse_url c.upstream.s3_endpoint)
    ok (record { cfg = c; store = store; issuers = new_issuers c.issuers []; upstream_host = host })

  -- `main`, up to the listeners.
  unfoldable pub start : Text → Result Failure Running
  start path = do c ← load path; store ← new_store c; new_server c store
