-- ===== src/Examples/Starts.antt =====
-- A page with its exchange, and the start of the program.
use ozone_oidc_proxy.Base.{
  ◌≡◌, ◌⊎◌, refl, true, [], ◌∷◌, some, ok, err, arith, leb, ◌++◌, length, pos, sym, subst, ap,
  ok_injective,
}
use ozone_oidc_proxy.Text.{Text, codes, text_eq, join}
use ozone_oidc_proxy.Go.Clock.{sub, add, seconds}
use ozone_oidc_proxy.Go.Form.{query_escape, write_field, encode_form}
use ozone_oidc_proxy.Go.Http.{Request, canonical_key, values}
use ozone_oidc_proxy.Config
use ozone_oidc_proxy.Config.{
  Config, parse, apply_defaults, apply_env, check_http_url, check_store, check_issuer,
  check_issuers, member, store_valkey,
}
use ozone_oidc_proxy.Store.Memory.{memory_store, put, delete}
use ozone_oidc_proxy.Store.Mint.{mint, crockford, base64url}
use ozone_oidc_proxy.Store.{Credentials}
use ozone_oidc_proxy.Sts.{issue, lifetime, Grant, Granted, grant_document, exchange}
use ozone_oidc_proxy.Sts.Response.{Encoder, Response, respond, response_of, write_success}
use ozone_oidc_proxy.Portal
use ozone_oidc_proxy.Portal.{
  Settings, Page, granted, session_name, session_name_of, kept, bearer_token, serve_home,
  exchange_form,
}
use ozone_oidc_proxy.Portal.Exchange.{short_word-IsBytes, checked-session_name}
use ozone_oidc_proxy.Portal.Shown.{
  IsAdmitted, IsDelivered, read_of, shown, exchange-granted, serve_home-exchange, asked_for,
}
use ozone_oidc_proxy.Startup.{Host, Failure, Running, load, start}
use ozone_oidc_proxy.Startup.Ready.{IsReady, IsStoreFailure, start-IsReady}
use ozone_oidc_proxy.Examples.Data.{platform, config, now, identity, plain_request, validator}
use ozone_oidc_proxy.Examples.Stores.{remote}
use ozone_oidc_proxy.Examples.Tokens.{random, document}

abbrev host : Host
host = record {
  remote = remote;
  read_file = λ path. some [];
  decode_yaml = λ raw. some config;
  getenv = λ name. [];
  connects = λ addr. true;
}

abbrev accepted : Config
accepted = record (apply_defaults (apply_env host.getenv config)) {
  username_policy = record { pattern = Config.default_pattern; regex = some (λ name. true) };
}

config_loaded : load platform host [] ≡ ok accepted
unfolding load parse Config.validate apply_defaults apply_env check_http_url check_store
    check_issuer check_issuers member text_eq
config_loaded = refl

start-IsReady_example :
    ((run : Running) × (start platform host [] ≡ ok run) × IsReady accepted run)
    ⊎ ((accepted.credential_store.kind ≡ store_valkey)
        × (e : Failure) × (start platform host [] ≡ err e)
        × IsStoreFailure e)
start-IsReady_example = start-IsReady platform host [] accepted config_loaded

abbrev settings : Settings
settings = record {
  sts_endpoint = codes "http://proxy:9000";
  role_arn = codes "arn:ozone:iam::dev:role/oidc";
  public_endpoint = codes "https://s3.example.com";
}

-- The user name has a space and a letter outside ASCII, of two bytes.
abbrev username : Text
username = (codes "zo" ++ (195 ∷ 171 ∷ [])) ++ codes " m"

-- A page with a token, and an encoder that writes the access key.
abbrev page : Request
page = record plain_request {
  path = codes "/";
  header =
      (codes "X-Forwarded-Access-Token", (codes "access.token" ∷ []))
      ∷ (codes "X-Forwarded-Preferred-Username", (username ∷ []))
      ∷ [];
}

abbrev encoder : Encoder
encoder = record { success = λ a. a.result.credentials.access_key_id; error = λ e. [] }

abbrev page_grant : Grant
page_grant = record {
  token = bearer_token page;
  role_arn = settings.role_arn;
  session_name = session_name page;
  requested = pos 0;
}

abbrev minted : Credentials
minted = document.creds

abbrev page_document : Granted
page_document = grant_document validator memory_store page_grant identity minted

-- The network brings this answer.
abbrev answered : Response
answered = respond encoder (ok page_document) [] (codes "id")

abbrev network : Portal.Remote
network = record {
  post = λ url form. some (answered.status, answered.body);
  decode_error = λ body. record { code = []; message = [] };
  decode_credentials = λ body. some (shown identity minted);
}

minted_issued :
    issue memory_store config.sts page_grant identity random now []
    ≡ ok (minted, (minted.access_key_id, minted) ∷ [])
unfolding issue lifetime mint crockford base64url sub add seconds bearer_token session_name
    session_name_of kept values canonical_key put delete
minted_issued = refl

form_fits :
    leb
      (length (encode_form (exchange_form settings (bearer_token page) (session_name page))))
      65536
    ≡ true
unfolding session_name session_name_of kept canonical_key values query_escape write_field
    encode_form join text_eq bearer_token
form_fits = refl

page-IsAdmitted :
    IsAdmitted platform config.sts 65536 validator memory_store encoder settings network page
unfolding bearer_token values canonical_key text_eq
page-IsAdmitted = record {
  home = refl;
  media = refl;
  token_bytes = short_word-IsBytes (codes "access.token") refl;
  token_given = refl;
  role_bytes = short_word-IsBytes settings.role_arn refl;
  role_given = refl;
  role_allowed = refl;
  fits = ground (arith, form_fits);
}

page_granted :
    (exchange validator memory_store platform config.sts 65536
      (asked_for platform config.sts 65536 validator memory_store encoder settings network page
        (codes "proxy:9000"))
      random
      now
      tt
      []).response
    ≡ ok page_document
page_granted =
    (exchange-granted platform config.sts 65536 validator memory_store encoder settings network
      (asked_for platform config.sts 65536 validator memory_store encoder settings network page
        (codes "proxy:9000"))
      page_grant identity minted random now tt [] ((minted.access_key_id, minted) ∷ [])
      (checked-session_name platform config.sts 65536 settings (bearer_token page)
        (codes "proxy:9000") page page-IsAdmitted.media page-IsAdmitted.token_bytes
        page-IsAdmitted.role_bytes page-IsAdmitted.token_given page-IsAdmitted.role_given
        page-IsAdmitted.role_allowed page-IsAdmitted.fits)
      refl minted_issued).0

page-IsDelivered :
    IsDelivered platform config.sts 65536 validator memory_store encoder settings network page
      (ok page_document)
      []
      (codes "id")
unfolding respond write_success
page-IsDelivered = record {
  delivered = refl;
  short = omega arith;
  decodes =
      λ d e. ap (λ x. some (read_of (response_of x (codes "id")))) (ok_injective page_document d e);
}

serve_home-exchange_example :
    (serve_home network settings page
      ≡ granted (session_name page) settings.public_endpoint (shown identity minted))
    × ((exchange validator memory_store platform config.sts 65536
          (asked_for platform config.sts 65536 validator memory_store encoder settings network page
            (codes "proxy:9000"))
          random
          now
          tt
          []).store
        ≡ (minted.access_key_id, minted) ∷ [])
    × (memory_store.put [] minted ≡ ok ((minted.access_key_id, minted) ∷ []))
serve_home-exchange_example =
    serve_home-exchange platform config.sts 65536 validator memory_store encoder settings network
      page (codes "proxy:9000") [] (codes "id") random now tt []
      ((minted.access_key_id, minted) ∷ []) identity minted page-IsAdmitted refl minted_issued
      (subst
        (λ a.
          IsDelivered platform config.sts 65536 validator memory_store encoder settings network page
            a [] (codes "id"))
        (sym page_granted) page-IsDelivered)
