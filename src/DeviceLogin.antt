-- ===== src/DeviceLogin.antt =====
-- internal/devicelogin: the device authorization grant, one call at a time. The HTTP client, the
-- clock, the file system and the JSON decoder are parameters.
pub mod Poll
pub mod TokenFile
pub mod Login
use ozone_oidc_proxy.Base.{
  ℕ, ◌/◌, Bool, true, false, List, [], ◌∷◌, ◌++◌, Option, none, some, ◌==◌, if◌then◌else◌, is_nil,
  take, ℤ, Result, ok, err, of_option,
}
use ozone_oidc_proxy.Text.{Text, codes, text_eq}
use ozone_oidc_proxy.Go.Clock.{Time, Duration}
use ozone_oidc_proxy.Go.Form.{encode_form}
use ozone_oidc_proxy.Go.Query.{Values}

pub record Client : Type 0 where
  pub issuer : Text
  pub client_id : Text
  pub scope : Text

pub record Endpoints : Type 0 where
  pub device_authorization : Text
  pub token : Text

pub record DeviceAuth : Type 0 where
  pub device_code : Text
  pub user_code : Text
  pub verification_uri : Text
  pub verification_uri_complete : Text
  pub expires_in : ℤ
  pub interval : ℤ

pub record Token : Type 0 where
  pub access_token : Text
  pub refresh_token : Text
  pub expires_in : ℤ

pub record OauthError : Type 0 where
  pub code : Text
  pub description : Text

-- How a call fails, without the details of the messages.
pub data Failure : Type 0 where
  -- `http.NewRequest`, `Do` or reading the body
  transport : Failure
  status : ℕ → Failure
  unreadable : Failure
  oauth : OauthError → Failure
  -- a field that an answer must have
  missing : Failure
  cancelled : Failure
  access_denied expired session_expired : Failure

-- What the program calls. `World` is the state of the network, of the clock and of the files.
pub record Machine : Type 1 where
  pub World : Type 0
  -- GET of a URL, and POST of a form to a URL: status and body, or `none` on an error
  pub http_get : World → Text → Option (ℕ × Text) × World
  pub http_post : World → Text → Text → Option (ℕ × Text) × World
  pub now : World → Time
  pub sleep : World → Duration → World
  -- the wait of a `select` for this long, and whether it was interrupted
  pub wait : World → Duration → Bool × World
  -- whether `ctx.Err()` is set
  pub is_cancelled : World → Bool
  pub decode_endpoints : Text → Option Endpoints
  pub decode_device_auth : Text → Option DeviceAuth
  pub decode_token : Text → Option Token
  pub decode_error : Text → Option OauthError

-- At most so many bytes of an answer are read.
abbrev pub body_limit : ℕ
body_limit = 1048576

-- `strings.TrimSuffix(s, "/")`
unfoldable pub trim_slash : Text → Text
trim_slash [] = []
trim_slash (c ∷ []) = if c == b'/' then [] else c ∷ []
trim_slash (c ∷ d ∷ s) = c ∷ trim_slash (d ∷ s)

abbrev pub discovery_url : Client → Text
discovery_url c = trim_slash c.issuer ++ codes "/.well-known/openid-configuration"

module _ (m : Machine) where
  open m use {World}

  abbrev pub Call : Type 0 → Type 0
  Call A = Result Failure A × World

  -- The error of an answer whose status is not 2xx.
  abbrev refusal : ℕ → Option OauthError → Failure
  refusal code none = status code
  refusal code (some e) = if is_nil e.code then status code else oauth e

  abbrev read : {A : Type 0} → (Text → Option A) → Option (ℕ × Text) → Result Failure A
  read decode none = err transport
  read decode (some (code, body)) =
      let text = take body_limit body in
      if code / 100 == 2
      then of_option unreadable (decode text)
      else err (refusal code (m.decode_error text))

  abbrev answered : {A : Type 0} → (Text → Option A) → Option (ℕ × Text) × World → Call A
  answered decode (answer, w) = (read decode answer, w)

  -- `Client.postForm`
  unfoldable pub post_form : {A : Type 0} → (Text → Option A) → World → Text → Values → Call A
  post_form decode w endpoint form = answered decode (m.http_post w endpoint (encode_form form))

  abbrev checked_endpoints : Endpoints → Result Failure Endpoints
  checked_endpoints ep =
      if is_nil ep.device_authorization
      then err missing
      else if is_nil ep.token
      then err missing
      else ok ep

  abbrev read_endpoints : Option Endpoints → Result Failure Endpoints
  read_endpoints none = err unreadable
  read_endpoints (some ep) = checked_endpoints ep

  abbrev discovered : Option (ℕ × Text) × World → Call Endpoints
  discovered (none, w) = (err transport, w)
  discovered (some (code, body), w) =
      let decoded = read_endpoints (m.decode_endpoints (take body_limit body)) in
      (if code == 200 then decoded else err (status code), w)

  -- `Client.Discover`
  unfoldable pub discover : Client → World → Call Endpoints
  discover c w = discovered (m.http_get w (discovery_url c))

  abbrev start_form : Client → Values
  start_form c =
      let id : Text × Text = (codes "client_id", c.client_id) in
      if is_nil c.scope then id ∷ [] else id ∷ (codes "scope", c.scope) ∷ []

  abbrev started : Call DeviceAuth → Call DeviceAuth
  started (err e, w) = (err e, w)
  started (ok da, w) =
      if is_nil da.device_code
      then (err missing, w)
      else if is_nil da.user_code
      then (err missing, w)
      else (ok da, w)

  -- `Client.Start`
  unfoldable pub start : Client → World → Endpoints → Call DeviceAuth
  start c w ep = started (post_form m.decode_device_auth w ep.device_authorization (start_form c))

  abbrev pub refresh_form : Client → Text → Values
  refresh_form c refresh_token =
      (codes "client_id", c.client_id)
      ∷ (codes "grant_type", codes "refresh_token")
      ∷ (codes "refresh_token", refresh_token)
      ∷ []

  abbrev refresh_failure : Failure → Failure
  refresh_failure (oauth e) =
      if text_eq e.code (codes "invalid_grant") then session_expired else oauth e
  refresh_failure e = e

  abbrev pub refreshed : Call Token → Call Token
  refreshed (err e, w) = (err (refresh_failure e), w)
  refreshed (ok tok, w) = (if is_nil tok.access_token then err missing else ok tok, w)

  -- `Client.Refresh`
  unfoldable pub refresh : Client → World → Endpoints → Text → Call Token
  refresh c w ep refresh_token =
      refreshed (post_form m.decode_token w ep.token (refresh_form c refresh_token))
