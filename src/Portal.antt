-- ===== src/Portal.antt =====
-- cmd/credential-portal: the page that exchanges the token of a signed-in user for credentials. The
-- HTTP client and the XML decoder are parameters; the page is its data, without the template.
pub mod Exchange
pub mod Shown
use ozone_oidc_proxy.Base.{
  ℕ, zero, suc, ◌*◌, Bool, true, false, ◌&&◌, ◌||◌, List, [], ◌∷◌, ◌++◌, Option, none, some, ltb,
  leb, ◌==◌, if◌then◌else◌, is_nil, length, take, pos,
}
use ozone_oidc_proxy.Text.{Text, codes, text_eq, cut_prefix}
use ozone_oidc_proxy.Go.Form.{encode_form}
use ozone_oidc_proxy.Go.Http
use ozone_oidc_proxy.Go.Http.{Request}
use ozone_oidc_proxy.Go.Query.{Values}
use ozone_oidc_proxy.Sts.{form_type}

-- The settings of the type `portal`.
pub record Settings : Type 0 where
  pub sts_endpoint : Text
  pub role_arn : Text
  pub public_endpoint : Text

-- The fields of the exchange's answer that the page needs.
pub record StsCredentials : Type 0 where
  pub access_key_id : Text
  pub secret_access_key : Text
  pub session_token : Text
  pub expiration : Text
  pub subject : Text

pub record StsError : Type 0 where
  pub code : Text
  pub message : Text

-- Why the page has no credentials to show.
pub data Problem : Type 0 where
  no_token unreachable unreadable : Problem
  -- the code, or `unknown`, and the message of the refusal
  rejected : Text → Text → Problem

pub data Page : Type 0 where
  -- `http.NotFound`
  not_found : Page
  -- the HTTP status, and what the page reports
  failed : ℕ → Problem → Page
  -- user name, endpoint and credentials
  granted : Text → Text → StsCredentials → Page

-- What the portal calls: the POST of a form, with the status and the body of its answer, or `none`
-- on an error; and `xml.Unmarshal`, whose error leaves an `StsError` as it is.
pub record Remote : Type 0 where
  pub post : Text → Text → Option (ℕ × Text)
  pub decode_error : Text → StsError
  pub decode_credentials : Text → Option StsCredentials

-- `bearerToken`: empty where there is none.
unfoldable pub bearer_token : Request → Text
bearer_token r =
    let forwarded = Http.get r.header (codes "X-Forwarded-Access-Token") in
    let bearer = cut_prefix (Http.get r.header (codes "Authorization")) (codes "Bearer ") in
    if is_nil forwarded then elim bearer [ none ↦ [] | some token ↦ token ] else forwarded

-- The bytes of a user name that a session name keeps.
abbrev pub is_safe : ℕ → Bool
is_safe c =
    (leb b'A' c && leb c b'Z')
    || (leb b'a' c && leb c b'z')
    || (leb b'0' c && leb c b'9')
    || c == b'_'
    || c == b'='
    || c == b','
    || c == b'.'
    || c == b'@'
    || c == b'-'

-- The loop over the bytes, with the room that is left in the session name.
unfoldable pub kept : ℕ → Text → Text
kept room [] = []
kept zero (c ∷ s) = []
kept (suc room) (c ∷ s) =
    let with_it = kept room s in
    let without = kept (suc room) s in if is_safe c then c ∷ with_it else without

abbrev max_session_name : ℕ
max_session_name = 64

unfoldable pub session_name_of : Text → Text
session_name_of raw =
    let name = kept max_session_name raw in if ltb (length name) 2 then codes "portal" else name

-- `sessionName`
unfoldable pub session_name : Request → Text
session_name r =
    let preferred = Http.get r.header (codes "X-Forwarded-Preferred-Username") in
    session_name_of
      (if is_nil preferred then Http.get r.header (codes "X-Forwarded-User") else preferred)

-- The form of the exchange, in the order of its keys.
abbrev pub exchange_form : Settings → Text → Text → Values
exchange_form p token username =
    (codes "Action", codes "AssumeRoleWithWebIdentity")
    ∷ (codes "RoleArn", p.role_arn)
    ∷ (codes "RoleSessionName", username)
    ∷ (codes "Version", codes "2011-06-15")
    ∷ (codes "WebIdentityToken", token)
    ∷ []

-- The POST of that form, as the exchange receives it; `host` is the host of the endpoint.
unfoldable pub exchange_request : Settings → Text → Text → Text → Request
exchange_request p token username host =
    let body = encode_form (exchange_form p token username) in
    record {
      method = codes "POST";
      request_uri = b'/' ∷ [];
      host = host;
      url_host = [];
      path = b'/' ∷ [];
      escaped_path = b'/' ∷ [];
      raw_query = [];
      header = (codes "Content-Type", (form_type ∷ [])) ∷ [];
      content_length = pos (length body);
      body = body;
    }

-- At most so many bytes of an answer are read.
abbrev pub body_limit : ℕ
body_limit = 1048576

abbrev or_unknown : Text → Text
or_unknown s = if is_nil s then codes "unknown" else s

module _ (remote : Remote) (p : Settings) where
  abbrev with_credentials : Text → Option StsCredentials → Page
  with_credentials username none = failed 502 unreadable
  with_credentials username (some creds) =
      if is_nil creds.access_key_id
      then failed 502 unreadable
      else granted username p.public_endpoint creds

  abbrev with_answer : Text → Option (ℕ × Text) → Page
  with_answer username none = failed 502 unreachable
  with_answer username (some (status, body)) =
      let read = take body_limit body in
      let refusal = remote.decode_error read in
      if status == 200
      then with_credentials username (remote.decode_credentials read)
      else failed 502 (rejected (or_unknown refusal.code) refusal.message)

  abbrev with_token : Request → Text → Page
  with_token r token =
      let username = session_name r in
      let form = encode_form (exchange_form p token username) in
      if is_nil token
      then failed 401 no_token
      else with_answer username (remote.post (p.sts_endpoint ++ (b'/' ∷ [])) form)

  -- `portal.serveHome`
  unfoldable pub serve_home : Request → Page
  serve_home r = if text_eq r.path (b'/' ∷ []) then with_token r (bearer_token r) else not_found
