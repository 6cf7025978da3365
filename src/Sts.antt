-- ===== src/Sts.antt =====
-- internal/sts: the exchange of a token for temporary credentials.
pub mod Response
pub mod Wrap
pub mod Lifetime
pub mod Exchange
use ozone_oidc_proxy.Base.{
  ℕ, Bool, true, false, not, ◌&&◌, ◌||◌, List, [], ◌∷◌, ◌++◌, ltb, leb, ◌==◌, if◌then◌else◌, is_nil,
  length, any, all, Option, none, some, ℤ, pos, lt_ℤ, Result, ok, err, ◌>>=◌, ◌>>◌, guard,
  of_option,
}
use ozone_oidc_proxy.Text.{Text, codes, text_eq, split}
use ozone_oidc_proxy.Go.Clock.{Time, Duration, sub, add, seconds}
use ozone_oidc_proxy.Go.Decimal.{atoi, is_digit}
use ozone_oidc_proxy.Go.Http
use ozone_oidc_proxy.Go.Http.{Request}
use ozone_oidc_proxy.Go.Query
use ozone_oidc_proxy.Go.Query.{Values, parameters, has_bad_part}
use ozone_oidc_proxy.Config
use ozone_oidc_proxy.Oidc
use ozone_oidc_proxy.Oidc.{Identity}
use ozone_oidc_proxy.Platform.{Platform}
use ozone_oidc_proxy.Store.{Credentials, Store, Failure}
use ozone_oidc_proxy.Store.Mint.{Randomness, mint}

-- The error codes of the service.
pub data Code : Type 0 where
  validation_error invalid_identity_token expired_token : Code
  idp_communication_error access_denied service_failure : Code

-- A refused exchange: HTTP status, error code, and the issuer that the metrics name.
pub record Rejection : Type 0 where
  pub status : ℕ
  pub code : Code
  pub issuer : Text

abbrev pub rejection : ℕ → Code → Rejection
rejection status code = record { status = status; code = code; issuer = [] }

-- The document of a granted exchange, without its XML.
pub record Granted : Type 0 where
  pub subject : Text
  pub assumed_role_id : Text
  pub arn : Text
  pub creds : Credentials
  pub provider : Text

-- The form fields of an accepted request; `requested` is 0 where no duration is asked for.
pub record Grant : Type 0 where
  pub token : Text
  pub role_arn : Text
  pub session_name : Text
  pub requested : ℤ

abbrev pub action : Text
action = codes "AssumeRoleWithWebIdentity"

abbrev pub form_type : Text
form_type = codes "application/x-www-form-urlencoded"

abbrev content_type : Request → Text
content_type r =
    let given = Http.get r.header (codes "Content-Type") in
    if is_nil given then codes "application/octet-stream" else given

abbrev of_media : Option Values → Option Text → Option Values
of_media body none = none
of_media body (some media) = if text_eq media form_type then body else some []

-- `ParseForm` of a POST whose body may have `limit` bytes, and `PostForm`; `none` is its error.
unfoldable pub post_form : Platform → ℕ → Request → Option Values
post_form p limit r =
    let parts = split b'&' r.body in
    let body =
      if leb (length r.body) limit && not (has_bad_part parts)
      then some (parameters parts)
      else none in
    if has_bad_part (split b'&' r.raw_query)
    then none
    else of_media body (p.media_type (content_type r))

abbrev pub is_session_char : ℕ → Bool
is_session_char c =
    is_digit c
    || (leb b'A' c && leb c b'Z')
    || (leb b'a' c && leb c b'z')
    || c == b'_'
    || c == b'+'
    || c == b'='
    || c == b','
    || c == b'.'
    || c == b'@'
    || c == b'-'

-- `^[\w+=,.@-]{2,64}$`
unfoldable pub is_session_name : Text → Bool
is_session_name s = leb 2 (length s) && leb (length s) 64 && all is_session_char s

abbrev session_name_of : Text → Text
session_name_of s = if is_nil s then codes "web-identity" else s

-- `DurationSeconds`: 0 where it is absent.
unfoldable pub requested_of : Text → Result Rejection ℤ
requested_of s =
    let bad = rejection 400 validation_error in
    let number = of_option bad (atoi s) >>= λ n. guard (lt_ℤ (pos 0) n) bad >> ok n in
    if is_nil s then ok (pos 0) else number

-- The checks of a request up to the token.
unfoldable pub checked : Platform → Config.Sts → ℕ → Request → Result Rejection Grant
checked p cfg limit r = do
  guard (text_eq r.method (codes "POST")) (rejection 405 validation_error)
  form ← of_option (rejection 400 validation_error) (post_form p limit r)
  let token = Query.get form (codes "WebIdentityToken")
  let role_arn = Query.get form (codes "RoleArn")
  let session_name = session_name_of (Query.get form (codes "RoleSessionName"))
  guard (text_eq (Query.get form (codes "Action")) action) (rejection 400 validation_error)
  guard (not (is_nil token)) (rejection 400 validation_error)
  guard (not (is_nil role_arn)) (rejection 400 validation_error)
  guard (is_nil cfg.role_arn_allowlist || Config.member role_arn cfg.role_arn_allowlist)
      (rejection 403 access_denied)
  guard (is_session_name session_name) (rejection 400 validation_error)
  requested ← requested_of (Query.get form (codes "DurationSeconds"))
  ok (record {
    token = token;
    role_arn = role_arn;
    session_name = session_name;
    requested = requested;
  })

abbrev min_duration : Duration → Duration → Duration
min_duration ttl cap = if lt_ℤ cap ttl then cap else ttl

-- The effective lifetime: the least of what is left of the token, the configured maximum, and the
-- requested duration if there is one.
unfoldable pub lifetime : Config.Sts → ℤ → Time → Time → Duration
lifetime cfg requested expiry now =
    let ttl = min_duration (sub expiry now) (seconds cfg.max_duration) in
    if lt_ℤ (pos 0) requested then min_duration ttl (seconds requested) else ttl

-- `mapTokenError`
unfoldable pub map_token_error : Oidc.Error → Rejection
map_token_error Oidc.Error.token_expired = rejection 400 expired_token
map_token_error Oidc.Error.issuer_unavailable = rejection 400 idp_communication_error
map_token_error e = rejection 400 invalid_identity_token

-- The interface `TokenValidator`, at the state of a validator.
pub record TokenValidator : Type 1 where
  pub State : Type 0
  pub validate : State → Text → Result Oidc.Error Identity × State

abbrev failed : Identity → Rejection
failed i = record { status = 500; code = service_failure; issuer = i.issuer_name }

module _ (st : Store) where
  abbrev stored :
      Identity → Credentials → Result Failure st.State → Result Rejection (Credentials × st.State)
  stored i creds (ok s') = ok (creds, s')
  stored i creds (err e) = err (failed i)

  -- Minting and storing for a validated identity.
  unfoldable pub issue :
      Config.Sts
      → Grant
      → Identity
      → Randomness
      → Time
      → st.State
      → Result Rejection (Credentials × st.State)
  issue cfg g i random now s = do
    let ttl = lifetime cfg g.requested i.expiry now
    guard (lt_ℤ (pos 0) ttl) (record { status = 400; code = expired_token; issuer = i.issuer_name })
    creds ← of_option (failed i) (mint random i.username i.issuer_name (add now ttl))
    stored i creds (st.put s creds)

module _ (tv : TokenValidator) (st : Store) where
  -- The response, the issuer and code that the metrics are told, and the states.
  pub record Exchanged : Type 0 where
    pub response : Result Rejection Granted
    pub issuer : Text
    pub store : st.State
    pub validator : tv.State

  abbrev rejected : Rejection → tv.State → st.State → Exchanged
  rejected e v s = record { response = err e; issuer = e.issuer; store = s; validator = v }

  abbrev pub grant_document : Grant → Identity → Credentials → Granted
  grant_document g i creds = record {
    subject = i.subject;
    assumed_role_id = codes "OZPXROLEID:" ++ g.session_name;
    arn = g.role_arn ++ (b'/' ∷ g.session_name);
    creds = creds;
    provider = i.issuer_url;
  }

  abbrev with_issued :
      Grant → Identity → tv.State → st.State → Result Rejection (Credentials × st.State) → Exchanged
  with_issued g i v s (err e) = rejected e v s
  with_issued g i v s (ok (creds, s')) = record {
    response = ok (grant_document g i creds);
    issuer = i.issuer_name;
    store = s';
    validator = v;
  }

  abbrev with_identity :
      Config.Sts
      → Grant
      → Randomness
      → Time
      → st.State
      → Result Oidc.Error Identity × tv.State
      → Exchanged
  with_identity cfg g random now s (err e, v) = rejected (map_token_error e) v s
  with_identity cfg g random now s (ok i, v) = with_issued g i v s (issue st cfg g i random now s)

  abbrev with_grant :
      Config.Sts → Randomness → Time → tv.State → st.State → Result Rejection Grant → Exchanged
  with_grant cfg random now v s (err e) = rejected e v s
  with_grant cfg random now v s (ok g) = with_identity cfg g random now s (tv.validate v g.token)

  -- `Handler.ServeHTTP`
  unfoldable pub exchange :
      Platform → Config.Sts → ℕ → Request → Randomness → Time → tv.State → st.State → Exchanged
  exchange p cfg limit r random now v s = with_grant cfg random now v s (checked p cfg limit r)
