-- ===== src/Forward.antt =====
-- internal/forward: the request that carries an authenticated identity to the gateway.
pub mod Identity
pub mod Strip
use ozone_oidc_proxy.Base.{
  Bool, true, false, not, List, [], ◌∷◌, ◌++◌, Option, none, some, if◌then◌else◌, is_nil, any,
}
use ozone_oidc_proxy.Text.{Text, codes, text_eq, split, cut, join}
use ozone_oidc_proxy.Go.Clock.{Time, format_date, format_amz}
use ozone_oidc_proxy.Go.Http
use ozone_oidc_proxy.Go.Http.{Header, Request}
use ozone_oidc_proxy.Go.Percent.{query_unescape}
use ozone_oidc_proxy.Platform.{Platform}
use ozone_oidc_proxy.SigV4.{Error, Authorization, authorization_header}
use ozone_oidc_proxy.SigV4.Presign.{unsigned_payload}
use ozone_oidc_proxy.SigV4.Sign.{SignInput, sign}

-- 64 zeros.
abbrev pub junk_signature : Text
junk_signature = codes "0000000000000000000000000000000000000000000000000000000000000000"

abbrev pub service_s3 : Text
service_s3 = codes "s3"

abbrev pub security_token : Text
security_token = codes "X-Amz-Security-Token"

-- The fields of the synthetic header.
abbrev pub synthetic : Text → Text → Time → Authorization
synthetic username region now = record {
  access_key_id = username;
  date = format_date now;
  region = region;
  service = service_s3;
  signed_headers = codes "host" ∷ codes "x-amz-date" ∷ [];
  signature = junk_signature;
}

unfoldable pub apply_synthetic : Request → Text → Text → Time → Request
apply_synthetic r username region now =
    let h =
      Http.set r.header (codes "Authorization")
        (authorization_header (synthetic username region now)) in
    let h = Http.set h (codes "X-Amz-Date") (format_amz now) in
    let h = Http.set h (codes "X-Amz-Content-Sha256") unsigned_payload in
    record r { header = Http.del h security_token }

abbrev pub resign_secret : Text
resign_secret = codes "ozone-oidc-proxy-resign"

-- What `ApplyResign` hands to `Sign`.
abbrev pub resign_input : Request → Text → Text → Text → Time → SignInput
resign_input r username upstream_host region now = record {
  request = record r { header = Http.del r.header security_token };
  access_key_id = username;
  secret = resign_secret;
  region = region;
  service = service_s3;
  host = upstream_host;
  now = now;
}

-- The request is changed on an error too.
unfoldable pub apply_resign :
    Platform → Request → Text → Text → Text → Time → Request × Option Error
apply_resign p r username upstream_host region now =
    sign p (resign_input r username upstream_host region now)

abbrev pub token_name : Text
token_name = codes "x-amz-security-token"

unfoldable pub without_token : List Text → List Text
without_token [] = []
without_token (h ∷ hs) =
    let rest = without_token hs in if text_eq h token_name then rest else h ∷ rest

-- The client's fields with the user in place of the access key.
abbrev pub rewritten : Authorization → Text → Authorization
rewritten a username = record a {
  access_key_id = username;
  signed_headers = without_token a.signed_headers;
}

unfoldable pub rewrite_access_key_id : Request → Authorization → Text → Request
rewrite_access_key_id r a username =
    let h =
      Http.set r.header (codes "Authorization") (authorization_header (rewritten a username)) in
    record r { header = Http.del h security_token }

abbrev pub presigned_auth_params : List Text
presigned_auth_params =
    codes "X-Amz-Algorithm"
    ∷ codes "X-Amz-Credential"
    ∷ codes "X-Amz-Date"
    ∷ codes "X-Amz-Expires"
    ∷ codes "X-Amz-SignedHeaders"
    ∷ codes "X-Amz-Signature"
    ∷ codes "X-Amz-Security-Token"
    ∷ []

unfoldable pub is_auth_param : Text → Bool
is_auth_param key = any (λ name. text_eq name key) presigned_auth_params

-- A part whose key cannot be decoded is kept.
unfoldable pub is_auth_part : Text → Bool
is_auth_part part = elim (query_unescape (cut b'=' part).0) [
  | none ↦ false
  | some key ↦ is_auth_param key
]

unfoldable pub kept_parts : List Text → List Text
kept_parts [] = []
kept_parts (part ∷ parts) =
    let rest = kept_parts parts in
    if is_nil part then rest else if is_auth_part part then rest else part ∷ rest

unfoldable pub strip_presigned_query : Request → Request
strip_presigned_query r =
    if is_nil r.raw_query
    then r
    else record r { raw_query = join b'&' (kept_parts (split b'&' r.raw_query)) }
