-- ===== src/SigV4.antt =====
-- internal/sigv4: the names that its parts share. The parts are the Authorization header (Auth),
-- the canonical request (Canonical), verification of header and query authentication (Verify,
-- Presign) and signing (Sign).
pub mod Auth
pub mod Canonical
pub mod Verify
pub mod Presign
pub mod Sign
use ozone_oidc_proxy.Base.{ℕ, List, [], ◌∷◌, ◌++◌}
use ozone_oidc_proxy.Text.{Text, codes, join}

-- The typed errors, without the details of their messages.
pub data Error : Type 0 where
  malformed missing_date skew scope signature_mismatch presign_expired : Error

abbrev pub algorithm : Text
algorithm = codes "AWS4-HMAC-SHA256"

abbrev pub aws4_request : Text
aws4_request = codes "aws4_request"

pub record Authorization : Type 0 where
  pub access_key_id : Text
  pub date : Text
  pub region : Text
  pub service : Text
  pub signed_headers : List Text
  pub signature : Text

-- "<AKID>/<date>/<region>/<service>/aws4_request"
abbrev pub credential_scope : Authorization → Text
credential_scope a = join b'/' (a.access_key_id ∷ a.date ∷ a.region ∷ a.service ∷ aws4_request ∷ [])

-- What stands between the commas of the header.
abbrev pub header_parts : Authorization → List Text
header_parts a =
    (codes " Credential=" ++ credential_scope a)
    ∷ (codes " SignedHeaders=" ++ join b';' a.signed_headers)
    ∷ (codes " Signature=" ++ a.signature)
    ∷ []

-- The header that carries these fields:
-- "<algorithm> Credential=<scope>, SignedHeaders=<names>, Signature=<signature>".
unfoldable pub authorization_header : Authorization → Text
authorization_header a = algorithm ++ join b',' (header_parts a)
