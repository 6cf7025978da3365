-- ===== src/Examples/Issuers.antt =====
-- A run of the stub issuer with the validator.
use ozone_oidc_proxy.Base.{Bool, true, false, ◌&&◌, List, [], ◌∷◌, none, some, if◌then◌else◌}
use ozone_oidc_proxy.Text.{Text, codes, text_eq}
use ozone_oidc_proxy.Oidc
use ozone_oidc_proxy.Oidc.{Jwt, IssuerState, Validator, verified}
use ozone_oidc_proxy.StubIssuer.{Claims, Signer, kid}
use ozone_oidc_proxy.Examples.Data.{alice, issuer}
use ozone_oidc_proxy.Examples.Tokens.{jwt, issuer_state}

abbrev idp : Text
idp = codes "https://idp"

abbrev for_s3 : List Text → Bool
for_s3 [] = false
for_s3 (a ∷ []) = text_eq a (codes "s3")
for_s3 (a ∷ b ∷ rest) = false

-- The toy signer knows one user of one issuer, and one audience.
abbrev is_known : Claims → Bool
is_known c = text_eq c.iss idp && (text_eq c.uid alice && for_s3 c.aud)

abbrev signer : Signer
signer = record {
  encode_header = λ alg typ kid. [];
  encode_claims = λ c. if is_known c then some [] else none;
  sign_digest = λ digest. some [];
  sha256 = λ s. s;
}

-- The library that reads its tokens.
abbrev reader : Jwt
reader = record jwt {
  protected_headers = λ raw. some ((codes "RS256", kid) ∷ []);
  claim = λ token name. some alice;
}

abbrev uid_issuer : IssuerState
uid_issuer = record issuer_state { cfg = record issuer { username_claim = codes "uid" } }

abbrev registry : Validator reader
registry = record {
  issuers = uid_issuer ∷ [];
  allowed_algs = codes "RS256" ∷ [];
  policy = record { pattern = []; regex = some (λ name. true) };
  world = tt;
}

abbrev form : Text → Text
form name = if text_eq name (codes "username") then alice else []
