-- ===== src/StubIssuer.antt =====
-- examples/compose/stub-issuer: the handler of POST /token and `signJWT`. JSON and RSA are
-- parameters; a form is the function `PostFormValue`, and seconds are counted from the year 0.
pub mod Accepted
use ozone_oidc_proxy.Base.{
  ℕ, ◌/◌, ◌++◌, List, [], ◌∷◌, Option, none, some, ℤ, pos, negsuc, if◌then◌else◌, is_nil, lt_ℤ,
}
use ozone_oidc_proxy.Text.{Text, codes, split}
use ozone_oidc_proxy.Go.Clock.{Time, second, seconds, add}
use ozone_oidc_proxy.Go.Decimal.{atoi}
use ozone_oidc_proxy.Store.Mint.{base64url}

abbrev pub kid : Text
kid = codes "stub-2026"

pub record Claims : Type 0 where
  pub iss : Text
  pub sub : Text
  pub uid : Text
  pub aud : List Text
  pub iat : ℕ
  pub nbf : ℕ
  pub exp : ℕ

pub record Signer : Type 0 where
  -- `json.Marshal` of the header, with the algorithm, the type and the key id
  pub encode_header : Text → Text → Text → Text
  pub encode_claims : Claims → Option Text
  -- `rsa.SignPKCS1v15` of the digest, after `sha256.Sum256`
  pub sign_digest : Text → Option Text
  pub sha256 : Text → Text

pub data Answer : Type 0 where
  username_required : Answer
  server_error : Answer
  minted : (token : Text) (expires_in : ℤ) → Answer

abbrev or_default : ℤ → Option ℤ → ℤ
or_default d none = d
or_default d (some n) = if lt_ℤ (pos 0) n then n else d

-- The lifetime in seconds of a `ttl` field.
unfoldable pub ttl_of : Text → ℤ
ttl_of s = if is_nil s then pos 600 else or_default (pos 600) (atoi s)

abbrev pub audience_of : Text → Text → Text
audience_of audience s = if is_nil s then audience else s

abbrev pub claims_of : (issuer audience : Text) (form : Text → Text) (now : Time) → Claims
claims_of issuer audience form now = record {
  iss = issuer;
  sub = codes "stub|" ++ form (codes "username");
  uid = form (codes "username");
  aud = split b',' (audience_of audience (form (codes "aud")));
  iat = now / second;
  nbf = now / second;
  exp = add now (seconds (ttl_of (form (codes "ttl")))) / second;
}

module _ (s : Signer) where
  abbrev signed : Text → Option Text → Option Text
  signed input none = none
  signed input (some sig) = some (input ++ (b'.' ∷ base64url sig))

  abbrev with_payload : Option Text → Option Text
  with_payload none = none
  with_payload (some payload) =
      let input =
        base64url (s.encode_header (codes "RS256") (codes "JWT") kid)
        ++ (b'.' ∷ base64url payload) in
      signed input (s.sign_digest (s.sha256 input))

  -- `signJWT`
  unfoldable pub sign_jwt : Claims → Option Text
  sign_jwt c = with_payload (s.encode_claims c)

  abbrev answer_of : ℤ → Option Text → Answer
  answer_of ttl none = server_error
  answer_of ttl (some token) = minted token ttl

  -- The handler of POST /token.
  unfoldable pub token_answer : (issuer audience : Text) → (Text → Text) → Time → Answer
  token_answer issuer audience form now =
      if is_nil (form (codes "username"))
      then username_required
      else answer_of (ttl_of (form (codes "ttl"))) (sign_jwt (claims_of issuer audience form now))
