-- ===== src/SigV4/Verify.antt =====
-- internal/sigv4/sigv4.go, `Verify` and the key derivation.
pub mod Sound
use ozone_oidc_proxy.Base.{
  Bool, true, false, not, ◌||◌, List, [], ◌∷◌, ◌++◌, is_nil, take, Result, ok, err, ◌>>=◌, ◌>>◌,
  guard, of_option, lt_ℤ, neg,
}
use ozone_oidc_proxy.Text.{Text, codes, text_eq, join}
use ozone_oidc_proxy.Go.Clock.{Time, Duration, sub, parse_amz}
use ozone_oidc_proxy.Go.Hex.{encode_hex}
use ozone_oidc_proxy.Go.Http
use ozone_oidc_proxy.Go.Http.{Request}
use ozone_oidc_proxy.Platform.{Platform}
use ozone_oidc_proxy.SigV4.{
  Error, malformed, missing_date, skew, scope, signature_mismatch, Authorization, algorithm,
  aws4_request,
}
use ozone_oidc_proxy.SigV4.Canonical.{canonical_request}

pub record Input : Type 0 where
  pub request : Request
  pub auth : Authorization
  pub secret : Text
  pub region : Text
  pub service : Text
  pub now : Time
  pub clock_skew : Duration

-- `d > in.ClockSkew || d < -in.ClockSkew`
abbrev pub is_skewed : Duration → Duration → Bool
is_skewed allowed d = lt_ℤ allowed d || lt_ℤ d (neg allowed)

module _ (p : Platform) where
  unfoldable pub derive_key : Text → Text → Text → Text → Text
  derive_key secret date region service =
      let k_date = p.hmac_sha256 (codes "AWS4" ++ secret) date in
      let k_region = p.hmac_sha256 k_date region in
      let k_service = p.hmac_sha256 k_region service in p.hmac_sha256 k_service aws4_request

  unfoldable pub string_to_sign : Text → Text → Text → Text → Text → Text
  unfolding join encode_hex
  string_to_sign amz_date date region service canonical = join b'\n' (
      algorithm
      ∷ amz_date
      ∷ join b'/' (date ∷ region ∷ service ∷ aws4_request ∷ [])
      ∷ encode_hex (p.sha256 canonical)
      ∷ [])

  -- The signature that the server computes; signers compute it in the same words.
  unfoldable pub expected_signature : Text → Text → Text → Text → Text → Text → Text
  unfolding derive_key string_to_sign
  expected_signature secret amz_date date region service canonical = encode_hex (
      p.hmac_sha256 (derive_key secret date region service)
        (string_to_sign amz_date date region service canonical))

  unfoldable pub verify : Input → Result Error (Unit {0})
  verify i = do
    let a = i.auth
    let amz_date = Http.get i.request.header (codes "X-Amz-Date")
    guard (text_eq a.service i.service) scope
    guard (text_eq a.region i.region) scope
    guard (not (is_nil amz_date)) missing_date
    t ← of_option malformed (parse_amz amz_date)
    guard (not (is_skewed i.clock_skew (sub i.now t))) skew
    guard (text_eq (take 8 amz_date) a.date) scope
    canonical ← canonical_request p i.request a.signed_headers
    guard
        (text_eq (expected_signature i.secret amz_date a.date a.region a.service canonical)
          a.signature)
        signature_mismatch
