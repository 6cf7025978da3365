-- ===== src/SigV4/Presign.antt =====
-- internal/sigv4/presign.go, authentication by the query string.
pub mod Window
use ozone_oidc_proxy.Base.{
  ℕ, Bool, true, false, not, ◌||◌, ◌&&◌, List, [], ◌∷◌, ◌++◌, ◌==◌, length, take, Result, ok, err,
  ◌>>=◌, ◌>>◌, guard, of_option, ℤ, pos, lt_ℤ, ltb,
}
use ozone_oidc_proxy.Text.{Text, codes, text_eq}
use ozone_oidc_proxy.Go.Clock.{Time, Duration, sub, add, seconds, parse_amz}
use ozone_oidc_proxy.Go.Decimal.{atoi}
use ozone_oidc_proxy.Go.Http.{Request}
use ozone_oidc_proxy.Go.Query
use ozone_oidc_proxy.Go.Query.{Values, query}
use ozone_oidc_proxy.Platform.{Platform}
use ozone_oidc_proxy.SigV4.{
  Error, malformed, skew, scope, signature_mismatch, presign_expired, Authorization, algorithm,
}
use ozone_oidc_proxy.SigV4.Auth.{
  no_authorization, set_credential, set_signed_headers, set_signature,
}
use ozone_oidc_proxy.SigV4.Canonical.{build_canonical}
use ozone_oidc_proxy.SigV4.Verify.{expected_signature}

-- One week, in seconds.
abbrev pub max_presign_expires : ℕ
max_presign_expires = 604800

abbrev pub unsigned_payload : Text
unsigned_payload = codes "UNSIGNED-PAYLOAD"

abbrev pub x_amz_signature : Text
x_amz_signature = codes "X-Amz-Signature"

pub record Presigned : Type 0 where
  pub authorization : Authorization
  pub amz_date : Text
  pub expires : Duration
  pub security_token : Text

unfoldable pub is_presigned : Request → Bool
is_presigned r =
    Query.has (query r.raw_query) (codes "X-Amz-Algorithm")
    || Query.has (query r.raw_query) x_amz_signature

unfoldable pub is_sigv2_query : Request → Bool
is_sigv2_query r =
    Query.has (query r.raw_query) (codes "AWSAccessKeyId")
    && Query.has (query r.raw_query) (codes "Signature")

unfoldable pub parse_presigned : Request → Result Error Presigned
parse_presigned r = do
  let q = query r.raw_query
  let amz_date = Query.get q (codes "X-Amz-Date")
  guard (text_eq (Query.get q (codes "X-Amz-Algorithm")) algorithm) malformed
  a ← set_credential no_authorization (Query.get q (codes "X-Amz-Credential"))
  a ← set_signed_headers a (Query.get q (codes "X-Amz-SignedHeaders"))
  a ← set_signature a (Query.get q x_amz_signature)
  guard (length amz_date == 16) malformed
  n ← of_option malformed (atoi (Query.get q (codes "X-Amz-Expires")))
  guard (lt_ℤ (pos 0) n) malformed
  guard (not (lt_ℤ (pos max_presign_expires) n)) malformed
  ok (record {
    authorization = a;
    amz_date = amz_date;
    expires = seconds n;
    security_token = Query.get q (codes "X-Amz-Security-Token");
  })

pub record PresignInput : Type 0 where
  pub request : Request
  pub auth : Presigned
  pub secret : Text
  pub region : Text
  pub service : Text
  pub now : Time
  pub clock_skew : Duration

unfoldable pub verify_presigned : Platform → PresignInput → Result Error (Unit {0})
verify_presigned p i = do
  let a = i.auth.authorization
  let amz_date = i.auth.amz_date
  guard (text_eq a.service i.service) scope
  guard (text_eq a.region i.region) scope
  t ← of_option malformed (parse_amz amz_date)
  guard (text_eq (take 8 amz_date) a.date) scope
  guard (not (lt_ℤ i.clock_skew (sub t i.now))) skew
  guard (not (ltb (add t i.auth.expires) i.now)) presign_expired
  canonical ← build_canonical p i.request a.signed_headers x_amz_signature unsigned_payload
  guard
      (text_eq (expected_signature p i.secret amz_date a.date a.region a.service canonical)
        a.signature)
      signature_mismatch
