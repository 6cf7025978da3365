-- ===== src/Examples/Signing.antt =====
-- Runs of the signature and of the forwarded request.
use mathlib.Core.List.{perm_append_comm}
use ozone_oidc_proxy.Base.{
  ◌≡◌, ◌≢◌, ◌↔◌, refl, true, false, ◌==◌, any, [], ◌∷◌, none, some, ok, pos, arith,
}
use ozone_oidc_proxy.Text.{Text, codes, text_eq, cut, split_by, join, trim_space, to_lower}
use ozone_oidc_proxy.Text.Parts.{Lacks}
use ozone_oidc_proxy.Go.Clock.{parse_amz, format_amz, format_date, sub, seconds}
use ozone_oidc_proxy.Go.Http
use ozone_oidc_proxy.Go.Http.{values, set, canonical_key}
use ozone_oidc_proxy.Go.Query.{query, parameters, parameter}
use ozone_oidc_proxy.Go.Query
use ozone_oidc_proxy.Go.Percent.{path_unescape, query_unescape}
use ozone_oidc_proxy.SigV4.{Authorization, authorization_header}
use ozone_oidc_proxy.SigV4.Auth.{
  parse_authorization, set_credential, set_signed_headers, set_signature,
}
use ozone_oidc_proxy.SigV4.Auth.RoundTrip.{
  IsWritable, all-IsField, parse_authorization-authorization_header,
}
use ozone_oidc_proxy.SigV4.Auth.WellFormed.{IsWellFormed, parse_authorization-IsWellFormed}
use ozone_oidc_proxy.Forward.{
  rewrite_access_key_id, apply_synthetic, without_token, strip_presigned_query,
}
use ozone_oidc_proxy.Forward.Identity.{
  IsCarried, IsRewritten, IsSynthetic, synthetic-IsWritable, rewrite_access_key_id-parse,
  apply_synthetic-parse,
}
use ozone_oidc_proxy.Forward.{is_auth_param}
use ozone_oidc_proxy.Forward.Strip.{strip_presigned_query-has, strip_presigned_query-get}
use ozone_oidc_proxy.Go.Decimal.{atoi}
use ozone_oidc_proxy.Go.Hex.{decodes_hex}
use ozone_oidc_proxy.SigV4.Sign.{sign, prepare, signed_header_names}
use ozone_oidc_proxy.SigV4.Sign.Accepted.{verification, verify-sign}
use ozone_oidc_proxy.SigV4.Verify.{Input, verify}
use ozone_oidc_proxy.SigV4.Verify.Sound.{IsVerified, verify_iff}
use ozone_oidc_proxy.SigV4.Presign.{
  Presigned, PresignInput, parse_presigned, verify_presigned, x_amz_signature,
}
use ozone_oidc_proxy.SigV4.Presign.Window.{
  IsPresigned, IsVerifiedAt, parse_presigned-IsPresigned, verify_presigned_iff,
}
use ozone_oidc_proxy.SigV4.Canonical.{
  build_canonical, canonical_query, encoded_pairs, decode_pair, uri_encode, canonical_uri,
  canonical_headers, header_value,
}
use ozone_oidc_proxy.SigV4.Canonical.Order.{canonical_query-perm}
use ozone_oidc_proxy.Examples.Data.{
  platform, now, alice, region, fields_of_alice, plain_request, presigned_request, sign_input,
}

pub alice-IsCarried : IsCarried alice
alice-IsCarried = record { named = cc; field = all-IsField alice refl }

pub fields-IsWritable : IsWritable fields_of_alice
fields-IsWritable = synthetic-IsWritable alice region now alice-IsCarried (all-IsField region refl)

parse_authorization-authorization_header_example :
    parse_authorization (authorization_header fields_of_alice) ≡ ok fields_of_alice
parse_authorization-authorization_header_example =
    parse_authorization-authorization_header fields_of_alice fields-IsWritable

parse_authorization-IsWellFormed_example : IsWellFormed fields_of_alice
parse_authorization-IsWellFormed_example =
    parse_authorization-IsWellFormed (authorization_header fields_of_alice)
      (parse_authorization-authorization_header fields_of_alice fields-IsWritable)

some_headers_left : without_token fields_of_alice.signed_headers ≢ []
unfolding without_token text_eq
some_headers_left = λ h. cc

rewrite_access_key_id-parse_example :
    IsRewritten plain_request fields_of_alice alice
      (rewrite_access_key_id plain_request fields_of_alice alice)
rewrite_access_key_id-parse_example =
    rewrite_access_key_id-parse plain_request fields_of_alice alice fields-IsWritable
      alice-IsCarried some_headers_left

apply_synthetic-parse_example :
    IsSynthetic alice region now (apply_synthetic plain_request alice region now)
apply_synthetic-parse_example =
    apply_synthetic-parse plain_request alice region now alice-IsCarried (all-IsField region refl)

-- The signing of the plain request, which succeeds.
signed_plain : sign platform sign_input ≡ ((sign platform sign_input).0, none)
unfolding sign prepare build_canonical canonical_query encoded_pairs decode_pair query_unescape
    split_by cut uri_encode canonical_uri canonical_headers header_value values set canonical_key
    text_eq signed_header_names path_unescape
signed_plain = refl

pub now_round : parse_amz (format_amz now) ≡ some now
unfolding parse_amz format_amz format_date
now_round = refl

pub no_time : sub now now ≡ pos 0
unfolding sub
no_time = refl

verify-sign_example :
    (a : Authorization) × (Http.get (sign platform sign_input).0.header (codes "Authorization")
      ≡ authorization_header a)
    × (a.access_key_id ≡ alice)
    × (verify platform (verification sign_input (sign platform sign_input).0 a now (pos 0)) ≡ ok tt)
verify-sign_example =
    verify-sign platform sign_input (sign platform sign_input).0 now now (pos 0) signed_plain
      now_round (rw no_time (omega arith)) (rw no_time (omega arith))

abbrev verify_input : Input
verify_input = verification sign_input plain_request fields_of_alice now (pos 0)

verify_iff_example : (verify platform verify_input ≡ ok tt) ↔ IsVerified platform verify_input
verify_iff_example = verify_iff platform verify_input

-- The fields of the presigned request.
abbrev pub presigned : Presigned
presigned = record {
  authorization = record fields_of_alice { signed_headers = codes "host" ∷ [] };
  amz_date = codes "20240229T235959Z";
  expires = pos 60000000000;
  security_token = [];
}

pub parsed_presigned : parse_presigned presigned_request ≡ ok presigned
unfolding parse_presigned query parameters parameter split_by cut query_unescape Query.get text_eq
    set_credential set_signed_headers set_signature atoi decodes_hex to_lower format_date seconds
    trim_space
parsed_presigned = refl

parse_presigned-IsPresigned_example : IsPresigned presigned
parse_presigned-IsPresigned_example = parse_presigned-IsPresigned presigned_request parsed_presigned

abbrev presign_input : PresignInput
presign_input = record {
  request = presigned_request;
  auth = presigned;
  secret = codes "secret";
  region = region;
  service = codes "s3";
  now = now;
  clock_skew = pos 0;
}

verify_presigned_iff_example :
    (verify_presigned platform presign_input ≡ ok tt) ↔ IsVerifiedAt platform presign_input
verify_presigned_iff_example = verify_presigned_iff platform presign_input

signature_param : is_auth_param x_amz_signature ≡ true
unfolding is_auth_param text_eq
signature_param = refl

other_param : is_auth_param (codes "x") ≡ false
unfolding is_auth_param text_eq
other_param = refl

strip_presigned_query-has_example :
    Query.has (query (strip_presigned_query presigned_request).raw_query) x_amz_signature ≡ false
strip_presigned_query-has_example =
    strip_presigned_query-has presigned_request x_amz_signature signature_param

strip_presigned_query-get_example :
    Query.get (query (strip_presigned_query presigned_request).raw_query) (codes "x")
    ≡ Query.get (query presigned_request.raw_query) (codes "x")
strip_presigned_query-get_example =
    strip_presigned_query-get presigned_request (codes "x") other_param

abbrev part_a : Text
part_a = codes "a=1"

abbrev part_b : Text
part_b = codes "b=2"

no_ampersand : (s : Text) → any (λ c. c == b'&') s ≡ false → Lacks (λ c. c == b'&') s
no_ampersand [] h = tt
no_ampersand (c ∷ s) h = (ground arith, no_ampersand s (ground arith))

canonical_query-perm_example :
    canonical_query (join b'&' (part_a ∷ part_b ∷ [])) []
    ≡ canonical_query (join b'&' (part_b ∷ part_a ∷ [])) []
canonical_query-perm_example =
    canonical_query-perm [] (part_a ∷ part_b ∷ []) (part_b ∷ part_a ∷ []) (cc) (cc)
      (no_ampersand part_a refl, (no_ampersand part_b refl, tt))
      (no_ampersand part_b refl, (no_ampersand part_a refl, tt))
      (perm_append_comm (part_a ∷ []) (part_b ∷ []))
