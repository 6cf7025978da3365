-- ===== src/Examples/Admission.antt =====
-- A run of a client that signs with its credentials.
use ozone_oidc_proxy.Base.{All, ◌∷◌, [], ◌≡◌, refl, none, ok, arith}
use ozone_oidc_proxy.Go.Query
use ozone_oidc_proxy.Go.Http
use ozone_oidc_proxy.Config.{Config}
use ozone_oidc_proxy.Go.Clock.{sub, add, seconds}
use ozone_oidc_proxy.Go.Http.{Request, canonical_key, values, set}
use ozone_oidc_proxy.Go.Percent.{path_unescape, query_unescape}
use ozone_oidc_proxy.Go.Query.{parameters, parameter, has_bad_part}
use ozone_oidc_proxy.Oidc.{Identity}
use ozone_oidc_proxy.Platform.{Platform}
use ozone_oidc_proxy.Server.{Readings, forwarded, serve_sigv4}
use ozone_oidc_proxy.Server.Admits.{IsHolder}
use ozone_oidc_proxy.Server.Admits.Granted.{serve_sigv4-exchange}
use ozone_oidc_proxy.Server.Attribution.{IsAttributedTo}
use ozone_oidc_proxy.SigV4.Auth.RoundTrip.{IsField, all-IsField}
use ozone_oidc_proxy.SigV4.Canonical.{
  build_canonical, canonical_query, encoded_pairs, decode_pair, uri_encode, canonical_uri,
  canonical_headers, header_value,
}
use ozone_oidc_proxy.SigV4.Sign.{SignInput, sign, prepare, signed_header_names, amz_names}
use ozone_oidc_proxy.SigV4.Sign.Written.{IsHashing}
use ozone_oidc_proxy.Store.Memory.{memory_store}
use ozone_oidc_proxy.Store.Memory.Laws.{memory_store-IsStore}
use ozone_oidc_proxy.Store.Mint.{mint, crockford, base64url}
use ozone_oidc_proxy.Sts.{
  exchange, checked, post_form, requested_of, is_session_name, issue, lifetime,
}
use ozone_oidc_proxy.Text.{Text, codes, text_eq, text_lt, split_by, cut, has_prefix, to_lower}
use ozone_oidc_proxy.Text.Sort.{sort, insert}
use ozone_oidc_proxy.Examples.Data.{
  exchange_request, validator, memory, platform, block, now, region, config, sign_input,
}
use ozone_oidc_proxy.Examples.Signing.{now_round, no_time}
use ozone_oidc_proxy.Examples.Tokens.{random, document}

-- A keyed hash of 32 bytes.
abbrev pub steady : Platform
steady = record platform { hmac_sha256 = λ key text. block 7 }

pub steady-IsHashing : IsHashing steady
steady-IsHashing = record { hmac_length = λ key text. refl; hmac_bytes = λ key text. omega arith }

abbrev pub here : Config
here = record config { security = record config.security { region = region } }

abbrev readings : Readings
readings = record { checked = now; verified = now; applied = now; reapplied = now }

-- The credentials of the exchange in Examples.Tokens.
granted_here :
    (exchange validator memory_store steady here.sts 1000 exchange_request random now tt
      memory).response
    ≡ ok document
unfolding exchange checked post_form parameters parameter has_bad_part split_by cut query_unescape
    path_unescape Query.get text_eq values canonical_key requested_of is_session_name issue lifetime
    mint crockford base64url sub add seconds
granted_here = refl

abbrev pub granted_input : SignInput
granted_input = record sign_input {
  request = record sign_input.request {
    header = (codes "X-Amz-Security-Token", (codes "AA" ∷ [])) ∷ [];
  };
  access_key_id = codes "OZPX01";
  secret = codes "AAAA";
}

pub signed_granted : sign steady granted_input ≡ ((sign steady granted_input).0, none)
unfolding sign prepare build_canonical canonical_query encoded_pairs decode_pair query_unescape
    split_by cut uri_encode canonical_uri canonical_headers header_value values set canonical_key
    text_eq signed_header_names path_unescape
signed_granted = refl

pub document-IsHolder : IsHolder here document.creds granted_input
unfolding canonical_key values text_eq
document-IsHolder = record {
  key = refl;
  secret = refl;
  region = refl;
  service = refl;
  token = refl;
}

pub granted-names : All IsField (signed_header_names (prepare granted_input).header)
unfolding prepare signed_header_names amz_names set values canonical_key text_eq has_prefix to_lower
    sort insert text_lt
granted-names = (
  all-IsField (codes "host") refl,
  (
    all-IsField (codes "x-amz-content-sha256") refl,
    (all-IsField (codes "x-amz-date") refl, (all-IsField (codes "x-amz-security-token") refl, tt)),
  ),
)

serve_sigv4-exchange_example :
    (token : Text) × (identity : Identity) × ((validator.validate tt token).0 ≡ ok identity)
    × ((sent : Request) × ((serve_sigv4 steady here
            (codes "s3g")
            (memory_store.get
              (exchange validator memory_store steady here.sts 1000 exchange_request random now tt
                memory).store)
            (sign steady granted_input).0
            (Http.get (sign steady granted_input).0.header (codes "Authorization"))
            readings).reply
          ≡ forwarded sent)
        × IsAttributedTo sent identity.username)
serve_sigv4-exchange_example =
    serve_sigv4-exchange validator memory_store steady here (codes "s3g") 1000 exchange_request
      random now tt memory document granted_input (sign steady granted_input).0 readings now
      memory_store-IsStore granted_here signed_granted document-IsHolder steady-IsHashing
      (all-IsField region refl) granted-names (omega arith) now_round (rw no_time (omega arith))
      (rw no_time (omega arith))
