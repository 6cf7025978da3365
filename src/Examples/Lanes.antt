-- ===== src/Examples/Lanes.antt =====
-- Runs of the data path and of the revocation.
use ozone_oidc_proxy.Server.{serve}
use ozone_oidc_proxy.Server.Accounts.{IsCounted, lane_of, is_admitted, serve-IsCounted}
use ozone_oidc_proxy.Server.Upstream.{Transport, fails, outgoing}
use ozone_oidc_proxy.Server.Upstream.Verified.{IsPlain, IsTransparent, verify-apply_identity}
use ozone_oidc_proxy.Examples.Signing.{now_round, no_time}
use ozone_oidc_proxy.Base.{◌*◌, pos, ok, false, arith}
use ozone_oidc_proxy.Config.{Config, mode_resign}
use ozone_oidc_proxy.Go.Clock.{second}
use ozone_oidc_proxy.Go.Http
use ozone_oidc_proxy.Go.Http.{set}
use ozone_oidc_proxy.Go.Percent.{path_unescape, query_unescape}
use ozone_oidc_proxy.Forward.{apply_resign, resign_secret, service_s3}
use ozone_oidc_proxy.SigV4.{Authorization}
use ozone_oidc_proxy.SigV4.Sign.{sign, prepare, signed_header_names}
use ozone_oidc_proxy.SigV4.Canonical.{
  build_canonical, canonical_query, encoded_pairs, decode_pair, uri_encode, canonical_uri,
  canonical_headers, header_value,
}
use ozone_oidc_proxy.SigV4.Verify.{verify}
use ozone_oidc_proxy.Go.Query.{has_bad_part, parameter}
use ozone_oidc_proxy.Text.{has_prefix, split_by, cut}
use ozone_oidc_proxy.Examples.Tokens.{random}
use ozone_oidc_proxy.Examples.Admission.{steady, here}
use ozone_oidc_proxy.Base.{◌≡◌, ◌↔◌, refl, none}
use ozone_oidc_proxy.Text.{Text, codes, text_eq, cut_prefix}
use ozone_oidc_proxy.Go.Http.{Request, values, canonical_key}
use ozone_oidc_proxy.SigV4.{authorization_header}
use ozone_oidc_proxy.Store.Memory.{memory_store}
use ozone_oidc_proxy.Server.{
  Readings, apply_identity, serve_bearer, serve_sigv4, serve_presigned, serve_data_path, answered,
  forwarded,
}
use ozone_oidc_proxy.Server.Exactly.{serve_sigv4_iff, serve_presigned_iff}
use ozone_oidc_proxy.Server.Strict.{IsByHeader, IsByUrl, IsProved, serve_data_path-IsProved}
use ozone_oidc_proxy.Server.Attribution.{IsAttributedTo, apply_identity-IsAttributedTo}
use ozone_oidc_proxy.Examples.Data.{
  platform, now, alice, fields_of_alice, plain_request, bearer_request, presigned_request, config,
  validator, memory, region,
}

abbrev readings : Readings
readings = record { checked = now; verified = now; applied = now; reapplied = now }

abbrev host : Text
host = codes "s3g"

-- What is sent for the bearer request.
abbrev sent : Request
sent = apply_identity platform config host bearer_request alice none now now

bearer_sent :
    (serve_data_path platform config host validator memory_store bearer_request readings tt
      memory).answer
    ≡ answered (forwarded sent)
unfolding serve_data_path serve_bearer cut_prefix values canonical_key text_eq
bearer_sent = refl

serve_data_path-IsProved_example :
    IsProved platform config host validator memory_store bearer_request readings tt memory sent
serve_data_path-IsProved_example =
    serve_data_path-IsProved platform config host validator memory_store bearer_request readings tt
      memory sent refl bearer_sent

apply_identity-IsAttributedTo_example :
    IsAttributedTo (apply_identity platform config host plain_request alice none now now) alice
apply_identity-IsAttributedTo_example =
    apply_identity-IsAttributedTo platform config host alice now now plain_request none

serve_sigv4_iff_example :
    ((serve_sigv4 platform config host
        (memory_store.get memory)
        plain_request
        (authorization_header fields_of_alice)
        readings).reply
      ≡ forwarded plain_request)
    ↔ IsByHeader platform config host
        (memory_store.get memory)
        plain_request
        (authorization_header fields_of_alice)
        readings
        plain_request
serve_sigv4_iff_example =
    serve_sigv4_iff platform config host (memory_store.get memory) plain_request
      (authorization_header fields_of_alice) readings plain_request

serve_presigned_iff_example :
    ((serve_presigned platform config host
        (memory_store.get memory)
        presigned_request
        readings).reply
      ≡ forwarded plain_request)
    ↔ IsByUrl platform config host
        (memory_store.get memory)
        presigned_request
        readings
        plain_request
serve_presigned_iff_example =
    serve_presigned_iff platform config host (memory_store.get memory) presigned_request readings
      plain_request

serve-IsCounted_example :
    IsCounted
      (lane_of platform bearer_request)
      (is_admitted
        (serve platform config host validator memory_store bearer_request readings random tt
          memory).answer)
      (serve platform config host validator memory_store bearer_request readings random tt
        memory).events
serve-IsCounted_example =
    serve-IsCounted platform config host validator memory_store bearer_request readings random tt
      memory

-- A gateway that resigned requests go to as they are.
abbrev transport : Transport
transport = record { rewrite = λ r. r; round_trip = λ r. fails false; encode = λ e. e.code }

transport-IsTransparent : IsTransparent transport
transport-IsTransparent = record {
  method = λ r plain. refl;
  request_uri = λ r plain. refl;
  escaped_path = λ r plain. refl;
  raw_query = λ r plain. refl;
  content_length = λ r plain. refl;
  header = λ r name plain read. refl;
}

abbrev resigning : Config
resigning = record here { upstream = record here.upstream { forward_mode = mode_resign } }

abbrev written_request : Request
written_request = record plain_request { request_uri = codes "/bucket/key?b=2&a=1" }

plain_resigned :
    apply_resign steady written_request alice host region now
    ≡ ((apply_resign steady written_request alice host region now).0, none)
unfolding apply_resign sign prepare build_canonical canonical_query encoded_pairs decode_pair
    query_unescape split_by cut uri_encode canonical_uri canonical_headers header_value values set
    canonical_key text_eq signed_header_names path_unescape
plain_resigned = refl

written_request-IsPlain : IsPlain written_request
unfolding values has_prefix has_bad_part parameter query_unescape split_by cut
written_request-IsPlain = record { unnamed = refl; parsable = refl; rooted = refl; written = refl }

verify-apply_identity_example :
    (a : Authorization) × (Http.get
        (outgoing transport host
          (apply_identity steady resigning host written_request alice none now now)).header
        (codes "Authorization")
      ≡ authorization_header a)
    × (a.access_key_id ≡ alice)
    × (verify steady (record {
      request =
          outgoing transport host
            (apply_identity steady resigning host written_request alice none now now);
      auth = a;
      secret = resign_secret;
      region = region;
      service = service_s3;
      now = now;
      clock_skew = pos (900 * second);
    })
        ≡ ok tt)
verify-apply_identity_example =
    verify-apply_identity steady resigning host alice transport written_request
      (apply_resign steady written_request alice host region now).0 none now now now now
      (pos (900 * second)) transport-IsTransparent refl refl written_request-IsPlain plain_resigned
      now_round (rw no_time (omega arith)) (rw no_time (omega arith))
