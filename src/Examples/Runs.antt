-- ===== src/Examples/Runs.antt =====
-- Runs of several steps: requests and revocations, the store with its sweeps, the page with the
-- exchange, and the start of the program.
use ozone_oidc_proxy.Base.{◌+◌, ◌*◌, ◌≡◌, refl, ap, List, [], ◌∷◌, ok, arith}
use ozone_oidc_proxy.Text.{Text, codes, text_eq, split_by, cut, cut_prefix, has_prefix, join}
use ozone_oidc_proxy.Go.Clock.{sub, add, seconds, second}
use ozone_oidc_proxy.Go.Http.{Request, canonical_key, values, set}
use ozone_oidc_proxy.Go.Percent.{path_unescape, query_unescape}
use ozone_oidc_proxy.Go.Query
use ozone_oidc_proxy.Go.Query.{parameters, parameter, has_bad_part}
use ozone_oidc_proxy.SigV4.Sign.{sign, prepare, authorize}
use ozone_oidc_proxy.SigV4.{authorization_header}
use ozone_oidc_proxy.SigV4.Canonical.{build_canonical, canonical_query, encoded_pairs}
use ozone_oidc_proxy.SigV4.Auth.{is_sigv4}
use ozone_oidc_proxy.SigV4.Presign.{is_presigned}
use ozone_oidc_proxy.Store.Memory.{memory_store, lookup}
use ozone_oidc_proxy.Store.Memory.Laws.{memory_store-IsStore}
use ozone_oidc_proxy.Store.Memory.Commands.{puts}
use ozone_oidc_proxy.Store.Memory.History.{
  Event, does, sweeps, Agrees, commands_of, run_events, run_events-Agrees,
}
use ozone_oidc_proxy.Store.Memory.Commands.{run_memory}
use ozone_oidc_proxy.Store.Mint.{mint, crockford, base64url}
use ozone_oidc_proxy.Sts.{
  checked, post_form, requested_of, is_session_name, issue, lifetime, exchange,
}
use ozone_oidc_proxy.Server.{
  Readings, max_sts_body_bytes, answered, forwarded, is_sts_request, serve, serve_data_path,
  handle_revoke, revoked, s3_error, invalid_access_key_id,
}
use ozone_oidc_proxy.Server.Runs.{Proxy, Seen, start, request, served, behind, revoke}
use ozone_oidc_proxy.Server.Runs.Vouched.{IsVouched, serve-IsVouched}
use ozone_oidc_proxy.Server.Runs.Revoked.{PresentsKey, NeverGrants, in_url, serve_data_path-revoked}
use ozone_oidc_proxy.Examples.Data.{
  exchange_request, bearer_request, presigned_request, validator, memory, platform, now, alice,
  config, credentials, region,
}
use ozone_oidc_proxy.Examples.Signing.{now_round, no_time, presigned, parsed_presigned}
use ozone_oidc_proxy.Examples.Tokens.{random, document}
use ozone_oidc_proxy.Examples.Admission.{
  steady, here, granted_input, signed_granted, document-IsHolder, steady-IsHashing, granted-names,
}
use ozone_oidc_proxy.Server.Admits.Granted.{serve_sigv4-exchange}
use ozone_oidc_proxy.SigV4.Auth.RoundTrip.{all-IsField}

abbrev host : Text
host = codes "s3g"

abbrev readings : Readings
readings = record { checked = now; verified = now; applied = now; reapplied = now }

abbrev Step : Type 0
Step = Seen steady here host validator memory_store

-- A token is exchanged, and then a request is signed with the credentials.
abbrev first : Step
first = record {
  request = record exchange_request { path = codes "/" };
  readings = readings;
  random = random;
  before = record { validator = tt; store = [] };
}

abbrev signed : Step
signed = record {
  request = (sign steady granted_input).0;
  readings = readings;
  random = random;
  before = behind steady here host validator memory_store first;
}

root_granted :
    (exchange validator memory_store steady here.sts max_sts_body_bytes first.request random now tt
      []).response
    ≡ ok document
unfolding exchange checked post_form parameters parameter has_bad_part split_by cut query_unescape
    path_unescape Query.get text_eq values canonical_key requested_of is_session_name issue lifetime
    mint crockford base64url sub add seconds
root_granted = refl

-- What is sent for the second request.
signed_sent :
    (sent : Request) × ((served steady here host validator memory_store signed).answer
      ≡ answered (forwarded sent))
unfolding serve serve_data_path is_sts_request cut_prefix is_sigv4 has_prefix canonical_key values
    text_eq sign build_canonical canonical_query prepare encoded_pairs split_by path_unescape cut
    authorize set authorization_header join
signed_sent =
    let (token, identity, validated, (sent, reply, as_user)) =
      serve_sigv4-exchange validator memory_store steady here host max_sts_body_bytes first.request
        random now tt [] document granted_input (sign steady granted_input).0 readings now
        memory_store-IsStore root_granted signed_granted document-IsHolder steady-IsHashing
        (all-IsField region refl) granted-names (omega arith) now_round (rw no_time (omega arith))
        (rw no_time (omega arith)) in
    (sent, ap answered reply)

serve-IsVouched_example :
    IsVouched steady here host validator memory_store (first ∷ []) signed signed_sent.0
unfolding lookup
serve-IsVouched_example =
    serve-IsVouched steady here host validator memory_store first.before (first ∷ []) signed
      signed_sent.0 memory_store-IsStore refl (λ akid. refl)
      (request first.request readings random start) signed_sent.1

-- The record of the presigned request is revoked, and a request with a token follows.
abbrev Later : Type 0
Later = Seen platform config host validator memory_store

abbrev holding : Proxy platform config host validator memory_store
holding = record { validator = tt; store = memory }

abbrev bearer : Later
bearer = record {
  request = bearer_request;
  readings = readings;
  random = random;
  before = revoke platform config host validator memory_store holding alice;
}

alice_revoked : (handle_revoke memory_store memory alice).0 ≡ revoked
unfolding handle_revoke lookup text_eq
alice_revoked = refl

bearer-NeverGrants : NeverGrants platform config host validator memory_store alice (bearer ∷ [])
unfolding is_sts_request text_eq
bearer-NeverGrants = (λ c grants e. cc (grants.is_sts), tt)

presigned-PresentsKey : PresentsKey alice presigned_request
unfolding values canonical_key is_presigned Query.has Query.query parameters split_by parameter
    query_unescape cut text_eq
presigned-PresentsKey = in_url presigned refl refl parsed_presigned refl

serve_data_path-revoked_example :
    (serve_data_path platform config host validator memory_store presigned_request readings
      (behind platform config host validator memory_store bearer).validator
      (behind platform config host validator memory_store bearer).store).answer
    ≡ answered (s3_error 403 invalid_access_key_id)
serve_data_path-revoked_example =
    serve_data_path-revoked platform config host validator memory_store alice holding
      (behind platform config host validator memory_store bearer) (bearer ∷ []) presigned_request
      readings memory_store-IsStore alice_revoked (request bearer_request readings random start)
      bearer-NeverGrants presigned-PresentsKey

-- Credentials are put, swept away after their retention, and put again.
abbrev events : List Event
events =
    does (puts credentials)
    ∷ sweeps now
    ∷ does (puts (record credentials { access_key_id = codes "bob" }))
    ∷ sweeps (now + 700 * second)
    ∷ []

run_events-Agrees_example :
    Agrees
      (600 * second)
      (now + 700 * second)
      (run_events (600 * second) events [])
      (run_memory (commands_of events) [])
      alice
run_events-Agrees_example =
    run_events-Agrees (600 * second) (now + 700 * second) events alice
      (tt, (omega arith, (tt, (omega arith, tt))))
