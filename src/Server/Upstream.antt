-- ===== src/Server/Upstream.antt =====
-- internal/forward/forward.go, `NewReverseProxy`, internal/s3err, and what internal/server makes of
-- both: the response to a request. What httputil and the network do is a parameter; the messages of
-- errors and the request id are arguments.
pub mod Verified
use ozone_oidc_proxy.Base.{ℕ, Bool, true, false, not, List, [], ◌∷◌, ◌++◌, if◌then◌else◌, is_nil}
use ozone_oidc_proxy.Text.{Text, codes}
use ozone_oidc_proxy.Go.Http.{Request}
use ozone_oidc_proxy.Sts.Response.{Response, Encoder, xml_header, respond}
use ozone_oidc_proxy.Server.{
  Code, access_denied, invalid_access_key_id, expired_token, invalid_token,
  signature_does_not_match, request_time_too_skewed, authorization_header_malformed,
  authorization_query_parameters_error, invalid_request, missing_security_header, internal_error,
  service_unavailable, Answer, exchanged, answered, s3_error, forwarded,
}

abbrev pub code_text : Code → Text
code_text access_denied = codes "AccessDenied"
code_text invalid_access_key_id = codes "InvalidAccessKeyId"
code_text expired_token = codes "ExpiredToken"
code_text invalid_token = codes "InvalidToken"
code_text signature_does_not_match = codes "SignatureDoesNotMatch"
code_text request_time_too_skewed = codes "RequestTimeTooSkewed"
code_text authorization_header_malformed = codes "AuthorizationHeaderMalformed"
code_text authorization_query_parameters_error = codes "AuthorizationQueryParametersError"
code_text invalid_request = codes "InvalidRequest"
code_text missing_security_header = codes "MissingSecurityHeader"
code_text internal_error = codes "InternalError"
code_text service_unavailable = codes "ServiceUnavailable"

pub record ErrorXml : Type 0 where
  pub code : Text
  pub message : Text
  pub resource : Text
  pub request_id : Text

-- What comes of a request that is sent: the gateway's response, or a failure, after the client has
-- gone or not.
pub data Trip : Type 0 where
  responds : Response → Trip
  fails : (canceled : Bool) → Trip

pub record Transport : Type 0 where
  -- the request that `ReverseProxy` makes of the incoming one, with `SetURL` and `SetXForwarded`
  pub rewrite : Request → Request
  pub round_trip : Request → Trip
  -- `xml.Encoder.Encode`, with two blanks of indentation
  pub encode : ErrorXml → Text

-- The metrics of the reverse proxy: `observeUpstream` and `observeUpstreamError`.
pub data UpstreamEvent : Type 0 where
  upstream : (status : ℕ) → UpstreamEvent
  upstream_error : UpstreamEvent

module _ (t : Transport) where
  -- `s3err.Write`
  unfoldable pub write : ℕ → Code → Text → Text → Text → Response
  write status code message resource request_id =
      let document : ErrorXml = record {
        code = code_text code;
        message = message;
        resource = resource;
        request_id = request_id;
      } in
      record {
        status = status;
        content_type = codes "application/xml";
        body = xml_header ++ (t.encode document ++ (b'\n' ∷ []));
      }

  -- The request that goes to the gateway: the last line of `Rewrite` sets its host.
  unfoldable pub outgoing : Text → Request → Request
  outgoing target_host r = record (t.rewrite r) { host = target_host }

  -- `ModifyResponse` and `ErrorHandler`
  abbrev of_trip : Request → Trip → Response × List UpstreamEvent
  of_trip r (responds response) = (response, upstream response.status ∷ [])
  of_trip r (fails canceled) = (
    write 502 internal_error (codes "upstream S3 gateway unreachable") r.path [],
    if canceled then [] else upstream_error ∷ [],
  )

  -- `ReverseProxy.ServeHTTP`
  unfoldable pub proxy : Text → Request → Response × List UpstreamEvent
  proxy target_host r = of_trip r (t.round_trip (outgoing target_host r))

  -- What the client receives of the main handler.
  unfoldable pub deliver :
      (xml : Encoder) → Text → Answer → Text → Text → Text → Response × List UpstreamEvent
  deliver xml target_host (exchanged r) message resource id = (respond xml r message id, [])
  deliver xml target_host (answered (s3_error status code)) message resource id =
      (write status code message resource id, [])
  deliver xml target_host (answered (forwarded sent)) message resource id = proxy target_host sent
