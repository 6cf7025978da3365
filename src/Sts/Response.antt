-- ===== src/Sts/Response.antt =====
-- internal/sts/xml.go: the documents of the service. encoding/xml is a parameter, and the messages of
-- refusals are arguments.
use ozone_oidc_proxy.Base.{
  ℕ, ◌*◌, ◌≡◌, refl, ◌∙◌, ap, [], ◌∷◌, ◌++◌, Option, none, some, Result, ok, err, length,
}
use ozone_oidc_proxy.Text.{Text, codes}
use ozone_oidc_proxy.Go.Clock.{format_rfc3339}
use ozone_oidc_proxy.Go.Hex.{encode_hex, length-encode_hex}
use ozone_oidc_proxy.Sts.{
  Code, validation_error, invalid_identity_token, expired_token, idp_communication_error,
  access_denied, service_failure, Rejection, Granted,
}

-- The texts of the error codes.
unfoldable pub code_text : Code → Text
code_text validation_error = codes "ValidationError"
code_text invalid_identity_token = codes "InvalidIdentityToken"
code_text expired_token = codes "ExpiredTokenException"
code_text idp_communication_error = codes "IDPCommunicationError"
code_text access_denied = codes "AccessDenied"
code_text service_failure = codes "ServiceFailure"

abbrev pub sts_xmlns : Text
sts_xmlns = codes "https://sts.amazonaws.com/doc/2011-06-15/"

pub record AssumedRoleUser : Type 0 where
  pub assumed_role_id : Text
  pub arn : Text

pub record CredentialsXml : Type 0 where
  pub access_key_id : Text
  pub secret_access_key : Text
  pub session_token : Text
  pub expiration : Text

pub record AssumeRoleResult : Type 0 where
  pub subject_from_web_identity_token : Text
  pub audience : Text
  pub assumed_role_user : AssumedRoleUser
  pub credentials : CredentialsXml
  pub provider : Text

pub record AssumeRoleResponse : Type 0 where
  pub xmlns : Text
  pub result : AssumeRoleResult
  pub request_id : Text

pub record ErrorResponse : Type 0 where
  pub xmlns : Text
  pub kind : Text
  pub code : Text
  pub message : Text
  pub request_id : Text

-- `xml.Encoder.Encode`, with two blanks of indentation
pub record Encoder : Type 0 where
  pub success : AssumeRoleResponse → Text
  pub error : ErrorResponse → Text

-- What a client receives.
pub record Response : Type 0 where
  pub status : ℕ
  pub content_type : Text
  pub body : Text

-- `xml.Header`
abbrev pub xml_header : Text
xml_header = codes "<?xml version=\"1.0\" encoding=\"UTF-8\"?>" ++ (10 ∷ [])

abbrev pub write_xml : ℕ → Text → Response
write_xml status encoded = record {
  status = status;
  content_type = codes "text/xml";
  body = xml_header ++ (encoded ++ (10 ∷ []));
}

-- The document of `writeSuccess`.
abbrev pub response_of : Granted → Text → AssumeRoleResponse
response_of d request_id = record {
  xmlns = sts_xmlns;
  result = record {
    subject_from_web_identity_token = d.subject;
    audience = [];
    assumed_role_user = record { assumed_role_id = d.assumed_role_id; arn = d.arn };
    credentials = record {
      access_key_id = d.creds.access_key_id;
      secret_access_key = d.creds.secret_access_key;
      session_token = d.creds.session_token;
      expiration = format_rfc3339 d.creds.expires_at;
    };
    provider = d.provider;
  };
  request_id = request_id;
}

module _ (xml : Encoder) where
  -- `writeSuccess`
  unfoldable pub write_success : Granted → Text → Response
  write_success d request_id = write_xml 200 (xml.success (response_of d request_id))

  -- `writeError`
  unfoldable pub write_error : ℕ → Code → Text → Text → Response
  write_error status code message request_id = write_xml status (
      xml.error (record {
        xmlns = sts_xmlns;
        kind = codes "Sender";
        code = code_text code;
        message = message;
        request_id = request_id;
      }))

  -- The response to an exchange.
  unfoldable pub respond : Result Rejection Granted → Text → Text → Response
  respond (ok d) message request_id = write_success d request_id
  respond (err e) message request_id = write_error e.status e.code message request_id

-- `newRequestID`, of the bytes that were read.
unfoldable pub new_request_id : Option Text → Text
new_request_id none = codes "00000000000000000000000000000000"
new_request_id (some bytes) = encode_hex bytes

-- A request id has 32 digits, also where there is no randomness.
pub length-new_request_id :
    (bytes : Text)
    → length bytes ≡ 16
    → (length (new_request_id (some bytes)) ≡ 32) × (length (new_request_id none) ≡ 32)
unfolding new_request_id
length-new_request_id bytes h = (length-encode_hex bytes ∙ ap (λ n. 2 * n) h, refl)
