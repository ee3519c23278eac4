-- ===== src/Api/Errors.antt =====
-- src/api/error.rs and src/api/extractors.rs: errors of the API and the responses to them. The reason
-- phrases of the `http` crate are a parameter.
use retsu.Base.{ℕ, Option, none, some, Text, bytes, unwrap_or}
use retsu.Repository.{Error}

-- The cause that is logged and not sent.
pub data Cause : Type 0 where
  storage : Error → Cause
  payload : (message : Text) → Cause

pub record ApiError : Type 0 where
  pub status : ℕ
  pub code : Text
  pub detail : Text
  pub source : Option Cause

abbrev pub new : ℕ → Text → Text → ApiError
new status code detail = record { status = status; code = code; detail = detail; source = none }

abbrev pub bad_request : Text → Text → ApiError
bad_request code detail = new 400 code detail

abbrev pub payload_too_large : ApiError
payload_too_large =
    new 413 (bytes "payload_too_large") (bytes "the request body exceeds the allowed size")

abbrev pub unsupported_media_type : ApiError
unsupported_media_type =
    new 415 (bytes "unsupported_media_type") (bytes "the request content type must be JSON")

abbrev pub not_found : ApiError
not_found = new 404 (bytes "route_not_found") (bytes "the requested route was not found")

abbrev pub internal : Cause → ApiError
internal source = record {
  status = 500;
  code = bytes "internal_error";
  detail = bytes "an unexpected error occurred";
  source = some source;
}

abbrev pub conflict : Text → Text → ApiError
conflict code detail = new 409 code detail

abbrev pub resource_not_found : Text → Text → ApiError
resource_not_found code detail = new 404 code detail

pub record ProblemDetails : Type 0 where
  pub kind : Text
  pub title : Text
  pub status : ℕ
  pub detail : Text
  pub code : Text

pub record ErrorResponse : Type 0 where
  pub status : ℕ
  pub content_type : Text
  pub cache_control : Text
  pub body : ProblemDetails

unfoldable pub error_response : (canonical_reason : ℕ → Option Text) → ApiError → ErrorResponse
error_response canonical_reason e = record {
  status = e.status;
  content_type = bytes "application/problem+json";
  cache_control = bytes "no-store";
  body = record {
    kind = bytes "about:blank";
    title = unwrap_or (canonical_reason e.status) (bytes "Error");
    status = e.status;
    detail = e.detail;
    code = e.code;
  };
}

-- The errors of the `actix_web` extractor of JSON bodies; `other` are those it may get.
pub data JsonPayloadError : Type 0 where
  overflow_known_length overflow content_type deserialize payload_failed : JsonPayloadError
  serialize other : (message : Text) → JsonPayloadError

abbrev pub json_error : JsonPayloadError → ApiError
json_error overflow_known_length = payload_too_large
json_error overflow = payload_too_large
json_error content_type = unsupported_media_type
json_error deserialize =
    bad_request (bytes "invalid_json") (bytes "the request body contains invalid JSON")
json_error payload_failed =
    bad_request (bytes "invalid_json") (bytes "the request body contains invalid JSON")
json_error (serialize message) = internal (payload message)
json_error (other message) = internal (payload message)

abbrev pub path_error : ApiError
path_error = bad_request (bytes "invalid_path") (bytes "the request path contains an invalid value")

abbrev pub query_error : ApiError
query_error =
    bad_request (bytes "invalid_query") (bytes "the request query contains an invalid value")
