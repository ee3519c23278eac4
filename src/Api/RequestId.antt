-- ===== src/Api/RequestId.antt =====
-- src/http/request_id.rs: the identifier of a request, taken from its header or drawn. The headers of
-- the `http` crate, the generator and the service behind are parameters.
use mathlib.Core.Option
use retsu.Base.{
  ℕ, Bool, not, ◌&&◌, ◌||◌, Option, none, some, Text, length, all, in_range, leb, ◌==◌,
  if◌then◌else◌, unwrap_or, ok, panicked, Action, and_then,
}

abbrev pub max_request_id_length : ℕ
max_request_id_length = 64

-- `is_ascii_alphanumeric() || matches!(byte, b'-' | b'_' | b'.' | b':')`
abbrev pub is_request_id_byte : ℕ → Bool
is_request_id_byte byte =
    (in_range b'0' b'9' byte || (in_range b'A' b'Z' byte || in_range b'a' b'z' byte))
    || (byte == b'-' || (byte == b'_' || (byte == b'.' || byte == b':')))

unfoldable pub valid_request_id : Text → Bool
valid_request_id value =
    not (length value == 0)
    && (leb (length value) max_request_id_length && all is_request_id_byte value)

-- `.filter(valid)`
abbrev pub filtered : Option Text → Option Text
filtered none = none
filtered (some value) = if valid_request_id value then some value else none

-- With the identifier that would be drawn.
unfoldable pub request_id : (to_str : Text → Option Text) → (fresh : Text) → Option Text → Text
request_id to_str fresh header = unwrap_or (filtered (Option.bind header to_str)) fresh

-- A response, by its `x-request-id` header and the rest.
pub record ServiceResponse (H R : Type 0) : Type 0 where
  pub request_id : Option H
  pub rest : R

module _ {S E H R : Type 0} (to_str : Text → Option Text) (from_str : Text → Option H)
    (service : Text → Action S E (ServiceResponse H R)) where
  -- `headers_mut().insert(REQUEST_ID_HEADER, response_header)`
  abbrev pub labelled : H → ServiceResponse H R → Action S E (ServiceResponse H R)
  labelled header response s = (ok (record response { request_id = some header }), s)

  -- `HeaderValue::from_str(…).expect(…)`, then the service with the identifier.
  abbrev pub served : Text → Option H → Action S E (ServiceResponse H R)
  served id none s = (panicked, s)
  served id (some header) s = and_then (service id s) (labelled header)

  unfoldable pub call : (fresh : Text) → Option Text → Action S E (ServiceResponse H R)
  unfolding request_id
  call fresh header = let id = request_id to_str fresh header in served id (from_str id)
