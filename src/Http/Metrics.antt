-- ===== src/Http/Metrics.antt =====
-- src/http/metrics.rs and src/observability/metrics/http.rs: the metrics of a request. The service
-- behind is a parameter, and so is the status that an error answers with.
use retsu.Base.{
  ℕ, not, Option, none, some, List, [], ◌∷◌, ◌++◌, Text, bytes, same, Result, ok, err, panicked,
  Action, leb, if◌then◌else◌, ℤ, pos, negsuc,
}
use retsu.Http.Request.{
  ServiceRequest, RoutedResponse, normalized_method, normalized_scheme, protocol_version,
  status_text,
}

-- An `add` to the counter of active requests, with its attributes.
pub record ActiveAddition : Type 0 where
  pub method : Text
  pub scheme : Text
  pub amount : ℤ

-- A `record` of the histogram of durations, with its attributes.
pub record RequestRecord : Type 0 where
  pub method : Text
  pub scheme : Text
  pub status_code : ℕ
  pub protocol_version : Option Text
  pub route : Option Text
  pub error_type : Option Text
  pub duration : ℕ

pub record HttpMetrics : Type 0 where
  pub active_requests : List ActiveAddition
  pub request_duration : List RequestRecord

abbrev pub added : Text → Text → ℤ → HttpMetrics → HttpMetrics
added method scheme amount metrics = record metrics {
  active_requests =
      metrics.active_requests
      ++ (record { method = method; scheme = scheme; amount = amount }) ∷ [];
}

unfoldable pub request_started : Text → Text → HttpMetrics → HttpMetrics
request_started method scheme = added method scheme (pos 1)

-- `ActiveRequest::drop`
unfoldable pub drop_active : Text → Text → HttpMetrics → HttpMetrics
drop_active method scheme = added method scheme (negsuc 0)

unfoldable pub request_finished : RequestRecord → HttpMetrics → HttpMetrics
request_finished r metrics = record metrics {
  request_duration = metrics.request_duration ++ r ∷ [];
}

-- The attribute `error.type`.
abbrev pub error_type : ℕ → Option Text
error_type status_code = if leb 500 status_code then some (status_text status_code) else none

module _ {S E Q R : Type 0} (error_status : E → ℕ)
    (service : ServiceRequest Q → Action S E (RoutedResponse R)) where
  -- The status and the route of a result.
  abbrev pub record_of : ServiceRequest Q → (elapsed status_code : ℕ) → Option Text → RequestRecord
  record_of request elapsed status_code route = record {
    method = normalized_method request.method;
    scheme = normalized_scheme request.scheme;
    status_code = status_code;
    protocol_version = protocol_version request.version;
    route = route;
    error_type = error_type status_code;
    duration = elapsed;
  }

  -- A panic of the service unwinds past `request_finished`.
  abbrev pub finished :
      ServiceRequest Q → ℕ → Result E (RoutedResponse R) → HttpMetrics → HttpMetrics
  finished request elapsed (ok response) metrics =
      request_finished (record_of request elapsed response.status response.match_pattern) metrics
  finished request elapsed (err e) metrics =
      request_finished (record_of request elapsed (error_status e) none) metrics
  finished request elapsed panicked metrics = metrics

  -- `active_request` is dropped at the end of the future, whatever its result.
  unfoldable pub call :
      (elapsed : ℕ) → ServiceRequest Q → Action (S × HttpMetrics) E (RoutedResponse R)
  unfolding request_started request_finished drop_active
  call elapsed request (s, metrics) =
      let (result, s') = service request s in
      if not (same request.path (bytes "/metrics"))
      then (let method = normalized_method request.method in
          let scheme = normalized_scheme request.scheme in
          let started = request_started method scheme metrics in
          (result, (s', drop_active method scheme (finished request elapsed result started))))
      else (result, (s', metrics))
