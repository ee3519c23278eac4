-- ===== src/Http/Tests.antt =====
-- The middleware at work on concrete requests (src/http/metrics.rs, src/http/tracing.rs).
use retsu.Base.{
  ℕ, ◌≡◌, ◌≢◌, refl, none, some, List, [], ◌∷◌, Text, bytes, Result, ok, panicked, Action, Option,
  same, false,
}
use retsu.Http.Request.{
  ServiceRequest, RoutedResponse, http_11, normalized_method, normalized_scheme, protocol_version,
}
use retsu.Http.Metrics.{HttpMetrics, request_started, drop_active, request_finished}
use retsu.Http.Metrics
use retsu.Http.Tracing.{SpanContext, Span}
use retsu.Http.Tracing
use retsu.Http.Records.{Recorded, wrapped, status_of_result, wrapped-Recorded}
use retsu.Http.Measurements.{IsSettled, no_metrics, serve_all, serve_all-IsSettled}

abbrev request : ServiceRequest ℕ
request = record {
  path = bytes "/queues/1/messages";
  method = bytes "BREW";
  scheme = bytes "https";
  version = http_11;
  rest = 0;
}

abbrev answer : RoutedResponse ℕ
answer = record { status = 503; match_pattern = some (bytes "/queues/{id}/messages"); rest = 0 }

-- A service that answers 503 on a route.
abbrev service : ServiceRequest ℕ → Action ℕ Text (RoutedResponse ℕ)
service q served = (ok answer, 1)

abbrev error_status : Text → ℕ
error_status e = 400

abbrev no_id : ℕ → Option Text
no_id q = none

abbrev no_context : ServiceRequest ℕ → Option SpanContext
no_context q = none

abbrev result : Result Text (RoutedResponse ℕ)
result = ok answer

not_metrics : same request.path (bytes "/metrics") ≡ false
unfolding same
not_metrics = refl

answered : result ≢ panicked
answered e = cc

wrapped-Recorded_example :
    let out = wrapped error_status no_id no_context service 7 request ((0, no_metrics), []) in
    (out.0 ≡ result)
    × (out.1.0.0 ≡ 1)
    × Recorded (status_of_result error_status no_id no_context service result) no_metrics [] out.1
wrapped-Recorded_example =
    wrapped-Recorded error_status no_id no_context service 7 request 0 no_metrics [] result refl
      answered not_metrics

-- The method and the scheme are normalized, and the error type is the status.
record_of_request :
    (wrapped error_status no_id no_context service 7 request
      ((0, no_metrics), [])).1.0.1.request_duration
    ≡ record {
      method = bytes "_OTHER";
      scheme = bytes "https";
      status_code = 503;
      protocol_version = some (bytes "1.1");
      route = some (bytes "/queues/{id}/messages");
      error_type = some (bytes "503");
      duration = 7;
    }
      ∷ []
unfolding Tracing.call Metrics.call request_started drop_active request_finished normalized_method
    normalized_scheme protocol_version same
record_of_request = refl

abbrev requests : List (ℕ × ServiceRequest ℕ)
requests = (7, request) ∷ (2, record request { path = bytes "/metrics" }) ∷ (3, request) ∷ []

serve_all-IsSettled_example : IsSettled (serve_all error_status service requests (0, no_metrics)).1
serve_all-IsSettled_example = serve_all-IsSettled error_status service requests 0
