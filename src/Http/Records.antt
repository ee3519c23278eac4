-- ===== src/Http/Records.antt =====
-- The middleware answers what the service answers, and its metrics and its span tell the same
-- (src/http/metrics.rs, src/http/tracing.rs).
use retsu.Base.{
  ℕ, ◌≡◌, ◌≢◌, refl, false, Option, none, some, List, [], ◌∷◌, ◌++◌, Text, bytes, same, Result, ok,
  err, panicked, Action, leb, Bool-cases, inl, inr,
}
use retsu.Http.Request.{ServiceRequest, RoutedResponse, normalized_method}
use retsu.Http.Metrics.{
  ActiveAddition, RequestRecord, HttpMetrics, added, request_started, drop_active, request_finished,
  record_of, finished,
}
use retsu.Http.Metrics
use retsu.Http.Tracing.{SpanContext, Span, closed, opened, finish_span, record_trace_context, named}
use retsu.Http.Tracing

-- The histogram's record and the span of one request.
pub record Describes (status_code : ℕ) (r : RequestRecord) (span : Span) : Type 0 where
  pub status : r.status_code ≡ status_code
  pub span_status : span.status_code ≡ some status_code
  pub method : span.method ≡ r.method
  pub scheme : span.scheme ≡ r.scheme
  pub version : span.protocol_version ≡ r.protocol_version
  pub route : span.route ≡ r.route
  pub error_type : span.error_type ≡ r.error_type

-- One more of each, and they describe the same request.
pub record Recorded {S : Type 0} (status_code : ℕ) (metrics : HttpMetrics) (spans : List Span)
    (after : (S × HttpMetrics) × List Span) : Type 0 where
  pub r : RequestRecord
  pub span : Span
  pub measured : after.0.1.request_duration ≡ metrics.request_duration ++ r ∷ []
  pub traced : after.1 ≡ spans ++ span ∷ []
  pub describes : Describes status_code r span

-- What a span and a record have in common before the answer.
record Begins (r : RequestRecord) (span : Span) : Type 0 where
  method : span.method ≡ r.method
  scheme : span.scheme ≡ r.scheme
  version : span.protocol_version ≡ r.protocol_version
  no_route : span.route ≡ none
  no_error : span.error_type ≡ none

named-Begins :
    (method : Text) (route : Option Text) (status_code : ℕ) (r : RequestRecord) (span : Span)
    → Begins r span
    → Describes status_code
        (record r { route = route; status_code = status_code; error_type = none })
        (named method route (record span { status_code = some status_code }))
named-Begins method none status_code r span b = record {
  status = refl;
  span_status = refl;
  method = b.method;
  scheme = b.scheme;
  version = b.version;
  route = b.no_route;
  error_type = b.no_error;
}
named-Begins method (some route) status_code r span b = record {
  status = refl;
  span_status = refl;
  method = b.method;
  scheme = b.scheme;
  version = b.version;
  route = refl;
  error_type = b.no_error;
}

finish_span-Describes :
    (method : Text) (route : Option Text) (status_code : ℕ) (r : RequestRecord) (span : Span)
    → Begins r span
    → Describes status_code
        (record r {
          route = route;
          status_code = status_code;
          error_type = Metrics.error_type status_code;
        })
        (finish_span method route status_code span)
unfolding finish_span
finish_span-Describes method route status_code r span b =
    let d = named-Begins method route status_code r span b in
    elim (Bool-cases (leb 500 status_code)) [
      | inl e ↦ rw e (record {
        status = refl;
        span_status = d.span_status;
        method = d.method;
        scheme = d.scheme;
        version = d.version;
        route = d.route;
        error_type = refl;
      })
      | inr e ↦ rw e (record {
        status = refl;
        span_status = d.span_status;
        method = d.method;
        scheme = d.scheme;
        version = d.version;
        route = d.route;
        error_type = d.error_type;
      })
    ]

opened-Begins :
    (context : Option SpanContext) (r : RequestRecord) (span : Span)
    → Begins r span
    → Begins r (record_trace_context context span)
opened-Begins none r span b = b
opened-Begins (some c) r span b = record {
  method = b.method;
  scheme = b.scheme;
  version = b.version;
  no_route = b.no_route;
  no_error = b.no_error;
}

module _ {S E Q R : Type 0} (error_status : E → ℕ) (request_id : Q → Option Text)
    (context : ServiceRequest Q → Option SpanContext)
    (service : ServiceRequest Q → Action S E (RoutedResponse R)) where
  -- The two around the service, as the server wraps them.
  abbrev pub wrapped :
      (elapsed : ℕ) → ServiceRequest Q → Action ((S × HttpMetrics) × List Span) E (RoutedResponse R)
  wrapped elapsed =
      Tracing.call error_status request_id context (Metrics.call error_status service elapsed)

  abbrev pub status_of_result : Result E (RoutedResponse R) → ℕ
  status_of_result (ok response) = response.status
  status_of_result (err e) = error_status e
  status_of_result panicked = 0

  -- Around any service, the middleware for metrics inside the one for tracing answers what the
  -- service answers; for a request to another path than /metrics that does not panic, exactly one
  -- record is added to the histogram and one span is exported, and they tell the same status,
  -- method, scheme, version, route and error type.
  pub wrapped-Recorded :
      (elapsed : ℕ) (request : ServiceRequest Q) (s : S) (metrics : HttpMetrics) (spans : List Span)
      (r : Result E (RoutedResponse R))
      → (service request s).0 ≡ r
      → r ≢ panicked
      → same request.path (bytes "/metrics") ≡ false
      → ((wrapped elapsed request ((s, metrics), spans)).0 ≡ r)
        × ((wrapped elapsed request ((s, metrics), spans)).1.0.0 ≡ (service request s).1)
        × Recorded
            (status_of_result r)
            metrics
            spans
            (wrapped elapsed request ((s, metrics), spans)).1
  unfolding Tracing.call Metrics.call request_started drop_active request_finished finish_span
      opened
  wrapped-Recorded elapsed request s metrics spans (ok response) e n path =
      rw (path, e)
        (
          refl,
          refl,
          record {
            r =
                record_of error_status service request elapsed response.status
                  response.match_pattern;
            span =
                finish_span (normalized_method request.method) response.match_pattern
                  response.status (opened error_status request_id context service request);
            measured = refl;
            traced = refl;
            describes =
                finish_span-Describes (normalized_method request.method) response.match_pattern
                  response.status
                  (record_of error_status service request elapsed response.status
                    response.match_pattern)
                  _
                  (opened-Begins (context request) _ _ (record {
                    method = refl;
                    scheme = refl;
                    version = refl;
                    no_route = refl;
                    no_error = refl;
                  }));
          },
        )
  wrapped-Recorded elapsed request s metrics spans (err x) e n path =
      rw (path, e)
        (
          refl,
          refl,
          record {
            r = record_of error_status service request elapsed (error_status x) none;
            span =
                finish_span (normalized_method request.method) none (error_status x)
                  (opened error_status request_id context service request);
            measured = refl;
            traced = refl;
            describes =
                finish_span-Describes (normalized_method request.method) none (error_status x)
                  (record_of error_status service request elapsed (error_status x) none) _
                  (opened-Begins (context request) _ _ (record {
                    method = refl;
                    scheme = refl;
                    version = refl;
                    no_route = refl;
                    no_error = refl;
                  }));
          },
        )
  wrapped-Recorded elapsed request s metrics spans panicked e n path = absurd (n refl)
