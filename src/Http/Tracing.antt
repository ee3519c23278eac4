-- ===== src/Http/Tracing.antt =====
-- src/http/tracing.rs: the span of a request. The service behind, the status that an error answers
-- with, and the trace context that the propagator reads from the headers are parameters.
use retsu.Base.{
  ℕ, Option, none, some, List, [], ◌∷◌, ◌++◌, Text, bytes, same, Result, ok, err, panicked, Action,
  leb, if◌then◌else◌,
}
use retsu.Http.Request.{
  ServiceRequest, RoutedResponse, normalized_method, normalized_scheme, protocol_version,
  status_text,
}

-- A valid span context, as texts.
pub record SpanContext : Type 0 where
  pub trace_id : Text
  pub span_id : Text

-- The fields of `info_span!`, the span's name, and the message of an error status.
pub record Span : Type 0 where
  pub otel_name : Text
  pub method : Text
  pub scheme : Text
  pub protocol_version : Option Text
  pub route : Option Text
  pub status_code : Option ℕ
  pub error_type : Option Text
  pub trace_id : Option Text
  pub span_id : Option Text
  pub request_id : Option Text
  pub status : Option Text

-- Nothing is recorded of a context that is not valid.
abbrev pub record_trace_context : Option SpanContext → Span → Span
record_trace_context none span = span
record_trace_context (some context) span = record span {
  trace_id = some context.trace_id;
  span_id = some context.span_id;
}

abbrev pub named : Text → Option Text → Span → Span
named method none span = span
named method (some route) span = record span {
  route = some route;
  otel_name = method ++ bytes " " ++ route;
}

abbrev pub marked : ℕ → Span → Span
marked status_code span = record span {
  error_type = some (status_text status_code);
  status = some (bytes "HTTP " ++ status_text status_code);
}

unfoldable pub finish_span : Text → Option Text → ℕ → Span → Span
finish_span method route status_code span =
    let answered = named method route (record span { status_code = some status_code }) in
    if leb 500 status_code then marked status_code answered else answered

module _ {S E Q R : Type 0} (error_status : E → ℕ) (request_id : Q → Option Text)
    (context : ServiceRequest Q → Option SpanContext)
    (service : ServiceRequest Q → Action S E (RoutedResponse R)) where
  unfoldable pub opened : ServiceRequest Q → Span
  opened request = record_trace_context (context request) (record {
    otel_name = normalized_method request.method;
    method = normalized_method request.method;
    scheme = normalized_scheme request.scheme;
    protocol_version = protocol_version request.version;
    route = none;
    status_code = none;
    error_type = none;
    trace_id = none;
    span_id = none;
    request_id = request_id request.rest;
    status = none;
  })

  abbrev pub closed : ServiceRequest Q → Result E (RoutedResponse R) → Span → Span
  closed request (ok response) span =
      finish_span (normalized_method request.method) response.match_pattern response.status span
  closed request (err e) span =
      finish_span (normalized_method request.method) none (error_status e) span
  closed request panicked span = span

  -- The spans are exported in order.
  unfoldable pub call : ServiceRequest Q → Action (S × List Span) E (RoutedResponse R)
  unfolding finish_span opened
  call request (s, spans) =
      let (result, s') = service request s in
      if same request.path (bytes "/metrics")
      then (result, (s', spans))
      else (result, (s', spans ++ closed request result (opened request) ∷ []))
