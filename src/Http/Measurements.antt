-- ===== src/Http/Measurements.antt =====
-- No request stays active, and the attributes are few (src/http/metrics.rs).
use retsu.Base.{
  ℕ, ◌+◌, ◌≤◌, ◌<◌, ◌≡◌, ◌⊎◌, leb, none, some, refl, arith, Bool, true, false, ◌&&◌, not, List, [],
  ◌∷◌, ◌++◌, Text, bytes, same, same_refl, has_name, Result, ok, err, panicked, Action, ℤ, pos,
  negsuc, if◌then◌else◌, Bool-cases, inl, inr, All, All-append,
}
use retsu.Http.Request.{
  ServiceRequest, RoutedResponse, known_methods, known_schemes, normalized_method,
  normalized_scheme, status_text,
}
use retsu.Http.Metrics.{
  ActiveAddition, RequestRecord, HttpMetrics, added, request_started, drop_active, request_finished,
  record_of, finished,
}
use retsu.Http.Metrics

-- Additions with these attributes, of one or of minus one.
abbrev pub is_up : ℤ → Bool
is_up (pos n) = true
is_up (negsuc n) = false

abbrev pub matching : Text → Text → ActiveAddition → Bool
matching method scheme a = same method a.method && same scheme a.scheme

abbrev pub ups : Text → Text → List ActiveAddition → ℕ
ups method scheme [] = 0
ups method scheme (a ∷ as') =
    (if matching method scheme a && is_up a.amount then 1 else 0) + ups method scheme as'

abbrev pub downs : Text → Text → List ActiveAddition → ℕ
downs method scheme [] = 0
downs method scheme (a ∷ as') =
    (if matching method scheme a && not (is_up a.amount) then 1 else 0) + downs method scheme as'

-- A method and a scheme of the fixed lists, or `_OTHER`.
abbrev pub IsNormalized : Text → Text → Type 0
IsNormalized method scheme =
    (has_name (bytes "_OTHER" ∷ known_methods) method ≡ true)
    × (has_name (bytes "_OTHER" ∷ known_schemes) scheme ≡ true)

-- Below 500 no error type, and from 500 on the status itself.
abbrev pub IsClassified : RequestRecord → Type 0
IsClassified r =
    ((r.status_code < 500) × (r.error_type ≡ none))
    ⊎ ((500 ≤ r.status_code) × (r.error_type ≡ some (status_text r.status_code)))

-- No request is active, an error type stands exactly with a status from 500 on, and the attributes are
-- of the fixed lists.
pub record IsSettled (metrics : HttpMetrics) : Type 0 where
  pub idle :
      (method scheme : Text)
      → ups method scheme metrics.active_requests ≡ downs method scheme metrics.active_requests
  pub additions : All (λ a. IsNormalized a.method a.scheme) metrics.active_requests
  pub records : All (λ r. IsNormalized r.method r.scheme × IsClassified r) metrics.request_duration

classified :
    (code : ℕ)
    → ((code < 500) × (Metrics.error_type code ≡ none))
      ⊎ ((500 ≤ code) × (Metrics.error_type code ≡ some (status_text code)))
classified code = elim (Bool-cases (leb 500 code)) [
  | inl e ↦ inr (ground (arith, e), rw e refl)
  | inr e ↦ inl (ground (arith, e), rw e refl)
]

ups-append :
    (m s : Text) (xs ys : List ActiveAddition) → ups m s (xs ++ ys) ≡ ups m s xs + ups m s ys
ups-append m s [] ys = omega arith
ups-append m s (x ∷ xs) ys = omega (arith, ups-append m s xs ys)

downs-append :
    (m s : Text) (xs ys : List ActiveAddition) → downs m s (xs ++ ys) ≡ downs m s xs + downs m s ys
downs-append m s [] ys = omega arith
downs-append m s (x ∷ xs) ys = omega (arith, downs-append m s xs ys)

one_of :
    (other : Text) (names : List Text) (name : Text)
    → has_name (other ∷ names) (if has_name names name then name else other) ≡ true
one_of other names name = elim (Bool-cases (has_name names name)) [
  | inl e ↦ rw e (ground (arith, e))
  | inr e ↦ rw (e, same_refl other) refl
]

normalized_method-IsNormalized :
    (method scheme : Text) → IsNormalized (normalized_method method) (normalized_scheme scheme)
unfolding normalized_method normalized_scheme
normalized_method-IsNormalized method scheme =
    (one_of (bytes "_OTHER") known_methods method, one_of (bytes "_OTHER") known_schemes scheme)

-- An addition of one and then one of minus one leave the level.
level_kept :
    (m s : Text) (xs : List ActiveAddition) (u d : ActiveAddition)
    → matching m s u ≡ matching m s d
    → is_up u.amount ≡ true
    → is_up d.amount ≡ false
    → ups m s xs ≡ downs m s xs
    → ups m s ((xs ++ u ∷ []) ++ d ∷ []) ≡ downs m s ((xs ++ u ∷ []) ++ d ∷ [])
level_kept m s xs u d same_key up down level =
    rw (ups-append, ups-append, downs-append, downs-append, same_key, up, down)
      (ground (arith, level))

abbrev pub no_metrics : HttpMetrics
no_metrics = record { active_requests = []; request_duration = [] }

module _ {S E Q R : Type 0} (error_status : E → ℕ)
    (service : ServiceRequest Q → Action S E (RoutedResponse R)) where
  -- Requests one after another, each with the time it takes.
  unfoldable pub serve_all : List (ℕ × ServiceRequest Q) → S × HttpMetrics → S × HttpMetrics
  serve_all [] state = state
  serve_all ((elapsed, request) ∷ requests) state =
      serve_all requests (Metrics.call error_status service elapsed request state).1

  both_additions :
      (request : ServiceRequest Q) (metrics : HttpMetrics)
      → IsSettled metrics
      → All
          (λ a. IsNormalized a.method a.scheme)
          ((metrics.active_requests
              ++ (record {
                method = normalized_method request.method;
                scheme = normalized_scheme request.scheme;
                amount = pos 1;
              })
                ∷ [])
            ++ (record {
              method = normalized_method request.method;
              scheme = normalized_scheme request.scheme;
              amount = negsuc 0;
            })
              ∷ [])
  both_additions request metrics w =
      let n = normalized_method-IsNormalized request.method request.scheme in
      All-append _ (metrics.active_requests ++ _ ∷ []) _
        (All-append _ metrics.active_requests _ w.additions (n, tt)) (n, tt)

  measured-IsSettled :
      (request : ServiceRequest Q) (elapsed : ℕ) (r : Result E (RoutedResponse R))
      (metrics : HttpMetrics)
      → IsSettled metrics
      → IsSettled (
          drop_active (normalized_method request.method) (normalized_scheme request.scheme) (
            finished error_status service request elapsed r (
              request_started
                (normalized_method request.method)
                (normalized_scheme request.scheme)
                metrics)))
  unfolding request_started request_finished drop_active
  measured-IsSettled request elapsed (ok response) metrics w = record {
    idle = λ m s. level_kept m s metrics.active_requests _ _ refl refl refl (w.idle m s);
    additions = both_additions request metrics w;
    records =
        All-append _ metrics.request_duration _ w.records
          ((normalized_method-IsNormalized request.method request.scheme, classified _), tt);
  }
  measured-IsSettled request elapsed (err e) metrics w = record {
    idle = λ m s. level_kept m s metrics.active_requests _ _ refl refl refl (w.idle m s);
    additions = both_additions request metrics w;
    records =
        All-append _ metrics.request_duration _ w.records
          ((normalized_method-IsNormalized request.method request.scheme, classified _), tt);
  }
  measured-IsSettled request elapsed panicked metrics w = record {
    idle = λ m s. level_kept m s metrics.active_requests _ _ refl refl refl (w.idle m s);
    additions = both_additions request metrics w;
    records = w.records;
  }

  call-IsSettled :
      (elapsed : ℕ) (request : ServiceRequest Q) (s : S) (metrics : HttpMetrics)
      → IsSettled metrics
      → IsSettled (Metrics.call error_status service elapsed request (s, metrics)).1.1
  unfolding Metrics.call
  call-IsSettled elapsed request s metrics w =
      elim (Bool-cases (same request.path (bytes "/metrics"))) [
        | inl e ↦ rw e w
        | inr e ↦ rw e (measured-IsSettled request elapsed (service request s).0 metrics w)
      ]

  served_from-IsSettled :
      (requests : List (ℕ × ServiceRequest Q)) (s : S) (metrics : HttpMetrics)
      → IsSettled metrics
      → IsSettled (serve_all requests (s, metrics)).1
  unfolding serve_all
  served_from-IsSettled [] s metrics w = w
  served_from-IsSettled ((elapsed, request) ∷ requests) s metrics w =
      let next = (Metrics.call error_status service elapsed request (s, metrics)).1 in
      served_from-IsSettled requests next.0 next.1 (call-IsSettled elapsed request s metrics w)

  -- After any requests one after another, panics of the service included, no request counts as
  -- active; every method and scheme recorded is one of the fixed lists or _OTHER, so that a client
  -- cannot make new attributes; and a record has an error type exactly when its status is 500 or
  -- more, and then it is the status.
  pub serve_all-IsSettled :
      (requests : List (ℕ × ServiceRequest Q)) (s : S)
      → IsSettled (serve_all requests (s, no_metrics)).1
  serve_all-IsSettled requests s =
      served_from-IsSettled requests s no_metrics
        (record { idle = λ m s. refl; additions = tt; records = tt })
