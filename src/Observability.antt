-- ===== src/Observability.antt =====
-- The metrics and the log entries of requests: internal/http/middleware/observability.go. The route's
-- pattern, the status that the response has got, and the duration are arguments.
use service_courier_platform.Logging.{Entry, info, any_field}
use service_courier_platform.Prelude.{
  All, map, ℕ, suc, ◌+◌, ◌≡◌, refl, String, Bool, false, ◌&&◌, ◌==◌, eqb, List, [], ◌∷◌, length,
  any, arith, All, map, Option, none, some, if◌then◌else◌, Bool-cases, inl, inr, both_tests,
}

-- The labels of a series of `http_requests_total` and `http_request_duration_seconds`.
pub record Labels : Type 0 where
  pub method : String
  pub path : String
  pub status : ℕ

-- A request as the middleware sees it: the route context's pattern, which is empty where no route
-- has matched, and what the handlers below it have done.
pub record Observed : Type 0 where
  pub method : String
  pub url_path : String
  pub pattern : Option String
  pub status : ℕ
  pub duration : ℕ

-- `pathPattern`.
unfoldable pub path_pattern : Option String → String → String
path_pattern none url_path = url_path
path_pattern (some p) url_path = if p == "" then url_path else p

abbrev pub labels_of : Observed → Labels
labels_of o = record {
  method = o.method;
  path = path_pattern o.pattern o.url_path;
  status = o.status;
}

abbrev pub same_labels : Labels → Labels → Bool
same_labels a b = a.method == b.method && (a.path == b.path && eqb a.status b.status)

-- A series: its labels, the count, and the durations that its histogram has got.
pub record Series : Type 0 where
  pub labels : Labels
  pub count : ℕ
  pub durations : List ℕ

-- `WithLabelValues(…).Inc()` and `.Observe(…)`: a series with new labels starts.
unfoldable pub record_request : Observed → List Series → List Series
record_request o [] = record { labels = labels_of o; count = 1; durations = o.duration ∷ [] } ∷ []
record_request o (s ∷ ss) =
    let rest = record_request o ss in
    if same_labels s.labels (labels_of o)
    then record s { count = suc s.count; durations = o.duration ∷ s.durations } ∷ ss
    else s ∷ rest

-- `Observability`, on the requests in the order in which they are answered.
unfoldable pub observability : List Observed → List Series → List Series
observability [] ss = ss
observability (o ∷ os) ss = observability os (record_request o ss)

-- The values of the fields of a log entry.
pub data LogValue : Type 0 where
  text : String → LogValue
  number duration : ℕ → LogValue

-- The entry that `Observability` logs for a request.
unfoldable pub log_entry : Observed → Entry LogValue
log_entry o = record {
  level = info;
  msg = "http request";
  fields =
      any_field LogValue "method" (text o.method)
      ∷ any_field LogValue "path" (text (path_pattern o.pattern o.url_path))
      ∷ any_field LogValue "status" (number o.status)
      ∷ any_field LogValue "duration" (duration o.duration)
      ∷ [];
}

abbrev pub total : List Series → ℕ
total [] = 0
total (s ∷ ss) = s.count + total ss

record_request-total :
    (o : Observed) (ss : List Series) → total (record_request o ss) ≡ suc (total ss)
unfolding record_request
record_request-total o [] = refl
record_request-total o (s ∷ ss) = elim (Bool-cases (same_labels s.labels (labels_of o))) [
  | inl e ↦ rw e (omega arith)
  | inr e ↦ rw e (omega (arith, record_request-total o ss))
]

-- Each request is counted once.
pub observability-total :
    (os : List Observed) (ss : List Series) → total (observability os ss) ≡ total ss + length os
unfolding observability
observability-total [] ss = omega arith
observability-total (o ∷ os) ss =
    omega (arith, observability-total os (record_request o ss), record_request-total o ss)

abbrev has_path : String → List Series → Bool
has_path p ss = any (λ s. s.labels.path == p) ss

-- A request that no route matches.
abbrev pub unmatched : String → Observed
unmatched path = record {
  method = "GET";
  url_path = path;
  pattern = some "";
  status = 404;
  duration = 0;
}

new_series :
    (o : Observed) (ss : List Series)
    → has_path (labels_of o).path ss ≡ false
    → length (record_request o ss) ≡ suc (length ss)
unfolding record_request
new_series o [] h = refl
new_series o (s ∷ ss) h = elim (Bool-cases (s.labels.path == (labels_of o).path)) [
  | inl e ↦ absurd (both_tests refl (rw e at h))
  | inr e ↦
      let other : same_labels s.labels (labels_of o) ≡ false = differ s.labels (labels_of o) e in
      rw other (omega (arith, new_series o ss (rw e at h)))
]
  where
    differ : (a b : Labels) → (a.path == b.path) ≡ false → same_labels a b ≡ false
    differ a b e = elim (Bool-cases (a.method == b.method)) [
      | inl m ↦ rw (m, e) refl
      | inr m ↦ rw m refl
    ]

still_new :
    (o : Observed) (p : String) (ss : List Series)
    → ((labels_of o).path == p) ≡ false
    → has_path p ss ≡ false
    → has_path p (record_request o ss) ≡ false
unfolding record_request
still_new o p [] e h = rw e refl
still_new o p (s ∷ ss) e h = elim (Bool-cases (s.labels.path == p)) [
  | inl k ↦ absurd (both_tests refl (rw k at h))
  | inr k ↦ elim (Bool-cases (same_labels s.labels (labels_of o))) [
    | inl m ↦ rw (m, k) (rw k at h)
    | inr m ↦ rw (m, k) (still_new o p ss e (rw k at h))
  ]
]

-- All different.
abbrev pub Different : List String → Type 0
Different [] = Unit
Different (p ∷ ps) = All (λ q. (p == q) ≡ false) ps × Different ps

series_of :
    (ps : List String) (ss : List Series)
    → Different ps
    → All (λ p. has_path p ss ≡ false) ps
    → length (observability (map unmatched ps) ss) ≡ length ps + length ss
unfolding observability path_pattern
series_of [] ss d h = omega arith
series_of (p ∷ ps) ss (apart, d) (new, h) =
    let o = unmatched p in
    let path : (labels_of o).path ≡ p = refl in
    omega (arith, series_of ps (record_request o ss) d (both ps apart h), new_series o ss new)
  where
    both :
        (qs : List String)
        → All (λ q. (p == q) ≡ false) qs
        → All (λ q. has_path q ss ≡ false) qs
        → All (λ q. has_path q (record_request (unmatched p) ss) ≡ false) qs
    both [] a b = tt
    both (q ∷ qs) (e, a) (k, b) = (still_new (unmatched p) q ss e k, both qs a b)

-- Requests for paths that no route has make a series each, under the path of the request: their
-- number has no bound but the number of requests.
pub observability-unmatched :
    (ps : List String) → Different ps → length (observability (map unmatched ps) []) ≡ length ps
observability-unmatched ps d = omega (arith, series_of ps [] d (none_yet ps))
  where
    none_yet : (qs : List String) → All (λ q. has_path q [] ≡ false) qs
    none_yet [] = tt
    none_yet (q ∷ qs) = (refl, none_yet qs)
