-- ===== src/Server/Metrics.antt =====
-- What a process counts of its requests: backend/src/middleware/metrics.js, the metrics of
-- backend/src/config/metrics.js that it fills, and backend/src/middleware/podInfo.js.
use task.Prelude.{ℕ, Option, none, some, List, [], ◌∷◌, ◌++◌, if◌then◌else◌}
use task.Prelude.Text.{Text, codes, starts_with}

-- The request and the response when the response has been sent: `req.route.path` where a route has
-- matched, `req.baseUrl` and `req.path`, which are the empty text where they are missing.
pub record Finished : Type 0 where
  pub method : Text
  pub route_path : Option Text
  pub base_url : Text
  pub path : Text
  pub status_code : ℕ

pub record Labels : Type 0 where
  pub method : Text
  pub route : Text
  pub status_code : ℕ

abbrev or_unknown : Text → Text
or_unknown [] = codes "unknown"
or_unknown (c ∷ cs) = c ∷ cs

abbrev pub unmatched_api : Text
unmatched_api = codes "unmatched_api"

unfoldable pub route_label : Finished → Text
route_label req = elim req.route_path [
  | some path ↦ req.base_url ++ path
  | none ↦ if starts_with (codes "/api") req.path then unmatched_api else or_unknown req.path
]

unfoldable pub labels_of : Finished → Labels
unfolding route_label
labels_of req = record {
  method = req.method;
  route = route_label req;
  status_code = req.status_code;
}

-- `http_request_duration_seconds`, one observation for each request, and `http_requests_total`, as the
-- labels that they were given.
pub record HttpMetrics : Type 0 where
  pub durations : List Labels
  pub requests : List Labels

unfoldable pub on_finish : Finished → HttpMetrics → HttpMetrics
unfolding labels_of
on_finish req m = record {
  durations = labels_of req ∷ m.durations;
  requests = labels_of req ∷ m.requests;
}

-- `POD_NAME || os.hostname()`
unfoldable pub pod_name : Option Text → Text → Text
pod_name none hostname = hostname
pod_name (some []) hostname = hostname
pod_name (some (c ∷ cs)) hostname = c ∷ cs

-- The headers of a response, the last one that was set first.
unfoldable pub pod_info : Option Text → Text → List (Text × Text) → List (Text × Text)
unfolding pod_name
pod_info env hostname headers = (codes "X-Pod-Name", pod_name env hostname) ∷ headers
