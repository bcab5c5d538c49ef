-- ===== src/Server/Routes.antt =====
-- The routers of backend/src/routes: what each registers, in its order, and where
-- backend/src/routes/index.js mounts it. Express, which matches a request with what is registered, is
-- a parameter.
use text.Mathlib.Text.{◌==◌}
use task.Prelude.{String, Option, Bool, ◌||◌, List, [], ◌∷◌}

-- A segment of a registered path: a literal or a named parameter.
pub data Segment : Type 0 where
  exact param : String → Segment

pub record Registration (A : Type 0) : Type 0 where
  pub method : String
  pub path : List Segment
  pub endpoint : A

-- `strip` is what `router.use(prefix, ...)` does with a path: the rest behind the prefix, if the path
-- starts with it. `first_match` is the endpoint that a router picks for a method and a path, with the
-- value of the path's parameter, empty where it has none.
pub record Express : Type 1 where
  pub strip : List String → List String → Option (List String)
  pub first_match :
      {A : Type 0} → List (Registration A) → String → List String → Option (A × String)

pub data TaskRoute : Type 0 where
  create list list_deleted get update delete : TaskRoute

abbrev id_path : List Segment
id_path = param "id" ∷ []

unfoldable pub task_routes : List (Registration TaskRoute)
task_routes =
    record { method = "POST"; path = []; endpoint = create }
    ∷ record { method = "GET"; path = []; endpoint = list }
    ∷ record { method = "GET"; path = exact "deleted" ∷ []; endpoint = list_deleted }
    ∷ record { method = "GET"; path = id_path; endpoint = get }
    ∷ record { method = "PUT"; path = id_path; endpoint = update }
    ∷ record { method = "DELETE"; path = id_path; endpoint = delete }
    ∷ []

pub data AuthRoute : Type 0 where
  signup login refresh logout me : AuthRoute

unfoldable pub auth_routes : List (Registration AuthRoute)
auth_routes =
    record { method = "POST"; path = exact "signup" ∷ []; endpoint = signup }
    ∷ record { method = "POST"; path = exact "login" ∷ []; endpoint = login }
    ∷ record { method = "POST"; path = exact "refresh" ∷ []; endpoint = refresh }
    ∷ record { method = "POST"; path = exact "logout" ∷ []; endpoint = logout }
    ∷ record { method = "GET"; path = exact "me" ∷ []; endpoint = me }
    ∷ []

pub data ReportRoute : Type 0 where
  request poll : ReportRoute

unfoldable pub report_routes : List (Registration ReportRoute)
report_routes =
    record { method = "POST"; path = []; endpoint = request }
    ∷ record { method = "GET"; path = param "jobId" ∷ []; endpoint = poll }
    ∷ []

unfoldable pub health_routes : List (Registration Unit)
health_routes = record { method = "GET"; path = []; endpoint = tt } ∷ []

-- Which routers a process with the given role mounts.
unfoldable pub serves_tasks : String → Bool
serves_tasks role = role == "tasks" || role == "all"

unfoldable pub serves_reports : String → Bool
serves_reports role = role == "reports" || role == "all"
