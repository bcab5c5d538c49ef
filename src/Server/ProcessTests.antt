-- ===== src/Server/ProcessTests.antt =====
-- Tests of the processes and of their metrics, and the theorems at concrete inputs.
use task.Prelude.{String, true, false, ◌≡◌, refl, none, some, List, [], ◌∷◌, ◌++◌}
use task.Prelude.Text.{Text, codes}
use task.Server.Lifecycle.{
  ServerEvent, signal, closed, timed_out, rejection, start_server, on_server_event, live_through,
  HasExited, Signalled, ClosedWell, live_through-ends,
}
use task.Service.Answer.{answer}
use task.Config.Environment.{missing, truthy, or_default}
use task.Config.Supabase.{opened, unopened, get_supabase_client, test_connection}
use task.Server.Logging.{Info, create_logger, development_line, inject_request_id}
use task.Server.Metrics.{Finished, route_label, pod_info}

live_through-ends_example :
    ((before between rest : List ServerEvent)
      → HasExited
          (live_through (before ++ signal ∷ (between ++ timed_out ∷ rest)) (start_server "all")))
    × ((es : List ServerEvent)
        → (live_through es (start_server "all")).exit_code ≡ some 0
        → Signalled es × ClosedWell es)
live_through-ends_example = live_through-ends "all"

closes_well :
    (live_through
      (rejection ∷ signal ∷ signal ∷ closed none ∷ timed_out ∷ [])
      (start_server "all")).exit_code
    ≡ some 0
unfolding live_through on_server_event start_server
closes_well = refl

abbrev task_template : Text
task_template = codes "/api/v1/tasks/:id"

-- A request for a task, and one that no route matches.
abbrev reads_task : Finished
reads_task = record {
  method = codes "GET";
  route_path = some (codes "/:id");
  base_url = codes "/api/v1/tasks";
  path = codes "/42";
  status_code = 200;
}

abbrev lost : Finished
lost = record {
  method = codes "GET";
  route_path = none;
  base_url = [];
  path = codes "/api/v2";
  status_code = 404;
}

-- A request that `authenticate` has ended within the router of the tasks: no route has matched, and
-- Express has taken the prefix off its path. The label is the id.
unauthenticated_label :
    route_label (record lost { base_url = codes "/api/v1/tasks"; path = codes "/42" }) ≡ codes "/42"
unfolding route_label
unauthenticated_label = refl

tagged : pod_info (some []) (codes "host") [] ≡ (codes "X-Pod-Name", codes "host") ∷ []
unfolding pod_info
tagged = refl

abbrev slow : Info String
slow = record {
  level = "warn";
  message = "Slow";
  request_id = none;
  meta = ("service", "api") ∷ [];
}

marked_line :
    development_line (λ l. l) (λ m. "{}") (some "r1") "12:00" slow ≡ "12:00 warn [r1]: Slow {}"
unfolding development_line inject_request_id
marked_line = refl

silent_tests :
    create_logger none (some "test") ≡ record { level = "info"; json = false; silent = true }
unfolding create_logger or_default truthy
silent_tests = refl

-- A client is made once, and the database counts as down where none can be made.
made_once :
    get_supabase_client {Client = String}
      (λ o. unopened "Invalid URL")
      (missing "x")
      (some "client")
    ≡ (opened "client", some "client")
unfolding get_supabase_client
made_once = refl

down :
    test_connection {Client = String}
      (λ o. unopened "Invalid URL")
      (λ c. answer none none)
      (missing "x")
      none
    ≡ (false, none)
unfolding test_connection get_supabase_client
down = refl
