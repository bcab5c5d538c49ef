-- ===== src/Server/Tests.antt =====
-- The theorems of the whole API at concrete requests, and runs of it.
use task.Prelude.{false, String, none, some, ◌≡◌, refl, sym, ap, inl, arith, List, [], ◌∷◌}
use task.Prelude.Text.{codes}
use task.Http.{Outcome, send_success, send_error}
use task.Task.Types.{Task, pending}
use task.Task.Requests.{handle}
use task.Task.Controller.{can_access, one, get_task_by_id}
use task.Task.Model.{find_by_id}
use task.Task.Tables.{matches, rows_where}
use task.Auth.Secrets.{verify_access_token}
use task.Task.Memory.{Memory, memory_tables, memory-Documented}
use task.Task.Isolation.{In}
use task.Gate.Middleware.{Gate, Identity, admitted, ended, authenticate, admit}
use task.Server.App.{
  map_outcome, tasks_limiter, with_user, HttpRequest, gate_of, user_of, of_tasks, AppReply,
}
use task.Server.Pipeline.{task_matched, task_endpoint, serve_http, serve_all}
use task.Server.EndToEnd.{serve_all_isolated, unauthenticated_serve}
use task.Server.Logging.{level_of, error, warn, inject_request_id}
use task.Server.Samples.{env, world, asking, users-LeavesTasks}

abbrev task_of : String → String → Task
task_of id owner = record {
  id = id;
  title = "t";
  description = none;
  status = pending;
  due_date = none;
  user_id = some owner;
  created_at = "now";
  updated_at = "now";
}

abbrev store : Memory
store = record { tasks = task_of "1" "alice" ∷ task_of "2" "bob" ∷ []; deleted = [] }

abbrev on_task : String → List String
on_task id = "api" ∷ "v1" ∷ "tasks" ∷ id ∷ []

abbrev reads : HttpRequest Unit
reads = asking "GET" (on_task "2") (some (codes "Bearer bob"))

bob_reads :
    (serve_http env reads (world store)).0 ≡ send_success (of_tasks (one (task_of "2" "bob"))) 200
unfolding serve_http gate_of authenticate get_task_by_id with_user tasks_limiter task_matched
    task_endpoint find_by_id matches rows_where can_access user_of verify_access_token admit
    map_outcome handle
bob_reads = refl

abbrev bob_deletes : HttpRequest Unit
bob_deletes = asking "DELETE" (on_task "1") (some (codes "Bearer bob"))

abbrev bob_changes : HttpRequest Unit
bob_changes = asking "PUT" (on_task "1") (some (codes "Bearer bob"))

abbrev nobody_deletes : HttpRequest Unit
nobody_deletes = asking "DELETE" (on_task "1") none

abbrev bob_identity : Identity
bob_identity = record { id = "bob"; email = some "b@x"; role = some "USER" }

bob_denied :
    (who : Identity)
    → Path (Gate Identity AppReply) (admitted bob_identity) (admitted who)
    → can_access (user_of who) (task_of "1" "alice") ≡ false
unfolding can_access user_of
bob_denied who e =
    ap (λ g. elim g [ admitted w ↦ can_access (user_of w) (task_of "1" "alice") | ended o ↦ false ])
      (sym e)

nobody_denied :
    (who : Identity) (o : Outcome AppReply)
    → ended o ≡ admitted who
    → can_access (user_of who) (task_of "1" "alice") ≡ false
nobody_denied who o e = absurd (ground arith)

serve_all_isolated_example :
    In
      (task_of "1" "alice")
      (serve_all env
        (bob_deletes ∷ bob_changes ∷ nobody_deletes ∷ [])
        (world store)).world.api.db.tasks
unfolding gate_of authenticate verify_access_token admit
serve_all_isolated_example =
    serve_all_isolated env memory_tables users-LeavesTasks (λ db. refl) memory-Documented
      (bob_deletes ∷ bob_changes ∷ nobody_deletes ∷ []) (world store) (task_of "1" "alice")
      (inl refl) (bob_denied, (bob_denied, ((λ who. nobody_denied who _), tt)))

not_let_in : gate_of env nobody_deletes ≡ ended (send_error "Authentication required" [] 401)
unfolding gate_of authenticate
not_let_in = refl

unauthenticated_serve_example :
    ((serve_http env nobody_deletes (world store)).1.world.api.db.tasks ≡ store.tasks)
    × ((serve_http env nobody_deletes (world store)).1.queue ≡ [])
unauthenticated_serve_example =
    unauthenticated_serve env memory_tables users-LeavesTasks (λ db. refl) nobody_deletes
      (world store) (send_error "Authentication required" [] 401) not_let_in

logs :
    (level_of 503 ≡ error) × (level_of 404 ≡ warn) × (inject_request_id none (some "r") ≡ some "r")
unfolding level_of inject_request_id
logs = (refl, refl, refl)
