-- ===== src/Server/Pipeline.antt =====
-- The routers of backend/src/routes with their middleware, and `createApp` of backend/src/app.js
-- from the first limiter to the error handler.
use task.Prelude.{String, Option, none, some, Bool, true, false, List, [], ◌∷◌, if◌then◌else◌}
use task.Prelude.Text.{codes}
use task.Http.{
  User, Flow, Outcome, responded, next_error, next, ◌>>=◌, ◌>>◌, pure, finish, send_success,
  send_error, run_handler,
}
use task.Task.Requests.{Command, handle}
use task.Auth.Requests.{AuthCommand, handle_auth}
use task.Report.Jobs.{request_report, get_report_status}
use task.Gate.Middleware.{error_handler}
use task.Server.Routes.{
  TaskRoute, AuthRoute, ReportRoute, task_routes, auth_routes, report_routes, health_routes,
  serves_tasks, serves_reports,
}
use task.Server.Validate.{validate}
use task.Server.App.{
  is_connected, HttpRequest, AppEnvironment, AppReply, of_health, Health, AppWorld, Step,
  global_limiter, auth_limiter, tasks_limiter, reports_limiter, parse_body, draw_request_id,
  request_of, nobody, on_tasks, on_auth, on_queue, validated, with_user, gate_of,
}

module _ (env : AppEnvironment) (r : HttpRequest env.Body) where
  abbrev on_command : Command → User → String → Step env Unit
  on_command cmd u id =
      on_tasks env (handle env.auth.base env.tasks env.is_uuid cmd (request_of env u id r))

  -- What backend/src/routes/task.routes.js has registered for a route.
  unfoldable pub task_endpoint : TaskRoute → String → User → String → env.Body → Step env Unit
  unfolding validated validate
  task_endpoint TaskRoute.create param u id body =
      validated env (validate (env.schemas.create_task_schema body))
        λ b. on_command (Command.create b) u id
  task_endpoint TaskRoute.list param u id body = on_command Command.list u id
  task_endpoint TaskRoute.list_deleted param u id body = on_command Command.list_deleted u id
  task_endpoint TaskRoute.get param u id body = on_command (Command.get param) u id
  task_endpoint TaskRoute.update param u id body =
      validated env (validate (env.schemas.update_task_schema body))
        λ b. on_command (Command.update param b) u id
  task_endpoint TaskRoute.delete param u id body = on_command (Command.delete param) u id

  unfoldable pub task_matched :
      Option (TaskRoute × String) → User → String → env.Body → Step env Unit
  unfolding task_endpoint
  task_matched none u id body = pure tt
  task_matched (some (route, param)) u id body = task_endpoint route param u id body

  unfoldable pub tasks_router : String → env.Body → List String → Step env Unit
  unfolding with_user gate_of tasks_limiter task_matched task_routes
  tasks_router id body rest = with_user env (gate_of env r) λ u. do
    tasks_limiter env u r
    task_matched (env.express.first_match task_routes r.method rest) u id body

  abbrev on_auth_command : AuthCommand → User → String → Step env Unit
  on_auth_command cmd u id = on_auth env (handle_auth env.auth cmd (request_of env u id r))

  -- What backend/src/routes/auth.routes.js has registered for a route.
  unfoldable pub auth_endpoint : AuthRoute → String → env.Body → Step env Unit
  unfolding auth_limiter validated validate with_user gate_of
  auth_endpoint AuthRoute.signup id body = do
    auth_limiter env r
    validated env (validate (env.schemas.signup_schema body))
        λ b. on_auth_command (AuthCommand.signup b) (nobody env) id
  auth_endpoint AuthRoute.login id body = do
    auth_limiter env r
    validated env (validate (env.schemas.login_schema body))
        λ b. on_auth_command (AuthCommand.login b) (nobody env) id
  auth_endpoint AuthRoute.refresh id body = do
    auth_limiter env r
    validated env (validate (env.schemas.refresh_schema body))
        λ token. on_auth_command (AuthCommand.refresh token) (nobody env) id
  auth_endpoint AuthRoute.logout id body =
      on_auth_command (AuthCommand.logout (env.schemas.refresh_token_of body)) (nobody env) id
  auth_endpoint AuthRoute.me id body =
      with_user env (gate_of env r) λ u. on_auth_command AuthCommand.me u id

  unfoldable pub auth_matched : Option (AuthRoute × String) → String → env.Body → Step env Unit
  unfolding auth_endpoint
  auth_matched none id body = pure tt
  auth_matched (some (route, param)) id body = auth_endpoint route id body

  unfoldable pub auth_router : String → env.Body → List String → Step env Unit
  unfolding auth_matched auth_routes
  auth_router id body rest =
      auth_matched (env.express.first_match auth_routes r.method rest) id body

  unfoldable pub report_endpoint : ReportRoute → String → User → String → Step env Unit
  report_endpoint ReportRoute.request param u id =
      on_queue env (request_report env.jobs r.idempotency_key (request_of env u id r))
  report_endpoint ReportRoute.poll param u id =
      on_queue env (get_report_status env.jobs (codes param) (request_of env u id r))

  unfoldable pub report_matched : Option (ReportRoute × String) → User → String → Step env Unit
  unfolding report_endpoint
  report_matched none u id = pure tt
  report_matched (some (route, param)) u id = report_endpoint route param u id

  unfoldable pub reports_router : String → env.Body → List String → Step env Unit
  unfolding with_user gate_of reports_limiter report_matched report_routes
  reports_router id body rest = with_user env (gate_of env r) λ u. do
    reports_limiter env u r
    report_matched (env.express.first_match report_routes r.method rest) u id

  -- `getHealth` of backend/src/controllers/health.controller.js, less the time the process is up.
  unfoldable pub get_health : Step env Unit
  unfolding is_connected
  get_health w =
      let (rows, db) = env.select_id w.world.api.db in
      let connected = is_connected rows in
      let health : Health = record {
        status = if connected then "UP" else "DEGRADED";
        database = if connected then "UP" else "DOWN";
        timestamp = env.iso_now;
      } in
      (
        Flow.stop (send_success (of_health health) (if connected then 200 else 503)),
        record w { world = record w.world { api = record w.world.api { db = db } } },
      )

  unfoldable pub health_matched : Option (Unit {0} × String) → Step env Unit
  unfolding get_health
  health_matched none = pure tt
  health_matched (some found) = get_health

  unfoldable pub health_router : String → env.Body → List String → Step env Unit
  unfolding health_matched health_routes
  health_router id body rest = health_matched (env.express.first_match health_routes r.method rest)

  unfoldable pub mounted : Option (List String) → (List String → Step env Unit) → Step env Unit
  mounted none router = pure tt
  mounted (some rest) router = router rest

  -- `if (served) router.use(prefix, routes)`
  unfoldable pub mount : Bool → List String → (List String → Step env Unit) → Step env Unit
  unfolding mounted
  mount false prefix router = pure tt
  mount true prefix router = mounted (env.express.strip prefix r.segments) router

  -- backend/src/routes/index.js
  unfoldable pub routes : String → env.Body → Step env Unit
  unfolding mount serves_tasks serves_reports auth_router tasks_router reports_router health_router
  routes id body = do
    mount (serves_tasks env.service_role) ("api" ∷ "v1" ∷ "auth" ∷ []) (auth_router id body)
    mount (serves_tasks env.service_role) ("api" ∷ "v1" ∷ "tasks" ∷ []) (tasks_router id body)
    mount (serves_reports env.service_role) ("api" ∷ "v1" ∷ "reports" ∷ []) (reports_router id body)
    mount true ("health" ∷ []) (health_router id body)

  unfoldable pub pass_app : Step env (Outcome AppReply)
  unfolding global_limiter parse_body draw_request_id routes
  pass_app = do
    global_limiter env r
    body ← parse_body env r.payload
    id ← draw_request_id env r
    routes id body
    finish (send_error "Resource not found" [] 404)

  -- The error handler takes what a handler has passed to `next`.
  unfoldable pub respond : Outcome AppReply → Outcome AppReply
  unfolding error_handler
  respond (responded res) = responded res
  respond (next_error x) = error_handler env.is_production x
  respond next = next

  unfoldable pub serve_http : AppWorld env → Outcome AppReply × AppWorld env
  unfolding pass_app respond
  serve_http w = let (o, w') = run_handler pass_app w in (respond o, w')

module _ (env : AppEnvironment) where
  unfoldable pub serve_all : List (HttpRequest env.Body) → AppWorld env → AppWorld env
  unfolding serve_http
  serve_all [] w = w
  serve_all (r ∷ rest) w = serve_all rest (serve_http env r w).1
