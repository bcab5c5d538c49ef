-- ===== src/Server/Guarded.antt =====
-- A property of the database and the queue that the controllers keep is kept by every request that passes
-- `createApp` (backend/src/app.js).
use task.Prelude.{String, Option, none, some, Bool, true, false, ◌≡◌, refl, List}
use task.Http.{
  User, Request, Outcome, run_handler, Keeps, Keeps-bind, Keeps-then, Keeps-pure, finish,
}
use task.Service.Effects.{World}
use task.Task.Requests.{Command, handle}
use task.Auth.Stable.{Closed, OnDb, handle_auth-Keeps}
use task.Auth.Requests.{AuthCommand, handle_auth}
use task.Gate.Middleware.{Identity, Gate, admitted, ended}
use task.Server.Routes.{TaskRoute, AuthRoute, ReportRoute}
use task.Server.Validate.{Checked, passed, refused}
use task.Server.App.{
  Parsing, body, unreadable, HttpRequest, AppEnvironment, AppReply, AppWorld, Step, global_limiter,
  auth_limiter, tasks_limiter, reports_limiter, parse_body, draw_request_id, request_of, on_tasks,
  on_auth, validated, with_user, gate_of, user_of,
}
use task.Server.Pipeline.{
  task_endpoint, task_matched, tasks_router, auth_endpoint, auth_matched, auth_router,
  report_endpoint, report_matched, reports_router, get_health, health_matched, health_router,
  mounted, mount, routes, pass_app, serve_http,
}

module _ {ℓ} (env : AppEnvironment) (P : env.auth.base.Db → env.Queue → Type ℓ) where
  unfoldable pub OnApp : AppWorld env → Type ℓ
  OnApp w = P w.world.api.db w.queue

  finish-Keeps : {A : Type 0} (o : Outcome AppReply) → Keeps {A = A} OnApp (finish o)
  finish-Keeps o = record { at = λ w h. h }

  validated-Keeps :
      {A : Type 0} (c : Checked A AppReply) (f : A → Step env Unit)
      → ((a : A) → Keeps OnApp (f a))
      → Keeps OnApp (validated env c f)
  unfolding validated
  validated-Keeps (passed a) f k = k a
  validated-Keeps (refused o) f k = finish-Keeps o

  with_user-Keeps :
      (g : Gate Identity AppReply) (f : User → Step env Unit)
      → ((who : Identity) → g ≡ admitted who → Keeps OnApp (f (user_of who)))
      → Keeps OnApp (with_user env g f)
  unfolding with_user
  with_user-Keeps (admitted who) f k = k who refl
  with_user-Keeps (ended o) f k = finish-Keeps o

  parse_body-Keeps : (p : Parsing env.Body) → Keeps OnApp (parse_body env p)
  unfolding parse_body
  parse_body-Keeps (body b) = Keeps-pure OnApp b
  parse_body-Keeps (unreadable x) = finish-Keeps _

  module _ (r : HttpRequest env.Body) where
    global_limiter-Keeps : Keeps OnApp (global_limiter env r)
    unfolding OnApp global_limiter
    global_limiter-Keeps = record { at = λ w h. h }

    auth_limiter-Keeps : Keeps OnApp (auth_limiter env r)
    unfolding OnApp auth_limiter
    auth_limiter-Keeps = record { at = λ w h. h }

    tasks_limiter-Keeps : (u : User) → Keeps OnApp (tasks_limiter env u r)
    unfolding OnApp tasks_limiter
    tasks_limiter-Keeps u = record { at = λ w h. h }

    reports_limiter-Keeps : (u : User) → Keeps OnApp (reports_limiter env u r)
    unfolding OnApp reports_limiter
    reports_limiter-Keeps u = record { at = λ w h. h }

    draw_request_id-Keeps : Keeps OnApp (draw_request_id env r)
    unfolding OnApp draw_request_id
    draw_request_id-Keeps = record { at = λ w h. h }

    -- What the request's own task commands may do to the property.
    abbrev pub TasksKeep : Type ℓ
    TasksKeep =
        (who : Identity)
        → gate_of env r ≡ admitted who
        → (cmd : Command) (id : String) (api : World env.auth.base) (q : env.Queue) → P api.db q
        → P
            (run_handler
              (handle env.auth.base env.tasks env.is_uuid cmd (request_of env (user_of who) id r))
              api).1.db
            q

    -- What the request's own report commands may do to it.
    abbrev pub ReportsKeep : Type ℓ
    ReportsKeep =
        (who : Identity)
        → gate_of env r ≡ admitted who
        → (route : ReportRoute) (param id : String)
        → Keeps OnApp (report_endpoint env r route param (user_of who) id)

    module _ (closed : (q : env.Queue) → Closed env.auth.client (λ db. P db q))
        (probe : (db : env.auth.base.Db) (q : env.Queue) → P db q → P (env.select_id db).1 q)
        (tasks : TasksKeep) (reports : ReportsKeep) where
      on_auth-Keeps :
          (cmd : AuthCommand) (req : Request)
          → Keeps OnApp (on_auth env (handle_auth env.auth cmd req))
      unfolding OnApp OnDb
      on_auth-Keeps cmd req = record {
        at = λ w h.
            (handle_auth-Keeps env.auth (λ db. P db w.queue) (closed w.queue) cmd req).at w.world h;
      }

      auth_endpoint-Keeps :
          (route : AuthRoute) (id : String) (b : env.Body)
          → Keeps OnApp (auth_endpoint env r route id b)
      unfolding auth_endpoint
      auth_endpoint-Keeps AuthRoute.signup id b =
          search (Keeps-then, auth_limiter-Keeps, validated-Keeps, on_auth-Keeps)
      auth_endpoint-Keeps AuthRoute.login id b =
          search (Keeps-then, auth_limiter-Keeps, validated-Keeps, on_auth-Keeps)
      auth_endpoint-Keeps AuthRoute.refresh id b =
          search (Keeps-then, auth_limiter-Keeps, validated-Keeps, on_auth-Keeps)
      auth_endpoint-Keeps AuthRoute.logout id b = search (on_auth-Keeps)
      auth_endpoint-Keeps AuthRoute.me id b = search (with_user-Keeps, on_auth-Keeps)

      auth_matched-Keeps :
          (m : Option (AuthRoute × String)) (id : String) (b : env.Body)
          → Keeps OnApp (auth_matched env r m id b)
      unfolding auth_matched
      auth_matched-Keeps none id b = Keeps-pure OnApp tt
      auth_matched-Keeps (some (route, param)) id b = auth_endpoint-Keeps route id b

      auth_router-Keeps :
          (id : String) (b : env.Body) (rest : List String)
          → Keeps OnApp (auth_router env r id b rest)
      unfolding auth_router
      auth_router-Keeps id b rest = search (auth_matched-Keeps)

      on_command-Keeps :
          (who : Identity) (e : gate_of env r ≡ admitted who) (cmd : Command) (id : String)
          → Keeps OnApp (
              on_tasks env (
                handle env.auth.base env.tasks env.is_uuid cmd (request_of env (user_of who) id r)))
      unfolding OnApp
      on_command-Keeps who e cmd id = record {
        at = λ w h. tasks who e cmd id w.world.api w.queue h;
      }

      task_endpoint-Keeps :
          (who : Identity) (e : gate_of env r ≡ admitted who) (route : TaskRoute)
          (param id : String) (b : env.Body)
          → Keeps OnApp (task_endpoint env r route param (user_of who) id b)
      unfolding task_endpoint
      task_endpoint-Keeps who e TaskRoute.create param id b =
          search (validated-Keeps, on_command-Keeps who e)
      task_endpoint-Keeps who e TaskRoute.list param id b = search (on_command-Keeps who e)
      task_endpoint-Keeps who e TaskRoute.list_deleted param id b = search (on_command-Keeps who e)
      task_endpoint-Keeps who e TaskRoute.get param id b = search (on_command-Keeps who e)
      task_endpoint-Keeps who e TaskRoute.update param id b =
          search (validated-Keeps, on_command-Keeps who e)
      task_endpoint-Keeps who e TaskRoute.delete param id b = search (on_command-Keeps who e)

      task_matched-Keeps :
          (who : Identity) (e : gate_of env r ≡ admitted who) (m : Option (TaskRoute × String))
          (id : String) (b : env.Body)
          → Keeps OnApp (task_matched env r m (user_of who) id b)
      unfolding task_matched
      task_matched-Keeps who e none id b = Keeps-pure OnApp tt
      task_matched-Keeps who e (some (route, param)) id b =
          task_endpoint-Keeps who e route param id b

      tasks_router-Keeps :
          (id : String) (b : env.Body) (rest : List String)
          → Keeps OnApp (tasks_router env r id b rest)
      unfolding tasks_router
      tasks_router-Keeps id b rest =
          with_user-Keeps (gate_of env r) _
            λ who e. search (Keeps-then, tasks_limiter-Keeps, task_matched-Keeps who e)

      report_matched-Keeps :
          (who : Identity) (e : gate_of env r ≡ admitted who) (m : Option (ReportRoute × String))
          (id : String)
          → Keeps OnApp (report_matched env r m (user_of who) id)
      unfolding report_matched
      report_matched-Keeps who e none id = Keeps-pure OnApp tt
      report_matched-Keeps who e (some (route, param)) id = reports who e route param id

      reports_router-Keeps :
          (id : String) (b : env.Body) (rest : List String)
          → Keeps OnApp (reports_router env r id b rest)
      unfolding reports_router
      reports_router-Keeps id b rest =
          with_user-Keeps (gate_of env r) _
            λ who e. search (Keeps-then, reports_limiter-Keeps, report_matched-Keeps who e)

      get_health-Keeps : Keeps OnApp (get_health env r)
      unfolding OnApp get_health
      get_health-Keeps = record { at = λ w h. probe w.world.api.db w.queue h }

      health_matched-Keeps : (m : Option (Unit {0} × String)) → Keeps OnApp (health_matched env r m)
      unfolding health_matched
      health_matched-Keeps none = Keeps-pure OnApp tt
      health_matched-Keeps (some found) = get_health-Keeps

      health_router-Keeps :
          (id : String) (b : env.Body) (rest : List String)
          → Keeps OnApp (health_router env r id b rest)
      unfolding health_router
      health_router-Keeps id b rest = search (health_matched-Keeps)

      mounted-Keeps :
          (rest : Option (List String)) (router : List String → Step env Unit)
          → ((segments : List String) → Keeps OnApp (router segments))
          → Keeps OnApp (mounted env r rest router)
      unfolding mounted
      mounted-Keeps none router k = Keeps-pure OnApp tt
      mounted-Keeps (some rest) router k = k rest

      mount-Keeps :
          (served : Bool) (prefix : List String) (router : List String → Step env Unit)
          → ((segments : List String) → Keeps OnApp (router segments))
          → Keeps OnApp (mount env r served prefix router)
      unfolding mount
      mount-Keeps false prefix router k = Keeps-pure OnApp tt
      mount-Keeps true prefix router k =
          mounted-Keeps (env.express.strip prefix r.segments) router k

      routes-Keeps : (id : String) (b : env.Body) → Keeps OnApp (routes env r id b)
      unfolding routes
      routes-Keeps id b =
          search
            (
              Keeps-then, mount-Keeps, auth_router-Keeps, tasks_router-Keeps, reports_router-Keeps,
              health_router-Keeps,
            )
            depth 8

      pass_app-Keeps : Keeps OnApp (pass_app env r)
      unfolding pass_app
      pass_app-Keeps =
          search
            (
              Keeps-then, Keeps-bind, global_limiter-Keeps, parse_body-Keeps, draw_request_id-Keeps,
              routes-Keeps, finish-Keeps,
            )
            depth 8

      pub serve_http-Keeps :
          (w : AppWorld env)
          → P w.world.api.db w.queue
          → P (serve_http env r w).1.world.api.db (serve_http env r w).1.queue
      unfolding serve_http OnApp
      serve_http-Keeps w h = pass_app-Keeps.at w h
