-- ===== src/Server/EndToEnd.antt =====
-- What any requests to the whole API (backend/src/app.js) leave alone.
use task.Prelude.{arith, String, ◌≡◌, refl, ◌∙◌, false, List, [], ◌∷◌}
use task.Prelude.Text.{Text}
use task.Http.{User, Outcome, Keeps}
use task.Task.Types.{Task}
use task.Task.Controller.{can_access}
use task.Task.Tables.{Tables, Documented}
use task.Task.Isolation.{In, handle-Isolated}
use task.Auth.Accounts.{
  NewAccount, NewToken, UserClient, find_by_email, find_user, create_user, store_refresh_token,
  find_refresh_token, revoke_refresh_token,
}
use task.Auth.Stable.{Closed}
use task.Gate.Middleware.{Identity, admitted, ended}
use task.Server.App.{HttpRequest, AppEnvironment, AppReply, AppWorld, gate_of, user_of, request_of}
use task.Server.Routes.{ReportRoute}
use task.Server.Pipeline.{serve_http, serve_all, report_endpoint}
use task.Server.Guarded.{OnApp, serve_http-Keeps}

-- The queries of `users` and `refresh_tokens` leave the table `tasks` as it is.
pub record LeavesTasks {Db : Type 0} (tables : Tables Db) (c : UserClient Db) : Type 0 where
  pub by_email : (e : String) (db : Db) → tables.tasks (find_by_email c e db).1 ≡ tables.tasks db
  pub by_id : (id : String) (db : Db) → tables.tasks (find_user c id db).1 ≡ tables.tasks db
  pub creates : (a : NewAccount) (db : Db) → tables.tasks (create_user c a db).1 ≡ tables.tasks db
  pub stores :
      (t : NewToken) (db : Db) → tables.tasks (store_refresh_token c t db).1 ≡ tables.tasks db
  pub finds : (h : Text) (db : Db) → tables.tasks (find_refresh_token c h db).1 ≡ tables.tasks db
  pub revokes :
      (h : Text) (db : Db) → tables.tasks (revoke_refresh_token c h db).1 ≡ tables.tasks db

module _ {ℓ} {Db : Type 0} (tables : Tables Db) (c : UserClient Db) (leaves : LeavesTasks tables c)
    (Q : List Task → Type ℓ) where
  Closed-tasks : Closed c (λ db. Q (tables.tasks db))
  Closed-tasks = record {
    by_email = λ e db h. rw (leaves.by_email e db) h;
    by_id = λ id db h. rw (leaves.by_id id db) h;
    creates = λ a db r h. rw (leaves.creates a db) h;
    stores = λ t db h. rw (leaves.stores t db) h;
    finds = λ k db h. rw (leaves.finds k db) h;
    revokes = λ k db h. rw (leaves.revokes k db) h;
  }

-- The report routes leave the database alone.
module _ {ℓ} (env : AppEnvironment) (P : env.auth.base.Db → Type ℓ) (r : HttpRequest env.Body) where
  report_endpoint-Keeps :
      (route : ReportRoute) (param : String) (u : User) (id : String)
      → Keeps (OnApp env (λ db q. P db)) (report_endpoint env r route param u id)
  unfolding report_endpoint OnApp
  report_endpoint-Keeps ReportRoute.request param u id = record { at = λ w h. h }
  report_endpoint-Keeps ReportRoute.poll param u id = record { at = λ w h. h }

module _ (env : AppEnvironment) (tables : Tables env.auth.base.Db)
    (leaves : LeavesTasks tables env.auth.client)
    (probe : (db : env.auth.base.Db) → tables.tasks (env.select_id db).1 ≡ tables.tasks db) where
  abbrev tasks_of : AppWorld env → List Task
  tasks_of w = tables.tasks w.world.api.db

  -- The token of the request, if it is let in, is that of a user who may not access the task.
  abbrev pub IsDenied : Task → HttpRequest env.Body → Type 0
  IsDenied t r =
      (who : Identity) → gate_of env r ≡ admitted who → can_access (user_of who) t ≡ false

  abbrev pub AllRequestsDenied : Task → List (HttpRequest env.Body) → Type 0
  AllRequestsDenied t [] = Unit
  AllRequestsDenied t (r ∷ rs) = IsDenied t r × AllRequestsDenied t rs

  module _ (doc : Documented tables env.tasks) where
    serve_http_isolated :
        (r : HttpRequest env.Body) (w : AppWorld env) (t : Task)
        → In t (tasks_of w)
        → IsDenied t r
        → In t (tasks_of (serve_http env r w).1)
    unfolding OnApp
    serve_http_isolated r w t i denied =
        serve_http-Keeps env (λ db q. In t (tables.tasks db)) r
          (λ q. Closed-tasks tables env.auth.client leaves (In t)) (λ db q h. rw (probe db) h)
          (λ who e cmd id api q h.
            handle-Isolated env.auth.base env.tasks env.is_uuid tables doc cmd
              (request_of env (user_of who) id r) api t h (denied who e))
          (λ who e route param id.
            report_endpoint-Keeps env (λ db. In t (tables.tasks db)) r route param (user_of who) id)
          w i

    -- A task stays in the table whatever requests the API serves, tasks, accounts, reports and health
    -- alike, as long as none of them is let in for a user who may access the task.
    pub serve_all_isolated :
        (rs : List (HttpRequest env.Body)) (w : AppWorld env) (t : Task)
        → In t (tables.tasks w.world.api.db)
        → AllRequestsDenied t rs
        → In t (tables.tasks (serve_all env rs w).world.api.db)
    unfolding serve_all
    serve_all_isolated [] w t i denied = i
    serve_all_isolated (r ∷ rs) w t i (d, rest) =
        serve_all_isolated rs (serve_http env r w).1 t (serve_http_isolated r w t i d) rest

  -- A request that no token lets in changes no task and no queue, whichever route it names.
  pub unauthenticated_serve :
      (r : HttpRequest env.Body) (w : AppWorld env) (o : Outcome AppReply)
      → gate_of env r ≡ ended o
      → (tables.tasks (serve_http env r w).1.world.api.db ≡ tables.tasks w.world.api.db)
        × ((serve_http env r w).1.queue ≡ w.queue)
  unfolding OnApp
  unauthenticated_serve r w o e =
      serve_http-Keeps env (λ db q. (tables.tasks db ≡ tables.tasks w.world.api.db) × (q ≡ w.queue))
        r
        (λ q.
          Closed-tasks tables env.auth.client leaves
            (λ ts. (ts ≡ tables.tasks w.world.api.db) × (q ≡ w.queue)))
        (λ db q h. (probe db ∙ h.0, h.1)) (λ who a cmd id api q h. absurd (ground arith))
        (λ who a route param id. absurd (ground arith)) w (refl, refl)
