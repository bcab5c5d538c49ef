-- ===== src/Server/App.antt =====
-- `createApp` of backend/src/app.js: the order in which a request passes the middleware and the
-- routers. Left out are the headers that helmet, cors, hpp and podInfo set, the metrics and the logs,
-- and so the requests that end before the first limiter: a preflight of cors and a scrape of /metrics.
use text.Mathlib.Text.{◌==◌}
use task.Prelude.{true, false, ℕ, ◌+◌, String, Option, none, some, Bool, List, if◌then◌else◌}
use task.Prelude.Text.{Text}
use task.Http.{
  User, Request, Exception, Envelope, go, stop, Outcome, Handler, pure, finish, raise, run_handler,
  responded, next_error, next, success, failure,
}
use task.Service.Answer.{Answer, answer, thrown}
use task.Service.Effects.{World}
use task.Task.Types.{NewTask, TaskPatch}
use task.Task.Model.{TaskClient}
use task.Task.Controller.{Payload}
use task.Auth.Steps.{AuthServices, AuthWorld, AuthReply, SignupBody, LoginBody}
use task.Report.Jobs.{JobQueue, Reply}
use task.Gate.Middleware.{Identity, Gate, admitted, ended, authenticate}
use task.Limits.Limiter.{
  Options, RateLimit, LimitConfig, Stores, allowed, exceeded, store_failed, limiter, key_generator,
  too_many, global_options, auth_options, user_options,
}
use task.Server.Routes.{Express}
use task.Server.Validate.{Parsed, Checked, passed, refused}

-- What the body parser makes of a body: a value of JavaScript, or an error with a status.
pub data Parsing (Body : Type 0) : Type 0 where
  body : Body → Parsing Body
  unreadable : Exception → Parsing Body

-- `safeParse` of the schemas, and `req.body.refreshToken` of a body that no schema has seen.
pub record Schemas (Body : Type 0) : Type 0 where
  pub create_task_schema : Body → Parsed NewTask
  pub update_task_schema : Body → Parsed TaskPatch
  pub signup_schema : Body → Parsed SignupBody
  pub login_schema : Body → Parsed LoginBody
  pub refresh_schema : Body → Parsed Text
  pub refresh_token_of : Body → Option Text

pub record HttpRequest (Body : Type 0) : Type 0 where
  pub method : String
  pub segments : List String
  pub original_url : String
  pub ip : String
  pub authorization : Option Text
  pub idempotency_key : Option String
  pub x_request_id : Option String
  pub user_agent : Option String
  pub payload : Parsing Body

pub record Health : Type 0 where
  pub status : String
  pub database : String
  pub timestamp : String

pub data AppReply : Type 0 where
  of_tasks : Payload → AppReply
  of_auth : AuthReply → AppReply
  of_reports : Reply → AppReply
  of_health : Health → AppReply

-- The environment of the process. `new_uuid` is the `uuidv4()` drawn at a request, and
-- `select_id` is the query `from('tasks').select('id').limit(1)`.
pub record AppEnvironment : Type 1 where
  pub auth : AuthServices
  pub tasks : TaskClient auth.base.Db
  pub is_uuid : String → Bool
  pub Queue : Type 0
  pub jobs : JobQueue Queue
  pub limits : RateLimit
  pub limit_config : LimitConfig
  pub express : Express
  pub Body : Type 0
  pub schemas : Schemas Body
  pub is_production : Bool
  pub service_role : String
  pub new_uuid : ℕ → String
  pub iso_now : String
  pub select_id : auth.base.Db → Answer (List String) × auth.base.Db

-- `testConnection` of backend/src/config/supabase.js, from the answer of its query.
unfoldable pub is_connected : {A : Type 0} → Answer A → Bool
is_connected (answer rows none) = true
is_connected (answer rows (some e)) = false
is_connected (thrown x) = false

unfoldable pub map_envelope : {A B : Type 0} → (A → B) → Envelope A → Envelope B
map_envelope f (success a) = success (f a)
map_envelope f (failure message errors) = failure message errors

unfoldable pub map_outcome : {A B : Type 0} → (A → B) → Outcome A → Outcome B
unfolding map_envelope
map_outcome f (responded r) = responded (record { status = r.status; json = map_envelope f r.json })
map_outcome f (next_error x) = next_error x
map_outcome f next = next

-- `req.headers['x-request-id'] || uuidv4()`
unfoldable pub request_id_of : Option String → String → String
request_id_of none uuid = uuid
request_id_of (some id) uuid = if id == "" then uuid else id

-- `req.user`; a token without an email or a role, which nothing in the repository signs as an access
-- token, counts as having an empty one.
unfoldable pub user_of : Identity → User
user_of who = record {
  id = who.id;
  email = elim who.email [ none ↦ "" | some e ↦ e ];
  role = elim who.role [ none ↦ "" | some r ↦ r ];
}

module _ (env : AppEnvironment) where
  -- The limiters: each has a memory of its own, and all share Redis.
  pub record Limiters : Type 0 where
    pub global_memory : env.limits.Memory
    pub auth_memory : env.limits.Memory
    pub tasks_memory : env.limits.Memory
    pub reports_memory : env.limits.Memory
    pub redis : env.limits.Redis

  pub record AppWorld : Type 0 where
    pub world : AuthWorld env.auth
    pub queue : env.Queue
    pub limiters : Limiters
    pub redis_healthy : Bool
    pub drawn : ℕ

  abbrev pub Step : Type 0 → Type 0
  Step A = Handler AppWorld AppReply A

  abbrev pub limit_with :
      Options
      → (Limiters → env.limits.Memory)
      → (env.limits.Memory → Limiters → Limiters)
      → Text
      → Step Unit
  limit_with o memory_of with_memory key w =
      let stores : Stores env.limits = record {
        memory = memory_of w.limiters;
        redis = w.limiters.redis;
      } in
      let (visit, s) = limiter env.limits env.limit_config.is_test o w.redis_healthy key stores in
      (
        elim visit [
          | allowed ↦ go tt
          | exceeded ↦ stop too_many
          | store_failed x ↦ stop (next_error x)
        ],
        record w { limiters = record (with_memory s.memory w.limiters) { redis = s.redis } },
      )

  unfoldable pub global_limiter : HttpRequest env.Body → Step Unit
  unfolding limiter global_options key_generator
  global_limiter r =
      limit_with (global_options env.limit_config) (λ l. l.global_memory)
        (λ m l. record l { global_memory = m }) (key_generator none r.ip)

  unfoldable pub auth_limiter : HttpRequest env.Body → Step Unit
  unfolding limiter auth_options key_generator
  auth_limiter r =
      limit_with (auth_options env.limit_config) (λ l. l.auth_memory)
        (λ m l. record l { auth_memory = m }) (key_generator none r.ip)

  unfoldable pub tasks_limiter : User → HttpRequest env.Body → Step Unit
  unfolding limiter user_options key_generator
  tasks_limiter u r =
      limit_with (user_options env.limit_config) (λ l. l.tasks_memory)
        (λ m l. record l { tasks_memory = m }) (key_generator (some u.id) r.ip)

  unfoldable pub reports_limiter : User → HttpRequest env.Body → Step Unit
  unfolding limiter user_options key_generator
  reports_limiter u r =
      limit_with (user_options env.limit_config) (λ l. l.reports_memory)
        (λ m l. record l { reports_memory = m }) (key_generator (some u.id) r.ip)

  -- `express.json` and `express.urlencoded`
  unfoldable pub parse_body : Parsing env.Body → Step env.Body
  parse_body (body b) = pure b
  parse_body (unreadable x) = raise x

  unfoldable pub draw_request_id : HttpRequest env.Body → Step String
  unfolding request_id_of
  draw_request_id r w =
      (go (request_id_of r.x_request_id (env.new_uuid w.drawn)), record w { drawn = w.drawn + 1 })

  abbrev pub request_of : User → String → HttpRequest env.Body → Request
  request_of u id r = record {
    user = u;
    request_id = id;
    ip = r.ip;
    method = r.method;
    original_url = r.original_url;
    user_agent = r.user_agent;
  }

  abbrev pub nobody : User
  nobody = record { id = ""; email = ""; role = "" }

  -- A controller's handler, run on its part of the world.
  abbrev pub on_tasks : Handler (World env.auth.base) Payload (Outcome Payload) → Step Unit
  on_tasks m w =
      let (o, api) = run_handler m w.world.api in
      (stop (map_outcome of_tasks o), record w { world = record w.world { api = api } })

  abbrev pub on_auth : Handler (AuthWorld env.auth) AuthReply (Outcome AuthReply) → Step Unit
  on_auth m w =
      let (o, world) = run_handler m w.world in
      (stop (map_outcome of_auth o), record w { world = world })

  abbrev pub on_queue : Handler env.Queue Reply (Outcome Reply) → Step Unit
  on_queue m w =
      let (o, queue) = run_handler m w.queue in
      (stop (map_outcome of_reports o), record w { queue = queue })

  -- `validate(schema)` before a handler.
  unfoldable pub validated : {A : Type 0} → Checked A AppReply → (A → Step Unit) → Step Unit
  validated (passed a) f = f a
  validated (refused o) f = finish o

  -- `authenticate` before the rest of a router.
  unfoldable pub with_user : Gate Identity AppReply → (User → Step Unit) → Step Unit
  unfolding user_of
  with_user (admitted who) f = f (user_of who)
  with_user (ended o) f = finish o

  unfoldable pub gate_of : HttpRequest env.Body → Gate Identity AppReply
  unfolding authenticate
  gate_of r = authenticate env.auth.config env.auth.jwt r.authorization
