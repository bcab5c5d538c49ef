-- ===== src/Server/Logging.antt =====
-- The line that backend/src/middleware/requestLogger.js logs of a request, and the request id that
-- `injectRequestId` of backend/src/utils/logger.js adds to a line, with that logger's options and its
-- lines of development.
use task.Prelude.{
  ℕ, ◌-◌, String, Option, none, some, if◌then◌else◌, leb, Bool, false, List, [], ◌∷◌,
}
use Prim.Native.String.{◌++◌}
use task.Config.Environment.{or_default}
use task.Server.App.{HttpRequest}
use text.Mathlib.Text.{◌==◌}

pub data Level : Type 0 where
  info warn error : Level

pub record LogData : Type 0 where
  pub request_id : String
  pub method : String
  pub path : String
  pub status_code : ℕ
  pub response_time : ℕ
  pub user_agent : Option String
  pub ip : String

-- The level for a status.
unfoldable pub level_of : ℕ → Level
level_of status_code =
    if leb 500 status_code then error else if leb 400 status_code then warn else info

-- What is logged when the response ends: the level and the data.
unfoldable pub request_completed :
    {Body : Type 0} → HttpRequest Body → String → ℕ → ℕ → ℕ → Level × LogData
unfolding level_of
request_completed r request_id status_code start_time now = (
  level_of status_code,
  record {
    request_id = request_id;
    method = r.method;
    path = r.original_url;
    status_code = status_code;
    response_time = now - start_time;
    user_agent = r.user_agent;
    ip = r.ip;
  },
)

-- A line's own id stays; the id of the context stands in for a missing one.
unfoldable pub inject_request_id : Option String → Option String → Option String
inject_request_id (some own) context = if own == "" then context else some own
inject_request_id none context = context

-- A log record as its format gets it; `meta` is its other keys, `service` among them.
pub record Info (Meta : Type 0) : Type 0 where
  pub level : String
  pub message : String
  pub request_id : Option String
  pub meta : List (String × Meta)

-- The logger's options that come from the environment.
pub record Logger : Type 0 where
  pub level : String
  pub json : Bool
  pub silent : Bool

unfoldable pub create_logger : Option String → Option String → Logger
unfolding or_default
create_logger log_level node_env = record {
  level = or_default log_level "info";
  json = elim node_env [ none ↦ false | some e ↦ e == "production" ];
  silent = elim node_env [ none ↦ false | some e ↦ e == "test" ];
}

-- A line of development. `colorize` paints the level and `stringify` is `JSON.stringify`.
module _ {Meta : Type 0} (colorize : String → String)
    (stringify : List (String × Meta) → String) where
  abbrev request_mark : Option String → String
  request_mark none = ""
  request_mark (some id) = if id == "" then "" else " [" ++ (id ++ "]")

  abbrev extra : List (String × Meta) → String
  extra [] = ""
  extra (m ∷ ms) = " " ++ stringify (m ∷ ms)

  unfoldable pub development_line : Option String → String → Info Meta → String
  unfolding inject_request_id
  development_line context timestamp i =
      timestamp
      ++ (" "
          ++ (colorize i.level
              ++ (request_mark (inject_request_id i.request_id context)
                  ++ (": " ++ (i.message ++ extra i.meta)))))
