-- ===== src/Client/Tests.antt =====
-- Tests of the browser: a server that refuses every access token, and one whose refresh is
-- out of reach.
use task.Prelude.{String, none, some, true, false, ◌≡◌, refl, [], ◌∷◌}
use task.Prelude.Text.{codes}
use task.Client.Session.{
  Fetched, unreachable, response, Server, Session, request, is_present, present, call_once,
  answered, do_refresh, do_refresh_with, refresh_answered, after_refresh, wants_refresh,
  clear_tokens, end_session, message_or,
}
use task.Task.Types.{Task, completed}
use task.Client.Board.{stats_of}
use task.Client.Kept.{KeptOrTold, request-KeptOrTold, request_transient, is_transient}

abbrev refusal : {D : Type 0} → Fetched D
refusal = response 401 (record { success = false; message = some (codes "no"); data' = none })

abbrev refusing : Server Unit String Unit
refusing = record { post_refresh = λ t n. (refusal, n); call = λ e t n. (refusal, n) }

abbrev offline : Server Unit String Unit
offline = record { post_refresh = λ t n. (unreachable, n); call = λ e t n. (refusal, n) }

abbrev start : Session Unit
start = record {
  access = some (codes "a");
  refresh = some (codes "r");
  told = [];
  sent = 0;
  net = tt;
}

-- The session ends, and two requests have gone out.
session_ends :
    (request refusing "/tasks" true start).1
    ≡ record { access = none; refresh = none; told = codes "no" ∷ []; sent = 2; net = tt }
unfolding request call_once answered wants_refresh do_refresh do_refresh_with refresh_answered
    after_refresh end_session clear_tokens is_present present message_or
session_ends = refl

request-KeptOrTold_example : KeptOrTold start (request refusing "/tasks" true start).1
unfolding is_present
request-KeptOrTold_example = request-KeptOrTold refusing "/tasks" true start refl

request_transient_example :
    ((request offline "/tasks" true start).1.told ≡ [])
    × (is_present (request offline "/tasks" true start).1.refresh ≡ true)
unfolding is_present is_transient
request_transient_example = request_transient offline "/tasks" true start refl λ t n. refl

abbrev row_with : String → Task
row_with id = record {
  id = id;
  title = "t";
  description = none;
  status = completed;
  due_date = none;
  user_id = none;
  created_at = "c";
  updated_at = "u";
}

stats_shown :
    stats_of (row_with "1" ∷ row_with "2" ∷ [])
    ≡ record { total = 2; pending = 0; in_progress = 0; completed = 2 }
unfolding stats_of
stats_shown = refl
