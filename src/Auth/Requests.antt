-- ===== src/Auth/Requests.antt =====
-- The requests of backend/src/routes/auth.routes.js, one after the other.
use task.Prelude.{Option, List, [], ◌∷◌}
use task.Prelude.Text.{Text}
use task.Http.{Request, Outcome, Handler, run_handler}
use task.Auth.Controller
use task.Auth.Steps.{AuthReply, SignupBody, LoginBody, AuthServices, AuthWorld}

-- A route with its parsed body.
pub data AuthCommand : Type 0 where
  signup : SignupBody → AuthCommand
  login : LoginBody → AuthCommand
  refresh : Text → AuthCommand
  logout : Option Text → AuthCommand
  me : AuthCommand

module _ (s : AuthServices) where
  unfoldable pub handle_auth :
      AuthCommand → Request → Handler (AuthWorld s) AuthReply (Outcome AuthReply)
  handle_auth (signup body) = Controller.signup s body
  handle_auth (login body) = Controller.login s body
  handle_auth (refresh token) = Controller.refresh s token
  handle_auth (logout token) = Controller.logout s token
  handle_auth me = Controller.me s

  unfoldable pub serve_auth : List (AuthCommand × Request) → AuthWorld s → AuthWorld s
  serve_auth [] w = w
  serve_auth ((cmd, req) ∷ rest) w = serve_auth rest (run_handler (handle_auth cmd req) w).1
