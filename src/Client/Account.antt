-- ===== src/Client/Account.antt =====
-- The session of the user in the app: frontend/src/hooks/useAuth.js, one call at a time, with the
-- submission of frontend/src/pages/AuthPage.jsx.
use task.Prelude.{Option, none, some, Bool, true, false, if◌then◌else◌}
use task.Prelude.Text.{Text, codes}
use task.Client.Session.{
  Server, Session, TokenPair, Result, resolved, rejected, network_error, present, set_tokens,
  clear_tokens, request, message_or,
}

-- The data of a log-in or a sign-up.
pub record LoggedIn (U : Type 0) : Type 0 where
  pub user : U
  pub tokens : TokenPair

-- What `useAuth` keeps: the user and whether the bootstrap is going on.
pub record AuthState (Net U : Type 0) : Type 0 where
  pub session : Session Net
  pub user : Option U
  pub initializing : Bool

-- How a call ends: it returns the user, or throws with a message.
pub data Entered (U : Type 0) : Type 0 where
  entered : U → Entered U
  threw : Text → Entered U

-- `AuthPage`: the mode, the fields, and what it shows.
pub record AuthForm : Type 0 where
  pub is_login : Bool
  pub email : Text
  pub password : Text
  pub error : Option Text
  pub submitting : Bool

-- `switchMode` of AuthPage
unfoldable pub switch_mode : AuthForm → AuthForm
switch_mode form = record form { is_login = if form.is_login then false else true; error = none }

module _ {Net E D : Type 0} (server : Server Net E D) where
  log_out_with : Option Text → (Text → E) → Session Net → Session Net
  unfolding request
  log_out_with none endpoint s = s
  log_out_with (some token) endpoint s = (request server (endpoint token) false s).1

-- The messages of the errors that the browser throws: on the properties of undefined, and where there
-- is no network.
pub record BrowserErrors : Type 0 where
  pub no_data : Text
  pub no_network : Text

module _ {Net U : Type 0} where
  -- The data of the response stores the tokens and sets the user; reading them off undefined throws.
  unfoldable pub entered_with :
      BrowserErrors
      → Result (LoggedIn U)
      → AuthState Net U
      → Session Net
      → Entered U × AuthState Net U
  unfolding set_tokens
  entered_with errors (resolved (some d)) st s =
      (entered d.user, record st { session = set_tokens d.tokens s; user = some d.user })
  entered_with errors (resolved none) st s = (threw errors.no_data, record st { session = s })
  entered_with errors (rejected message status) st s = (threw message, record st { session = s })
  entered_with errors network_error st s = (threw errors.no_network, record st { session = s })

  module _ {E : Type 0} (server : Server Net E (LoggedIn U)) (errors : BrowserErrors) where
    -- `login` and `signup`, with the endpoint that carries the credentials.
    unfoldable pub log_in : E → AuthState Net U → Entered U × AuthState Net U
    unfolding request entered_with
    log_in endpoint st =
        let (r, s) = request server endpoint false st.session in entered_with errors r st s

    -- `handleSubmit` of AuthPage, with the endpoints of the two modes.
    unfoldable pub submit_credentials :
        (Text → Text → E)
        → (Text → Text → E)
        → AuthForm
        → AuthState Net U
        → AuthForm × AuthState Net U
    unfolding log_in
    submit_credentials login signup form st =
        let (r, st') =
          log_in
            (if form.is_login
              then login form.email form.password
              else signup form.email form.password)
            st in
        (
          record form {
            error = elim r [
              | entered u ↦ none
              | threw m ↦ some (message_or (some m) (codes "Something went wrong"))
            ];
            submitting = false;
          },
          st',
        )

  module _ {E D : Type 0} (server : Server Net E D) where
    -- `logout`: the server is asked if there is a token, and whatever it says the session is over.
    unfoldable pub log_out : (Text → E) → AuthState Net U → AuthState Net U
    unfolding log_out_with present clear_tokens
    log_out endpoint st = record st {
      session = clear_tokens (log_out_with server (present st.session.refresh) endpoint st.session);
      user = none;
    }
