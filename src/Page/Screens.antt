-- ===== src/Page/Screens.antt =====
-- The screen of the log-in (frontend/src/pages/AuthPage.jsx), the page behind it with its header, and
-- which of them frontend/src/App.jsx shows.
use task.Prelude.{
  ℕ, String, Option, none, some, Bool, true, false, List, [], ◌∷◌, ◌++◌, if◌then◌else◌,
}
use task.Prelude.Text.{Text, codes}
use task.Http.{User}
use package.text.Mathlib.Text.{◌==◌}
use task.Client.Account.{AuthForm}
use task.Client.Board.{Stats}
use task.Page.Times.{PageDates}
use task.Page.Toasts.{Toast}
use task.Page.Dashboard.{Dashboard, new_click, edit_click, delete_click}
use task.Page.Html.{
  Html, Nodes, Attribute, text, element, attr, disabled, on_click, on_change, on_submit, list,
}
use task.Page.Parts.{PageMessage, choose, search_for, add, edit, delete, close_confirm, close_modal}
use task.Page.Parts
use task.Page.Frame.{header}
use task.Page.View.{PageState, dashboard_view, toasts_view, loading_view}

-- What the listeners of the log-in do.
pub data AuthMessage : Type 0 where
  switch submit : AuthMessage
  enter_email enter_password : Text → AuthMessage

-- What a message of the page does to the state of Dashboard, the two asynchronous handlers apart.
unfoldable pub on_message : PageMessage → Dashboard → Dashboard
unfolding new_click edit_click delete_click
on_message (choose f) d = record d { filter = f }
on_message (search_for t) d = record d { search = t }
on_message add d = new_click d
on_message (edit t) d = edit_click t d
on_message (delete t) d = delete_click t d
on_message close_modal d = record d { is_modal_open = false }
on_message close_confirm d = record d { is_confirm_open = false }
on_message _ d = d

abbrev class : String → Attribute AuthMessage
class name = attr "className" (codes name)

abbrev words : String → Nodes AuthMessage
words t = list (text (codes t) ∷ [])

abbrev required : Attribute AuthMessage
required = attr "required" []

abbrev error_part : Option Text → List (Html AuthMessage)
error_part none = []
error_part (some e) =
    element "div" (class "auth-error" ∷ attr "id" (codes "auth-error") ∷ []) (list (text e ∷ []))
    ∷ []

abbrev min_length : Bool → List (Attribute AuthMessage)
min_length true = []
min_length false = attr "minLength" (codes "8") ∷ []

unfoldable pub auth_view : AuthForm → Html AuthMessage
auth_view form =
    let is_login = form.is_login in
    element "div" (class "auth-page" ∷ []) (
      list (
        element "div" (class "auth-card" ∷ []) (
          list (
            element "div" (class "auth-brand" ∷ []) (
              list (
                element "div" (class "header-logo" ∷ []) (words "T")
                ∷ element "h1" (class "auth-title" ∷ []) (words "TaskFlow")
                ∷ []))
            ∷ element "p" (class "auth-subtitle" ∷ [])
                (words (if is_login then "Sign in to your account" else "Create a new account"))
            ∷ (error_part form.error
                ++ element "form" (on_submit submit ∷ class "auth-form" ∷ []) (
                    list (
                      element "label"
                        (class "form-label" ∷ attr "htmlFor" (codes "auth-email") ∷ [])
                        (words "Email")
                      ∷ element "input"
                          (attr "id" (codes "auth-email")
                            ∷ attr "type" (codes "email")
                            ∷ class "form-input"
                            ∷ attr "value" form.email
                            ∷ on_change enter_email
                            ∷ attr "placeholder" (codes "you@example.com")
                            ∷ attr "autoComplete" (codes "email")
                            ∷ required
                            ∷ [])
                          (list [])
                      ∷ element "label"
                          (class "form-label" ∷ attr "htmlFor" (codes "auth-password") ∷ [])
                          (words "Password")
                      ∷ element "input"
                          (attr "id" (codes "auth-password")
                            ∷ attr "type" (codes "password")
                            ∷ class "form-input"
                            ∷ attr "value" form.password
                            ∷ on_change enter_password
                            ∷ attr "placeholder" (
                                codes
                                  (if is_login then "Your password" else "At least 8 characters"))
                            ∷ attr "autoComplete"
                                (codes (if is_login then "current-password" else "new-password"))
                            ∷ required
                            ∷ min_length is_login)
                          (list [])
                      ∷ element "button"
                          (attr "type" (codes "submit")
                            ∷ class "btn-primary auth-submit"
                            ∷ disabled form.submitting
                            ∷ attr "id" (codes "auth-submit-btn")
                            ∷ [])
                          (words (
                            if form.submitting
                            then "Please wait…"
                            else if is_login
                            then "Sign In"
                            else "Sign Up"))
                      ∷ []))
                  ∷ element "p" (class "auth-switch" ∷ []) (
                      list (
                        text (
                          codes (
                            if is_login
                            then "Don't have an account?"
                            else "Already have an account?"))
                        ∷ text (codes " ")
                        ∷ element "button"
                            (attr "type" (codes "button")
                              ∷ class "auth-switch-btn"
                              ∷ on_click switch
                              ∷ attr "id" (codes "auth-switch-btn")
                              ∷ [])
                            (words (if is_login then "Sign up" else "Sign in"))
                        ∷ []))
                  ∷ [])))
        ∷ []))

-- What App shows: that it starts, the log-in, or the page of the user.
pub data Screen : Type 0 where
  starting : Parts.Page → Screen
  logged_out : Html AuthMessage → Screen
  home : List Parts.Page → Screen

unfoldable pub app_view :
    PageDates
    → ℕ
    → (Text → Text)
    → (Text → Text)
    → Bool
    → Option User
    → AuthForm
    → Stats
    → PageState
    → List Toast
    → Screen
unfolding auth_view header dashboard_view toasts_view
app_view dates now short_date lower true user form stats s toasts =
    starting (loading_view "Loading…")
app_view dates now short_date lower false none form stats s toasts = logged_out (auth_view form)
app_view dates now short_date lower false (some u) form stats s toasts = home (
    header stats (some u)
    ∷ dashboard_view dates now short_date lower (record s { is_admin = u.role == "ADMIN" })
    ∷ toasts_view toasts
    ∷ [])
