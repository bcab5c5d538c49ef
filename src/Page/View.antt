-- ===== src/Page/View.antt =====
-- What frontend/src/pages/Dashboard.jsx and the toasts of frontend/src/App.jsx show. The delay of a
-- card's animation is left out.
use task.Prelude.{
  ℕ, String, Option, none, some, Bool, true, false, List, [], ◌∷◌, ◌++◌, map, if◌then◌else◌,
}
use task.Prelude.Text.{Text, codes}
use task.Task.Types.{Task, TaskStatus, pending, in_progress, completed}
use task.Forms.TaskForm.{TaskForm}
use task.Page.Times.{PageDates}
use task.Page.Toasts.{Toast, ToastType, success, error}
use task.Page.Dashboard.{Dashboard, DeleteStatus, filtered_tasks}
use task.Page.Html.{text, element, attr, on_click, on_change, list}
use task.Page.Parts.{
  Page, LogEntry, class, id_is, words, div, part_if, task_card, deleted_log, choose, search_for,
  add,
}
use task.Page.Frame.{confirm_view, modal_view}

abbrev pub loading_view : String → Page
loading_view message =
    div "loading-container"
      (element "div" (class "spinner" ∷ []) (list []) ∷ element "p" [] (words message) ∷ [])

abbrev is_chosen : Option TaskStatus → Option TaskStatus → Bool
is_chosen none none = true
is_chosen (some pending) (some pending) = true
is_chosen (some in_progress) (some in_progress) = true
is_chosen (some completed) (some completed) = true
is_chosen _ _ = false

abbrev filter_button : Option TaskStatus → Option TaskStatus → String → String → Page
filter_button chosen f id name =
    element "button"
      (class (if is_chosen chosen f then "filter-btn active" else "filter-btn ")
        ∷ on_click (choose f)
        ∷ id_is (codes id)
        ∷ [])
      (words name)

-- `{error && ...}`
abbrev pub error_banner : Option String → List Page
error_banner none = []
error_banner (some message) =
    element "div" [] (list (text (codes "Error: " ++ codes message) ∷ [])) ∷ []

abbrev status_color : ToastType → String
status_color success = "var(--color-success)"
status_color error = "var(--color-danger)"

abbrev status_background : ToastType → String
status_background success = "var(--color-success-bg)"
status_background error = "var(--color-danger-bg)"

abbrev pub delete_banner : Option DeleteStatus → List Page
delete_banner none = []
delete_banner (some s) =
    element "div"
      (attr "style.background" (codes (status_background s.type))
        ∷ attr "style.border" (codes "1px solid " ++ codes (status_color s.type))
        ∷ attr "style.color" (codes (status_color s.type))
        ∷ [])
      (list (text (codes s.message) ∷ []))
    ∷ []

abbrev empty_text : Text → String
empty_text [] = "Get started by creating your very first task!"
empty_text (c ∷ cs) = "Try adjusting your search criteria."

abbrev pub title_of : Option Task → Text
title_of none = codes "undefined"
title_of (some t) = codes t.title

-- What the page is given beside its own state: the tasks, the log, and whether they are loading. The
-- forms and flags of the dialogs are their own state.
pub record PageState : Type 0 where
  pub tasks : List Task
  pub log : List LogEntry
  pub loading : Bool
  pub error : Option String
  pub is_admin : Bool
  pub dashboard : Dashboard
  pub log_open : Bool
  pub form : TaskForm
  pub confirming : Bool

abbrev pub is_some_task : Option Task → Bool
is_some_task none = false
is_some_task (some t) = true

module _ (dates : PageDates) (now : ℕ) (short_date : Text → Text) (lower : Text → Text) where
  abbrev pub grid : Text → List Task → List Page
  grid search [] =
      div "task-grid-empty" (
        element "div" (class "empty-icon" ∷ []) (words "📁")
        ∷ element "h3" (class "empty-title" ∷ []) (words "No tasks found")
        ∷ element "p" (class "empty-text" ∷ []) (words (empty_text search))
        ∷ [])
      ∷ []
  grid search (t ∷ ts) = map (task_card dates now short_date) (t ∷ ts)

  abbrev pub admin_banner : Bool → List Page
  admin_banner is_admin = part_if is_admin (
      element "div" (class "admin-banner" ∷ id_is (codes "admin-banner") ∷ [])
        (words "👑 Admin view — showing tasks from all users."))

  unfoldable pub toolbar : Dashboard → Page
  toolbar d = div "toolbar" (
      div "toolbar-filters" (
        filter_button d.filter none "filter-all-btn" "All Tasks"
        ∷ filter_button d.filter (some pending) "filter-pending-btn" "Pending"
        ∷ filter_button d.filter (some in_progress) "filter-inprogress-btn" "In Progress"
        ∷ filter_button d.filter (some completed) "filter-completed-btn" "Completed"
        ∷ [])
      ∷ element "div" [] (
          list (
            element "input"
              (attr "type" (codes "text")
                ∷ class "form-input"
                ∷ attr "placeholder" (codes "Search tasks...")
                ∷ attr "value" d.search
                ∷ on_change search_for
                ∷ id_is (codes "task-search-input")
                ∷ [])
              (list [])
            ∷ element "button"
                (class "btn-primary" ∷ on_click add ∷ id_is (codes "create-task-btn") ∷ [])
                (list (element "span" [] (words "+") ∷ text (codes " Add Task") ∷ []))
            ∷ []))
      ∷ [])

  unfoldable pub dashboard_view : PageState → Page
  dashboard_view s =
      let d = s.dashboard in
      let shown : Page = element "main" (class "main-content" ∷ []) (
        list (
          admin_banner s.is_admin
          ++ (error_banner s.error
              ++ (delete_banner d.delete_status
                  ++ (toolbar d
                      ∷ deleted_log dates now short_date s.log_open s.log
                      ∷ div "task-grid" (grid d.search (filtered_tasks lower d s.tasks))
                      ∷ (modal_view d.is_modal_open (is_some_task d.selected_task) s.form
                          ++ confirm_view d.is_confirm_open s.confirming (codes "Delete Task") (
                              codes "Are you sure you want to delete \""
                              ++ (title_of d.selected_task
                                  ++ codes "\"? This action cannot be undone.")))))))) in
      if s.loading then loading_view "Loading your tasks..." else shown

-- The toasts of `AuthenticatedApp`.
abbrev toast_view : Toast → Page
toast_view t = elim t.type [
  | success ↦
      element "div" (class "toast success" ∷ [])
        (list (element "span" [] (words "✅") ∷ element "span" [] (words t.message) ∷ []))
  | error ↦
      element "div" (class "toast error" ∷ [])
        (list (element "span" [] (words "❌") ∷ element "span" [] (words t.message) ∷ []))
]

unfoldable pub toasts_view : List Toast → Page
toasts_view toasts = div "toast-container" (map toast_view toasts)
