-- ===== src/Page/Frame.antt =====
-- The header and the dialogs of the home page: Header.jsx, ConfirmDialog.jsx and TaskModal.jsx of
-- frontend/src/components.
use package.text.Mathlib.Text.{◌==◌}
use task.Prelude.{
  ℕ, String, Option, none, some, Bool, true, false, List, [], ◌∷◌, ◌++◌, if◌then◌else◌,
}
use task.Prelude.Text.{Text, codes}
use task.Audit.Json.{decimal}
use task.Http.{User}
use task.Client.Board.{Stats}
use task.Forms.TaskForm.{TaskForm}
use task.Page.Html.{
  text, element, attr, disabled, on_click, on_change, on_submit, stop_propagation, list,
}
use task.Page.Parts.{
  Page, class, id_is, words, div, span, status_name, log_out, close_confirm, confirm, close_modal,
  save, enter_title, enter_description, enter_due_date, enter_status,
}

abbrev stat_item : ℕ → String → Page
stat_item n label = div "stat-item" (
    element "div" (class "stat-value" ∷ []) (list (text (decimal n) ∷ []))
    ∷ element "div" (class "stat-label" ∷ []) (words label)
    ∷ [])

-- `{user && ...}`
abbrev user_part : Option User → List Page
user_part none = []
user_part (some u) =
    div "header-user" (
      div "header-user-info" (
        span "header-user-email" (list (text (codes u.email) ∷ []))
        ∷ span (if u.role == "ADMIN" then "role-badge admin" else "role-badge user")
            (list (text (codes u.role) ∷ []))
        ∷ [])
      ∷ element "button" (class "btn-logout" ∷ on_click log_out ∷ id_is (codes "logout-btn") ∷ [])
          (words "Logout")
      ∷ [])
    ∷ []

unfoldable pub header : Stats → Option User → Page
unfolding decimal
header stats user = element "header" (class "header" ∷ []) (
    list (
      div "header-content" (
        div "header-brand" (
          element "div" (class "header-logo" ∷ []) (words "T")
          ∷ element "h1" (class "header-title" ∷ []) (words "TaskFlow")
          ∷ [])
        ∷ div "header-stats" (
            stat_item stats.total "Total"
            ∷ stat_item stats.pending "Pending"
            ∷ stat_item stats.in_progress "In Progress"
            ∷ stat_item stats.completed "Completed"
            ∷ [])
        ∷ user_part user)
      ∷ []))

abbrev spinner : Page
spinner = element "div" (class "spinner" ∷ []) (list [])

abbrev text_or : Text → String → Text
text_or [] d = codes d
text_or (c ∷ cs) d = c ∷ cs

-- ConfirmDialog, `if (!isOpen) return null` included.
unfoldable pub confirm_view : Bool → Bool → Text → Text → List Page
confirm_view false submitting title message = []
confirm_view true submitting title message =
    element "div" (class "modal-overlay" ∷ on_click close_confirm ∷ []) (
      list (
        element "div" (class "modal confirm-dialog" ∷ stop_propagation ∷ []) (
          list (
            div "modal-body" (
              element "div" (class "confirm-icon" ∷ []) (words "⚠")
              ∷ element "h2" (class "modal-title" ∷ [])
                  (list (text (text_or title "Are you sure?") ∷ []))
              ∷ element "p" (class "confirm-message" ∷ [])
                  (list (text (text_or message "This action cannot be undone.") ∷ []))
              ∷ [])
            ∷ div "modal-footer" (
                element "button"
                  (attr "type" (codes "button")
                    ∷ class "btn btn-secondary"
                    ∷ on_click close_confirm
                    ∷ disabled submitting
                    ∷ id_is (codes "cancel-confirm-btn")
                    ∷ [])
                  (words "Cancel")
                ∷ element "button"
                    (attr "type" (codes "button")
                      ∷ class "btn btn-danger"
                      ∷ on_click confirm
                      ∷ disabled submitting
                      ∷ id_is (codes "confirm-action-btn")
                      ∷ [])
                    (list ((if submitting then spinner else text (codes "Delete")) ∷ []))
                ∷ [])
            ∷ []))
        ∷ []))
    ∷ []

abbrev pub error_part : Option Text → List Page
error_part none = []
error_part (some e) = element "div" (class "form-error" ∷ []) (list (text e ∷ [])) ∷ []

abbrev field_label : String → String → Page
field_label for name =
    element "label" (class "form-label" ∷ attr "htmlFor" (codes for) ∷ []) (words name)

abbrev option_of : String → String → Page
option_of value name = element "option" (attr "value" (codes value) ∷ []) (words name)

-- TaskModal, for the form that it holds; `editing` says that it was given a task.
unfoldable pub modal_view : Bool → Bool → TaskForm → List Page
modal_view false editing form = []
modal_view true editing form =
    element "div" (class "modal-overlay" ∷ on_click close_modal ∷ []) (
      list (
        element "div" (class "modal" ∷ stop_propagation ∷ []) (
          list (
            div "modal-header" (
              element "h2" (class "modal-title" ∷ [])
                (words (if editing then "Edit Task" else "New Task"))
              ∷ element "button"
                  (class "modal-close"
                    ∷ on_click close_modal
                    ∷ attr "aria-label" (codes "Close modal")
                    ∷ [])
                  (words "×")
              ∷ [])
            ∷ element "form" (on_submit save ∷ []) (
                list (
                  div "modal-body" (
                    error_part form.errors.api
                    ++ div "form-group" (
                        field_label "task-title-input" "Title *"
                        ∷ element "input"
                            (id_is (codes "task-title-input")
                              ∷ attr "type" (codes "text")
                              ∷ class "form-input"
                              ∷ attr "placeholder" (codes "Enter task title...")
                              ∷ attr "value" form.title
                              ∷ on_change enter_title
                              ∷ attr "maxLength" (codes "256")
                              ∷ [])
                            (list [])
                        ∷ error_part form.errors.title)
                      ∷ div "form-group" (
                          field_label "task-desc-input" "Description"
                          ∷ element "textarea"
                              (id_is (codes "task-desc-input")
                                ∷ class "form-textarea"
                                ∷ attr "placeholder" (codes "Add a detailed description...")
                                ∷ attr "value" form.description
                                ∷ on_change enter_description
                                ∷ attr "maxLength" (codes "5001")
                                ∷ [])
                              (list [])
                          ∷ error_part form.errors.description)
                      ∷ div "form-row" (
                          div "form-group" (
                            field_label "task-duedate-input" "Due Date"
                            ∷ element "input"
                                (id_is (codes "task-duedate-input")
                                  ∷ attr "type" (codes "datetime-local")
                                  ∷ class "form-input"
                                  ∷ attr "value" form.due_date
                                  ∷ on_change enter_due_date
                                  ∷ [])
                                (list [])
                            ∷ [])
                          ∷ div "form-group" (
                              field_label "task-status-input" "Status"
                              ∷ element "select"
                                  (id_is (codes "task-status-input")
                                    ∷ class "form-select"
                                    ∷ attr "value" (status_name form.status)
                                    ∷ on_change enter_status
                                    ∷ [])
                                  (list (
                                    option_of "PENDING" "Pending"
                                    ∷ option_of "IN_PROGRESS" "In Progress"
                                    ∷ option_of "COMPLETED" "Completed"
                                    ∷ []))
                              ∷ [])
                          ∷ [])
                      ∷ [])
                  ∷ div "modal-footer" (
                      element "button"
                        (attr "type" (codes "button")
                          ∷ class "btn btn-secondary"
                          ∷ on_click close_modal
                          ∷ disabled form.submitting
                          ∷ id_is (codes "cancel-task-btn")
                          ∷ [])
                        (words "Cancel")
                      ∷ element "button"
                          (attr "type" (codes "submit")
                            ∷ class "btn btn-primary"
                            ∷ disabled form.submitting
                            ∷ id_is (codes "save-task-btn")
                            ∷ [])
                          (list
                            ((if form.submitting then spinner else text (codes "Save Task")) ∷ []))
                      ∷ [])
                  ∷ []))
            ∷ []))
        ∷ []))
    ∷ []
