-- ===== src/Page/Parts.antt =====
-- The parts of the home page that show tasks: StatusBadge.jsx, TaskCard.jsx and DeletedLog.jsx of frontend/src/components. The variation selectors behind the icons are left out.
use task.Prelude.{
  ℕ, String, Option, none, some, Bool, true, false, List, [], ◌∷◌, ◌++◌, length, map, if◌then◌else◌,
}
use task.Prelude.Text.{Text, codes}
use task.Audit.Json.{decimal}
use task.Task.Types.{Task, DeletedTask, TaskStatus, pending, in_progress, completed}
use task.Page.Times.{PageDates, time_ago, is_past_due}
use task.Page.Html.{Html, Nodes, Attribute, text, element, attr, on_click, list}

-- What the listeners of the page do.
pub data PageMessage : Type 0 where
  choose : Option TaskStatus → PageMessage
  search_for : Text → PageMessage
  add : PageMessage
  edit delete : Task → PageMessage
  toggle_log close_confirm confirm log_out close_modal save : PageMessage
  enter_title enter_description enter_due_date enter_status : Text → PageMessage

abbrev pub Page : Type 0
Page = Html PageMessage

abbrev pub class : String → Attribute PageMessage
class name = attr "className" (codes name)

abbrev pub id_is : Text → Attribute PageMessage
id_is t = attr "id" t

abbrev pub words : String → Nodes PageMessage
words t = list (text (codes t) ∷ [])

abbrev pub div : String → List Page → Page
div name children = element "div" (class name ∷ []) (list children)

abbrev pub span : String → Nodes PageMessage → Page
span name = element "span" (class name ∷ [])

abbrev pub status_name : TaskStatus → Text
status_name pending = codes "PENDING"
status_name in_progress = codes "IN_PROGRESS"
status_name completed = codes "COMPLETED"

-- STATUS_MAP
abbrev pub status_label : TaskStatus → String
status_label pending = "Pending"
status_label in_progress = "In Progress"
status_label completed = "Completed"

abbrev status_class : TaskStatus → String
status_class pending = "pending"
status_class in_progress = "in-progress"
status_class completed = "completed"

unfoldable pub status_badge : TaskStatus → Page
status_badge s =
    element "span" (attr "className" (codes "status-badge " ++ codes (status_class s)) ∷ [])
      (words (status_label s))

abbrev pub text_or_empty : Option String → Text
text_or_empty none = []
text_or_empty (some s) = codes s

-- `{task.description && <p>...</p>}`
abbrev pub description_part : Text → List Page
description_part [] = []
description_part (c ∷ cs) =
    element "p" (class "task-description" ∷ []) (list (text (c ∷ cs) ∷ [])) ∷ []

abbrev pub part_if : Bool → Page → List Page
part_if true h = h ∷ []
part_if false h = []

-- A row of the deletion log with the columns that the panel shows.
pub record LogEntry : Type 0 where
  pub row : DeletedTask
  pub deleted_at : Text

-- `short_date` is `toLocaleDateString('en-US', { month: 'short', day: 'numeric', year: 'numeric' })` of
-- the date.
module _ (dates : PageDates) (now : ℕ) (short_date : Text → Text) where
  abbrev danger : Bool → List (Attribute PageMessage)
  danger true = attr "style.color" (codes "var(--color-danger)") ∷ []
  danger false = []

  abbrev pub date_part : Text → TaskStatus → List Page
  date_part [] status =
      element "span" (attr "style.opacity" (codes "0.5") ∷ []) (words "No due date") ∷ []
  date_part (c ∷ cs) status =
      let overdue = is_past_due dates now (c ∷ cs) status in
      element "span" [] (words "📅")
      ∷ element "span" (danger overdue)
          (list (text (short_date (c ∷ cs)) ∷ part_if overdue (text (codes " (Overdue)"))))
      ∷ []

  abbrev icon_button : String → PageMessage → String → Text → String → Page
  icon_button name m title id icon =
      element "button" (class name ∷ on_click m ∷ attr "title" (codes title) ∷ id_is id ∷ [])
        (words icon)

  unfoldable pub task_card : Task → Page
  unfolding status_badge is_past_due
  task_card t = element "div" (class "task-card" ∷ attr "data-status" (status_name t.status) ∷ []) (
      list (
        div "task-card-header" (
          element "h3" (class "task-title" ∷ []) (list (text (codes t.title) ∷ []))
          ∷ status_badge t.status
          ∷ [])
        ∷ (description_part (text_or_empty t.description)
            ++ div "task-meta" (
                div "task-date" (date_part (text_or_empty t.due_date) t.status)
                ∷ div "task-actions" (
                    icon_button "btn-icon" (edit t) "Edit task" (codes "edit-task-" ++ codes t.id)
                      "✏"
                    ∷ icon_button "btn-icon danger" (delete t) "Delete task"
                        (codes "delete-task-" ++ codes t.id) "🗑"
                    ∷ [])
                ∷ [])
              ∷ [])))

  abbrev pub log_item : LogEntry → Page
  log_item e = element "li" (class "deleted-log-item" ∷ []) (
      list (
        div "deleted-log-item-main" (
          span "deleted-log-item-title" (list (text (codes e.row.title) ∷ []))
          ∷ status_badge e.row.status
          ∷ [])
        ∷ span "deleted-log-item-time" (list (text (time_ago dates now e.deleted_at) ∷ []))
        ∷ []))

  abbrev pub log_body : List LogEntry → Page
  log_body [] =
      element "p" (class "deleted-log-empty" ∷ []) (words "No tasks have been deleted yet.")
  log_body (e ∷ es) = element "ul" (class "deleted-log-list" ∷ []) (list (map log_item (e ∷ es)))

  abbrev truth : Bool → Text
  truth true = codes "true"
  truth false = codes "false"

  unfoldable pub deleted_log : Bool → List LogEntry → Page
  unfolding status_badge time_ago decimal
  deleted_log is_open entries =
      element "section" (class "deleted-log" ∷ id_is (codes "deleted-log") ∷ []) (
        list (
          element "button"
            (class "deleted-log-header"
              ∷ on_click toggle_log
              ∷ attr "aria-expanded" (truth is_open)
              ∷ id_is (codes "deleted-log-toggle")
              ∷ [])
            (list (
              span "deleted-log-title" (
                list (
                  text (codes "🗑 Recently Deleted")
                  ∷ span "deleted-log-count" (list (text (decimal (length entries)) ∷ []))
                  ∷ []))
              ∷ span (if is_open then "deleted-log-chevron open" else "deleted-log-chevron ")
                  (words "▾")
              ∷ []))
          ∷ part_if is_open (div "deleted-log-body" (log_body entries ∷ []))))
