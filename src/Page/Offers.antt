-- ===== src/Page/Offers.antt =====
-- What a user can do on the home page (frontend/src/pages/Dashboard.jsx).
use task.Prelude.{
  ℕ, ◌≡◌, refl, ap, sym, inl, inr, Bool-cases, ◌∙◌, String, Option, none, some, Bool, true, false,
  List, [], ◌∷◌, ◌++◌, map,
}
use mathlib.Core.List.{append_assoc}
use task.Prelude.Text.{Text}
use task.Task.Types.{Task, TaskStatus, pending, in_progress, completed}
use task.Forms.TaskForm.{TaskForm}
use task.Page.Times.{PageDates, is_past_due}
use task.Page.Dashboard.{Dashboard, DeleteStatus, filtered_tasks}
use task.Page.Html.{list, clicks, all_clicks}
use task.Page.Parts.{
  PageMessage, Page, LogEntry, description_part, date_part, text_or_empty, log_item, log_body,
  status_badge, task_card, deleted_log, choose, add, edit, delete, toggle_log, close_modal,
  close_confirm, confirm,
}
use task.Page.Frame.{confirm_view, modal_view, error_part}
use task.Page.View.{
  PageState, grid, admin_banner, error_banner, delete_banner, is_some_task, dashboard_view, toolbar,
}

-- The buttons of the cards.
abbrev pub on_cards : List Task → List PageMessage
on_cards [] = []
on_cards (t ∷ ts) = edit t ∷ delete t ∷ on_cards ts

all_clicks-append :
    (xs ys : List Page)
    → all_clicks (list (xs ++ ys)) ≡ all_clicks (list xs) ++ all_clicks (list ys)
unfolding clicks
all_clicks-append [] ys = refl
all_clicks-append (x ∷ xs) ys =
    ap (λ l. clicks x ++ l) (all_clicks-append xs ys)
    ∙ sym (append_assoc (clicks x) (all_clicks (list xs)) (all_clicks (list ys)))

description_part-clicks : (t : Text) → all_clicks (list (description_part t)) ≡ []
unfolding clicks
description_part-clicks [] = refl
description_part-clicks (c ∷ cs) = refl

module _ (dates : PageDates) (now : ℕ) (short_date : Text → Text) (lower : Text → Text) where
  date_part-clicks :
      (t : Text) (status : TaskStatus)
      → all_clicks (list (date_part dates now short_date t status)) ≡ []
  unfolding clicks
  date_part-clicks [] status = refl
  date_part-clicks (c ∷ cs) status = elim (Bool-cases (is_past_due dates now (c ∷ cs) status)) [
    | inl y ↦ rw y refl
    | inr n ↦ rw n refl
  ]

  task_card-clicks : (t : Task) → clicks (task_card dates now short_date t) ≡ edit t ∷ delete t ∷ []
  unfolding task_card clicks
  task_card-clicks t =
      rw
        (
          all_clicks-append (description_part (text_or_empty t.description)),
          description_part-clicks (text_or_empty t.description),
          date_part-clicks (text_or_empty t.due_date) t.status,
        )
        refl

  cards-clicks :
      (ts : List Task) → all_clicks (list (map (task_card dates now short_date) ts)) ≡ on_cards ts
  unfolding clicks
  cards-clicks [] = refl
  cards-clicks (t ∷ ts) = rw (task_card-clicks t, cards-clicks ts) refl

  grid-clicks :
      (search : Text) (ts : List Task)
      → all_clicks (list (grid dates now short_date lower search ts)) ≡ on_cards ts
  unfolding clicks
  grid-clicks search [] = refl
  grid-clicks search (t ∷ ts) = cards-clicks (t ∷ ts)

  log_items-clicks :
      (es : List LogEntry) → all_clicks (list (map (log_item dates now short_date) es)) ≡ []
  unfolding clicks status_badge
  log_items-clicks [] = refl
  log_items-clicks (e ∷ es) = log_items-clicks es

  log_body-clicks : (es : List LogEntry) → clicks (log_body dates now short_date es) ≡ []
  unfolding clicks
  log_body-clicks [] = refl
  log_body-clicks (e ∷ es) = log_items-clicks (e ∷ es)

  deleted_log-clicks :
      (is_open : Bool) (es : List LogEntry)
      → clicks (deleted_log dates now short_date is_open es) ≡ toggle_log ∷ []
  unfolding deleted_log clicks
  deleted_log-clicks true es = rw (log_body-clicks es) refl
  deleted_log-clicks false es = refl

  toolbar-clicks :
      (d : Dashboard)
      → clicks (toolbar dates now short_date lower d)
        ≡ choose none
          ∷ choose (some pending)
          ∷ choose (some in_progress)
          ∷ choose (some completed)
          ∷ add
          ∷ []
  unfolding toolbar clicks
  toolbar-clicks d = refl

  banners-clicks :
      (is_admin : Bool) (e : Option String) (s : Option DeleteStatus) (rest : List Page)
      → all_clicks (
          list (
            admin_banner dates now short_date lower is_admin
            ++ (error_banner e ++ (delete_banner s ++ rest))))
        ≡ all_clicks (list rest)
  unfolding clicks
  banners-clicks true none none rest = refl
  banners-clicks true none (some s) rest = refl
  banners-clicks true (some e) none rest = refl
  banners-clicks true (some e) (some s) rest = refl
  banners-clicks false none none rest = refl
  banners-clicks false none (some s) rest = refl
  banners-clicks false (some e) none rest = refl
  banners-clicks false (some e) (some s) rest = refl

-- What the dialogs offer, while they are open; a button that is disabled offers nothing.
abbrev pub confirm_offers : Bool → Bool → List PageMessage
confirm_offers false submitting = []
confirm_offers true true = close_confirm ∷ []
confirm_offers true false = close_confirm ∷ close_confirm ∷ confirm ∷ []

abbrev pub modal_offers : Bool → Bool → List PageMessage
modal_offers false submitting = []
modal_offers true true = close_modal ∷ close_modal ∷ []
modal_offers true false = close_modal ∷ close_modal ∷ close_modal ∷ []

confirm_view-clicks :
    (is_open submitting : Bool) (title message : Text)
    → all_clicks (list (confirm_view is_open submitting title message))
      ≡ confirm_offers is_open submitting
unfolding confirm_view clicks
confirm_view-clicks false submitting title message = refl
confirm_view-clicks true true title message = refl
confirm_view-clicks true false title message = refl

error_part-clicks : (e : Option Text) → all_clicks (list (error_part e)) ≡ []
unfolding clicks
error_part-clicks none = refl
error_part-clicks (some e) = refl

modal_view-clicks :
    (is_open editing : Bool) (form : TaskForm)
    → all_clicks (list (modal_view is_open editing form)) ≡ modal_offers is_open form.submitting
unfolding modal_view clicks
modal_view-clicks false editing form = refl
modal_view-clicks true editing form = elim (Bool-cases form.submitting) [
  | inl y ↦
      rw
        (
          all_clicks-append (error_part form.errors.api),
          error_part-clicks form.errors.api,
          error_part-clicks form.errors.title,
          error_part-clicks form.errors.description,
          y,
        )
        refl
  | inr n ↦
      rw
        (
          all_clicks-append (error_part form.errors.api),
          error_part-clicks form.errors.api,
          error_part-clicks form.errors.title,
          error_part-clicks form.errors.description,
          n,
        )
        refl
]

module _ (dates : PageDates) (now : ℕ) (short_date : Text → Text) (lower : Text → Text) where
  -- What the page offers: nothing while it loads; else the filters, a new task, the log, for each task
  -- that passes the filter and the search, and no other, to edit and to delete it, and what an open
  -- dialog offers. So a deletion is confirmed only in the open dialog.
  pub dashboard_view-clicks :
      (s : PageState)
      → (s.loading ≡ true → clicks (dashboard_view dates now short_date lower s) ≡ [])
        × (s.loading ≡ false
            → clicks (dashboard_view dates now short_date lower s)
              ≡ choose none
                ∷ choose (some pending)
                ∷ choose (some in_progress)
                ∷ choose (some completed)
                ∷ add
                ∷ toggle_log
                ∷ (on_cards (filtered_tasks lower s.dashboard s.tasks)
                    ++ (modal_offers s.dashboard.is_modal_open s.form.submitting
                        ++ confirm_offers s.dashboard.is_confirm_open s.confirming)))
  unfolding dashboard_view clicks
  dashboard_view-clicks s = (
    λ e. rw e refl,
    λ e.
        let d = s.dashboard in
        rw e (
          banners-clicks dates now short_date lower s.is_admin s.error d.delete_status _
          ∙ rw
              (
                toolbar-clicks dates now short_date lower d,
                deleted_log-clicks dates now short_date lower s.log_open s.log,
                grid-clicks dates now short_date lower d.search (filtered_tasks lower d s.tasks),
                all_clicks-append
                    (modal_view d.is_modal_open (is_some_task d.selected_task) s.form),
                modal_view-clicks d.is_modal_open (is_some_task d.selected_task) s.form,
                confirm_view-clicks d.is_confirm_open s.confirming,
              )
              refl),
  )
