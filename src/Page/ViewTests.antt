-- ===== src/Page/ViewTests.antt =====
-- What the home page shows and offers at concrete states.
use task.Prelude.{◌≡◌, refl, none, some, true, false, [], ◌∷◌, ◌++◌}
use task.Prelude.Text.{includes_text}
use task.Task.Types.{Task, pending, in_progress, completed}
use task.Page.Times.{PageDates}
use task.Page.Dashboard.{filtered_tasks, matches_search, delete_click}
use task.Page.Html.{clicks}
use task.Page.Parts.{choose, add, toggle_log, delete}
use task.Page.View.{PageState, dashboard_view}
use task.Page.Offers.{on_cards, modal_offers, confirm_offers, dashboard_view-clicks}
use task.Page.Screens.{on_message}

abbrev milk : Task
milk = record {
  id = "1";
  title = "Buy milk";
  description = none;
  status = pending;
  due_date = some "d";
  user_id = none;
  created_at = "c";
  updated_at = "u";
}

abbrev dates : PageDates
dates = record { time_of = λ t. some 5; locale_date = λ t. t }

-- The page while it asks whether to delete the task.
abbrev asking : PageState
asking = record {
  tasks = milk ∷ [];
  log = [];
  loading = false;
  error = none;
  is_admin = true;
  dashboard = record {
    filter = none;
    search = [];
    is_modal_open = false;
    is_confirm_open = true;
    selected_task = some milk;
    delete_status = none;
  };
  log_open = false;
  form = record {
    title = [];
    description = [];
    due_date = [];
    status = pending;
    errors = record { title = none; description = none; api = none };
    submitting = false;
  };
  confirming = false;
}

dashboard_view-clicks_example :
    let shown = clicks (dashboard_view dates 9 (λ t. t) (λ t. t) asking) in
    (asking.loading ≡ true → shown ≡ [])
    × (asking.loading ≡ false
        → shown
          ≡ choose none
            ∷ choose (some pending)
            ∷ choose (some in_progress)
            ∷ choose (some completed)
            ∷ add
            ∷ toggle_log
            ∷ (on_cards (filtered_tasks (λ t. t) asking.dashboard asking.tasks)
                ++ (modal_offers false false ++ confirm_offers true false)))
dashboard_view-clicks_example = dashboard_view-clicks dates 9 (λ t. t) (λ t. t) asking

shows_milk : filtered_tasks (λ t. t) asking.dashboard asking.tasks ≡ milk ∷ []
unfolding filtered_tasks matches_search includes_text
shows_milk = refl

-- Asking for a deletion opens the dialog for that task.
asks_for :
    on_message
      (delete milk)
      (record asking.dashboard { is_confirm_open = false; selected_task = none })
    ≡ asking.dashboard
unfolding on_message delete_click
asks_for = refl
