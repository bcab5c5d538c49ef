-- ===== src/Client/TabTests.antt =====
-- Schedules of concurrent requests of a page, and the theorems on them at one schedule.
use task.Prelude.{
  ℕ, ◌+◌, ◌*◌, ◌≤◌, ◌≡◌, refl, String, none, some, true, false, List, [], ◌∷◌, length,
}
use task.Prelude.Text.{codes}
use task.Client.Session.{
  Fetched, response, TokenPair, Session, resolved, result_of, is_present, present, refresh_answered,
  set_tokens,
}
use task.Client.Tab.{
  TabEvent, settled, requested, answered_request, answered_refresh, logged_out, tab_step, run_tab,
  post_refresh_with, response_arrived, refresh_arrived,
}
use task.Client.SingleFlight.{total}
use task.Client.Settles.{loaded, in_network, unsettled, answers_in, requests_in, all_settle}
use task.Client.Told.{log_ins, run_tab-told}

abbrev session : Session Unit
session = record {
  access = some (codes "a");
  refresh = some (codes "r");
  told = [];
  sent = 0;
  net = tt;
}

abbrev expired : {D : Type 0} → Fetched D
expired = response 401 (record { success = false; message = none; data' = none })

abbrev fine : ℕ → Fetched ℕ
fine n = response 200 (record { success = true; message = none; data' = some n })

abbrev new_tokens : Fetched TokenPair
new_tokens = response 200 (record {
  success = true;
  message = none;
  data' = some (record { access = some (codes "a2"); refresh = some (codes "r2") });
})

-- Two requests find the access token expired; one refresh serves both.
abbrev shared : List (TabEvent String ℕ)
shared =
    requested "/tasks" true
    ∷ requested "/tasks/deleted" true
    ∷ answered_request 1 expired
    ∷ answered_request 0 expired
    ∷ answered_refresh new_tokens
    ∷ answered_request 0 (fine 7)
    ∷ answered_request 1 (fine 8)
    ∷ []

both_served : run_tab shared (loaded session) ≡ record {
  session = record {
    access = some (codes "a2");
    refresh = some (codes "r2");
    told = [];
    sent = 3;
    net = tt;
  };
  refresh_promise = false;
  in_flight = [];
  requests = settled (resolved (some 7)) ∷ settled (resolved (some 8)) ∷ [];
}
unfolding run_tab tab_step response_arrived refresh_arrived post_refresh_with present is_present
    set_tokens refresh_answered result_of
both_served = refl

abbrev ended_once : List (TabEvent String ℕ)
ended_once =
    requested "/tasks" true
    ∷ requested "/tasks/deleted" true
    ∷ answered_request 1 expired
    ∷ answered_request 0 expired
    ∷ answered_refresh expired
    ∷ []

run_tab-told_example :
    (length (run_tab ended_once (loaded session)).in_flight ≤ 1)
    × (length (run_tab ended_once (loaded session)).session.told ≤ 0 + 1 + log_ins ended_once)
    × (answers_in ended_once (loaded session) ≤ 3 * requests_in ended_once)
run_tab-told_example = run_tab-told ended_once session

quiet : in_network (run_tab ended_once (loaded session)) ≡ 0
unfolding in_network total run_tab tab_step response_arrived refresh_arrived post_refresh_with
    present is_present refresh_answered
quiet = refl

all_settle_example : unsettled (run_tab ended_once (loaded session)) ≡ 0
all_settle_example = all_settle ended_once session quiet

-- A log-out while a refresh is in flight: its answer stores tokens again.
abbrev logged_out_early : List (TabEvent String ℕ)
logged_out_early =
    requested "/tasks" true
    ∷ answered_request 0 expired
    ∷ logged_out
    ∷ answered_refresh new_tokens
    ∷ []

tokens_return : (run_tab logged_out_early (loaded session)).session.refresh ≡ some (codes "r2")
unfolding run_tab tab_step response_arrived refresh_arrived post_refresh_with present is_present
    set_tokens refresh_answered
tokens_return = refl
