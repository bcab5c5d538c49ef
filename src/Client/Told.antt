-- ===== src/Client/Told.antt =====
-- How often the app of a page hears that its session has ended (frontend/src/services/api.js).
use task.Prelude.{
  ℕ, ◌+◌, ◌*◌, ◌≤◌, ◌≡◌, refl, Option, none, some, ◌||◌, not, List, [], ◌∷◌, arith, length, ◌&&◌,
}
use task.Prelude.Text.{Text}
use task.Client.Session.{
  Fetched, TokenPair, Session, refresh_answered, wants_refresh, is_present, set_tokens,
  clear_tokens, end_session,
}
use task.Client.Tab.{
  Phase, calling, waiting, settled, Tab, TabEvent, requested, answered_request, answered_refresh,
  logged_in, logged_out, phase_of, response_arrived, request_answered, refresh_arrived, tab_step,
  run_tab,
}
use task.Client.SingleFlight.{flag, Sound, post_lem, tab_step-Sound, run_tab-Sound}
use task.Client.Settles.{loaded, loaded-Sound, answers_in, requests_in, answers-bounded}

module _ {E D : Type 0} where
  -- Whether the app may still be told: there is a refresh token, or a refresh in flight.
  may_tell : Tab E D → ℕ
  unfolding is_present
  may_tell t = flag (t.refresh_promise || is_present t.session.refresh)

  abbrev log_in_count : TabEvent E D → ℕ
  log_in_count (logged_in pair) = 1
  log_in_count _ = 0

  unfoldable pub log_ins : List (TabEvent E D) → ℕ
  log_ins [] = 0
  log_ins (e ∷ es) = log_in_count e + log_ins es

  response_arrived_lem :
      (n : ℕ) (f : Fetched D) (p : Phase E D) (t : Tab E D)
      → Sound t
      → length (response_arrived n f p t).session.told + may_tell (response_arrived n f p t)
        ≤ length t.session.told + may_tell t
  unfolding response_arrived may_tell wants_refresh
  response_arrived_lem n f (waiting endpoint first) t s = omega arith
  response_arrived_lem n f (settled r) t s = omega arith
  response_arrived_lem n f (calling endpoint auth is_retry) t s =
      ground (arith, post_lem f (auth && not is_retry) t, s.flights)

  request_answered_lem :
      (n : ℕ) (f : Fetched D) (o : Option (Phase E D)) (t : Tab E D)
      → Sound t
      → length (request_answered n f o t).session.told + may_tell (request_answered n f o t)
        ≤ length t.session.told + may_tell t
  unfolding request_answered
  request_answered_lem n f none t s = omega arith
  request_answered_lem n f (some p) t s = response_arrived_lem n f p t s

  refresh_arrived_lem :
      (f : Fetched TokenPair) (tokens : List Text) (t : Tab E D)
      → t.in_flight ≡ tokens
      → Sound t
      → length (refresh_arrived f tokens t).session.told + may_tell (refresh_arrived f tokens t)
        ≤ length t.session.told + may_tell t
  unfolding refresh_arrived may_tell refresh_answered end_session clear_tokens set_tokens is_present
  refresh_arrived_lem f [] t e s = omega arith
  refresh_arrived_lem f (token ∷ rest) t e s = ground (arith, s.flights)

  tab_step_lem :
      (e : TabEvent E D) (t : Tab E D)
      → Sound t
      → length (tab_step e t).session.told + may_tell (tab_step e t)
        ≤ length t.session.told + may_tell t + log_in_count e
  unfolding tab_step may_tell set_tokens clear_tokens is_present
  tab_step_lem (requested endpoint auth) t s = omega arith
  tab_step_lem (answered_request n f) t s =
      omega (arith, request_answered_lem n f (phase_of n t.requests) t s)
  tab_step_lem (answered_refresh f) t s = omega (arith, refresh_arrived_lem f t.in_flight t refl s)
  tab_step_lem (logged_in pair) t s = ground arith
  tab_step_lem logged_out t s = ground arith

  run_lem :
      (es : List (TabEvent E D)) (t : Tab E D)
      → Sound t
      → length (run_tab es t).session.told + may_tell (run_tab es t)
        ≤ length t.session.told + may_tell t + log_ins es
  unfolding run_tab log_ins
  run_lem [] t s = omega arith
  run_lem (e ∷ es) t s =
      omega (arith, run_lem es (tab_step e t) (tab_step-Sound e t s), tab_step_lem e t s)

  -- However many requests of a page find their access token expired at the same time, at most one
  -- refresh is in flight, the app is told of the end of the session at most once, and once more for each
  -- log-in, and the page takes at most three answers of the network for each request, in whatever order
  -- they come.
  pub run_tab-told :
      (es : List (TabEvent E D)) (s : Session Unit)
      → (length (run_tab es (loaded s)).in_flight ≤ 1)
        × (length (run_tab es (loaded s)).session.told ≤ length s.told + 1 + log_ins es)
        × (answers_in es (loaded s) ≤ 3 * requests_in es)
  unfolding may_tell
  run_tab-told es s =
      let k = run_tab-Sound es (loaded s) (loaded-Sound s) in
      (
        ground (arith, k.flights),
        ground (arith, run_lem es (loaded s) (loaded-Sound s)),
        answers-bounded es s,
      )
