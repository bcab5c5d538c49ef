-- ===== src/Client/Settles.antt =====
-- The requests of a page come to an end, whatever order their answers come in
-- (frontend/src/services/api.js).
use task.Prelude.{
  ℕ, ◌+◌, ◌*◌, ◌≤◌, ◌≡◌, refl, Option, none, some, Bool, true, false, not, List, [], ◌∷◌, arith,
  length, ◌&&◌,
}
use task.Prelude.Text.{Text}
use task.Client.Session.{Fetched, TokenPair, Session, refresh_answered, wants_refresh, result_of}
use task.Client.Tab.{
  Phase, calling, waiting, settled, Tab, TabEvent, requested, answered_request, answered_refresh,
  logged_in, logged_out, phase_of, response_arrived, request_answered, refresh_arrived, tab_step,
  run_tab,
}
use task.Client.SingleFlight.{
  calls, open_phases, answers_left, total, total-append, total-set_phase, answers_left_lem,
  open_lem, Sound, tab_step-Sound, run_tab-Sound,
}

retried_lem :
    {D : Type 0} (f : Fetched D) (auth : Bool) (s : Session Unit)
    → wants_refresh f (auth && not true) s ≡ false
unfolding wants_refresh
retried_lem f auth s = ground arith

module _ {E D : Type 0} where
  -- The page as it is loaded.
  abbrev pub loaded : Session Unit → Tab E D
  loaded s = record { session = s; refresh_promise = false; in_flight = []; requests = [] }

  pub loaded-Sound : (s : Session Unit) → Sound (loaded s)
  unfolding total
  loaded-Sound s = record { flights = refl; none_waits = λ h. refl; some_waits = λ h. ground arith }

  -- What is in the network: the fetches of the requests and of the refresh.
  unfoldable pub in_network : Tab E D → ℕ
  unfolding total
  in_network t = total calls t.requests + length t.in_flight

  unfoldable pub unsettled : Tab E D → ℕ
  unfolding total
  unsettled t = total open_phases t.requests

  abbrev is_call : Option (Phase E D) → ℕ
  is_call none = 0
  is_call (some p) = calls p

  -- How many events of a schedule answer something that is in the network then.
  abbrev answers_now : TabEvent E D → Tab E D → ℕ
  answers_now (answered_request n f) t = is_call (phase_of n t.requests)
  answers_now (answered_refresh f) t = length t.in_flight
  answers_now _ t = 0

  unfoldable pub answers_in : List (TabEvent E D) → Tab E D → ℕ
  unfolding tab_step
  answers_in [] t = 0
  answers_in (e ∷ es) t = answers_now e t + answers_in es (tab_step e t)

  abbrev begins : TabEvent E D → ℕ
  begins (requested endpoint auth) = 1
  begins _ = 0

  unfoldable pub requests_in : List (TabEvent E D) → ℕ
  requests_in [] = 0
  requests_in (e ∷ es) = begins e + requests_in es

  response_arrived_lem :
      (n : ℕ) (f : Fetched D) (p : Phase E D) (t : Tab E D)
      → phase_of n t.requests ≡ some p
      → total answers_left (response_arrived n f p t).requests + calls p
        ≤ total answers_left t.requests
  unfolding response_arrived
  response_arrived_lem n f (waiting endpoint first) t e = omega arith
  response_arrived_lem n f (settled r) t e = omega arith
  response_arrived_lem n f (calling endpoint auth is_retry) t e =
      let moves =
        total-set_phase answers_left n (waiting endpoint f) (calling endpoint auth is_retry)
          t.requests e in
      let ends =
        total-set_phase answers_left n (settled (result_of f)) (calling endpoint auth is_retry)
          t.requests e in
      ground (arith, moves, ends, retried_lem f auth)

  refresh_arrived_lem :
      (f : Fetched TokenPair) (tokens : List Text) (t : Tab E D)
      → t.in_flight ≡ tokens
      → Sound t
      → total answers_left (refresh_arrived f tokens t).requests + length tokens
        ≤ total answers_left t.requests
  unfolding refresh_arrived
  refresh_arrived_lem f [] t e s = omega arith
  refresh_arrived_lem f (token ∷ rest) t e s =
      ground (
        arith,
        answers_left_lem (refresh_answered f t.session).0 t.requests,
        s.flights,
        s.some_waits,
      )

  request_answered_lem :
      (n : ℕ) (f : Fetched D) (o : Option (Phase E D)) (t : Tab E D)
      → phase_of n t.requests ≡ o
      → total answers_left (request_answered n f o t).requests + is_call o
        ≤ total answers_left t.requests
  unfolding request_answered
  request_answered_lem n f none t e = omega arith
  request_answered_lem n f (some p) t e = response_arrived_lem n f p t e

  tab_step_lem :
      (e : TabEvent E D) (t : Tab E D)
      → Sound t
      → total answers_left (tab_step e t).requests + answers_now e t
        ≤ total answers_left t.requests + 3 * begins e
  unfolding tab_step
  tab_step_lem (requested endpoint auth) t s =
      omega (arith, total-append answers_left t.requests (calling endpoint auth false))
  tab_step_lem (answered_request n f) t s =
      omega (arith, request_answered_lem n f (phase_of n t.requests) t refl)
  tab_step_lem (answered_refresh f) t s = omega (arith, refresh_arrived_lem f t.in_flight t refl s)
  tab_step_lem (logged_in pair) t s = omega arith
  tab_step_lem logged_out t s = omega arith

  run_lem :
      (es : List (TabEvent E D)) (t : Tab E D)
      → Sound t
      → total answers_left (run_tab es t).requests + answers_in es t
        ≤ total answers_left t.requests + 3 * requests_in es
  unfolding run_tab answers_in requests_in
  run_lem [] t s = omega arith
  run_lem (e ∷ es) t s =
      omega (arith, run_lem es (tab_step e t) (tab_step-Sound e t s), tab_step_lem e t s)

  pub answers-bounded :
      (es : List (TabEvent E D)) (s : Session Unit) → answers_in es (loaded s) ≤ 3 * requests_in es
  unfolding total
  answers-bounded es s = omega (arith, run_lem es (loaded s) (loaded-Sound s))

  -- Where nothing is in the network any more, every request of the page has settled: none is left
  -- waiting for a refresh that nobody has sent.
  pub all_settle :
      (es : List (TabEvent E D)) (s : Session Unit)
      → in_network (run_tab es (loaded s)) ≡ 0
      → unsettled (run_tab es (loaded s)) ≡ 0
  unfolding in_network unsettled
  all_settle es s h =
      let t = run_tab es (loaded s) in
      let k = run_tab-Sound es (loaded s) (loaded-Sound s) in
      ground (arith, open_lem t.requests, k.flights, k.none_waits)
