-- ===== src/Client/SingleFlight.antt =====
-- What holds of requests that run at the same time, whatever order their answers come in
-- (frontend/src/services/api.js).
use task.Prelude.{
  ℕ, zero, suc, ◌+◌, ◌≤◌, ◌≡◌, refl, Option, none, some, Bool, true, false, not, List, [], ◌∷◌,
  ◌++◌, arith, length, ◌&&◌,
}
use task.Prelude.Text.{Text}
use task.Client.Session.{
  Fetched, TokenPair, Refreshed, present, is_present, wants_refresh, result_of,
}
use task.Client.Tab.{
  Phase, calling, waiting, settled, Tab, TabEvent, requested, answered_request, answered_refresh,
  logged_in, logged_out, post_refresh_with, refresh_access_token, set_phase, phase_of,
  response_arrived, request_answered, resumed, resume_all, refresh_arrived, tab_step, run_tab,
}

abbrev pub flag : Bool → ℕ
flag false = 0
flag true = 1

module _ {E D : Type 0} where
  abbrev pub waits : Phase E D → ℕ
  waits (waiting endpoint first) = 1
  waits _ = 0

  abbrev pub calls : Phase E D → ℕ
  calls (calling endpoint auth is_retry) = 1
  calls _ = 0

  abbrev pub open_phases : Phase E D → ℕ
  open_phases (settled r) = 0
  open_phases _ = 1

  -- How many answers of the network a request can still take.
  abbrev pub answers_left : Phase E D → ℕ
  answers_left (calling endpoint auth false) = 3
  answers_left (waiting endpoint first) = 2
  answers_left (calling endpoint auth true) = 1
  answers_left (settled r) = 0

  unfoldable pub total : (Phase E D → ℕ) → List (Phase E D) → ℕ
  total f [] = 0
  total f (p ∷ ps) = f p + total f ps

  module _ (f : Phase E D → ℕ) where
    pub total-append :
        (ps : List (Phase E D)) (p : Phase E D) → total f (ps ++ (p ∷ [])) ≡ total f ps + f p
    unfolding total
    total-append [] p = omega arith
    total-append (q ∷ ps) p = omega (arith, total-append ps p)

    pub total-set_phase :
        (n : ℕ) (p q : Phase E D) (ps : List (Phase E D))
        → phase_of n ps ≡ some q
        → total f (set_phase n p ps) + f q ≡ total f ps + f p
    unfolding total set_phase phase_of
    total-set_phase zero p q [] e = ground arith
    total-set_phase (suc n) p q [] e = ground arith
    total-set_phase zero p q (r ∷ ps) e = ground arith
    total-set_phase (suc n) p q (r ∷ ps) e = omega (arith, total-set_phase n p q ps e)

  waits_lem : (r : Refreshed) (ps : List (Phase E D)) → total waits (resume_all r ps) ≡ 0
  unfolding total resume_all resumed
  waits_lem r [] = refl
  waits_lem r (p ∷ ps) = ground (arith, waits_lem r ps)

  pub answers_left_lem :
      (r : Refreshed) (ps : List (Phase E D))
      → total answers_left (resume_all r ps) + total waits ps ≤ total answers_left ps
  unfolding total resume_all resumed
  answers_left_lem r [] = omega arith
  answers_left_lem r (p ∷ ps) = ground (arith, answers_left_lem r ps)

  pub open_lem : (ps : List (Phase E D)) → total open_phases ps ≡ total calls ps + total waits ps
  unfolding total
  open_lem [] = refl
  open_lem (p ∷ ps) = ground (arith, open_lem ps)

  -- One refresh is in flight where `refreshPromise` is set and none elsewhere, and requests wait just
  -- as long.
  pub record Sound (t : Tab E D) : Type 0 where
    pub flights : length t.in_flight ≡ flag t.refresh_promise
    pub none_waits : t.refresh_promise ≡ false → total waits t.requests ≡ 0
    pub some_waits : t.refresh_promise ≡ true → 1 ≤ total waits t.requests

  pub post_lem :
      (f : Fetched D) (auth : Bool) (t : Tab E D)
      → wants_refresh f auth t.session ≡ true
      → length t.in_flight ≡ flag t.refresh_promise
      → ((refresh_access_token t).refresh_promise ≡ true)
        × (length (refresh_access_token t).in_flight ≡ 1)
        × ((refresh_access_token t).session.told ≡ t.session.told)
        × ((refresh_access_token t).session.refresh ≡ t.session.refresh)
  unfolding refresh_access_token post_refresh_with wants_refresh present is_present
  post_lem f auth t w h = ground arith

  response_arrived-Sound :
      (n : ℕ) (f : Fetched D) (p : Phase E D) (t : Tab E D)
      → phase_of n t.requests ≡ some p
      → Sound t
      → Sound (response_arrived n f p t)
  unfolding response_arrived
  response_arrived-Sound n f (waiting endpoint first) t e s = s
  response_arrived-Sound n f (settled r) t e s = s
  response_arrived-Sound n f (calling endpoint auth is_retry) t e s =
      let moves =
        total-set_phase waits n (waiting endpoint f) (calling endpoint auth is_retry) t.requests
          e in
      let ends =
        total-set_phase waits n (settled (result_of f)) (calling endpoint auth is_retry) t.requests
          e in
      let posts = post_lem f (auth && not is_retry) t in
      record {
        flights = ground (arith, posts, s.flights);
        none_waits = λ h. ground (arith, posts, moves, ends, s.flights, s.none_waits);
        some_waits = λ h. ground (arith, posts, moves, ends, s.flights, s.some_waits);
      }

  refresh_arrived-Sound :
      (f : Fetched TokenPair) (tokens : List Text) (t : Tab E D)
      → t.in_flight ≡ tokens
      → Sound t
      → Sound (refresh_arrived f tokens t)
  unfolding refresh_arrived
  refresh_arrived-Sound f [] t e s = s
  refresh_arrived-Sound f (token ∷ rest) t e s = record {
    flights = ground (arith, s.flights);
    none_waits = λ h. waits_lem _ t.requests;
    some_waits = λ h. ground arith;
  }

  request_answered-Sound :
      (n : ℕ) (f : Fetched D) (o : Option (Phase E D)) (t : Tab E D)
      → phase_of n t.requests ≡ o
      → Sound t
      → Sound (request_answered n f o t)
  unfolding request_answered
  request_answered-Sound n f none t e s = s
  request_answered-Sound n f (some p) t e s = response_arrived-Sound n f p t e s

  pub tab_step-Sound : (e : TabEvent E D) (t : Tab E D) → Sound t → Sound (tab_step e t)
  unfolding tab_step
  tab_step-Sound (requested endpoint auth) t s =
      let adds = total-append waits t.requests (calling endpoint auth false) in
      record {
        flights = s.flights;
        none_waits = λ h. omega (arith, adds, s.none_waits h);
        some_waits = λ h. omega (arith, adds, s.some_waits h);
      }
  tab_step-Sound (answered_request n f) t s =
      request_answered-Sound n f (phase_of n t.requests) t refl s
  tab_step-Sound (answered_refresh f) t s = refresh_arrived-Sound f t.in_flight t refl s
  tab_step-Sound (logged_in pair) t s = record {
    flights = s.flights;
    none_waits = s.none_waits;
    some_waits = s.some_waits;
  }
  tab_step-Sound logged_out t s = record {
    flights = s.flights;
    none_waits = s.none_waits;
    some_waits = s.some_waits;
  }

  pub run_tab-Sound : (es : List (TabEvent E D)) (t : Tab E D) → Sound t → Sound (run_tab es t)
  unfolding run_tab
  run_tab-Sound [] t s = s
  run_tab-Sound (e ∷ es) t s = run_tab-Sound es (tab_step e t) (tab_step-Sound e t s)
