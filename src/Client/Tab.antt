-- ===== src/Client/Tab.antt =====
-- Requests of one page that run at the same time (frontend/src/services/api.js): they share the tokens
-- and the promise of a refresh in flight. Between two events of the page, an answer of the network or a
-- call of the app, the code runs without a pause, up to the `await` that it waits at next.
use task.Prelude.{
  ℕ, zero, suc, ◌+◌, Option, none, some, Bool, true, false, ◌&&◌, not, List, [], ◌∷◌, ◌++◌,
  if◌then◌else◌,
}
use task.Prelude.Text.{Text}
use task.Client.Session.{
  Fetched, TokenPair, Session, Result, Refreshed, renewed, session_ended, other_error, rejected,
  present, set_tokens, clear_tokens, refresh_answered, result_of, wants_refresh,
}

-- Where a call of `request` is: at its `fetch`, with the options `auth` and `_retry`; at the shared
-- refresh, with the first response; or it has settled.
pub data Phase (E D : Type 0) : Type 0 where
  calling : E → Bool → Bool → Phase E D
  waiting : E → Fetched D → Phase E D
  settled : Result D → Phase E D

-- The page: the token store, whether `refreshPromise` is set, the refresh tokens whose `fetch` is in
-- flight, and the calls of `request` in their order.
pub record Tab (E D : Type 0) : Type 0 where
  pub session : Session Unit
  pub refresh_promise : Bool
  pub in_flight : List Text
  pub requests : List (Phase E D)

pub data TabEvent (E D : Type 0) : Type 0 where
  requested : E → Bool → TabEvent E D
  answered_request : ℕ → Fetched D → TabEvent E D
  answered_refresh : Fetched TokenPair → TabEvent E D
  logged_in : TokenPair → TabEvent E D
  logged_out : TabEvent E D

abbrev pub sends : Session Unit → Session Unit
sends s = record s { sent = s.sent + 1 }

module _ {E D : Type 0} where
  -- The `fetch` of `doRefresh`; without a refresh token it has thrown before.
  unfoldable pub post_refresh_with : Option Text → Tab E D → Tab E D
  post_refresh_with none t = t
  post_refresh_with (some token) t = record t {
    session = sends t.session;
    refresh_promise = true;
    in_flight = token ∷ t.in_flight;
  }

  -- `refreshAccessToken`
  unfoldable pub refresh_access_token : Tab E D → Tab E D
  unfolding post_refresh_with present
  refresh_access_token t =
      if t.refresh_promise then t else post_refresh_with (present t.session.refresh) t

  -- A phase with the request that it is of, replaced.
  unfoldable pub set_phase : ℕ → Phase E D → List (Phase E D) → List (Phase E D)
  set_phase n p [] = []
  set_phase zero p (q ∷ qs) = p ∷ qs
  set_phase (suc n) p (q ∷ qs) = q ∷ set_phase n p qs

  unfoldable pub phase_of : ℕ → List (Phase E D) → Option (Phase E D)
  phase_of n [] = none
  phase_of zero (p ∷ ps) = some p
  phase_of (suc n) (p ∷ ps) = phase_of n ps

  -- What a request does with the response of its `fetch`.
  unfoldable pub response_arrived : ℕ → Fetched D → Phase E D → Tab E D → Tab E D
  unfolding set_phase refresh_access_token wants_refresh result_of
  response_arrived n f (calling endpoint auth is_retry) t =
      if wants_refresh f (auth && not is_retry) t.session
      then record (refresh_access_token t) {
        requests = set_phase n (waiting endpoint f) t.requests;
      }
      else record t { requests = set_phase n (settled (result_of f)) t.requests }
  response_arrived n f (waiting endpoint first) t = t
  response_arrived n f (settled r) t = t

  unfoldable pub request_answered : ℕ → Fetched D → Option (Phase E D) → Tab E D → Tab E D
  unfolding response_arrived
  request_answered n f none t = t
  request_answered n f (some p) t = response_arrived n f p t

  -- What a request that waits for the refresh does with its outcome: it goes out again, or ends.
  unfoldable pub resumed : Refreshed → Phase E D → Phase E D
  unfolding result_of
  resumed (renewed token) (waiting endpoint first) = calling endpoint true true
  resumed (session_ended message status) (waiting endpoint first) =
      settled (rejected message status)
  resumed other_error (waiting endpoint first) = settled (result_of first)
  resumed r (calling endpoint auth is_retry) = calling endpoint auth is_retry
  resumed r (settled result) = settled result

  unfoldable pub resume_all : Refreshed → List (Phase E D) → List (Phase E D)
  unfolding resumed
  resume_all r [] = []
  resume_all r (p ∷ ps) = resumed r p ∷ resume_all r ps

  -- The answer to the refresh: the rest of `doRefresh`, then its `finally`, then the requests.
  unfoldable pub refresh_arrived : Fetched TokenPair → List Text → Tab E D → Tab E D
  unfolding refresh_answered resume_all
  refresh_arrived f [] t = t
  refresh_arrived f (token ∷ rest) t =
      let (r, session) = refresh_answered f t.session in
      record {
        session = session;
        refresh_promise = false;
        in_flight = rest;
        requests = resume_all r t.requests;
      }

  -- One event. The answers to `login` and `logout` have their effects on the tokens here; as requests
  -- they are sent without a token.
  unfoldable pub tab_step : TabEvent E D → Tab E D → Tab E D
  unfolding request_answered phase_of refresh_arrived set_tokens clear_tokens
  tab_step (requested endpoint auth) t = record t {
    session = sends t.session;
    requests = t.requests ++ (calling endpoint auth false ∷ []);
  }
  tab_step (answered_request n f) t = request_answered n f (phase_of n t.requests) t
  tab_step (answered_refresh f) t = refresh_arrived f t.in_flight t
  tab_step (logged_in pair) t = record t { session = set_tokens pair t.session }
  tab_step logged_out t = record t { session = clear_tokens t.session }

  -- A schedule of events, any order of them.
  unfoldable pub run_tab : List (TabEvent E D) → Tab E D → Tab E D
  unfolding tab_step
  run_tab [] t = t
  run_tab (e ∷ es) t = run_tab es (tab_step e t)
