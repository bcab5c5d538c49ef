-- ===== src/Client/Session.antt =====
-- The token store, the refresh and the fetch wrapper of frontend/src/services/api.js, and the
-- bootstrap of frontend/src/hooks/useAuth.js. `fetch` is a parameter. One request is
-- followed at a time; Tab has many of them and the promise of a refresh that they share.
use task.Prelude.{
  ℕ, ◌+◌, Option, none, some, Bool, true, false, not, ◌&&◌, ◌||◌, List, [], ◌∷◌, if◌then◌else◌,
  ◌==◌, leb, ltb,
}
use task.Prelude.Text.{Text, codes}

-- The body of a response, `{}` where it is no JSON: `data` is undefined unless the server sends it.
pub record Body (D : Type 0) : Type 0 where
  pub success : Bool
  pub message : Option Text
  pub data' : Option D

pub data Fetched (D : Type 0) : Type 0 where
  unreachable : Fetched D
  response : ℕ → Body D → Fetched D

pub record TokenPair : Type 0 where
  pub access : Option Text
  pub refresh : Option Text

-- `fetch` of `/auth/refresh` with a refresh token, and of an endpoint with an access token if there
-- is one.
pub record Server (Net E D : Type 0) : Type 0 where
  pub post_refresh : Text → Net → Fetched TokenPair × Net
  pub call : E → Option Text → Net → Fetched D × Net

-- The token store, the reasons that the app's handler of an ended session has been called with, the
-- network and the number of its requests.
pub record Session (Net : Type 0) : Type 0 where
  pub access : Option Text
  pub refresh : Option Text
  pub told : List Text
  pub sent : ℕ
  pub net : Net

-- How a refresh ends: it resolves with the access token, or rejects: by the end of the session, or
-- by another error, which keeps it.
pub data Refreshed : Type 0 where
  renewed : Option Text → Refreshed
  session_ended : Text → ℕ → Refreshed
  other_error : Refreshed

-- How a request ends: it resolves with the data or rejects.
pub data Result (D : Type 0) : Type 0 where
  resolved : Option D → Result D
  rejected : Text → ℕ → Result D
  network_error : Result D

-- A text that is there and not empty.
unfoldable pub present : Option Text → Option Text
present none = none
present (some []) = none
present (some (c ∷ cs)) = some (c ∷ cs)

unfoldable pub is_present : Option Text → Bool
is_present none = false
is_present (some []) = false
is_present (some (c ∷ cs)) = true

unfoldable pub message_or : Option Text → Text → Text
unfolding present
message_or m d = elim (present m) [ none ↦ d | some t ↦ t ]

-- `response.ok`
unfoldable pub is_ok : ℕ → Bool
is_ok status = leb 200 status && ltb status 300

-- `tokenStore.set` leaves what it is not given.
unfoldable pub kept_or_set : Option Text → Option Text → Option Text
unfolding present
kept_or_set new old = elim (present new) [ none ↦ old | some t ↦ some t ]

-- The end of `request`, from `response.json()` on.
unfoldable pub result_of : {D : Type 0} → Fetched D → Result D
unfolding message_or is_ok
result_of unreachable = network_error
result_of (response status json) =
    if not (is_ok status) || not json.success
    then rejected (message_or json.message (codes "Request failed")) status
    else resolved json.data'

module _ {Net : Type 0} where
  -- `response.status === 401 && auth && tokenStore.getRefresh()`
  unfoldable pub wants_refresh : {D : Type 0} → Fetched D → Bool → Session Net → Bool
  unfolding is_present
  wants_refresh unreachable auth s = false
  wants_refresh (response status json) auth s = (status == 401) && (auth && is_present s.refresh)

  unfoldable pub set_tokens : TokenPair → Session Net → Session Net
  unfolding kept_or_set
  set_tokens p s = record s {
    access = kept_or_set p.access s.access;
    refresh = kept_or_set p.refresh s.refresh;
  }

  unfoldable pub clear_tokens : Session Net → Session Net
  clear_tokens s = record s { access = none; refresh = none }

  -- `endSession`, with the handler that `useAuth` registers.
  unfoldable pub end_session : Text → Session Net → Session Net
  unfolding clear_tokens
  end_session reason s = record (clear_tokens s) { told = reason ∷ s.told }

  -- The part of `doRefresh` behind the `fetch`; without `data` reading its tokens throws.
  unfoldable pub refresh_answered : Fetched TokenPair → Session Net → Refreshed × Session Net
  unfolding end_session set_tokens message_or is_ok
  refresh_answered unreachable s = (other_error, s)
  refresh_answered (response status json) s =
      if status == 401 || status == 403
      then (
        session_ended (message_or json.message (codes "Session expired")) status,
        end_session (message_or json.message (codes "Session expired")) s,
      )
      else if not (is_ok status) || not json.success
      then (other_error, s)
      else elim json.data' [
        | none ↦ (other_error, s)
        | some pair ↦ (renewed pair.access, set_tokens pair s)
      ]

module _ {Net E D : Type 0} (server : Server Net E D) where
  unfoldable pub do_refresh_with : Option Text → Session Net → Refreshed × Session Net
  unfolding refresh_answered
  do_refresh_with none s = (other_error, s)
  do_refresh_with (some token) s =
      let (answer, net) = server.post_refresh token s.net in
      refresh_answered answer (record s { net = net; sent = s.sent + 1 })

  -- `doRefresh`
  unfoldable pub do_refresh : Session Net → Refreshed × Session Net
  unfolding do_refresh_with present
  do_refresh s = do_refresh_with (present s.refresh) s

  -- The `fetch` of `request`.
  unfoldable pub call_once : E → Bool → Session Net → Fetched D × Session Net
  unfolding present
  call_once endpoint auth s =
      let (answer, net) = server.call endpoint (if auth then present s.access else none) s.net in
      (answer, record s { net = net; sent = s.sent + 1 })

  -- `request` with `_retry`.
  unfoldable pub retry : E → Session Net → Result D × Session Net
  unfolding call_once result_of
  retry endpoint s = let (answer, s') = call_once endpoint true s in (result_of answer, s')

  -- What `request` does with the outcome of the refresh.
  unfoldable pub after_refresh : E → Fetched D → Refreshed → Session Net → Result D × Session Net
  unfolding retry result_of
  after_refresh endpoint first (renewed token) s = retry endpoint s
  after_refresh endpoint first (session_ended message status) s = (rejected message status, s)
  after_refresh endpoint first other_error s = (result_of first, s)

  unfoldable pub answered : E → Bool → Fetched D → Session Net → Result D × Session Net
  unfolding wants_refresh do_refresh after_refresh result_of
  answered endpoint auth first s =
      if wants_refresh first auth s
      then (let (r, s') = do_refresh s in after_refresh endpoint first r s')
      else (result_of first, s)

  -- `request`
  unfoldable pub request : E → Bool → Session Net → Result D × Session Net
  unfolding call_once answered
  request endpoint auth s =
      let (first, s') = call_once endpoint auth s in answered endpoint auth first s'

  -- The bootstrap of `useAuth`: whether the profile could be loaded. Any error clears the tokens.
  unfoldable pub bootstrap : E → Session Net → Option (Option D) × Session Net
  unfolding request present clear_tokens
  bootstrap me s = elim (present s.access) [
    | none ↦ (none, s)
    | some token ↦
        let (r, s') = request me true s in
        elim r [
          | resolved profile ↦ (some profile, s')
          | rejected message status ↦ (none, clear_tokens s')
          | network_error ↦ (none, clear_tokens s')
        ]
  ]
