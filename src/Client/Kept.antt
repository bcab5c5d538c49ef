-- ===== src/Client/Kept.antt =====
-- When the browser loses its tokens (frontend/src/services/api.js).
use task.Prelude.{◌+◌, none, some, Bool, true, ◌≡◌, ◌⊎◌, inl, refl, arith, length, not, ◌||◌, ◌==◌}
use task.Prelude.Text.{Text}
use task.Client.Session.{
  Fetched, unreachable, response, TokenPair, Server, Session, present, is_present, kept_or_set,
  set_tokens, clear_tokens, end_session, refresh_answered, do_refresh_with, do_refresh, call_once,
  retry, after_refresh, answered, request,
}

-- The session goes on, with a refresh token, or it has ended: there are no tokens any more and the
-- app has been told once.
unfoldable pub KeptOrTold : {Net : Type 0} → Session Net → Session Net → Type 0
KeptOrTold s s' =
    ((s'.told ≡ s.told) × (is_present s'.refresh ≡ true))
    ⊎ ((s'.access ≡ none) × (s'.refresh ≡ none) × (length s'.told ≡ length s.told + 1))

-- An answer that is no decision about the refresh token.
unfoldable pub is_transient : Fetched TokenPair → Bool
is_transient unreachable = true
is_transient (response status json) = not (status == 401 || status == 403)

module _ {Net E D : Type 0} (server : Server Net E D) where
  refresh_answered_lem :
      (f : Fetched TokenPair) (s : Session Net)
      → is_present s.refresh ≡ true
      → KeptOrTold s (refresh_answered f s).1
  unfolding KeptOrTold refresh_answered end_session clear_tokens set_tokens kept_or_set present
      is_present
  refresh_answered_lem f s h = ground arith

  refresh_transient_lem :
      (f : Fetched TokenPair) (s : Session Net)
      → is_present s.refresh ≡ true
      → is_transient f ≡ true
      → ((refresh_answered f s).1.told ≡ s.told)
        × (is_present (refresh_answered f s).1.refresh ≡ true)
  unfolding is_transient refresh_answered set_tokens kept_or_set present is_present
  refresh_transient_lem f s h k = ground arith

  do_refresh_lem :
      (s : Session Net) → is_present s.refresh ≡ true → KeptOrTold s (do_refresh server s).1
  unfolding do_refresh do_refresh_with KeptOrTold
  do_refresh_lem s h =
      elim (present s.refresh) as (λ p. KeptOrTold s (do_refresh_with server p s).1) [
        | none ↦ inl (refl, h)
        | some t ↦
            refresh_answered_lem (server.post_refresh t s.net).0
              (record s { net = (server.post_refresh t s.net).1; sent = s.sent + 1 }) h
      ]

  do_refresh_transient :
      (s : Session Net)
      → is_present s.refresh ≡ true
      → ((t : Text) (n : Net) → is_transient (server.post_refresh t n).0 ≡ true)
      → ((do_refresh server s).1.told ≡ s.told)
        × (is_present (do_refresh server s).1.refresh ≡ true)
  unfolding do_refresh do_refresh_with
  do_refresh_transient s h k =
      elim (present s.refresh)
        as (λ p.
          ((do_refresh_with server p s).1.told ≡ s.told)
          × (is_present (do_refresh_with server p s).1.refresh ≡ true)) [
            | none ↦ (refl, h)
            | some t ↦
                refresh_transient_lem (server.post_refresh t s.net).0
                  (record s { net = (server.post_refresh t s.net).1; sent = s.sent + 1 }) h
                  (k t s.net)
          ]

  abbrev called : E → Bool → Session Net → Session Net
  called endpoint auth s = (call_once server endpoint auth s).1

  -- A request of somebody who is logged in keeps the session, or ends it, in which case both tokens are
  -- gone and the app has been told once: nobody is left with a session that only seems to go on.
  pub request-KeptOrTold :
      (endpoint : E) (auth : Bool) (s : Session Net)
      → is_present s.refresh ≡ true
      → KeptOrTold s (request server endpoint auth s).1
  unfolding request call_once answered after_refresh retry KeptOrTold
  request-KeptOrTold endpoint auth s h = ground (arith, do_refresh_lem (called endpoint auth s) h)

  -- While the server never answers a refresh by 401 or 403, no request ends the session of somebody
  -- logged in, whatever else fails: the refresh token is kept or replaced and the app is told nothing.
  pub request_transient :
      (endpoint : E) (auth : Bool) (s : Session Net)
      → is_present s.refresh ≡ true
      → ((t : Text) (n : Net) → is_transient (server.post_refresh t n).0 ≡ true)
      → ((request server endpoint auth s).1.told ≡ s.told)
        × (is_present (request server endpoint auth s).1.refresh ≡ true)
  unfolding request call_once answered after_refresh retry
  request_transient endpoint auth s h k =
      ground (arith, do_refresh_transient (called endpoint auth s) h k)
