-- ===== src/Auth/Tests/Races.antt =====
-- Two requests to refresh with one token at the same time, as two tabs or a retry can make them
-- (`refresh` of backend/src/controllers/auth.controller.js).
use task.Prelude.{◌≡◌, refl, List, [], ◌∷◌, replicate, ◌++◌}
use task.Prelude.Text.{codes, text_eq}
use task.Http.{Outcome, go, send_success}
use task.Async.{Process, System, ended, ◌>>=◌, interleave}
use task.Service.Sample.{alice, request_of}
use task.Auth.Accounts.{find_user, store_refresh_token, find_refresh_token, revoke_refresh_token}
use task.Auth.Secrets.{verify_refresh_token, hash_token, sign_access_token, sign_refresh_token}
use task.Auth.Steps.{AuthReply, AuthWorld, session, query}
use task.Auth.Controller.{claims_of, claims_from, is_expired}
use task.Auth.Concurrent.{refreshing}
use task.Auth.Tests.{services, start}

abbrev Refresh : Type 0
Refresh = Process (AuthWorld services) AuthReply (Outcome AuthReply)

-- Both requests read the token before either of them revokes it.
abbrev both : System (AuthWorld services) AuthReply (Outcome AuthReply)
both = interleave (replicate 8 0 ++ replicate 13 1 ++ replicate 5 0) start (
    refreshing services (codes "tok") (request_of alice)
    ∷ refreshing services (codes "tok") (request_of alice)
    ∷ [])

abbrev BothGiven : List Refresh → Type 0
BothGiven (ended (go first) ∷ ended (go second) ∷ []) =
    (first ≡ send_success (session alice (codes "access") (codes "refresh")) 200)
    × (second ≡ send_success (session alice (codes "access") (codes "refresh")) 200)
BothGiven _ = ⊥

-- Both are given a session for the one token.
both_refresh : BothGiven both.processes
unfolding interleave refreshing ◌>>=◌ query claims_of claims_from verify_refresh_token
    find_refresh_token find_user revoke_refresh_token store_refresh_token hash_token text_eq
    sign_access_token sign_refresh_token is_expired
both_refresh = (refl, refl)
