-- ===== src/Auth/Roles.antt =====
-- Nobody becomes an administrator by the routes of authentication
-- (backend/src/controllers/auth.controller.js).
use text.Mathlib.Text.{◌==◌}
use task.Prelude.{ℕ, String, ◌≡◌, ◌⊎◌, inl, inr, refl, List, [], ◌∷◌, if◌then◌else◌}
use task.Http.{User, Request}
use task.Auth.Accounts.{
  NewAccount, NewToken, UserClient, find_by_email, find_user, create_user, store_refresh_token,
  find_refresh_token, revoke_refresh_token,
}
use task.Auth.Steps.{AuthServices, AuthWorld}
use task.Auth.Requests.{AuthCommand, serve_auth}
use task.Auth.Stable.{Closed, serve_auth-OnDb}

unfoldable pub administrators : List User → List User
administrators [] = []
administrators (u ∷ us) =
    let rest = administrators us in if u.role == "ADMIN" then u ∷ rest else rest

-- What PostgREST documents of the table `users`: an insertion adds one row with the given role or
-- changes nothing, and the other queries of the code leave the table as it is.
pub record UsersTable {Db : Type 0} (c : UserClient Db) : Type 0 where
  pub users : Db → List User
  pub reads_accounts : (e : String) (db : Db) → users (find_by_email c e db).1 ≡ users db
  pub reads_users : (id : String) (db : Db) → users (find_user c id db).1 ≡ users db
  pub inserts :
      (a : NewAccount) (db : Db)
      → (users (create_user c a db).1 ≡ users db)
        ⊎ ((u : User) × (u.role ≡ a.role) × (users (create_user c a db).1 ≡ u ∷ users db))
  pub stores : (t : NewToken) (db : Db) → users (store_refresh_token c t db).1 ≡ users db
  pub finds : (h : List ℕ) (db : Db) → users (find_refresh_token c h db).1 ≡ users db
  pub revokes : (h : List ℕ) (db : Db) → users (revoke_refresh_token c h db).1 ≡ users db

module _ (s : AuthServices) (t : UsersTable s.client) where
  Same : s.base.Db → s.base.Db → Type 0
  Same before db = administrators (t.users db) ≡ administrators (t.users before)

  Same-start : (db : s.base.Db) → Same db db
  unfolding Same
  Same-start db = refl

  Same-creates :
      (before : s.base.Db) (a : NewAccount) (db : s.base.Db)
      → a.role ≡ "USER"
      → Same before db
      → Same before (create_user s.client a db).1
  unfolding administrators Same
  Same-creates before a db r h = elim (t.inserts a db) [
    | inl e ↦ rw e h
    | inr (u, ur, e) ↦ rw (e, ur, r) h
  ]

  same : (before : s.base.Db) → Closed s.client (Same before)
  unfolding Same
  same before = record {
    by_email = λ e db h. rw (t.reads_accounts e db) h;
    by_id = λ id db h. rw (t.reads_users id db) h;
    creates = Same-creates before;
    stores = λ n db h. rw (t.stores n db) h;
    finds = λ k db h. rw (t.finds k db) h;
    revokes = λ k db h. rw (t.revokes k db) h;
  }

  -- Whatever requests are made, whatever role their bodies ask for, the administrators of the table
  -- are those that it had before.
  pub serve_auth-administrators :
      (cs : List (AuthCommand × Request)) (w : AuthWorld s)
      → administrators (t.users (serve_auth s cs w).api.db) ≡ administrators (t.users w.api.db)
  unfolding Same
  serve_auth-administrators cs w =
      serve_auth-OnDb s (Same w.api.db) (same w.api.db) cs w (Same-start w.api.db)
