-- ===== src/Auth/Accounts.antt =====
-- The queries of backend/src/models/user.model.js.
use task.Prelude.{Bool, true, String, none, List, [], ◌∷◌}
use task.Prelude.Text.{Text}
use task.Http.{User}
use task.Service.Answer.{Ask}
use task.Task.Model.{Query, select, insert}

-- A row of `users` with all columns that the code reads, as `.select('*')` gives it.
pub record Account : Type 0 where
  pub profile : User
  pub password_hash : Text

pub record NewAccount : Type 0 where
  pub email : String
  pub password_hash : Text
  pub role : String

-- A row of `refresh_tokens`.
pub record StoredToken : Type 0 where
  pub user_id : String
  pub token_hash : Text
  pub expires_at : String
  pub revoked : Bool

pub record NewToken : Type 0 where
  pub user_id : String
  pub token_hash : Text
  pub expires_at : String

-- `{ revoked: true }`
pub record Revocation : Type 0 where
  pub revoked : Bool

-- A query of `refresh_tokens` compares one column with a text.
pub record TokenQuery (A : Type 0) : Type 0 where
  pub table : String
  pub action : A
  pub eq : List (String × Text)

-- The client: `users` by all columns and by the public ones (`id, email, role, ...`), each ended by
-- `.maybeSingle()` or `.single()`, and `refresh_tokens`.
pub record UserClient (Db : Type 0) : Type 0 where
  pub accounts_maybe_single : Query NewAccount Unit → Ask Db Account
  pub users_maybe_single : Query NewAccount Unit → Ask Db User
  pub users_single : Query NewAccount Unit → Ask Db User
  pub insert_token : TokenQuery NewToken → Ask Db StoredToken
  pub select_token : TokenQuery Unit → Ask Db StoredToken
  pub update_token : TokenQuery Revocation → Ask Db StoredToken

module _ {Db : Type 0} (c : UserClient Db) where
  open c use {
    accounts_maybe_single, users_maybe_single, users_single, insert_token, select_token,
    update_token,
  }

  unfoldable pub find_by_email : String → Ask Db Account
  find_by_email email =
      accounts_maybe_single
        (record { table = "users"; verb = select; eq = ("email", email) ∷ []; descending = none })

  unfoldable pub find_user : String → Ask Db User
  find_user id =
      users_maybe_single
        (record { table = "users"; verb = select; eq = ("id", id) ∷ []; descending = none })

  unfoldable pub create_user : NewAccount → Ask Db User
  create_user account =
      users_single (record { table = "users"; verb = insert account; eq = []; descending = none })

  unfoldable pub store_refresh_token : NewToken → Ask Db StoredToken
  store_refresh_token row =
      insert_token (record { table = "refresh_tokens"; action = row; eq = [] })

  unfoldable pub find_refresh_token : Text → Ask Db StoredToken
  find_refresh_token h =
      select_token (record { table = "refresh_tokens"; action = tt; eq = ("token_hash", h) ∷ [] })

  unfoldable pub revoke_refresh_token : Text → Ask Db StoredToken
  revoke_refresh_token h = update_token (record {
    table = "refresh_tokens";
    action = record { revoked = true };
    eq = ("token_hash", h) ∷ [];
  })
