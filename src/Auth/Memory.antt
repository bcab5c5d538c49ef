-- ===== src/Auth/Memory.antt =====
-- A database in memory that has accounts and refresh tokens: the laws of Roles and Rotation can be
-- met.
use text.Mathlib.Text.{◌==◌ as str_eq}
use task.Prelude.{
  String, Option, none, some, true, false, ◌≡◌, inl, inr, refl, List, [], ◌∷◌, if◌then◌else◌, arith,
  Bool-cases,
}
use task.Prelude.Text.{Text, codes, text_eq, text_eq_iff}
use task.Http.{User}
use task.Service.Answer.{Answer, answer}
use task.Auth.Accounts.{
  Account, NewAccount, NewToken, StoredToken, UserClient, find_by_email, find_user, create_user,
  store_refresh_token, find_refresh_token, revoke_refresh_token,
}
use task.Task.Model.{Verb, insert}
use task.Auth.Roles.{UsersTable}
use task.Auth.Rotation.{TokensTable}

pub record AuthDb : Type 0 where
  pub users : List User
  pub tokens : List StoredToken

abbrev pub account_of : User → Account
account_of u = record { profile = u; password_hash = codes "pw" }

abbrev pub by : String → List User → Option User
by id [] = none
by id (u ∷ us) = if str_eq u.id id then some u else by id us

abbrev stored_by : Text → List StoredToken → Option StoredToken
stored_by h [] = none
stored_by h (t ∷ ts) = if text_eq t.token_hash h then some t else stored_by h ts

abbrev revoke_in : Text → List StoredToken → List StoredToken
revoke_in h [] = []
revoke_in h (t ∷ ts) =
    let rest = revoke_in h ts in
    if text_eq t.token_hash h then record t { revoked = true } ∷ rest else t ∷ rest

abbrev revoke_row : Text → AuthDb → Answer StoredToken × AuthDb
revoke_row h db =
    let tokens = revoke_in h db.tokens in
    (answer (stored_by h tokens) none, record db { tokens = tokens })

abbrev digest_in : List (String × Text) → Text
digest_in [] = []
digest_in (c ∷ cs) = c.1

abbrev row_of : NewToken → StoredToken
row_of n = record {
  user_id = n.user_id;
  token_hash = n.token_hash;
  expires_at = n.expires_at;
  revoked = false;
}

-- The column `token_hash` is unique: an insertion of a hash that is there fails.
abbrev add_token : NewToken → AuthDb → Answer StoredToken × AuthDb
add_token n db = elim (stored_by n.token_hash db.tokens) [
  | none ↦ (answer (some (row_of n)) none, record db { tokens = row_of n ∷ db.tokens })
  | some t ↦ (answer none (some "23505"), db)
]

abbrev add_user : Verb NewAccount Unit → AuthDb → Answer User × AuthDb
add_user (insert a) db =
    let u : User = record { id = "new"; email = a.email; role = a.role } in
    (answer (some u) none, record db { users = u ∷ db.users })
add_user _ db = (answer none none, db)

abbrev pub only : List (String × String) → String
only [] = ""
only (c ∷ cs) = c.1

abbrev pub by_email : String → List User → Option Account
by_email e [] = none
by_email e (u ∷ us) = if str_eq u.email e then some (account_of u) else by_email e us

abbrev pub memory : UserClient AuthDb
memory = record {
  accounts_maybe_single = λ q db. (answer (by_email (only q.eq) db.users) none, db);
  users_maybe_single = λ q db. (answer (by (only q.eq) db.users) none, db);
  users_single = λ q db. add_user q.verb db;
  insert_token = λ q db. add_token q.action db;
  select_token = λ q db. (answer (stored_by (digest_in q.eq) db.tokens) none, db);
  update_token = λ q db. revoke_row (digest_in q.eq) db;
}

pub memory-UsersTable : UsersTable memory
unfolding find_by_email find_user create_user store_refresh_token find_refresh_token
    revoke_refresh_token
memory-UsersTable = record {
  users = λ db. db.users;
  reads_accounts = λ e db. refl;
  reads_users = λ id db. refl;
  inserts = λ a db. inr (record { id = "new"; email = a.email; role = a.role }, refl, refl);
  stores = λ t db. ground arith;
  finds = λ h db. refl;
  revokes = λ h db. refl;
}

-- The row with a digest is there and is revoked.
abbrev Spent : Text → AuthDb → Type 0
Spent h db = (t : StoredToken) × (stored_by h db.tokens ≡ some t) × (t.revoked ≡ true)

revoked_lem :
    (h : Text) (ts : List StoredToken) (t : StoredToken)
    → stored_by h (revoke_in h ts) ≡ some t
    → t.revoked ≡ true
revoked_lem h [] t e = ground arith
revoked_lem h (x ∷ ts) t e = ground (arith, revoked_lem h ts t)

Spent-stays :
    (h k : Text) (ts : List StoredToken) (t : StoredToken)
    → stored_by h ts ≡ some t
    → t.revoked ≡ true
    → (t' : StoredToken) × (stored_by h (revoke_in k ts) ≡ some t') × (t'.revoked ≡ true)
Spent-stays h k [] t e r = ground arith
Spent-stays h k (x ∷ ts) t e r = elim (Bool-cases (text_eq x.token_hash h)) [
  | inl y ↦ elim (Bool-cases (text_eq x.token_hash k)) [
    | inl z ↦ (record x { revoked = true }, ground arith, refl)
    | inr z ↦ (x, ground arith, ground arith)
  ]
  | inr n ↦ let (t', e', r') = Spent-stays h k ts t (ground arith) r in (t', ground arith, r')
]

Spent-stores : (h : Text) (n : NewToken) (db : AuthDb) → Spent h db → Spent h (add_token n db).1
Spent-stores h n db (t, e, r) = (t, ground (arith, text_eq_iff n.token_hash h), r)

pub memory-TokensTable : TokensTable memory
unfolding find_by_email find_user create_user store_refresh_token find_refresh_token
    revoke_refresh_token
memory-TokensTable = record {
  Revoked = Spent;
  revoked_by = λ h db row e. (row, ground arith, revoked_lem h db.tokens row (ground arith));
  read_as_revoked = λ h db t e (t', e', r) a. ground arith;
  stays = λ h. record {
    by_email = λ e db k. k;
    by_id = λ id db k. k;
    creates = λ a db e k. k;
    stores = λ n db k. Spent-stores h n db k;
    finds = λ k db x. x;
    revokes = λ k db (t, e, r). Spent-stays h k db.tokens t e r;
  };
}
