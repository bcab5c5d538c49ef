-- ===== src/Auth/Login.antt =====
-- What a failed log-in gives away, and what a successful one takes
-- (backend/src/controllers/auth.controller.js and backend/src/utils/password.js).
use task.Prelude.{ℕ, none, some, Bool, true, false, ◌≡◌, inl, inr, [], ◌∷◌, arith}
use task.Prelude.Text.{Text}
use task.Http.{User, Request, Outcome, run_handler, send_success, send_error}
use task.Service.Answer.{Answer, answer, Missing, answer_cases}
use task.Auth.Accounts.{Account, find_by_email}
use task.Auth.Secrets.{comparing, impl, fake_verify, verify_password, dummy_of}
use task.Auth.Steps.{
  AuthReply, session, LoginBody, AuthServices, AuthWorld, query, issue_tokens, audit_auth,
}
use task.Auth.Controller.{login, login_found, unknown_email, logged_in, wrong_password}

module _ (s : AuthServices) (body : LoginBody) (req : Request) where
  abbrev run : AuthWorld s → Outcome AuthReply × AuthWorld s
  run = run_handler (login s body req)

  abbrev looked_up : AuthWorld s → Answer Account
  looked_up w = (find_by_email s.client body.email w.api.db).0

  abbrev matches_hash : Account → Bool
  matches_hash a = s.bcrypt.compare (impl s.config s.bcrypt) body.password a.password_hash

  unknown_lem :
      (w : AuthWorld s) (x : ℕ) (h : Text)
      → looked_up w ≡ answer none none
      → w.vault.dummy_hash ≡ some (x ∷ h)
      → ((run w).0 ≡ send_error "Invalid email or password" [] 401)
        × ((run w).1.vault.work ≡ comparing ∷ w.vault.work)
  unfolding login query login_found unknown_email fake_verify dummy_of audit_auth
  unknown_lem w x h e d = ground arith

  wrong_lem :
      (w : AuthWorld s) (a : Account)
      → looked_up w ≡ answer (some a) none
      → matches_hash a ≡ false
      → ((run w).0 ≡ send_error "Invalid email or password" [] 401)
        × ((run w).1.vault.work ≡ comparing ∷ w.vault.work)
  unfolding login query login_found wrong_password verify_password audit_auth
  wrong_lem w a e m = ground arith

  -- A log-in with an email that no account has, and one with a wrong password, have the same response
  -- and cost the same work, one comparison of bcrypt, once the process has made its dummy hash.
  pub login-uniform :
      (w w' : AuthWorld s) (x : ℕ) (h : Text) (a : Account)
      → (find_by_email s.client body.email w.api.db).0 ≡ answer none none
      → w.vault.dummy_hash ≡ some (x ∷ h)
      → (find_by_email s.client body.email w'.api.db).0 ≡ answer (some a) none
      → s.bcrypt.compare (impl s.config s.bcrypt) body.password a.password_hash ≡ false
      → ((run_handler (login s body req) w).0 ≡ (run_handler (login s body req) w').0)
        × ((run_handler (login s body req) w).0 ≡ send_error "Invalid email or password" [] 401)
        × ((run_handler (login s body req) w).1.vault.work ≡ comparing ∷ w.vault.work)
        × ((run_handler (login s body req) w').1.vault.work ≡ comparing ∷ w'.vault.work)
  login-uniform w w' x h a e d e' m =
      let (o, k) = unknown_lem w x h e d in let (o', k') = wrong_lem w' a e' m in ground arith

  found_lem :
      (w : AuthWorld s) (a : Account) (u : User) (access refresh : Text)
      → looked_up w ≡ answer (some a) none
      → (run w).0 ≡ send_success (session u access refresh) 200
      → (matches_hash a ≡ true) × (a.profile ≡ u)
  unfolding login query login_found logged_in issue_tokens wrong_password verify_password audit_auth
  found_lem w a u access refresh e h = ground arith

  not_found_lem :
      (w : AuthWorld s) (u : User) (access refresh : Text)
      → Missing (looked_up w)
      → ¬ ((run w).0 ≡ send_success (session u access refresh) 200)
  unfolding Missing login query login_found unknown_email fake_verify audit_auth
  not_found_lem w u access refresh n h = elim n [
    | inl e ↦ ground arith
    | inr (inl (d, x, e)) ↦ ground arith
    | inr (inr (x, e)) ↦ ground arith
  ]

  -- A session is given only for the account that has the email, after its hash has matched the
  -- password.
  pub login_sound :
      (w : AuthWorld s) (u : User) (access refresh : Text)
      → (run_handler (login s body req) w).0 ≡ send_success (session u access refresh) 200
      → (a : Account) × ((find_by_email s.client body.email w.api.db).0 ≡ answer (some a) none)
        × (s.bcrypt.compare (impl s.config s.bcrypt) body.password a.password_hash ≡ true)
        × (a.profile ≡ u)
  login_sound w u access refresh h = elim (answer_cases (looked_up w)) [
    | inl (a, e) ↦ let (m, p) = found_lem w a u access refresh e h in (a, e, m, p)
    | inr n ↦ absurd (not_found_lem w u access refresh n h)
  ]
