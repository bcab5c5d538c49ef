-- ===== src/Gate/Middleware.antt =====
-- `authenticate`, `authorize` and `errorHandler` of backend/src/middleware.
use text.Mathlib.Text.{◌==◌ as str_eq}
use task.Prelude.{
  ℕ, String, Option, none, some, Bool, false, ◌||◌, ◌&&◌, List, [], ◌∷◌, if◌then◌else◌, ◌==◌,
}
use task.Prelude.Text.{Text, codes, text_eq}
use task.Http.{Exception, Outcome, send_error}
use task.Auth.Secrets.{AuthConfig, Jwt, Verified, valid, expired, invalid, verify_access_token}

-- `req.user`, whose email and role are undefined where the token has none.
pub record Identity : Type 0 where
  pub id : String
  pub email : Option String
  pub role : Option String

-- Middleware goes on with what it attached to the request, or ends it.
pub data Gate (A R : Type 0) : Type 0 where
  admitted : A → Gate A R
  ended : Outcome R → Gate A R

-- The text before the first space, and the text behind it if there is one.
unfoldable pub cut_space : Text → Text × Option Text
cut_space [] = ([], none)
cut_space (c ∷ cs) =
    let (word, rest) = cut_space cs in if c == 32 then ([], some cs) else (c ∷ word, rest)

-- `const [scheme, token] = header.split(' ')`
unfoldable pub scheme_and_token : Text → Text × Option Text
unfolding cut_space
scheme_and_token header =
    let (scheme, rest) = cut_space header in
    (scheme, elim rest [ none ↦ none | some r ↦ some (cut_space r).0 ])

abbrev includes : List String → Option String → Bool
includes roles none = false
includes [] (some r) = false
includes (x ∷ roles) (some r) = str_eq x r || includes roles (some r)

-- `err.statusCode || err.status || 500`, the two being one field of the model.
unfoldable pub status_code_of : Exception → ℕ
status_code_of err = elim err.status_code [ none ↦ 500 | some n ↦ if n == 0 then 500 else n ]

module _ {R : Type 0} where
  abbrev pub required_first : Gate Identity R
  required_first = ended (send_error "Authentication required" [] 401)

  -- What becomes of the token's verification.
  unfoldable pub admit : Verified → Gate Identity R
  admit (valid claims) =
      admitted (record { id = claims.sub; email = claims.email; role = claims.role })
  admit expired = ended (
      send_error "Access token expired" (record { field = "token"; message = "TOKEN_EXPIRED" } ∷ [])
        401)
  admit invalid = ended (send_error "Invalid access token" [] 401)

  -- `if (scheme !== 'Bearer' || !token) ...`
  unfoldable pub check_token : AuthConfig → Jwt → Text × Option Text → Gate Identity R
  unfolding admit text_eq
  check_token config jwt (scheme, none) = required_first
  check_token config jwt (scheme, some []) = required_first
  check_token config jwt (scheme, some (c ∷ cs)) =
      if text_eq scheme (codes "Bearer")
      then admit (verify_access_token config jwt (c ∷ cs))
      else required_first

  -- `authenticate`; a header that is missing counts as empty.
  unfoldable pub authenticate : AuthConfig → Jwt → Option Text → Gate Identity R
  unfolding check_token scheme_and_token
  authenticate config jwt none = check_token config jwt (scheme_and_token [])
  authenticate config jwt (some header) = check_token config jwt (scheme_and_token header)

  -- `authorize(...roles)`
  unfoldable pub authorize : List String → Option Identity → Gate Unit R
  authorize roles none = ended (send_error "Authentication required" [] 401)
  authorize roles (some user) =
      if includes roles user.role
      then admitted tt
      else ended (send_error "Insufficient permissions" [] 403)

  -- `errorHandler`; an empty message counts as none. Its log line is left out.
  unfoldable pub error_handler : Bool → Exception → Outcome R
  unfolding status_code_of
  error_handler is_production err =
      let status_code = status_code_of err in
      let message =
        if status_code == 500 && is_production
        then "An unexpected error occurred"
        else if str_eq err.message ""
        then "Internal server error"
        else err.message in
      send_error message err.errors status_code
