-- ===== src/Forms/Accounts.antt =====
-- The schemas of accounts and tokens in backend/src/models/user.model.js. zod is a parameter.
use task.Prelude.{Option, none, some, List, [], ◌∷◌}
use task.Prelude.Text.{Text, codes}
use task.Server.Validate.{Parsed, parsed}
use task.Forms.Schema.{StringCheck, min, max, trimmed, email, to_lower_case, Zod, map_parsed}

-- The bodies as JSON; a key that is missing is `none`.
pub record SignupRequest : Type 0 where
  pub email : Option Text
  pub password : Option Text
  pub role : Option Text

pub record LoginRequest : Type 0 where
  pub email : Option Text
  pub password : Option Text

unfoldable pub email_checks : List StringCheck → List StringCheck
email_checks more = email (codes "Must be a valid email address") ∷ more

-- `z.string({ required_error })` with its methods
module _ (z : Zod) where
  open z use {parse_string, both, missing, parse_enum}

  abbrev string_field : Text → List StringCheck → Option Text → Parsed Text
  string_field required_error checks none = missing required_error checks
  string_field required_error checks (some t) = parse_string checks t

  -- `.optional()`
  unfoldable pub role_field : Option Text → Parsed (Option Text)
  unfolding map_parsed
  role_field none = parsed none
  role_field (some r) = map_parsed some (parse_enum (codes "USER" ∷ codes "ADMIN" ∷ []) r)

  -- The parsed body: the email, the password and the role.
  unfoldable pub signup_schema : SignupRequest → Parsed (Text × (Text × Option Text))
  unfolding email_checks role_field
  signup_schema b =
      both
        (string_field (codes "Email is required")
          (email_checks
            (max 255 (codes "Email must be at most 255 characters") ∷ trimmed ∷ to_lower_case ∷ []))
          b.email)
        (both
          (string_field (codes "Password is required")
            (min 8 (codes "Password must be at least 8 characters")
              ∷ max 128 (codes "Password must be at most 128 characters")
              ∷ [])
            b.password)
          (role_field b.role))

  unfoldable pub login_schema : LoginRequest → Parsed (Text × Text)
  unfolding email_checks
  login_schema b =
      both
        (string_field (codes "Email is required") (email_checks (trimmed ∷ to_lower_case ∷ []))
          b.email)
        (string_field (codes "Password is required") (min 1 (codes "Password is required") ∷ [])
          b.password)

  unfoldable pub refresh_schema : Option Text → Parsed Text
  refresh_schema token =
      string_field (codes "refreshToken is required")
        (min 1 (codes "refreshToken is required") ∷ []) token
