-- ===== src/Server/Validate.antt =====
-- `validate` of backend/src/middleware/validate.js. A zod schema is a parameter, as the function that
-- its `safeParse` is.
use Prim.Native.String.{◌++◌}
use task.Prelude.{String, List, [], ◌∷◌}
use task.Http.{Outcome, FieldError, send_error}

-- An issue of zod: the path of the value and a message. A segment of the path is text.
pub record Issue : Type 0 where
  pub path : List String
  pub message : String

pub data Parsed (A : Type 0) : Type 0 where
  parsed : A → Parsed A
  rejected : List Issue → Parsed A

-- `issue.path.join('.')`
unfoldable pub join_path : List String → String
join_path [] = ""
join_path (x ∷ []) = x
join_path (x ∷ y ∷ path) = x ++ ("." ++ join_path (y ∷ path))

unfoldable pub field_errors : List Issue → List FieldError
unfolding join_path
field_errors [] = []
field_errors (i ∷ issues) =
    record { field = join_path i.path; message = i.message } ∷ field_errors issues

-- `validate(schema)`: the parsed body, or the response.
pub data Checked (A R : Type 0) : Type 0 where
  passed : A → Checked A R
  refused : Outcome R → Checked A R

unfoldable pub validate : {A R : Type 0} → Parsed A → Checked A R
unfolding field_errors
validate (parsed a) = passed a
validate (rejected issues) = refused (send_error "Validation failed" (field_errors issues) 400)
