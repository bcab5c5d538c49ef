-- ===== src/Forms/Schema.antt =====
-- The schemas of tasks in backend/src/models/task.model.js. zod is a parameter.
use task.Prelude.{ℕ, ◌≤◌, ◌≡◌, Option, none, some, Bool, true, List, [], ◌∷◌, length}
use task.Prelude.Text.{Text, codes}
use task.Task.Types.{TaskStatus, pending}
use task.Server.Validate.{Parsed, parsed, rejected}
use task.Forms.Trim.{trim}

-- A method of `z.string()`, with its message.
pub data StringCheck : Type 0 where
  min max : ℕ → Text → StringCheck
  trimmed : StringCheck
  datetime email : Text → StringCheck
  to_lower_case : StringCheck

-- A body as JSON. A key that is missing is `none`; null is `some none`. The status, which `z.enum`
-- checks, is one of the three.
pub record TaskBody : Type 0 where
  pub title : Option Text
  pub description : Option (Option Text)
  pub due_date : Option (Option Text)
  pub status : Option TaskStatus

-- `parse_string` runs `z.string()` with its methods on a text, `missing` is what it makes of undefined
-- with the message for it, `parse_enum` is `z.enum`, and `both` puts the fields of an object together.
pub record Zod : Type 1 where
  pub parse_string : List StringCheck → Text → Parsed Text
  pub both : {A B : Type 0} → Parsed A → Parsed B → Parsed (A × B)
  pub missing : Text → List StringCheck → Parsed Text
  pub parse_enum : List Text → Text → Parsed Text

unfoldable pub map_parsed : {A B : Type 0} → (A → B) → Parsed A → Parsed B
map_parsed f (parsed a) = parsed (f a)
map_parsed f (rejected issues) = rejected issues

unfoldable pub title_checks : List StringCheck
title_checks =
    min 1 (codes "Title cannot be empty")
    ∷ max 255 (codes "Title must be at most 255 characters")
    ∷ trimmed
    ∷ []

unfoldable pub description_checks : List StringCheck
description_checks = max 5000 (codes "Description must be at most 5000 characters") ∷ trimmed ∷ []

unfoldable pub due_date_checks : List StringCheck
due_date_checks = datetime (codes "due_date must be a valid ISO 8601 date") ∷ []

module _ (z : Zod) where
  open z use {parse_string, both, missing}

  -- `.nullable().optional()`
  unfoldable pub nullable_optional :
      List StringCheck → Option (Option Text) → Parsed (Option (Option Text))
  unfolding map_parsed
  nullable_optional checks none = parsed none
  nullable_optional checks (some none) = parsed (some none)
  nullable_optional checks (some (some t)) = map_parsed (λ x. some (some x)) (parse_string checks t)

  unfoldable pub required_text : List StringCheck → Option Text → Parsed (Option Text)
  unfolding map_parsed
  required_text checks none = map_parsed some (missing (codes "Title is required") checks)
  required_text checks (some t) = map_parsed some (parse_string checks t)

  unfoldable pub optional_text : List StringCheck → Option Text → Parsed (Option Text)
  unfolding map_parsed
  optional_text checks none = parsed none
  optional_text checks (some t) = map_parsed some (parse_string checks t)

  abbrev pub object_of :
      Parsed (Option Text)
      → Parsed (Option (Option Text))
      → Parsed (Option (Option Text))
      → Option TaskStatus
      → Parsed TaskBody
  object_of title description due_date status =
      map_parsed
        (λ (t, (d, due)). record { title = t; description = d; due_date = due; status = status })
        (both title (both description due_date))

  -- `.optional().default('PENDING')`
  abbrev pub or_pending : Option TaskStatus → Option TaskStatus
  or_pending none = some pending
  or_pending (some s) = some s

  unfoldable pub create_task_schema : TaskBody → Parsed TaskBody
  unfolding map_parsed required_text nullable_optional title_checks description_checks
      due_date_checks
  create_task_schema b =
      object_of (required_text title_checks b.title)
        (nullable_optional description_checks b.description)
        (nullable_optional due_date_checks b.due_date) (or_pending b.status)

  unfoldable pub update_task_schema : TaskBody → Parsed TaskBody
  unfolding map_parsed optional_text nullable_optional title_checks description_checks
      due_date_checks
  update_task_schema b =
      object_of (optional_text title_checks b.title)
        (nullable_optional description_checks b.description)
        (nullable_optional due_date_checks b.due_date) b.status

-- What zod documents: the checks run in their order, `trim` changes the text for the checks behind it,
-- and an object is parsed where each of its fields is. `is_datetime` are the dates that `datetime()`
-- takes.
pub record ZodLaws (z : Zod) (is_datetime : Text → Bool) : Type 1 where
  pub no_checks : (t : Text) → z.parse_string [] t ≡ parsed t
  pub min_passes :
      (n : ℕ) (m : Text) (cs : List StringCheck) (t : Text)
      → n ≤ length t
      → z.parse_string (min n m ∷ cs) t ≡ z.parse_string cs t
  pub max_passes :
      (n : ℕ) (m : Text) (cs : List StringCheck) (t : Text)
      → length t ≤ n
      → z.parse_string (max n m ∷ cs) t ≡ z.parse_string cs t
  pub trims :
      (cs : List StringCheck) (t : Text)
      → z.parse_string (trimmed ∷ cs) t ≡ z.parse_string cs (trim t)
  pub datetime_passes :
      (m : Text) (cs : List StringCheck) (t : Text)
      → is_datetime t ≡ true
      → z.parse_string (datetime m ∷ cs) t ≡ z.parse_string cs t
  pub both_parsed : {A B : Type 0} (a : A) (b : B) → z.both (parsed a) (parsed b) ≡ parsed (a, b)
