-- ===== src/Forms/Tests.antt =====
-- Tests of the form and of the schemas, with a zod that runs the checks.
use task.Prelude.{
  ℕ, ◌+◌, none, ap, sym, ◌&&◌, if◌then◌else◌, ◌≡◌, refl, some, Bool, true, false, List, [], ◌∷◌,
  ◌++◌, arith, length, leb,
}
use task.Prelude.Text.{Text, codes, text_eq, includes_text}
use task.Task.Types.{completed}
use task.Server.Validate.{Parsed, parsed, rejected, Issue}
use task.Forms.Trim.{is_space, trim_start, trim_end, trim}
use task.Forms.Schema.{
  map_parsed, StringCheck, min, max, trimmed, datetime, email, to_lower_case, Zod, ZodLaws,
  TaskBody, create_task_schema, update_task_schema, title_checks,
}
use task.Forms.TaskForm.{
  Dates, TaskForm, saved, save_failed, no_errors, validate_form, is_valid, payload_of_form,
  due_date_of, submit, form_saved, title_error, description_error,
}
use task.Forms.Accounts.{signup_schema, role_field, email_checks}
use task.Forms.Accepted.{submitted_accepted}

abbrev issue : Issue
issue = record { path = []; message = "" }

abbrev failing : Bool → Parsed Text → Parsed Text
failing true p = p
failing false (parsed t) = rejected (issue ∷ [])
failing false (rejected is) = rejected (issue ∷ is)

-- A date that ends in Z and has four digits for its year.
abbrev is_iso : Text → Bool
is_iso t = includes_text (codes "Z") t && leb (length t) 24

abbrev run_checks : List StringCheck → Text → Parsed Text
run_checks [] t = parsed t
run_checks (min n m ∷ cs) t = failing (leb n (length t)) (run_checks cs t)
run_checks (max n m ∷ cs) t = failing (leb (length t) n) (run_checks cs t)
run_checks (trimmed ∷ cs) t = run_checks cs (trim t)
run_checks (datetime m ∷ cs) t = failing (is_iso t) (run_checks cs t)
run_checks (email m ∷ cs) t = failing (includes_text (codes "@") t) (run_checks cs t)
run_checks (to_lower_case ∷ cs) t = run_checks cs t

abbrev in_enum : List Text → Text → Parsed Text
in_enum [] t = rejected (issue ∷ [])
in_enum (v ∷ vs) t = let rest = in_enum vs t in if text_eq v t then parsed t else rest

abbrev together : {A B : Type 0} → Parsed A → Parsed B → Parsed (A × B)
together (parsed a) (parsed b) = parsed (a, b)
together (parsed a) (rejected is) = rejected is
together (rejected is) (parsed b) = rejected is
together (rejected is) (rejected js) = rejected (is ++ js)

abbrev zod : Zod
zod = record {
  parse_string = run_checks;
  both = together;
  missing = λ m cs. rejected (issue ∷ []);
  parse_enum = in_enum;
}

zod-ZodLaws : ZodLaws zod is_iso
zod-ZodLaws = record {
  no_checks = λ t. refl;
  min_passes = λ n m cs t h. ground arith;
  max_passes = λ n m cs t h. ground arith;
  trims = λ cs t. refl;
  datetime_passes = λ m cs t h. ground arith;
  both_parsed = λ a b. refl;
}

abbrev dates : Dates
dates = record {
  to_local = λ t. t;
  to_iso = λ t. if leb 16 (length t) then some (t ++ codes ":00.000Z") else none;
  range_error = codes "Invalid time value";
}

abbrev form : TaskForm
form = record {
  title = codes "  Buy milk ";
  description = codes " ";
  due_date = codes "2026-01-01T10:00";
  status = completed;
  errors = no_errors;
  submitting = false;
}

good : is_valid (validate_form form) ≡ true
unfolding validate_form is_valid title_error description_error trim trim_start trim_end is_space
good = refl

abbrev sent : TaskBody
sent = record {
  title = some (codes "Buy milk");
  description = some none;
  due_date = some (some (codes "2026-01-01T10:00:00.000Z"));
  status = some completed;
}

made : payload_of_form dates form ≡ some sent
unfolding payload_of_form due_date_of trim trim_start trim_end is_space
made = refl

is_printed : (t : Text) → dates.to_iso form.due_date ≡ some t → is_iso t ≡ true
unfolding includes_text
is_printed t e = ap (λ o. elim o [ none ↦ true | some x ↦ is_iso x ]) (sym e)

submitted_accepted_example :
    (create_task_schema zod sent ≡ parsed sent) × (update_task_schema zod sent ≡ parsed sent)
submitted_accepted_example =
    submitted_accepted zod is_iso zod-ZodLaws dates form sent made is_printed good

-- A date that throws is reported in the form, and nothing is sent.
throws : (submit dates (λ b (n : ℕ). (saved, n + 1)) (record form { due_date = codes "x" }) 0) ≡ (
  (
    record form {
      due_date = codes "x";
      errors = record no_errors { api = some (codes "Invalid time value") };
    },
    false,
  ),
  0,
)
unfolding submit form_saved payload_of_form due_date_of validate_form is_valid title_error
    description_error no_errors trim trim_start trim_end is_space
throws = refl

-- The API takes a title of spaces alone, and stores an empty one; the form does not send it.
blank : run_checks title_checks (codes "  ") ≡ parsed []
unfolding title_checks trim trim_start trim_end is_space
blank = refl

blank_stopped :
    (submit dates (λ b (n : Unit). (saved, n)) (record form { title = codes "  " }) tt).0.1 ≡ false
unfolding submit validate_form is_valid title_error trim trim_start trim_end is_space
blank_stopped = refl

keeps_open :
    (submit dates (λ b (n : Unit). (save_failed [], n)) form tt).0.0.errors.api
    ≡ some (codes "An error occurred while saving the task")
unfolding submit form_saved validate_form is_valid title_error description_error trim trim_start
    trim_end is_space
keeps_open = refl

-- A sign-up with a short password and an unknown role has two issues.
signs_up :
    signup_schema zod (record {
      email = some (codes "a@x");
      password = some (codes "short");
      role = some (codes "ROOT");
    })
    ≡ rejected (issue ∷ issue ∷ [])
unfolding signup_schema map_parsed role_field email_checks includes_text text_eq
signs_up = refl
