-- ===== src/Forms/TaskForm.antt =====
-- The form of a task: frontend/src/components/TaskModal.jsx. The dates of JavaScript are parameters, and
-- so is what the page does with a task that is saved.
use task.Prelude.{
  Option, none, some, Bool, true, false, ◌&&◌, not, [], ◌∷◌, if◌then◌else◌, length, ltb,
}
use task.Prelude.Text.{Text, codes}
use task.Task.Types.{Task, TaskStatus, pending, is_none}
use task.Forms.Trim.{trim}
use task.Forms.Schema.{TaskBody}

-- `to_local` gives a date in the format of the input `datetime-local`, and `to_iso` is
-- `new Date(text).toISOString()`, or none where that throws its RangeError, with the given message.
pub record Dates : Type 0 where
  pub to_local : Text → Text
  pub to_iso : Text → Option Text
  pub range_error : Text

pub record FormErrors : Type 0 where
  pub title : Option Text
  pub description : Option Text
  pub api : Option Text

pub record TaskForm : Type 0 where
  pub title : Text
  pub description : Text
  pub due_date : Text
  pub status : TaskStatus
  pub errors : FormErrors
  pub submitting : Bool

unfoldable pub no_errors : FormErrors
no_errors = record { title = none; description = none; api = none }

abbrev pub is_nil : Text → Bool
is_nil [] = true
is_nil (c ∷ cs) = false

-- The effect that fills the form when it opens, for a new task or the one to edit.
unfoldable pub fill : Dates → Option Task → TaskForm → TaskForm
unfolding no_errors
fill dates none f = record {
  title = [];
  description = [];
  due_date = [];
  status = pending;
  errors = no_errors;
  submitting = f.submitting;
}
fill dates (some t) f = record {
  title = codes t.title;
  description = elim t.description [ none ↦ [] | some d ↦ codes d ];
  due_date = elim t.due_date [
    | none ↦ []
    | some d ↦ if is_nil (codes d) then [] else dates.to_local (codes d)
  ];
  status = t.status;
  errors = no_errors;
  submitting = f.submitting;
}

unfoldable pub title_error : Text → Option Text
unfolding trim
title_error title =
    if is_nil (trim title)
    then some (codes "Title is required")
    else if ltb 255 (length title)
    then some (codes "Title must be 255 characters or less")
    else none

unfoldable pub description_error : Text → Option Text
description_error description =
    if not (is_nil description) && ltb 5000 (length description)
    then some (codes "Description must be 5000 characters or less")
    else none

-- `validate`
unfoldable pub validate_form : TaskForm → FormErrors
unfolding title_error description_error
validate_form f = record {
  title = title_error f.title;
  description = description_error f.description;
  api = none;
}

-- `Object.keys(newErrors).length === 0`
unfoldable pub is_valid : FormErrors → Bool
is_valid e = is_none e.title && (is_none e.description && is_none e.api)

-- `text || null`
abbrev pub text_or_null : Text → Option Text
text_or_null [] = none
text_or_null (c ∷ cs) = some (c ∷ cs)

-- `dueDate ? new Date(dueDate).toISOString() : null`, or none where that throws.
unfoldable pub due_date_of : Dates → Text → Option (Option Text)
due_date_of dates [] = some none
due_date_of dates (c ∷ cs) = elim (dates.to_iso (c ∷ cs)) [ none ↦ none | some t ↦ some (some t) ]

abbrev pub payload_due : TaskForm → Option Text → TaskBody
payload_due f due_date = record {
  title = some (trim f.title);
  description = some (text_or_null (trim f.description));
  due_date = some due_date;
  status = some f.status;
}

-- The payload, or none where the date throws.
unfoldable pub payload_of_form : Dates → TaskForm → Option TaskBody
unfolding trim due_date_of
payload_of_form dates f = elim (due_date_of dates f.due_date) [
  | none ↦ none
  | some due ↦ some (payload_due f due)
]

-- How `onSave` ends: it resolves, or throws with a message.
pub data Saved : Type 0 where
  saved : Saved
  save_failed : Text → Saved

-- `err.message || '...'`
abbrev message_shown : Text → Text
message_shown [] = codes "An error occurred while saving the task"
message_shown (c ∷ cs) = c ∷ cs

-- The form behind `onSave`, and whether it has been closed.
unfoldable pub form_saved : Saved → TaskForm → TaskForm × Bool
form_saved saved f = (record f { submitting = false }, true)
form_saved (save_failed m) f = (
  record f {
    errors = record { title = none; description = none; api = some (message_shown m) };
    submitting = false;
  },
  false,
)

-- `handleSubmit`: the form, whether it has been closed, and the world behind the page.
unfoldable pub submit :
    {W : Type 0} → Dates → (TaskBody → W → Saved × W) → TaskForm → W → (TaskForm × Bool) × W
unfolding validate_form is_valid payload_of_form form_saved
submit dates on_save f w =
    let errors = validate_form f in
    let shown : TaskForm = record f { errors = errors } in
    if is_valid errors
    then elim (payload_of_form dates f) [
      | none ↦ (form_saved (save_failed dates.range_error) shown, w)
      | some b ↦ let (r, w') = on_save b w in (form_saved r shown, w')
    ]
    else ((shown, false), w)
