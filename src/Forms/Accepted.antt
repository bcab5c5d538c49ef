-- ===== src/Forms/Accepted.antt =====
-- The API accepts what the form of the page sends.
use task.Prelude.{
  ◌≤◌, ◌≡◌, refl, ap, ◌∙◌, Option, none, some, Bool, true, false, [], ◌∷◌, arith, length,
}
use task.Prelude.Text.{Text}
use task.Server.Validate.{Parsed, parsed}
use task.Forms.Trim.{trim, trim_idem, length-trim}
use task.Forms.Schema.{
  Zod, ZodLaws, TaskBody, title_checks, description_checks, due_date_checks, create_task_schema,
  update_task_schema, map_parsed, nullable_optional, required_text, optional_text, object_of,
}
use task.Forms.TaskForm.{
  Dates, TaskForm, validate_form, is_valid, payload_of_form, payload_due, due_date_of, is_nil,
  text_or_null, title_error, description_error,
}

is_nil-length : (t : Text) → is_nil t ≡ false → 1 ≤ length t
is_nil-length [] h = absurd (ground arith)
is_nil-length (c ∷ cs) h = omega arith

title_facts : (t : Text) → title_error t ≡ none → (1 ≤ length (trim t)) × (length t ≤ 255)
unfolding title_error
title_facts t h = ground (arith, is_nil-length (trim t))

description_facts : (t : Text) → description_error t ≡ none → length t ≤ 5000
unfolding description_error
description_facts [] h = omega arith
description_facts (c ∷ cs) h = ground arith

module _ (z : Zod) (is_datetime : Text → Bool) (laws : ZodLaws z is_datetime) where
  open z use {parse_string}

  title_lem :
      (t : Text) → title_error t ≡ none → parse_string title_checks (trim t) ≡ parsed (trim t)
  unfolding title_checks
  title_lem t h =
      let (low, high) = title_facts t h in
      laws.min_passes 1 _ _ (trim t) low
      ∙ laws.max_passes 255 _ _ (trim t) (omega (arith, length-trim t, high))
      ∙ laws.trims [] (trim t)
      ∙ laws.no_checks (trim (trim t))
      ∙ ap parsed (trim_idem t)

  description_lem :
      (t : Text)
      → description_error t ≡ none
      → parse_string description_checks (trim t) ≡ parsed (trim t)
  unfolding description_checks
  description_lem t h =
      laws.max_passes 5000 _ _ (trim t) (omega (arith, length-trim t, description_facts t h))
      ∙ laws.trims [] (trim t)
      ∙ laws.no_checks (trim (trim t))
      ∙ ap parsed (trim_idem t)

  due_date_lem : (t : Text) → is_datetime t ≡ true → parse_string due_date_checks t ≡ parsed t
  unfolding due_date_checks
  due_date_lem t h = laws.datetime_passes _ _ t h ∙ laws.no_checks t

  description_field :
      (d : Text)
      → parse_string description_checks d ≡ parsed d
      → nullable_optional z description_checks (some (text_or_null d))
        ≡ parsed (some (text_or_null d))
  unfolding nullable_optional map_parsed
  description_field [] h = refl
  description_field (c ∷ cs) h = ap (map_parsed (λ x. some (some x))) h

  due_date_field :
      (due : Option Text)
      → ((t : Text) → due ≡ some t → is_datetime t ≡ true)
      → nullable_optional z due_date_checks (some due) ≡ parsed (some due)
  unfolding nullable_optional map_parsed
  due_date_field none h = refl
  due_date_field (some t) h = ap (map_parsed (λ x. some (some x))) (due_date_lem t (h t refl))

  -- The due date that is sent is one that the browser has printed.
  due_lem :
      (dates : Dates) (entered : Text) (due : Option Text)
      → ((t : Text) → dates.to_iso entered ≡ some t → is_datetime t ≡ true)
      → due_date_of dates entered ≡ some due
      → (t : Text) → due ≡ some t
      → is_datetime t ≡ true
  unfolding due_date_of
  due_lem dates [] due h e t d = absurd (ground arith)
  due_lem dates (c ∷ cs) due h e t d = h t (ground arith)

  payload_lem :
      (dates : Dates) (f : TaskForm) (b : TaskBody)
      → payload_of_form dates f ≡ some b
      → (due : Option Text) × (due_date_of dates f.due_date ≡ some due) × (b ≡ payload_due f due)
  unfolding payload_of_form
  payload_lem dates f b h = ground arith

  fields_lem :
      (title : Parsed (Option Text)) (description due_date : Parsed (Option (Option Text)))
      (b : TaskBody)
      → title ≡ parsed b.title
      → description ≡ parsed b.description
      → due_date ≡ parsed b.due_date
      → object_of z title description due_date b.status ≡ parsed b
  unfolding map_parsed
  fields_lem title description due_date b t d due =
      let dates : Option (Option Text) × Option (Option Text) = (b.description, b.due_date) in
      rw (t, d, due, laws.both_parsed b.description b.due_date, laws.both_parsed b.title dates) refl

  -- The API accepts every body that the form sends, of a new task and of an edited one, and stores its
  -- texts as they are, if the due date of the form, as the browser prints it, is a date of zod.
  pub submitted_accepted :
      (dates : Dates) (f : TaskForm) (b : TaskBody)
      → payload_of_form dates f ≡ some b
      → ((t : Text) → dates.to_iso f.due_date ≡ some t → is_datetime t ≡ true)
      → is_valid (validate_form f) ≡ true
      → (create_task_schema z b ≡ parsed b) × (update_task_schema z b ≡ parsed b)
  unfolding create_task_schema update_task_schema required_text optional_text map_parsed
      validate_form is_valid
  submitted_accepted dates f sent made iso valid =
      let title : title_error f.title ≡ none = ground arith in
      let description : description_error f.description ≡ none = ground arith in
      let (due, printed, e) = payload_lem dates f sent made in
      let b = payload_due f due in
      let stored =
        fields_lem _ _ _ b (ap (map_parsed some) (title_lem f.title title))
          (description_field (trim f.description) (description_lem f.description description))
          (due_date_field due (due_lem dates f.due_date due iso printed)) in
      rw e (stored, stored)
