-- ===== src/Page/Times.antt =====
-- The dates that the page shows: `timeAgo` of frontend/src/components/DeletedLog.jsx and `isOverdue` of
-- frontend/src/components/TaskCard.jsx. The clock and the dates of JavaScript are parameters.
use task.Prelude.{ℕ, ◌-◌, ◌/◌, Option, none, some, Bool, false, [], ◌∷◌, ◌++◌, if◌then◌else◌, ltb}
use task.Prelude.Text.{Text, codes}
use task.Audit.Json.{decimal}
use task.Task.Types.{TaskStatus, pending, in_progress, completed}

-- `time_of` is `new Date(text).getTime()`, none where it is NaN, and `locale_date` is
-- `new Date(text).toLocaleDateString()`.
pub record PageDates : Type 0 where
  pub time_of : Text → Option ℕ
  pub locale_date : Text → Text

module _ (dates : PageDates) (now : ℕ) where
  open dates use {time_of, locale_date}

  -- The age of a date in seconds; a date that is to come counts as 0 seconds old, which are shown alike.
  abbrev seconds_since : ℕ → ℕ
  seconds_since then' = (now - then') / 1000

  abbrev ago : Text → ℕ → Text
  ago iso seconds =
      let minutes = seconds / 60 in
      let hours = minutes / 60 in
      let days = hours / 24 in
      if ltb seconds 60
      then codes "just now"
      else if ltb minutes 60
      then decimal minutes ++ codes "m ago"
      else if ltb hours 24
      then decimal hours ++ codes "h ago"
      else if ltb days 7
      then decimal days ++ codes "d ago"
      else locale_date iso

  -- Every comparison with NaN fails.
  abbrev ago_if : Text → Option ℕ → Text
  ago_if iso none = locale_date iso
  ago_if iso (some then') = ago iso (seconds_since then')

  unfoldable pub time_ago : Text → Text
  unfolding decimal
  time_ago [] = []
  time_ago (c ∷ cs) = ago_if (c ∷ cs) (time_of (c ∷ cs))

  abbrev is_before : Option ℕ → Bool
  is_before none = false
  is_before (some t) = ltb t now

  unfoldable pub is_past_due : Text → TaskStatus → Bool
  is_past_due [] status = false
  is_past_due (c ∷ cs) completed = false
  is_past_due (c ∷ cs) pending = is_before (time_of (c ∷ cs))
  is_past_due (c ∷ cs) in_progress = is_before (time_of (c ∷ cs))
