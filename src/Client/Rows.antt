-- ===== src/Client/Rows.antt =====
-- What the task list of the page shows under an id (frontend/src/hooks/useTasks.js).
use text.Mathlib.Text.{◌==◌}
use text.Mathlib.TextEquality.{eq_iff}
use task.Prelude.{String, Option, none, some, ◌≡◌, List, [], ◌∷◌, if◌then◌else◌, arith}
use task.Task.Types.{Task}
use task.Client.Board.{filtered}

-- The task with an id.
unfoldable pub lookup : String → List Task → Option Task
lookup id [] = none
lookup id (t ∷ ts) = let rest = lookup id ts in if t.id == id then some t else rest

pub lookup-filtered :
    (id x : String) (ts : List Task)
    → lookup x (filtered id ts) ≡ (if id == x then none else lookup x ts)
unfolding lookup filtered
lookup-filtered id x [] = ground arith
lookup-filtered id x (u ∷ ts) =
    ground (arith, lookup-filtered id x ts, eq_iff u.id id, eq_iff id x, eq_iff u.id x)
