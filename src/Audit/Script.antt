-- ===== src/Audit/Script.antt =====
-- backend/scripts/verify-audit.js, less what it prints. The environment, the input and the reading of a
-- line as JSON are parameters.
use task.Prelude.{ℕ, Option, none, some, Bool, true, false, List, [], ◌∷◌, map, if◌then◌else◌, ◌==◌}
use task.Prelude.Text.{Text, codes, text_eq}
use task.Forms.Trim.{trim}
use task.Audit.Chain.{Entry, verify_chain}

-- `input.split('\\n')`
abbrev with_first : ℕ → List Text → List Text
with_first c [] = (c ∷ []) ∷ []
with_first c (line ∷ lines) = (c ∷ line) ∷ lines

unfoldable pub split_lines : Text → List Text
split_lines [] = [] ∷ []
split_lines (c ∷ cs) =
    let lines = split_lines cs in if c == 10 then [] ∷ lines else with_first c lines

-- `process.env.AUDIT_HMAC_KEY || process.env.JWT_ACCESS_SECRET`, if it is not empty.
unfoldable pub key_of : Option Text → Option Text → Option Text
key_of (some (c ∷ cs)) access = some (c ∷ cs)
key_of (some []) (some (c ∷ cs)) = some (c ∷ cs)
key_of none (some (c ∷ cs)) = some (c ∷ cs)
key_of _ _ = none

-- `read` is the record that a line of JSON is, none where the line is no JSON or no object.
module _ (read : Text → Option Entry) where
  abbrev kept : Option Entry → List Entry → List Entry
  kept none rest = rest
  kept (some r) rest = if text_eq r.category (codes "AUDIT") then r ∷ rest else rest

  abbrev line_kept : Text → List Entry → List Entry
  line_kept [] rest = rest
  line_kept (c ∷ cs) rest = kept (read (c ∷ cs)) rest

  -- The loop over the lines.
  unfoldable pub records_in : List Text → List Entry
  unfolding trim text_eq
  records_in [] = []
  records_in (line ∷ lines) = line_kept (trim line) (records_in lines)

  module _ (hmac : Text → Text → Text) where
    abbrev exit_of : Bool → ℕ
    exit_of true = 0
    exit_of false = 1

    -- The exit status, for the records that have been found.
    unfoldable pub exit_status : List Entry → Text → ℕ
    unfolding verify_chain
    exit_status [] key = 2
    exit_status (r ∷ rs) key = exit_of (verify_chain hmac (map some (r ∷ rs)) key).ok

    abbrev with_key : Option Text → Text → ℕ
    with_key none input = 2
    with_key (some key) input = exit_status (records_in (split_lines input)) key

    unfoldable pub verify_audit : Option Text → Option Text → Text → ℕ
    unfolding key_of split_lines records_in exit_status
    verify_audit audit_hmac_key jwt_access_secret input =
        with_key (key_of audit_hmac_key jwt_access_secret) input
