-- ===== src/Task/Outcomes.antt =====
-- What the outcome of a request says of the queries that it made
-- (backend/src/controllers/task.controller.js).
use task.Prelude.{ltb, true, ℕ, ◌+◌, String, ◌≡◌, ◌⊎◌, none, some, Bool, List, arith}
use task.Http.{Request, FieldError, run_handler, send_success, send_error}
use task.Prelude.Text.{codes}
use task.Audit.Chain.{Chain, Event, audit, success}
use task.Service.Answer.{Answer, answer}
use task.Service.Effects.{Services, World, record_audit, publish_event}
use task.Task.Types.{Task, NewTask, TaskPatch}
use task.Task.Model.{TaskClient, find_by_id, remove}
use task.Task.Controller.{Payload, task_event, create_task, update_task_handler, delete_task}
use task.Task.Touches.{Granted}

abbrev pub Succeeded : {A : Type 0} → Answer A → Type 0
Succeeded (answer d none) = Unit
Succeeded _ = ⊥

-- What `audit` makes of the chain at a request.
abbrev pub audited_by : Services → Event → Request → Chain → Chain
audited_by s e req ch =
    audit s.hmac s.audit_key s.chain_id (s.clock ch.next_seq) (some (codes req.request_id)) e ch

module _ (s : Services) (c : TaskClient s.Db) (is_uuid : String → Bool) (req : Request)
    (w : World s) where
  module _ (id : String) where
    abbrev looked_up : Answer Task × s.Db
    looked_up = find_by_id c id w.db

    pub update_refused :
        (body : TaskPatch) (m : String) (es : List FieldError) (st : ℕ)
        → let (o, w') = run_handler (update_task_handler s c is_uuid id body req) w in
          o ≡ send_error m es st → ltb st 500 ≡ true → (w'.db ≡ w.db) ⊎ (w'.db ≡ looked_up.1)
    unfolding update_task_handler record_audit publish_event
    update_refused body m es st h low = ground arith

    pub delete_refused :
        (m : String) (es : List FieldError) (st : ℕ)
        → let (o, w') = run_handler (delete_task s c is_uuid id req) w in
          o ≡ send_error m es st → ltb st 500 ≡ true → (w'.db ≡ w.db) ⊎ (w'.db ≡ looked_up.1)
    unfolding delete_task record_audit publish_event
    delete_refused m es st h low = ground arith

    pub delete-Succeeded :
        (p : Payload) (st : ℕ)
        → let (o, w') = run_handler (delete_task s c is_uuid id req) w in
          let wrote = remove c id looked_up.1 in
          o ≡ send_success p st
          → Granted req.user looked_up.0
            × Succeeded wrote.0
            × (w'.db ≡ wrote.1)
            × (w'.chain ≡ audited_by s (task_event "task.delete" success id req) req w.chain)
    unfolding delete_task record_audit publish_event
    delete-Succeeded p st h = ground arith

    pub update_succeeded :
        (body : TaskPatch) (p : Payload) (st : ℕ)
        → let (o, w') = run_handler (update_task_handler s c is_uuid id body req) w in
          o ≡ send_success p st → w'.chain.next_seq ≡ w.chain.next_seq + 1
    unfolding update_task_handler record_audit publish_event
    update_succeeded body p st h = ground arith

  pub create_refused :
      (body : NewTask) (m : String) (es : List FieldError) (st : ℕ)
      → (run_handler (create_task s c is_uuid body req) w).0 ≡ send_error m es st
      → st ≡ 500
  unfolding create_task record_audit publish_event
  create_refused body m es st h = ground arith

  pub create_succeeded :
      (body : NewTask) (p : Payload) (st : ℕ)
      → let (o, w') = run_handler (create_task s c is_uuid body req) w in
        o ≡ send_success p st → w'.chain.next_seq ≡ w.chain.next_seq + 1
  unfolding create_task record_audit publish_event
  create_succeeded body p st h = ground arith
