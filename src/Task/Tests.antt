-- ===== src/Task/Tests.antt =====
-- The task theorems at concrete tables, and runs of the handlers.
use task.Audit.Chain.{success}
use task.Task.Outcomes.{audited_by}
use task.Prelude.{ℕ, map, String, ◌≡◌, refl, inl, Bool, true, false, none, some, List, [], ◌∷◌}
use task.Http.{Request, Outcome, stop, run_handler, send_success, send_error}
use task.Async.{Process, System, ended, ◌>>=◌, interleave}
use task.Service.Answer.{answer}
use task.Service.Effects.{Services, World, record_audit, publish_event}
use task.Service.Sample.{sample_services, sample_world, alice, bob, request_of}
use task.Task.Types.{Task, pending, TaskPatch}
use task.Task.Model.{find_by_id, remove, by_id}
use task.Task.Memory.{uuid_eq, Memory, memory_client, memory_tables, memory-Documented}
use task.Task.Controller.{
  task_event, Payload, one, message, can_access, get_task_by_id, delete_task,
}
use task.Task.Tables.{matches, rows_where, remove_where, log_task_deletion, Same}
use task.Task.Requests.{Command, handle, after}
use task.Task.Isolation.{In}
use task.Task.Concurrent.{start_request, deleting}
use task.Task.Interleaved.{interleave_isolated}
use task.Task.Chained.{Intact, interleave-IsIntact}
use task.Task.Disclosure.{got, updated, deleted, denied_like_missing, get_task_by_id_sound}
use task.Task.Mutations.{refused_changes_nothing, delete_task-logged}

abbrev any_id : String → Bool
any_id id = true

abbrev task_of : String → String → Task
task_of id owner = record {
  id = id;
  title = "t";
  description = none;
  status = pending;
  due_date = none;
  user_id = some owner;
  created_at = "now";
  updated_at = "now";
}

abbrev store : Memory
store = record { tasks = task_of "1" "alice" ∷ task_of "2" "bob" ∷ []; deleted = [] }

abbrev no_patch : TaskPatch
no_patch = record { title = none; description = none; due_date = none; status = none }

abbrev services : Services
services = sample_services Memory

abbrev world : World services
world = sample_world store

-- Bob reads his own task.
bob_reads :
    (run_handler (get_task_by_id services memory_client any_id "2" (request_of bob)) world).0
    ≡ send_success (one (task_of "2" "bob")) 200
unfolding get_task_by_id find_by_id can_access matches rows_where
bob_reads = refl

get_task_by_id_sound_example :
    (rows_where (matches uuid_eq (by_id "2")) store.tasks ≡ task_of "2" "bob" ∷ [])
    × (can_access bob (task_of "2" "bob") ≡ true)
get_task_by_id_sound_example =
    get_task_by_id_sound services memory_client any_id "2" (request_of bob) memory_tables
      memory-Documented world (task_of "2" "bob") bob_reads

-- Bob tries to delete and to change Alice's task.
abbrev attempts : List (Command × Request)
attempts =
    (Command.delete "1", request_of bob)
    ∷ (Command.update "1" (record no_patch { title = some "mine" }), request_of bob)
    ∷ (Command.delete "2", request_of bob)
    ∷ []

bob_denied : can_access bob (task_of "1" "alice") ≡ false
unfolding can_access
bob_denied = refl

-- Bob's requests and one of Alice, whose steps take turns.
abbrev bob_and_alice : List (Command × Request)
bob_and_alice = (Command.list, request_of alice) ∷ attempts

abbrev turns : List ℕ
turns = 1 ∷ 0 ∷ 2 ∷ 1 ∷ 1 ∷ 0 ∷ 3 ∷ 1 ∷ []

interleave_isolated_example :
    In
      (task_of "1" "alice")
      (interleave turns world
        (map (start_request services memory_client any_id) attempts)).world.db.tasks
interleave_isolated_example =
    interleave_isolated services memory_client any_id memory_tables memory-Documented
      (task_of "1" "alice") attempts turns world (inl refl)
      (bob_denied, (bob_denied, (bob_denied, tt)))

interleave-IsIntact_example :
    Intact services memory_client any_id
      (interleave turns world
        (map (start_request services memory_client any_id) bob_and_alice)).world.chain
interleave-IsIntact_example =
    interleave-IsIntact services memory_client any_id bob_and_alice turns world refl

-- Two deletions of one task whose lookups both come before the first removal: the second removal
-- finds no row, and its request ends with 500 where it would have ended with 404 alone.
abbrev both_delete : System (World services) Payload (Outcome Payload)
both_delete = interleave (0 ∷ 0 ∷ 0 ∷ 0 ∷ 1 ∷ 1 ∷ 1 ∷ 1 ∷ 0 ∷ 1 ∷ 1 ∷ []) world (
    map (start_request services memory_client any_id)
      ((Command.delete "2", request_of bob) ∷ (Command.delete "2", request_of bob) ∷ []))

SecondRefused : List (Process (World services) Payload (Outcome Payload)) → Type 0
SecondRefused (p ∷ ended (stop o) ∷ []) = o ≡ send_error "Failed to delete task" [] 500
SecondRefused _ = ⊥

both_delete_races : SecondRefused both_delete.processes
unfolding SecondRefused interleave start_request deleting ◌>>=◌ find_by_id can_access matches
    rows_where remove record_audit remove_where
both_delete_races = refl

found_1 : (find_by_id memory_client "1" store).0 ≡ answer (some (task_of "1" "alice")) none
unfolding find_by_id matches rows_where
found_1 = refl

abbrev emptied : Memory
emptied = record { tasks = []; deleted = [] }

missing_1 : (find_by_id memory_client "1" emptied).0 ≡ answer none (some "PGRST116")
unfolding find_by_id matches rows_where
missing_1 = refl

denied_like_missing_example :
    let req = request_of bob in
    let w' : World services = sample_world emptied in
    (got services memory_client any_id "1" req world ≡ got services memory_client any_id "1" req w')
    × (updated services memory_client any_id "1" req no_patch world
        ≡ updated services memory_client any_id "1" req no_patch w')
    × (deleted services memory_client any_id "1" req world
        ≡ deleted services memory_client any_id "1" req w')
denied_like_missing_example =
    denied_like_missing services memory_client any_id "1" (request_of bob) world
      (sample_world emptied) (task_of "1" "alice") no_patch (some "PGRST116") found_1 bob_denied
      missing_1

bob_deletes :
    (run_handler (delete_task services memory_client any_id "2" (request_of bob)) world).0
    ≡ send_success (message "Task deleted successfully") 200
unfolding delete_task find_by_id can_access remove matches rows_where record_audit publish_event
bob_deletes = refl

delete_task-logged_example :
    let (o, w') =
      run_handler (delete_task services memory_client any_id "2" (request_of bob)) world in
    (old : Task) × (can_access bob old ≡ true)
    × (rows_where (matches uuid_eq (by_id "2")) store.tasks ≡ old ∷ [])
    × (w'.db.tasks ≡ remove_where (matches uuid_eq (by_id "2")) store.tasks)
    × (w'.db.deleted ≡ log_task_deletion old ∷ [])
    × (w'.chain
        ≡ audited_by services
            (task_event "task.delete" success "2" (request_of bob))
            (request_of bob)
            world.chain)
delete_task-logged_example =
    delete_task-logged services memory_client any_id memory_tables memory-Documented "2"
      (request_of bob) world (message "Task deleted successfully") 200 bob_deletes

bob_fails :
    (run_handler
      (handle services memory_client any_id (Command.delete "1") (request_of bob))
      world).0
    ≡ send_error "Task not found" [] 404
unfolding handle delete_task find_by_id can_access matches rows_where record_audit
bob_fails = refl

refused_changes_nothing_example :
    Same memory_tables store
      (after services memory_client any_id (Command.delete "1") (request_of bob) world).db
refused_changes_nothing_example =
    refused_changes_nothing services memory_client any_id memory_tables memory-Documented
      (Command.delete "1") (request_of bob) world "Task not found" [] 404 bob_fails refl
