-- ===== src/Task/Alone.antt =====
-- The processes of the task requests, each run alone, are the handlers
-- (backend/src/controllers/task.controller.js).
use task.Prelude.{ℕ, String, ◌≡◌, refl, ap, ◌∙◌, Bool, List, [], ◌∷◌, map, arith}
use task.Http.{Request}
use task.Async.{◌>>=◌, run, interleave}
use task.Async.Serial.{Runs, one_by_one, serial_schedule}
use task.Service.Effects.{Services, World}
use task.Task.Types.{NewTask, TaskPatch}
use task.Task.Model.{TaskClient}
use task.Task.Controller.{
  create_task, get_all_tasks, get_task_by_id, delete_task, update_task_handler, get_deleted_tasks,
}
use task.Task.Requests.{Command, handle, serve, after}
use task.Task.Concurrent.{
  creating, listing, getting, updating, deleting, listing_deleted, start_request,
}

module _ (s : Services) (c : TaskClient s.Db) (is_uuid : String → Bool) where
  creating-Runs :
      (body : NewTask) (req : Request)
      → Runs (creating s c is_uuid body req) (create_task s c is_uuid body req)
  unfolding creating create_task run ◌>>=◌
  creating-Runs body req w = ground arith

  listing-Runs : (req : Request) → Runs (listing s c is_uuid req) (get_all_tasks s c is_uuid req)
  unfolding listing get_all_tasks run ◌>>=◌
  listing-Runs req w = ground arith

  getting-Runs :
      (id : String) (req : Request)
      → Runs (getting s c is_uuid id req) (get_task_by_id s c is_uuid id req)
  unfolding getting get_task_by_id run ◌>>=◌
  getting-Runs id req w = ground arith

  updating-Runs :
      (id : String) (body : TaskPatch) (req : Request)
      → Runs (updating s c is_uuid id body req) (update_task_handler s c is_uuid id body req)
  unfolding updating update_task_handler run ◌>>=◌
  updating-Runs id body req w = ground arith

  deleting-Runs :
      (id : String) (req : Request)
      → Runs (deleting s c is_uuid id req) (delete_task s c is_uuid id req)
  unfolding deleting delete_task run ◌>>=◌
  deleting-Runs id req w = ground arith

  listing_deleted-Runs :
      (req : Request) → Runs (listing_deleted s c is_uuid req) (get_deleted_tasks s c is_uuid req)
  unfolding listing_deleted get_deleted_tasks run ◌>>=◌
  listing_deleted-Runs req w = ground arith

  -- A request that nothing interrupts does what its handler does: it ends the same way and leaves
  -- the same world.
  pub start_request-Runs :
      (cmd : Command) (req : Request)
      → Runs (start_request s c is_uuid (cmd, req)) (handle s c is_uuid cmd req)
  unfolding start_request handle
  start_request-Runs (Command.create body) req = creating-Runs body req
  start_request-Runs Command.list req = listing-Runs req
  start_request-Runs Command.list_deleted req = listing_deleted-Runs req
  start_request-Runs (Command.get id) req = getting-Runs id req
  start_request-Runs (Command.update id body) req = updating-Runs id body req
  start_request-Runs (Command.delete id) req = deleting-Runs id req

  one_by_one-serve :
      (requests : List (Command × Request)) (w : World s)
      → (one_by_one (map (start_request s c is_uuid) requests) w).world
        ≡ serve s c is_uuid requests w
  unfolding serve
  one_by_one-serve [] w = refl
  one_by_one-serve ((cmd, req) ∷ rest) w =
      rw (one_by_one, start_request-Runs cmd req w)
        (one_by_one-serve rest (after s c is_uuid cmd req w))

  -- Requests that are served one after the other are one of the interleavings of the same requests.
  pub serve_serial :
      (requests : List (Command × Request)) (w : World s)
      → (schedule : List ℕ) × ((interleave schedule w
            (map (start_request s c is_uuid) requests)).world
          ≡ serve s c is_uuid requests w)
  serve_serial requests w =
      let (schedule, e) = serial_schedule (map (start_request s c is_uuid) requests) w in
      (schedule, ap (λ y. y.world) e ∙ one_by_one-serve requests w)
