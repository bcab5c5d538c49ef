-- ===== src/Task/Chained.antt =====
-- The audit chain of a process that serves task requests at the same time: `audit`
-- (backend/src/utils/audit.js) takes the next number and the last hash without an `await` between.
use task.Prelude.{ℕ, String, ◌≡◌, Bool, List, [], ◌∷◌, map}
use task.Prelude.Sorting.{All}
use task.Http.{Request}
use task.Async.{interleave}
use task.Async.Steps.{AnyValue, Awaited, interleave-Steps}
use task.Audit.Chain.{Chain, boot}
use task.Audit.Emission.{IsIntact, audit-IsIntact, run, run-boot-IsIntact}
use task.Service.Answer.{Ask}
use task.Service.Effects.{Services, World, ask}
use task.Task.Model.{TaskClient, find_by_id, remove, update_task}
use task.Task.Controller.{Payload}
use task.Task.Requests.{Command}
use task.Task.Calls.{Audits, Within, asked}
use task.Task.Rules.{
  Keeps, creating-Keeps, listing-Keeps, listing_deleted-Keeps, getting-Keeps, updating-Keeps,
  deleting-Keeps,
}
use task.Task.Concurrent.{start_request}

module _ (s : Services) (c : TaskClient s.Db) (is_uuid : String → Bool) where
  abbrev pub Intact : Chain → Type 0
  Intact = IsIntact s.hmac s.audit_key s.chain_id

  abbrev OfChain : s.Db → Chain → Type 0
  OfChain db ch = Intact ch

  abbrev audits : Audits s OfChain
  audits rid e db ch h =
      audit-IsIntact s.hmac s.audit_key s.chain_id
        (record { timestamp = s.clock ch.next_seq; request_id = rid; event = e }) ch h

  any_query :
      {A : Type 0} (q : Ask s.Db A)
      → Awaited {R = Payload} (Within s c is_uuid OfChain audits) AnyValue (ask s q)
  any_query q = asked s c is_uuid OfChain audits AnyValue q (λ _ _ h. h) λ _ _ _ _ _ _. tt

  start_request-Keeps :
      (cmd : Command) (req : Request)
      → Keeps s c is_uuid OfChain audits (start_request s c is_uuid (cmd, req))
  unfolding start_request
  start_request-Keeps (Command.create body) req =
      creating-Keeps s c is_uuid OfChain audits req body λ _ _ h. h
  start_request-Keeps Command.list req = listing-Keeps s c is_uuid OfChain audits req λ _ _ h. h
  start_request-Keeps Command.list_deleted req =
      listing_deleted-Keeps s c is_uuid OfChain audits req λ _ _ h. h
  start_request-Keeps (Command.get id) req =
      getting-Keeps s c is_uuid OfChain audits req id AnyValue (any_query (find_by_id c id))
  start_request-Keeps (Command.update id body) req =
      updating-Keeps s c is_uuid OfChain audits req id AnyValue (any_query (find_by_id c id)) body
        λ _ _ _ _ _. any_query (update_task c id body)
  start_request-Keeps (Command.delete id) req =
      deleting-Keeps s c is_uuid OfChain audits req id AnyValue (any_query (find_by_id c id))
        λ _ _ _ _ _. any_query (remove c id)

  started-Keeps :
      (requests : List (Command × Request))
      → All (Keeps s c is_uuid OfChain audits) (map (start_request s c is_uuid) requests)
  started-Keeps [] = tt
  started-Keeps ((cmd, req) ∷ rest) = (start_request-Keeps cmd req, started-Keeps rest)

  -- However the requests of a process are interleaved, its audit chain is intact: numbered from 0
  -- without a gap or a repetition, each record linked to the one before it and signed.
  pub interleave-IsIntact :
      (requests : List (Command × Request)) (schedule : List ℕ) (w : World s)
      → w.chain ≡ boot
      → Intact (interleave schedule w (map (start_request s c is_uuid) requests)).world.chain
  unfolding run
  interleave-IsIntact requests schedule w e =
      interleave-Steps (Within s c is_uuid OfChain audits) AnyValue schedule w
        (map (start_request s c is_uuid) requests)
        (rw e (run-boot-IsIntact s.hmac s.audit_key s.chain_id [])) (started-Keeps requests)
