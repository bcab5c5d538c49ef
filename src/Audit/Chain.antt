-- ===== src/Audit/Chain.antt =====
-- `audit` and `verifyChain` of backend/src/utils/audit.js.
use task.Prelude.{
  ℕ, ◌+◌, Bool, true, false, not, List, [], ◌∷◌, ◌++◌, Option, none, some, leb, length, replicate,
  ◌==◌, if◌then◌else◌,
}
use task.Prelude.Text.{Text, codes, text_eq}
use task.Prelude.Sorting.{sort}
use task.Audit.Json.{Json, Fields, null, num, str, obj, end, field, canonical, without}

-- `'0'.repeat(64)`
abbrev pub genesis : Text
genesis = replicate 64 48

-- A record of the log. `body` holds the fields other than `category`, `chainId`, `seq`, `prevHash`
-- and `hash`.
pub record Entry : Type 0 where
  pub category : Text
  pub chain_id : Text
  pub seq : ℕ
  pub prev_hash : Text
  pub hash : Text
  pub body : Fields

pub data AuditResult : Type 0 where
  success failure : AuditResult

-- The `context` objects that the callers pass: none, `fromRequest(req)`, or `{ requestId }`. A field
-- whose value the request lacks is `undefined`.
pub data Context : Type 0 where
  absent : Context
  from_request : (ip method path user_agent : Json) → Context
  of_event : Json → Context

pub record Event : Type 0 where
  pub action : Text
  pub result : AuditResult
  pub actor : Option Fields
  pub resource : Option Fields
  pub context : Context
  pub metadata : Option Fields

-- `x || null`
abbrev pub or_null : Option Fields → Json
or_null none = null
or_null (some f) = obj f

abbrev pub id_or_null : Option Text → Json
id_or_null none = null
id_or_null (some t) = str t

abbrev result_text : AuditResult → Text
result_text success = codes "SUCCESS"
result_text failure = codes "FAILURE"

-- `...(metadata ? { metadata } : {})`
abbrev pub spread_metadata : Option Fields → Fields
spread_metadata none = end
spread_metadata (some f) = field (codes "metadata") (obj f) end

-- `requestId: requestId || null, ...context, ...(metadata ? { metadata } : {})`: a context with a
-- `requestId` of its own replaces the value that stands there.
unfoldable pub spread_context : Json → Context → Fields → Fields
spread_context rid absent rest = field (codes "requestId") rid rest
spread_context rid (from_request ip method path ua) rest = field (codes "requestId") rid (
    field (codes "ip") ip (
      field (codes "method") method
        (field (codes "path") path (field (codes "userAgent") ua rest))))
spread_context rid (of_event own) rest = field (codes "requestId") own rest

-- The fields of a record that do not belong to the chain.
unfoldable pub body_of : Text → Option Text → Event → Fields
unfolding spread_context
body_of timestamp request_id e = field (codes "timestamp") (str timestamp) (
    field (codes "action") (str e.action) (
      field (codes "result") (str (result_text e.result)) (
        field (codes "actor") (or_null e.actor) (
          field (codes "resource") (or_null e.resource)
            (spread_context (id_or_null request_id) e.context (spread_metadata e.metadata))))))

-- The object that a record's hash commits to, with the given other fields.
abbrev pub committed : Entry → Fields → Fields
committed r body = field (codes "category") (str r.category) (
    field (codes "chainId") (str r.chain_id)
      (field (codes "seq") (num r.seq) (field (codes "prevHash") (str r.prev_hash) body)))

-- `recordWithoutHash.prevHash + canonical(recordWithoutHash)`
unfoldable pub message : Entry → Fields → Text
unfolding canonical
message r body = r.prev_hash ++ canonical (obj (committed r body))

-- What a process keeps: `seq`, `lastHash`, and the records that the audit logger was given.
pub record Chain : Type 0 where
  pub next_seq : ℕ
  pub last_hash : Text
  pub emitted : List Entry

abbrev pub boot : Chain
boot = record { next_seq = 0; last_hash = genesis; emitted = [] }

-- `const { hash, level, message, ...rest } = r`, for the other fields.
unfoldable pub stripped : Fields → Fields
unfolding without
stripped body = without (codes "message") (without (codes "level") body)

pub data Reason : Type 0 where
  missing_or_duplicate : ℕ → Reason
  bad_link altered : Reason

pub record Problem : Type 0 where
  pub in_chain : Text
  pub at_seq : ℕ
  pub reason : Reason

abbrev report_if : Bool → Problem → List Problem
report_if true p = p ∷ []
report_if false p = []

unfoldable pub seq_le : Entry → Entry → Bool
seq_le a b = leb a.seq b.seq

-- `byChain.get(r.chainId).push(r)`, after `byChain.set(r.chainId, [])` where the key is new.
unfoldable pub push_group : Entry → List (Text × List Entry) → List (Text × List Entry)
unfolding text_eq
push_group r [] = (r.chain_id, r ∷ []) ∷ []
push_group r ((c, rs) ∷ groups) =
    if text_eq r.chain_id c then (c, rs ++ r ∷ []) ∷ groups else (c, rs) ∷ push_group r groups

-- The first loop of `verifyChain`; `none` is a falsy record.
unfoldable pub group_from :
    List (Option Entry) → List (Text × List Entry) → List (Text × List Entry)
unfolding push_group text_eq
group_from [] groups = groups
group_from (none ∷ rs) groups = group_from rs groups
group_from (some r ∷ rs) groups =
    group_from rs (if text_eq r.category (codes "AUDIT") then push_group r groups else groups)

pub record Verdict : Type 0 where
  pub ok : Bool
  pub chains : ℕ
  pub checked : ℕ
  pub errors : List Problem

abbrev pub no_problems : List Problem → Bool
no_problems [] = true
no_problems (_ ∷ _) = false

module _ (hmac : Text → Text → Text) where
  -- `audit`: the process is `chain_id`, the key is memoized, and the clock and the request's id are
  -- read at the call.
  unfoldable pub audit : Text → Text → Text → Option Text → Event → Chain → Chain
  unfolding message body_of
  audit key chain_id timestamp request_id e c =
      let body = body_of timestamp request_id e in
      let unsigned : Entry = record {
        category = codes "AUDIT";
        chain_id = chain_id;
        seq = c.next_seq;
        prev_hash = c.last_hash;
        hash = [];
        body = body;
      } in
      let signed : Entry = record unsigned { hash = hmac key (message unsigned body) } in
      record {
        next_seq = c.next_seq + 1;
        last_hash = signed.hash;
        emitted = c.emitted ++ signed ∷ [];
      }

  -- The body of the inner loop of `verifyChain`, for one record.
  unfoldable pub check_record : Text → Text → Text → ℕ → Entry → List Problem
  unfolding message stripped text_eq
  check_record key cid expected_prev expected_seq r =
      report_if (not (r.seq == expected_seq))
        (record { in_chain = cid; at_seq = r.seq; reason = missing_or_duplicate expected_seq })
      ++ (report_if (not (text_eq r.prev_hash expected_prev))
            (record { in_chain = cid; at_seq = r.seq; reason = bad_link })
          ++ report_if (not (text_eq (hmac key (message r (stripped r.body))) r.hash))
              (record { in_chain = cid; at_seq = r.seq; reason = altered }))

  unfoldable pub check_records : Text → Text → Text → ℕ → List Entry → List Problem
  unfolding check_record
  check_records key cid expected_prev expected_seq [] = []
  check_records key cid expected_prev expected_seq (r ∷ rs) =
      check_record key cid expected_prev expected_seq r
      ++ check_records key cid r.hash (r.seq + 1) rs

  -- The outer loop: the problems of each chain in turn, and the number of records.
  unfoldable pub check_groups : Text → List (Text × List Entry) → ℕ × List Problem
  unfolding check_records sort seq_le
  check_groups key [] = (0, [])
  check_groups key ((cid, rs) ∷ groups) =
      let (n, problems) = check_groups key groups in
      (length rs + n, check_records key cid genesis 0 (sort seq_le rs) ++ problems)

  unfoldable pub verify_chain : List (Option Entry) → Text → Verdict
  unfolding check_groups group_from
  verify_chain records key =
      let groups = group_from records [] in
      let (checked, errors) = check_groups key groups in
      record { ok = no_problems errors; chains = length groups; checked = checked; errors = errors }
