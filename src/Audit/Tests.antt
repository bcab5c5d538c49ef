-- ===== src/Audit/Tests.antt =====
-- The audit theorems at concrete logs, and runs of `canonical`, `audit` and `verifyChain`.
use mathlib.Core.Path.{subst}
use task.Prelude.{
  Bool-cases, if◌then◌else◌, ◌≡◌, refl, inl, inr, ◌↔◌, true, false, ◌⊎◌, Option, none, some, List,
  [], ◌∷◌, map, length, replicate,
}
use task.Prelude.Text.{Text, codes, text_eq, text_eq_iff}
use task.Prelude.Sorting.{All, Shuffle, nil, cons, here, there, sort}
use task.Audit.Json.{Json, Fields, undefined, num, str, obj, end, field, canonical}
use task.Audit.Json.Size.{reparse_fields}
use task.Audit.Chain.{
  Entry, success, from_request, boot, genesis, audit, verify_chain, seq_le, stripped, body_of,
}
use task.Audit.Script.{verify_audit, key_of, split_lines, records_in, exit_status}
use task.Forms.Trim.{trim, trim_start, trim_end, is_space}
use task.Prelude.{◌==◌}
use task.Audit.Emission.{AuditCall, body, run}
use task.Audit.Grouping.{of_chain}
use task.Audit.Verify.{IsVerified, verify_chain_iff}
use task.Audit.Tamper.{Collision, AllAgree, anchored_chains_agree}
use task.Audit.Transport.{IsDefined, read_back, read_back-verifies, undefined_field_rejected}

print_sorted :
    canonical (
      obj (
        field
          (codes "b")
          (num 10)
          (field (codes "a") (str (codes "x\"y")) (field (codes "c") undefined end))))
    ≡ codes "{\"a\":\"x\\\"y\",\"b\":10,\"c\":null}"
unfolding canonical
print_sorted = refl

-- A stand-in for the HMAC with digests of 64 digits.
abbrev flat_hmac : Text → Text → Text
flat_hmac key m = replicate 64 48

abbrev logged : Fields → Fields
logged fs =
    field (codes "level") (str (codes "info"))
      (field (codes "message") (str (codes "audit")) (reparse_fields fs))

logged_lem : (fs : Fields) → stripped (logged fs) ≡ stripped (reparse_fields fs)
unfolding stripped
logged_lem fs = refl

abbrev call_with : Json → AuditCall
call_with ua = record {
  timestamp = codes "t";
  request_id = none;
  event = record {
    action = codes "auth.login";
    result = success;
    actor = none;
    resource = none;
    context = from_request (str (codes "::1")) (str (codes "POST")) (str (codes "/")) ua;
    metadata = none;
  };
}

abbrev browser : AuditCall
browser = call_with (str (codes "ua"))

abbrev this_chain : Text
this_chain = codes "c"

-- The processes: one with two calls, and no other.
abbrev calls : Text → List AuditCall
calls cid = if text_eq this_chain cid then browser ∷ browser ∷ [] else []

abbrev first_record : Entry
first_record = record {
  category = codes "AUDIT";
  chain_id = this_chain;
  seq = 0;
  prev_hash = genesis;
  hash = genesis;
  body = body browser;
}

abbrev second_record : Entry
second_record = record first_record { seq = 1 }

-- The two records were collected in the wrong order.
abbrev collected : List (Option Entry)
collected =
    some (read_back logged logged_lem second_record)
    ∷ some (read_back logged logged_lem first_record)
    ∷ []

emitted_lem :
    (run flat_hmac (codes "k") this_chain boot (browser ∷ browser ∷ [])).emitted
    ≡ first_record ∷ second_record ∷ []
unfolding run audit
emitted_lem = refl

collected_own : Shuffle (of_chain this_chain collected) (
    map
      (read_back logged logged_lem)
      (run flat_hmac (codes "k") this_chain boot (browser ∷ browser ∷ [])).emitted)
unfolding of_chain
collected_own = rw emitted_lem (cons (there here) (cons here nil))

collected_mixed :
    (cid : Text)
    → Shuffle
        (of_chain cid collected)
        (map (read_back logged logged_lem) (run flat_hmac (codes "k") cid boot (calls cid)).emitted)
unfolding of_chain run
collected_mixed cid = elim (Bool-cases (text_eq this_chain cid)) [
  | inl same ↦
      subst
        (λ (c : Text).
          Shuffle (of_chain c collected) (
            map (read_back logged logged_lem) (run flat_hmac (codes "k") c boot (calls c)).emitted))
        ((text_eq_iff this_chain cid).0 same) (unfold text_eq in collected_own)
  | inr other ↦ rw other nil
]

calls-IsDefined : (cid : Text) → All (λ x. IsDefined (body x)) (calls cid)
unfolding reparse_fields body_of
calls-IsDefined cid =
    elim (text_eq this_chain cid)
      as (λ b. All (λ x. IsDefined (body x)) (if b then browser ∷ browser ∷ [] else [])) [
        | true ↦ (refl, (refl, tt))
        | false ↦ tt
      ]

read_back-verifies_example : (verify_chain flat_hmac collected (codes "k")).ok ≡ true
read_back-verifies_example =
    read_back-verifies logged logged_lem flat_hmac (codes "k") calls collected calls-IsDefined
      collected_mixed

-- A request with no `User-Agent`.
abbrev script_call : AuditCall
script_call = call_with undefined

abbrev script_record : Entry
script_record = record first_record { body = body script_call }

abbrev script_log : List (Option Entry)
script_log = some (read_back logged logged_lem script_record) ∷ []

script_shuffled : Shuffle (of_chain this_chain script_log) (
    map
      (read_back logged logged_lem)
      (run flat_hmac (codes "k") this_chain boot (script_call ∷ [])).emitted)
unfolding of_chain run audit
script_shuffled = cons here nil

script_accepted : (verify_chain flat_hmac script_log (codes "k")).ok ≡ true
unfolding verify_chain
script_accepted = refl

-- The stand-in has collisions, and only so is the log of such a request accepted.
undefined_field_rejected_example : Collision flat_hmac (codes "k")
unfolding body_of
undefined_field_rejected_example =
    undefined_field_rejected logged logged_lem flat_hmac (codes "k") this_chain (script_call ∷ [])
      script_log (inl tt) script_shuffled script_accepted

flat_length : (m : Text) → length (flat_hmac (codes "k") m) ≡ 64
flat_length m = refl

own_log : List (Option Entry)
own_log = some first_record ∷ some second_record ∷ []

own_accepted : (verify_chain flat_hmac own_log (codes "k")).ok ≡ true
unfolding own_log verify_chain
own_accepted = refl

anchored_chains_agree_example :
    let xs = sort seq_le (of_chain this_chain own_log) in
    Collision flat_hmac (codes "k") ⊎ AllAgree xs xs
anchored_chains_agree_example =
    anchored_chains_agree flat_hmac (codes "k") flat_length this_chain own_log own_log own_accepted
      own_accepted refl refl

verify_chain_iff_example :
    ((verify_chain flat_hmac own_log (codes "k")).ok ≡ true)
    ↔ IsVerified flat_hmac (codes "k") own_log
verify_chain_iff_example = verify_chain_iff flat_hmac (codes "k") own_log

-- The script finds no record, and no key.
nothing_found :
    (verify_audit (λ line. none) flat_hmac (some (codes "k")) none (codes "a\nb") ≡ 2)
    × (verify_audit (λ line. some first_record) flat_hmac none none (codes "a") ≡ 2)
unfolding verify_audit key_of split_lines records_in exit_status trim trim_start trim_end is_space
nothing_found = (refl, refl)

-- Among a line that is no record the script finds one, and accepts it.
one_found :
    verify_audit
      (λ line. elim line [ [] ↦ none | c ∷ cs ↦ if c == 97 then some first_record else none ])
      flat_hmac
      (some [])
      (some (codes "k"))
      (codes "a\n \nb\n")
    ≡ 0
unfolding verify_audit key_of split_lines records_in exit_status trim trim_start trim_end is_space
    verify_chain text_eq
one_found = refl
