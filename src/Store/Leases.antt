-- ===== src/Store/Leases.antt =====
-- internal/store/operations.go: the leases of the workers. Claiming, renewing, releasing and the
-- updates of a row.
pub mod Claim
pub mod Fencing
pub mod Stale
pub mod Invariant
use joyrun.Base.{
  ℕ, zero, suc, ◌+◌, String, Bool, true, false, ◌&&◌, ◌||◌, not, Option, none, some, List, [], ◌∷◌,
  ◌++◌, ◌==◌, any, update_where, select_where, find_where, if◌then◌else◌, nat_eq, ltb,
}
use joyrun.Base.Text.{Text, codes, to_lower, contains}
use joyrun.Fault.{
  Result, ok, err, fail, operation_invalid, operation_duplicate, operation_not_found,
  operation_lease_lost, database_failed, database_busy,
}
use joyrun.Timestamp.{Timestamp, is_zero, text_lt}
use joyrun.Model.{
  OperationState, is_unset, is_queued, is_running, Operation, OperationEvent, OperationTask,
  ProjectRow, Task,
}
use joyrun.Store.{Database, Sql, Exec}
use joyrun.Store.Operations.{earliest}

-- An expired lease: `state='running' AND lease_expires_at IS NOT NULL AND lease_expires_at < now`.
abbrev lease_before : Option Timestamp → Timestamp → Bool
lease_before none now = false
lease_before (some t) now = text_lt t now

unfoldable pub lease_expired : Timestamp → Operation → Bool
lease_expired now o = is_running o.state && lease_before o.lease_expires_at now

unfoldable pub reclaim : Timestamp → Operation → Operation
reclaim now o = record o {
  state = OperationState.queued;
  lease_owner = "";
  lease_expires_at = none;
  updated_at = now;
}

abbrev due : Option Timestamp → Timestamp → Bool
due none now = true
due (some t) now = not (text_lt now t)

-- `cluster_key='' OR cluster_key NOT IN (…)`, written only if a key that is not empty is blocked.
unfoldable pub is_blocked : List String → Operation → Bool
is_blocked blocked o =
    not (o.cluster_key == "") && any (λ k. not (k == "") && o.cluster_key == k) blocked

unfoldable pub claimable : Timestamp → List String → Operation → Bool
unfolding is_blocked
claimable now blocked o =
    is_queued o.state && due o.next_attempt_at now && not (is_blocked blocked o)

-- The operation as the claiming worker gets it.
unfoldable pub claimed : String → Timestamp → Timestamp → Operation → Operation
claimed owner now expires op = record op {
  state = OperationState.running;
  lease_owner = owner;
  lease_expires_at = some expires;
  started_at = some now;
  attempt = op.attempt + 1;
  updated_at = now;
}

-- What the last UPDATE of the claim writes into a row.
abbrev write_claim : Operation → Operation → Operation
write_claim op row = record row {
  state = op.state;
  stage = op.stage;
  attempt = op.attempt;
  lease_owner = op.lease_owner;
  lease_expires_at = op.lease_expires_at;
  started_at = op.started_at;
  updated_at = op.updated_at;
}

-- The rows as the claim's first UPDATE leaves them.
unfoldable pub reclaimed : Timestamp → Database → List Operation
unfolding lease_expired reclaim
reclaimed now db = update_where (lease_expired now) (reclaim now) db.operations

-- The row that the claim selects.
unfoldable pub candidate : Timestamp → List String → Database → Option Operation
unfolding earliest claimable reclaimed
candidate now blocked db = earliest (select_where (claimable now blocked) (reclaimed now db))

-- ClaimNextOperationExcept. `expires` is `now.Add(lease)`. Where no row is selected the method
-- returns before the commit, so the reclaimed leases are rolled back too.
unfoldable pub claim_next_operation_except :
    Sql → String → Timestamp → Timestamp → List String → Exec (Option Operation)
claim_next_operation_except sql owner now expires blocked db =
    if owner == ""
    then (fail operation_invalid false, db)
    else if not (sql 0)
    then (fail database_busy true, db)
    else if not (sql 1)
    then (fail database_failed true, db)
    else if not (sql 2)
    then (fail database_failed false, db)
    else elim (candidate now blocked db) [
      | none ↦ (ok none, db)
      | some row ↦
          let op = claimed owner now expires row in
          if not (sql 3 && sql 4) then (fail database_failed true, db) else (
            ok (some op),
            record db {
              operations =
                  update_where (λ o. o.id == op.id && is_queued o.state) (write_claim op)
                    (reclaimed now db);
            },
          )
    ]

-- An UPDATE of the operations with a WHERE clause, and the error for zero rows affected.
abbrev update_rows :
    Sql → (Operation → Bool) → (Operation → Operation) → Result (Unit {0}) → Exec Unit
update_rows sql p f missing db =
    if not (sql 0)
    then (fail database_failed true, db)
    else if any p db.operations
    then (ok tt, record db { operations = update_where p f db.operations })
    else (missing, db)

-- `operationUpdateValues`: the columns that a full update writes.
unfoldable pub write_values : Operation → Operation → Operation
write_values op row = record row {
  state = op.state;
  stage = op.stage;
  payload = op.payload;
  result = op.result;
  attempt = op.attempt;
  max_attempts = op.max_attempts;
  retry_deadline_at = op.retry_deadline_at;
  next_attempt_at = op.next_attempt_at;
  lease_owner = op.lease_owner;
  lease_expires_at = op.lease_expires_at;
  error_code = op.error_code;
  error_message = op.error_message;
  retryable = op.retryable;
  started_at = op.started_at;
  updated_at = op.updated_at;
  finished_at = op.finished_at;
}

abbrev pub touch : Timestamp → Operation → Operation
touch now op = record op { updated_at = if is_zero op.updated_at then now else op.updated_at }

-- UpdateOperation
unfoldable pub update_operation : Sql → Timestamp → Operation → Exec Unit
update_operation sql now op db =
    if op.id == ""
    then (fail operation_invalid false, db)
    else update_rows sql (λ o. o.id == op.id) (write_values (touch now op))
        (fail operation_not_found false) db

-- The row that a worker still owns.
unfoldable pub owned_by : String → String → Operation → Bool
owned_by id owner o = o.id == id && is_running o.state && o.lease_owner == owner

-- UpdateOperationOwned
unfoldable pub update_operation_owned : Sql → Timestamp → Operation → String → Exec Unit
unfolding owned_by
update_operation_owned sql now op owner db =
    if op.id == "" || owner == ""
    then (fail operation_invalid false, db)
    else update_rows sql (owned_by op.id owner) (write_values (touch now op))
        (fail operation_lease_lost true) db

unfoldable pub renewed : Timestamp → Timestamp → Operation → Operation
renewed now expires row = record row { lease_expires_at = some expires; updated_at = now }

-- RenewOperationLease
unfoldable pub renew_operation_lease : Sql → Timestamp → String → String → Timestamp → Exec Unit
unfolding owned_by renewed
renew_operation_lease sql now id owner expires db =
    if id == "" || owner == ""
    then (fail operation_invalid false, db)
    else update_rows sql (owned_by id owner) (renewed now expires) (fail operation_lease_lost true)
        db

unfoldable pub requeued : Timestamp → Operation → Operation
requeued now row = record row {
  state = OperationState.queued;
  stage = "queued";
  retryable = true;
  next_attempt_at = none;
  lease_owner = "";
  lease_expires_at = none;
  error_code = "";
  error_message = "";
  updated_at = now;
}

-- RequeueOwnedOperation
unfoldable pub requeue_owned_operation : Sql → Timestamp → String → String → Exec Unit
unfolding owned_by requeued
requeue_owned_operation sql now id owner db =
    if id == "" || owner == ""
    then (fail operation_invalid false, db)
    else update_rows sql (owned_by id owner) (requeued now) (fail operation_lease_lost true) db
