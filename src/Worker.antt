-- ===== src/Worker.antt =====
-- internal/cli/operations.go: what the daemon's worker and the user's `joyrun operation` commands
-- do to an operation.
pub mod Races
pub mod Dispatcher
pub mod Poll
use joyrun.Base.{
  ℕ, ◌+◌, String, Bool, true, false, ◌&&◌, ◌||◌, not, Option, none, some, List, ◌==◌, if◌then◌else◌,
}
use joyrun.Fault.{
  Result, ok, err, fail, operation_terminal, operation_cancel_unsafe, operation_not_retryable,
}
use joyrun.Timestamp.{Timestamp}
use joyrun.Model.{OperationState, is_succeeded, is_failed, is_cancelled, is_running, Operation}
use joyrun.Store.{Database, Sql, Exec}
use joyrun.Store.Operations.{get_operation, append_operation_event}
use joyrun.Store.Leases.{update_operation, update_operation_owned, requeue_owned_operation}

-- `joyrun operation cancel` and `retry`, after the row was read: the row to write, or the refusal.
unfoldable pub cancel_change : Timestamp → Operation → Result Operation
cancel_change now op =
    if is_succeeded op.state || is_failed op.state || is_cancelled op.state
    then fail operation_terminal false
    else if is_running op.state && op.kind == "submit"
    then fail operation_cancel_unsafe false
    else ok (record op {
      state = OperationState.cancelled;
      stage = "cancelled";
      error_code = "OPERATION_CANCELLED";
      error_message = "cancelled by user";
      retryable = false;
      lease_owner = "";
      lease_expires_at = none;
      updated_at = now;
    })

unfoldable pub retry_change : Timestamp → Operation → Result Operation
retry_change now op =
    if not (is_failed op.state) && not (is_cancelled op.state)
    then fail operation_not_retryable false
    else ok (record op {
      state = OperationState.queued;
      stage = "queued";
      error_code = "";
      error_message = "";
      retryable = false;
      next_attempt_at = none;
      finished_at = none;
      lease_owner = "";
      lease_expires_at = none;
      updated_at = now;
    })

abbrev finish_change :
    Result (Unit {0}) × Database → Operation → Database → Result Operation × Database
finish_change (ok _, db) op after = (ok op, after)
finish_change (err e, db) op after = (err e, db)

-- The rest of either command: the update without a test on the row's state, and the event, whose
-- error is dropped.
unfoldable pub write_change : Sql → Sql → Timestamp → Result Operation → Exec Operation
unfolding update_operation append_operation_event
write_change put note now (err e) db = (err e, db)
write_change put note now (ok op) db =
    let (result, db') = update_operation put now op db in
    finish_change (result, db') op
      (append_operation_event note 0 now op.id op.state op.stage "operation state changed by user"
        db').1

-- Which command of the two.
pub data UserCommand : Type 0 where
  cancel retry : UserCommand

abbrev pub change : UserCommand → Timestamp → Operation → Result Operation
change cancel = cancel_change
change retry = retry_change

abbrev pub bind_read :
    Result Operation × Database → (Operation → Exec Operation) → Result Operation × Database
bind_read (ok op, db) f = f op db
bind_read (err e, db) f = (err e, db)

-- The command as a whole, when nothing else touches the database in between.
unfoldable pub operation_command :
    Sql → Sql → Sql → Timestamp → UserCommand → String → Exec Operation
unfolding get_operation cancel_change retry_change write_change
operation_command read put note now command id db =
    bind_read (get_operation read id db) (λ op. write_change put note now (change command now op))

-- requeueOperation
unfoldable pub requeue_operation : Sql → Timestamp → Operation → Database → Database
requeue_operation sql now op db = (requeue_owned_operation sql now op.id op.lease_owner db).1

-- updateOperationStage: the worker's copy with its new stage, and the result.
unfoldable pub update_operation_stage :
    Sql → Sql → Timestamp → Operation → String → String → Exec (Unit {0})
update_operation_stage put note now given stage message db =
    let op = record given { stage = stage; updated_at = now } in
    let (result, db') = update_operation_owned put now op op.lease_owner db in
    elim result [
      | err e ↦ (err e, db')
      | ok _ ↦ append_operation_event note 0 now op.id op.state stage message db'
    ]

-- The row that finishOperation writes.
unfoldable pub finished :
    Timestamp → OperationState → String → String → String → Bool → Operation → Operation
finished now state stage message code retryable op = record op {
  state = state;
  stage = stage;
  error_code = code;
  error_message = message;
  retryable = retryable;
  lease_owner = "";
  lease_expires_at = none;
  finished_at = some now;
  updated_at = now;
}

abbrev already_cancelled : Result Operation → Bool
already_cancelled (ok current) = is_cancelled current.state
already_cancelled (err e) = false

-- finishOperation; `stage` is the state's own text. Errors end the method in silence.
unfoldable pub finish_operation :
    Sql
    → Sql
    → Sql
    → Timestamp
    → OperationState
    → String
    → String
    → String
    → Bool
    → Operation
    → Database
    → Database
unfolding finished
finish_operation read put note now state stage message code retryable op db =
    if already_cancelled (get_operation read op.id db).0
    then db
    else let done = finished now state stage message code retryable op in
      let (result, db') =
        if not (op.lease_owner == "")
        then update_operation_owned put now done op.lease_owner db
        else update_operation put now done db in
      elim result [
        | err e ↦ db'
        | ok _ ↦ (append_operation_event note 0 now op.id state stage message db').1
      ]
