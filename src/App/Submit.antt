-- ===== src/App/Submit.antt =====
-- internal/app/app.go: ExecuteReservedSubmit, and the stages of a submission.
use joyrun.Base.{
  String, Bool, true, false, ◌&&◌, not, Option, none, some, List, ◌==◌, any, is_some, if◌then◌else◌,
}
use joyrun.Base.Text.{Text, codes, of_digits}
use joyrun.Base.Strings.{trim_space}
use joyrun.Base.Numbers.{parse_uint}
use joyrun.Fault.{
  Code, Result, ok, err, fail, submit_failed, submit_rejected, remote_metadata_failed, ssh_timeout,
  submission_cancelled, snapshot_prepare_failed, upload_timeout, upload_failed,
  submission_uncertain, cluster_not_found,
}
use joyrun.Timestamp.{Timestamp}
use joyrun.Model.{ComputeState, Task, TaskEvent}
use joyrun.Store.Metadata.{set_meta}
use joyrun.Slurm.{Reply}
use joyrun.Slurm.Submit.{submit, submission_definitely_rejected, find_by_task_id}
use joyrun.App.Program.{
  ContextState, live, deadline_exceeded, cancelled, Submission, now, get_task, events, update,
  write_metadata, write_script, push, sbatch, read_marker, query_jobs, Query, done, Attempt, ◌>>=◌,
  ◌>>◌, ask, ask_result, return,
}

-- SubmitResult
pub record SubmitResult : Type 0 where
  pub task : Task
  pub deduplicated : Bool

-- taskEvent
abbrev pub task_event : Task → String → String → String → Timestamp → TaskEvent
task_event task kind stage msg at = record {
  task_id = task.id;
  kind = kind;
  stage = stage;
  message = msg;
  created_at = at;
}

-- recordStage: on success the task has its next revision.
abbrev pub record_stage : Task → String → String → String → Attempt Task
record_stage task kind stage msg = do
  at ← ask now
  let updated : Task = record task { updated_at = at }
  stamp ← ask now
  ask_result (update updated (task_event updated kind stage msg stamp)) (λ r. r)

-- A code and its text, which the task keeps in its metadata.
pub record Reason : Type 0 where
  pub code : Code
  pub text : String

abbrev pub reason_of : Code → String → Reason
reason_of c t = record { code = c; text = t }

-- operationFailure, with the codes that submitPrepared passes for the remote metadata.
abbrev pub operation_failure : ContextState → Reason
operation_failure live = reason_of remote_metadata_failed "REMOTE_METADATA_FAILED"
operation_failure deadline_exceeded = reason_of ssh_timeout "SSH_TIMEOUT"
operation_failure cancelled = reason_of submission_cancelled "SUBMISSION_CANCELLED"

-- transferFailure
abbrev pub transfer_failure : ContextState → Bool → Reason
transfer_failure live true = reason_of upload_timeout "UPLOAD_TIMEOUT"
transfer_failure live false = reason_of upload_failed "UPLOAD_FAILED"
transfer_failure deadline_exceeded _ = reason_of upload_timeout "UPLOAD_TIMEOUT"
transfer_failure cancelled _ = reason_of submission_cancelled "SUBMISSION_CANCELLED"

-- The task that either failure writes.
unfoldable pub failed_task : ComputeState → Reason → String → String → Timestamp → Task → Task
failed_task state reason stage cause at task = record task {
  compute_state = state;
  updated_at = at;
  metadata =
      set_meta "error_stage" stage
        (set_meta "error" cause (set_meta "error_code" reason.text task.metadata));
}

-- failSubmission: the error of its own update is dropped.
abbrev pub fail_submission :
    {A : Type 0} → Task → Reason → String → String → Bool → String → Attempt A
fail_submission task reason stage msg retryable cause = do
  at ← ask now
  let updated : Task = failed_task ComputeState.submission_failed reason stage cause at task
  stamp ← ask now
  _ ← ask (update updated (task_event updated "SUBMISSION_FAILED" stage msg stamp))
  done (fail reason.code retryable)

-- failSubmissionUncertain
abbrev pub fail_submission_uncertain : {A : Type 0} → Task → String → String → String → Attempt A
fail_submission_uncertain task stage msg cause = do
  at ← ask now
  let updated : Task =
      failed_task ComputeState.submission_uncertain
        (reason_of submission_uncertain "SUBMISSION_UNCERTAIN") stage cause at task
  stamp ← ask now
  _ ← ask (update updated (task_event updated "SUBMISSION_UNCERTAIN" stage msg stamp))
  done (fail submission_uncertain true)

-- recoverSchedulerID: the marker if it is a job ID, else the job with the task's comment; `none` is
-- the empty ID. The two commands of the query are one request.
unfoldable pub marker_id : Reply → Option String
marker_id marker =
    if not marker.failed && is_some (parse_uint (trim_space marker.stdout))
    then some (of_digits (trim_space marker.stdout))
    else none

abbrev pub found_id : Result (Option Text) → Result (Option String)
found_id (err e) = err e
found_id (ok none) = ok none
found_id (ok (some id)) = ok (some (of_digits id))

-- FindByTaskID on the answers of the two commands.
unfoldable pub queried_id : Task → Query → Result (Option String)
queried_id task q = found_id (find_by_task_id (codes task.id) q.queue q.accounting)

-- What it hands back: the ID or an error with its text.
pub data Recovery : Type 0 where
  recovered : String → Recovery
  no_match : Recovery
  unknown : String → Recovery

abbrev pub recovery_of : String → Result (Option String) → Recovery
recovery_of cause (err e) = unknown cause
recovery_of cause (ok none) = no_match
recovery_of cause (ok (some id)) = recovered id

abbrev pub read_query : Task → Option String → Attempt Recovery
read_query task (some id) = return (recovered id)
read_query task none = do
  q ← ask (query_jobs task)
  return (recovery_of q.cause (queried_id task q))

abbrev pub recover_scheduler_id : Task → Attempt Recovery
recover_scheduler_id task = do marker ← ask (read_marker task); read_query task (marker_id marker)

-- The last update of a submission, with a fresh time for the task and for the event.
abbrev pub accept : Task → String → String → Attempt SubmitResult
accept task id msg = do
  at ← ask now
  let updated : Task = record task {
    scheduler_id = id;
    compute_state = ComputeState.queued;
    submitted_at = some at;
    updated_at = at;
  }
  stamp ← ask now
  saved ←
      ask_result (update updated (task_event updated "SCHEDULER_ACCEPTED" "submit" msg stamp))
        (λ r. r)
  return (record { task = saved; deduplicated = false })

abbrev pub is_uncertain : ComputeState → Bool
is_uncertain ComputeState.submission_uncertain = true
is_uncertain _ = false

abbrev pub is_created : ComputeState → Bool
is_created ComputeState.created = true
is_created _ = false

-- A task that is uncertain already is not written again.
abbrev pub uncertain_still : Task → String → String → Attempt SubmitResult
uncertain_still task msg cause =
    if is_uncertain task.compute_state
    then done (fail submission_uncertain true)
    else fail_submission_uncertain task "submit" msg cause

abbrev pub reconciled : Task → Recovery → Attempt SubmitResult
reconciled task (recovered id) =
    accept task id "Recovered scheduler acceptance without resubmitting"
reconciled task no_match =
    uncertain_still task
      "Slurm submission may have succeeded; refusing to submit again without confirmation"
      "no scheduler job matched the immutable JoyRun task marker"
reconciled task (unknown cause) =
    uncertain_still task "Slurm submission may have succeeded; reconciliation failed" cause

-- reconcileReservedSubmit; the clusters are the names of the configuration.
abbrev pub reconcile_reserved_submit : List String → Task → Attempt SubmitResult
reconcile_reserved_submit clusters task =
    if any (λ name. name == task.cluster_name) clusters
    then (do recovery ← recover_scheduler_id task; reconciled task recovery)
    else done (fail cluster_not_found false)

abbrev pub is_submit_rejected : Code → Bool
is_submit_rejected submit_rejected = true
is_submit_rejected _ = false

abbrev pub is_live : ContextState → Bool
is_live live = true
is_live _ = false

abbrev pub after_recovery : Task → Submission → Recovery → Attempt SubmitResult
after_recovery task sub (recovered id) = accept task id "Scheduler accepted task"
after_recovery task sub no_match =
    if is_live sub.context
    then fail_submission task (reason_of submit_failed "SUBMIT_FAILED") "submit"
        "cannot submit task to Slurm" true sub.cause
    else fail_submission_uncertain task "submit"
        "Slurm submission may have succeeded, but its scheduler ID could not be recovered" sub.cause
after_recovery task sub (unknown cause) =
    fail_submission_uncertain task "submit"
      "Slurm submission may have succeeded, but its scheduler ID could not be recovered" sub.cause

-- What follows the sbatch command.
abbrev pub submitted : Task → Submission → Result Text → Attempt SubmitResult
submitted task sub (ok id) = accept task (of_digits id) "Scheduler accepted task"
submitted task sub (err e) =
    if submission_definitely_rejected (is_submit_rejected e.code) (codes sub.cause)
    then fail_submission task (reason_of submit_failed "SUBMIT_FAILED") "submit"
        "Slurm rejected the task before accepting a job" false sub.cause
    else (do recovery ← recover_scheduler_id task; after_recovery task sub recovery)

abbrev pub run_sbatch : Task → Attempt SubmitResult
run_sbatch task = do sub ← ask (sbatch task); submitted task sub (submit sub.reply)

abbrev pub when_failed : Bool → Attempt (Unit {0}) → Attempt (Unit {0})
when_failed failed stop = if failed then stop else return tt

-- The stages of submitPrepared, the last first; each goes on with the task at its new revision.
abbrev pub start_submit : Task → Attempt SubmitResult
start_submit task = do
  t ← record_stage task "SUBMIT_STARTED" "submit" "Submitting task to scheduler"
  run_sbatch t

abbrev pub end_upload : Task → Attempt SubmitResult
end_upload task = do
  t ← record_stage task "UPLOAD_COMPLETED" "upload" "Input snapshot and rendered script uploaded"
  start_submit t

abbrev pub end_script : Task → Attempt SubmitResult
end_script task = do
  t ←
      record_stage task "SCRIPT_UPLOADED" "script"
        "Rendered job script uploaded with immutable snapshot"
  end_upload t

abbrev pub end_snapshot : Task → Attempt SubmitResult
end_snapshot task = do
  t ← record_stage task "SNAPSHOT_UPLOADED" "snapshot" "Immutable input snapshot uploaded"
  end_script t

abbrev pub push_snapshot : Task → Attempt SubmitResult
push_snapshot task = do
  pushed ← ask (push task)
  when_failed pushed.failed (
      fail_submission task (transfer_failure pushed.context pushed.upload_timeout) "snapshot"
        "cannot upload task files" true pushed.cause)
  end_snapshot task

abbrev pub add_script : Task → Attempt SubmitResult
add_script task = do
  script ← ask (write_script task)
  when_failed script.failed (
      fail_submission task (reason_of snapshot_prepare_failed "SNAPSHOT_PREPARE_FAILED") "script"
        "cannot add rendered job script to immutable snapshot" false script.cause)
  push_snapshot task

abbrev pub end_metadata : Task → Attempt SubmitResult
end_metadata task = do
  t ← record_stage task "METADATA_WRITTEN" "metadata" "Recovery metadata uploaded"
  add_script t

abbrev pub end_directory : Task → Attempt SubmitResult
end_directory task = do
  t ← record_stage task "REMOTE_DIR_CREATED" "remote_directory" "Remote task directory created"
  end_metadata t

abbrev pub upload_metadata : Task → Attempt SubmitResult
upload_metadata task = do
  wrote ← ask (write_metadata task)
  when_failed wrote.failed (
      fail_submission task (operation_failure wrote.context) "metadata"
        "cannot write recovery metadata" true wrote.cause)
  end_directory task

-- submitPrepared
abbrev pub submit_prepared : Task → Attempt SubmitResult
submit_prepared task = do
  t ← record_stage task "UPLOAD_STARTED" "upload" "Uploading immutable input snapshot"
  upload_metadata t

abbrev pub is_submit_started : TaskEvent → Bool
is_submit_started event = event.kind == "SUBMIT_STARTED"

abbrev pub execute_fenced : List String → Task → Bool → Attempt SubmitResult
execute_fenced clusters task true = reconcile_reserved_submit clusters task
execute_fenced clusters task false = submit_prepared task

-- ExecuteReservedSubmit, after the task was read.
abbrev pub execute_created : List String → Task → Attempt SubmitResult
execute_created clusters task = do
  recorded ← ask_result (events task.id) (λ r. r)
  execute_fenced clusters task (any is_submit_started recorded)

abbrev pub execute_read : List String → Task → Attempt SubmitResult
execute_read clusters task =
    if is_uncertain task.compute_state
    then reconcile_reserved_submit clusters task
    else if not (is_created task.compute_state)
    then return (record { task = task; deduplicated = true })
    else execute_created clusters task

abbrev pub execute_reserved_submit : List String → String → Attempt SubmitResult
execute_reserved_submit clusters id = do
  task ← ask_result (get_task id) (λ r. r)
  execute_read clusters task

-- Submit, after CreateTaskIdempotent: `some` is the task that holds the submission key. No event of
-- that task is read.
abbrev pub submit_created : Task → Option Task → Attempt SubmitResult
submit_created task none = submit_prepared task
submit_created task (some existing) =
    if not (is_created existing.compute_state)
    then return (record { task = existing; deduplicated = true })
    else submit_prepared existing
