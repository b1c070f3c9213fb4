-- ===== src/App/Status.antt =====
-- internal/app/app.go: what a scheduler's answer does to a task (applySchedulerStatus,
-- markSchedulerStale, refreshTask). The texts of times and the test on the age of the last observation
-- are parameters, since package time makes them. One reading stands for the clock over a call.
pub mod Terminal
pub mod Kept
use joyrun.Base.{
  ℕ, String, Bool, true, false, ◌&&◌, ◌||◌, not, Option, none, some, List, [], ◌∷◌, ◌++◌, ◌==◌, any,
  nat_eq, if◌then◌else◌,
}
use joyrun.Fault.{Error, Result, ok, err, fail, cluster_not_found}
use joyrun.Timestamp.{Timestamp}
use joyrun.Model.{ComputeState, Task, TaskEvent}
use joyrun.Store.{Database, Sql, Exec}
use joyrun.Store.Metadata.{get_meta, set_meta, delete_meta}
use joyrun.Store.TaskUpdates.{update_task, update_task_with_event}
use joyrun.Slurm.{JobState}
use joyrun.App.Submit.{task_event, is_uncertain, is_created}

-- scheduler.JobStatus, with its state as the task's words have it.
pub record Status : Type 0 where
  pub state : ComputeState
  pub raw_state : String
  pub reason : String
  pub elapsed : String
  pub exit_code : String
  pub start : String
  pub end : String

-- The same words in both packages.
abbrev pub compute_of : JobState → ComputeState
compute_of JobState.queued = ComputeState.queued
compute_of JobState.running = ComputeState.running
compute_of JobState.completed = ComputeState.completed
compute_of JobState.cancelled = ComputeState.cancelled
compute_of JobState.failed = ComputeState.failed
compute_of JobState.unknown = ComputeState.unknown

-- terminalComputeState
abbrev pub is_terminal : ComputeState → Bool
is_terminal ComputeState.completed = true
is_terminal ComputeState.failed = true
is_terminal ComputeState.cancelled = true
is_terminal _ = false

-- refreshableComputeState
abbrev pub is_refreshable : ComputeState → Bool
is_refreshable ComputeState.created = true
is_refreshable ComputeState.submission_failed = true
is_refreshable ComputeState.submission_uncertain = true
is_refreshable ComputeState.queued = true
is_refreshable ComputeState.running = true
is_refreshable ComputeState.unknown = true
is_refreshable _ = false

-- bulkRefreshableComputeState
abbrev pub is_bulk_refreshable : ComputeState → Bool
is_bulk_refreshable ComputeState.created = true
is_bulk_refreshable ComputeState.submission_uncertain = true
is_bulk_refreshable ComputeState.queued = true
is_bulk_refreshable ComputeState.running = true
is_bulk_refreshable ComputeState.unknown = true
is_bulk_refreshable _ = false

abbrev pub number_of : ComputeState → ℕ
number_of ComputeState.created = 0
number_of ComputeState.submission_failed = 1
number_of ComputeState.submission_uncertain = 2
number_of ComputeState.queued = 3
number_of ComputeState.running = 4
number_of ComputeState.completed = 5
number_of ComputeState.failed = 6
number_of ComputeState.cancelled = 7
number_of ComputeState.unknown = 8

-- `==` on the states
abbrev pub state_eq : ComputeState → ComputeState → Bool
state_eq a b = nat_eq (number_of a) (number_of b)

-- The texts of a task as an answer, under another state.
abbrev pub shown : ComputeState → Task → Status
shown state task = record {
  state = state;
  raw_state = task.scheduler_state;
  reason = task.scheduler_reason;
  elapsed = task.elapsed;
  exit_code = task.exit_code;
  start = task.scheduler_start;
  end = task.scheduler_end;
}

-- An answer that would take back a terminal state: only its texts count, if it has any.
unfoldable pub merged : Task → Status → Status
merged task status =
    if is_terminal task.compute_state && not (is_terminal status.state)
    then (if status.raw_state == ""
        then shown task.compute_state task
        else record status { state = task.compute_state })
    else status

abbrev pub write_status : Status → Task → Task
write_status status task = record task {
  compute_state = status.state;
  scheduler_state = status.raw_state;
  scheduler_reason = status.reason;
  elapsed = status.elapsed;
  exit_code = status.exit_code;
  scheduler_start = status.start;
  scheduler_end = status.end;
}

-- Everything but the elapsed time.
unfoldable pub same_status : Task → Task → Bool
same_status a b =
    state_eq a.compute_state b.compute_state
    && a.scheduler_state == b.scheduler_state
    && a.scheduler_reason == b.scheduler_reason
    && a.exit_code == b.exit_code
    && a.scheduler_start == b.scheduler_start
    && a.scheduler_end == b.scheduler_end

abbrev pub status_event : Task → Task → Timestamp → TaskEvent
status_event before task at =
    if not (state_eq before.compute_state task.compute_state)
      || not (before.scheduler_state == task.scheduler_state)
    then task_event task "COMPUTE_STATE_CHANGED" "status" "Scheduler state refreshed" at
    else task_event task "SCHEDULER_STATUS_CHANGED" "status" "Scheduler diagnostics refreshed" at

-- What a method hands back besides its error: the task, as the caller gets it either way.
pub record Refreshed : Type 0 where
  pub task : Task
  pub error : Option Error

abbrev pub refreshed : Task → Result Task → Refreshed
refreshed given (ok task) = record { task = task; error = none }
refreshed given (err e) = record { task = given; error = some e }

-- `recent text`: the text is a time less than five seconds ago. `stamp`: the text of a time.
module _ (recent : String → Bool) (stamp : Timestamp → String) where
  -- The three metadata entries of an observation.
  abbrev pub observe_metadata : Timestamp → List (String × String) → List (String × String)
  observe_metadata now metadata = delete_meta "scheduler_stale_since" (
      set_meta "scheduler_observed_at" (stamp now)
        (set_meta "scheduler_observation" "remote" metadata))

  -- The task after the answer, before it is written.
  unfoldable pub observed : Timestamp → Task → Status → Task
  unfolding merged
  observed now task status = record (write_status (merged task status) task) {
    metadata = observe_metadata now task.metadata;
  }

  -- applySchedulerStatus
  unfoldable pub apply_scheduler_status :
      Sql → Timestamp → Task → Status → Database → Refreshed × Database
  unfolding observed same_status
  apply_scheduler_status sql now task status db =
      let after = observed now task status in
      let written : Task = record after { updated_at = now } in
      if same_status task after
      then (if recent (get_meta "scheduler_observed_at" task.metadata)
          then (record { task = after; error = none }, db)
          else let (r, db') = update_task sql written none db in (refreshed written r, db'))
      else let (r, db') =
          update_task_with_event sql now written (status_event task written now) db in
        (refreshed written r, db')

  abbrev pub stale_metadata : Timestamp → List (String × String) → List (String × String)
  stale_metadata now metadata =
      let since = get_meta "scheduler_stale_since" metadata in
      let with_since =
        if since == "" then set_meta "scheduler_stale_since" (stamp now) metadata else metadata in
      if get_meta "scheduler_observation" with_since == ""
      then set_meta "scheduler_observation" "cache" with_since
      else with_since

  -- markSchedulerStale: the task as it is afterwards; the error of the update is dropped.
  unfoldable pub mark_scheduler_stale : Sql → Timestamp → Task → Database → Task × Database
  mark_scheduler_stale sql now task db =
      let marked : Task = record task {
        metadata = stale_metadata now task.metadata;
        updated_at = now;
      } in
      let (r, db') = update_task sql marked none db in
      elim r [ ok saved ↦ (saved, db') | err e ↦ (marked, db') ]

  abbrev stale_error : Sql → Timestamp → Task → Error → Database → Refreshed × Database
  stale_error sql now task e db =
      let (marked, db') = mark_scheduler_stale sql now task db in
      (record { task = marked; error = some e }, db')

  abbrev pub asked_status : Sql → Timestamp → Result Status → Task → Database → Refreshed × Database
  asked_status sql now (err e) task db = stale_error sql now task e db
  asked_status sql now (ok status) task db = apply_scheduler_status sql now task status db

  abbrev pub found_job : Timestamp → String → Task → Task
  found_job now id task = record task {
    scheduler_id = id;
    compute_state = ComputeState.queued;
    updated_at = now;
  }

  abbrev pub then_status :
      Sql → Timestamp → Result Status → Task → Result Task × Database → Refreshed × Database
  then_status sql now status given (ok task, db) = asked_status sql now status task db
  then_status sql now status given (err e, db) = (record { task = given; error = some e }, db)

  abbrev pub recovered_job :
      Sql
      → Sql
      → Timestamp
      → Result (Option String)
      → Result Status
      → Task
      → Database
      → Refreshed × Database
  recovered_job first second now (err e) status task db = stale_error first now task e db
  recovered_job first second now (ok none) status task db =
      (record { task = task; error = none }, db)
  recovered_job first second now (ok (some id)) status task db =
      let found = found_job now id task in
      then_status second now status found (
        update_task_with_event first now found
          (task_event found "SCHEDULER_ID_RECOVERED" "status"
            "Recovered scheduler ID from remote marker or Slurm task comment" now)
          db)

  -- refreshTask, from what the cluster answers to the recovery and to the query.
  unfoldable pub refresh_task :
      List String
      → Sql
      → Sql
      → Timestamp
      → Result (Option String)
      → Result Status
      → Task
      → Database
      → Refreshed × Database
  unfolding apply_scheduler_status mark_scheduler_stale
  refresh_task clusters first second now recovery status task db =
      if not (any (λ name. name == task.cluster_name) clusters)
      then (
        record {
          task = task;
          error = some (record { code = cluster_not_found; retryable = false });
        },
        db,
      )
      else if task.scheduler_id == ""
      then recovered_job first second now recovery status task db
      else asked_status second now status task db
