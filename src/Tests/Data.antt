-- ===== src/Tests/Data.antt =====
-- A small database: one project, a running, a queued and a finished operation, and two tasks.
use joyrun.Base.{ℕ, String, true, false, Option, none, some, [], ◌∷◌}
use joyrun.Timestamp.{Timestamp}
use joyrun.Model.{OperationState, ComputeState, PullState, Operation, Task}
use joyrun.Store.{Database, Sql}

abbrev pub at_second : ℕ → Timestamp
at_second s = record { sec = s; nano = 0 }

abbrev pub working : Sql
working n = true

abbrev pub operation_named :
    String → String → OperationState → String → Option Timestamp → Operation
operation_named id key state owner expires = record {
  id = id;
  kind = "pull";
  project_id = "pj_1";
  cluster_key = "hpc";
  dedup_key = key;
  state = state;
  stage = "queued";
  payload = "{}";
  result = "{}";
  attempt = 0;
  max_attempts = 0;
  retry_deadline_at = none;
  next_attempt_at = none;
  lease_owner = owner;
  lease_expires_at = expires;
  error_code = "";
  error_message = "";
  retryable = false;
  created_at = at_second 10;
  started_at = none;
  updated_at = at_second 10;
  finished_at = none;
}

abbrev pub held : Operation
held = operation_named "jo_1" "k1" OperationState.running "dw_a" (some (at_second 50))

abbrev pub waiting : Operation
waiting = operation_named "jo_2" "k2" OperationState.queued "" none

abbrev pub done : Operation
done = operation_named "jo_3" "k3" OperationState.succeeded "" none

abbrev pub task_named : String → String → Task
task_named id key = record {
  id = id;
  revision = 1;
  dry_run = false;
  project_id = "pj_1";
  source_path = "a/run.in";
  target_name = "vasp";
  cluster_name = "hpc";
  remote_dir = "/r";
  scheduler_id = "";
  compute_state = ComputeState.created;
  pull_state = PullState.not_pulled;
  scheduler_state = "";
  scheduler_reason = "";
  elapsed = "";
  exit_code = "";
  scheduler_start = "";
  scheduler_end = "";
  created_at = at_second 5;
  submitted_at = none;
  updated_at = at_second 5;
  pulled_at = none;
  metadata = ("submission_key", key) ∷ [];
}

abbrev pub store : Database
store = record {
  projects = record { id = "pj_1"; last_path = "/p"; updated_at = at_second 1 } ∷ [];
  tasks = task_named "jr_1" "v1:a" ∷ [];
  task_events = [];
  operations = held ∷ waiting ∷ done ∷ [];
  operation_events = [];
  operation_tasks = [];
}
