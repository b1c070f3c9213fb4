-- ===== src/Model.antt =====
-- internal/model/model.go: the records that the store keeps.
use joyrun.Base.{ℕ, String, Bool, true, false, Option, List}
use joyrun.Timestamp.{Timestamp}

-- The `Operation…` constants; `unset` is the empty string that a new operation may carry.
pub data OperationState : Type 0 where
  unset queued running waiting_reconcile succeeded partially_succeeded failed cancelled :
      OperationState

abbrev pub is_unset : OperationState → Bool
is_unset OperationState.unset = true
is_unset _ = false

abbrev pub is_queued : OperationState → Bool
is_queued OperationState.queued = true
is_queued _ = false

abbrev pub is_running : OperationState → Bool
is_running OperationState.running = true
is_running _ = false

abbrev pub is_succeeded : OperationState → Bool
is_succeeded OperationState.succeeded = true
is_succeeded _ = false

abbrev pub is_partially_succeeded : OperationState → Bool
is_partially_succeeded OperationState.partially_succeeded = true
is_partially_succeeded _ = false

abbrev pub is_failed : OperationState → Bool
is_failed OperationState.failed = true
is_failed _ = false

abbrev pub is_cancelled : OperationState → Bool
is_cancelled OperationState.cancelled = true
is_cancelled _ = false

-- The payload and the result are JSON texts that the store does not look into.
pub record Operation : Type 0 where
  pub id : String
  pub kind : String
  pub project_id : String
  pub cluster_key : String
  pub dedup_key : String
  pub state : OperationState
  pub stage : String
  pub payload : String
  pub result : String
  pub attempt : ℕ
  pub max_attempts : ℕ
  pub retry_deadline_at : Option Timestamp
  pub next_attempt_at : Option Timestamp
  pub lease_owner : String
  pub lease_expires_at : Option Timestamp
  pub error_code : String
  pub error_message : String
  pub retryable : Bool
  pub created_at : Timestamp
  pub started_at : Option Timestamp
  pub updated_at : Timestamp
  pub finished_at : Option Timestamp

pub record OperationTask : Type 0 where
  pub operation_id : String
  pub task_id : String
  pub ordinal : ℕ
  pub state : String
  pub result : String

-- A row of operation_events; every call of the program passes no data.
pub record OperationEvent : Type 0 where
  pub operation_id : String
  pub state : OperationState
  pub stage : String
  pub message : String
  pub created_at : Timestamp

-- A row of projects.
pub record ProjectRow : Type 0 where
  pub id : String
  pub last_path : String
  pub updated_at : Timestamp

-- The `Compute…` constants.
pub data ComputeState : Type 0 where
  created submission_failed submission_uncertain queued running completed failed cancelled unknown :
      ComputeState

-- The `Pull…` constants.
pub data PullState : Type 0 where
  not_pulled pulling pulled partial failed : PullState

-- A task. The fields that the store writes as JSON without reading them (parameters, manifest,
-- patterns, logs) and the rendered script are left out.
pub record Task : Type 0 where
  pub id : String
  pub revision : ℕ
  pub dry_run : Bool
  pub project_id : String
  pub source_path : String
  pub target_name : String
  pub cluster_name : String
  pub remote_dir : String
  pub scheduler_id : String
  pub compute_state : ComputeState
  pub pull_state : PullState
  pub scheduler_state : String
  pub scheduler_reason : String
  pub elapsed : String
  pub exit_code : String
  pub scheduler_start : String
  pub scheduler_end : String
  pub created_at : Timestamp
  pub submitted_at : Option Timestamp
  pub updated_at : Timestamp
  pub pulled_at : Option Timestamp
  pub metadata : List (String × String)

pub record TaskEvent : Type 0 where
  pub task_id : String
  pub kind : String
  pub stage : String
  pub message : String
  pub created_at : Timestamp
