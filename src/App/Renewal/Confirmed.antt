-- ===== src/App/Renewal/Confirmed.antt =====
-- internal/app/app.go: what ensureForceNewSafe makes sure of.
use joyrun.Base.{String, ◌≡◌, Bool, true, false, ◌||◌, none, ◌⊎◌, List, ◌==◌}
use joyrun.Fault.{Result, ok}
use joyrun.Timestamp.{Timestamp}
use joyrun.Model.{ComputeState, Task}
use joyrun.Store.Tasks.{is_submission_failed, submission_key}
use joyrun.App.Status.{Status, is_terminal}
use joyrun.App.Renewal.{Surroundings}

-- What the loop takes for the end of a submission: a terminal state, or that Slurm rejected it.
abbrev pub is_closed : ComputeState → Bool
is_closed s = is_terminal s || is_submission_failed s

module _ (recent : String → Bool) (stamp : Timestamp → String) (clusters : List String) where
  -- The cluster answered that the submission has ended.
  abbrev pub IsAnswered : Result Status → Type 0
  IsAnswered answer = (s : Status) × (answer ≡ ok s) × (is_closed s.state ≡ true)

  -- The database has the task as ended, and the cluster answered without an error: any state of its
  -- job, or, for a task without a job ID, that it has no job.
  abbrev pub IsKept : Surroundings → Task → Type 0
  IsKept s prior =
      (is_closed prior.compute_state ≡ true)
      × (((x : Status) × (s.status ≡ ok x)) ⊎ ((prior.scheduler_id ≡ "") × (s.recovery ≡ ok none)))

  -- The task is another submission, was rejected before, or has ended.
  abbrev pub IsConfirmed : (Task → Surroundings) → String → Task → Type 0
  IsConfirmed meets key prior =
      ((submission_key prior == key) ≡ false)
      ⊎ ((is_submission_failed prior.compute_state ≡ true)
          ⊎ (IsAnswered (meets prior).status ⊎ IsKept (meets prior) prior))
