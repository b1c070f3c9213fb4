-- ===== src/App/Renewal.antt =====
-- internal/app/app.go: ensureForceNewSafe, the check before a second run of the same submission.
pub mod Confirmed
use joyrun.Base.{
  String, Bool, true, false, not, Option, none, some, List, [], ◌∷◌, ◌==◌, if◌then◌else◌,
}
use joyrun.Fault.{Result, ok, err, fail, submission_safety_unconfirmed}
use joyrun.Timestamp.{Timestamp}
use joyrun.Model.{ComputeState, Task}
use joyrun.Store.{Database, Sql, Exec}
use joyrun.Store.Metadata.{get_meta}
use joyrun.Store.Tasks.{history, is_submission_failed, submission_key}
use joyrun.App.Status.{Status, Refreshed, refresh_task}

-- What a refresh of one task meets: which calls of its updates fail, the clock, and the answers of
-- the cluster to the recovery of a job ID and to the query.
pub record Surroundings : Type 0 where
  pub first : Sql
  pub second : Sql
  pub now : Timestamp
  pub recovery : Result (Option String)
  pub status : Result Status

-- The states in which an earlier submission may still become a job, or still is one.
abbrev pub is_open : ComputeState → Bool
is_open ComputeState.created = true
is_open ComputeState.submission_uncertain = true
is_open ComputeState.queued = true
is_open ComputeState.running = true
is_open ComputeState.unknown = true
is_open _ = false

abbrev unsafe : Exec (Unit {0})
unsafe db = (fail submission_safety_unconfirmed true, db)

abbrev pub after_refresh : Exec (Unit {0}) → Refreshed × Database → Result (Unit {0}) × Database
after_refresh go_on (r, db) = elim r.error [
  | some e ↦ unsafe db
  | none ↦ if is_open r.task.compute_state then unsafe db else go_on db
]

module _ (recent : String → Bool) (stamp : Timestamp → String) (clusters : List String) where
  -- The refresh of one earlier task.
  abbrev pub refresh_prior : (Task → Surroundings) → Task → Database → Refreshed × Database
  refresh_prior meets prior db =
      let s = meets prior in
      refresh_task recent stamp clusters s.first s.second s.now s.recovery s.status prior db

  -- The loop over the earlier tasks.
  unfoldable pub confirm_all : (Task → Surroundings) → String → List Task → Exec (Unit {0})
  confirm_all meets key [] db = (ok tt, db)
  confirm_all meets key (prior ∷ tasks) db =
      let go_on = confirm_all meets key tasks in
      if not (submission_key prior == key)
      then go_on db
      else if is_submission_failed prior.compute_state
      then go_on db
      else after_refresh go_on (refresh_prior meets prior db)

  -- ensureForceNewSafe
  unfoldable pub ensure_force_new_safe : Sql → (Task → Surroundings) → Task → Exec (Unit {0})
  unfolding confirm_all
  ensure_force_new_safe sql meets candidate db =
      let (prior_tasks, db') = history sql candidate.project_id candidate.source_path db in
      elim prior_tasks [
        | err e ↦ unsafe db'
        | ok tasks ↦ confirm_all meets (submission_key candidate) tasks db'
      ]
