-- ===== src/App/Unsubmitted.antt =====
-- internal/app/app.go: the parts of a submission that never run sbatch.
use joyrun.Base.{
  String, refl, Bool, true, false, Option, none, some, List, any, ◌==◌, if◌then◌else◌,
}
use joyrun.Base.Text.{Text, codes}
use joyrun.Fault.{Result, ok, err}
use joyrun.Model.{Task}
use joyrun.Slurm.Submit.{submission_definitely_rejected}
use joyrun.App.Program.{Submission, Program, done, Attempt, ◌>>=◌, return}
use joyrun.App.Submit.{
  Recovery, recovered, no_match, unknown, SubmitResult, fail_submission_uncertain,
  recover_scheduler_id, marker_id, accept, reconciled, read_query, uncertain_still, is_uncertain,
  is_live, is_submit_rejected, after_recovery, reconcile_reserved_submit, submitted,
}
use joyrun.App.Phases.{NoSbatch, NoSbatch-then}

pub NoSbatch-if :
    {A : Type 0} (b : Bool) (m n : Program A)
    → NoSbatch m
    → NoSbatch n
    → NoSbatch (if b then m else n)
NoSbatch-if true m n h k = h
NoSbatch-if false m n h k = k

NoSbatch-read_query : (task : Task) (id : Option String) → NoSbatch (read_query task id)
NoSbatch-read_query task none = (refl, λ q. tt)
NoSbatch-read_query task (some id) = tt

pub NoSbatch-recover : (task : Task) → NoSbatch (recover_scheduler_id task)
NoSbatch-recover task = (refl, λ marker. NoSbatch-read_query task (marker_id marker))

abbrev fresh : Task → Attempt SubmitResult
fresh saved = return (record { task = saved; deduplicated = false })

NoSbatch-saved : (r : Result Task) → NoSbatch (done r >>= fresh)
NoSbatch-saved (ok t) = tt
NoSbatch-saved (err e) = tt

-- The texts do not matter for what a program asks.
pub NoSbatch-accept : (task : Task) → NoSbatch (accept task "" "")
NoSbatch-accept task = (refl, λ at. (refl, λ stamp. (refl, NoSbatch-saved)))

-- failSubmission makes the same requests.
pub NoSbatch-fail :
    (task : Task) → NoSbatch (fail_submission_uncertain {A = SubmitResult} task "" "" "")
NoSbatch-fail task = (refl, λ at. (refl, λ stamp. (refl, λ r. tt)))

pub NoSbatch-uncertain_still :
    (task : Task) (msg cause : String) → NoSbatch (uncertain_still task msg cause)
NoSbatch-uncertain_still task msg cause =
    NoSbatch-if (is_uncertain task.compute_state) _ _ tt (NoSbatch-fail task)

pub NoSbatch-reconciled : (task : Task) (recovery : Recovery) → NoSbatch (reconciled task recovery)
NoSbatch-reconciled task (recovered id) = NoSbatch-accept task
NoSbatch-reconciled task no_match = NoSbatch-uncertain_still task _ _
NoSbatch-reconciled task (unknown cause) = NoSbatch-uncertain_still task _ cause

pub NoSbatch-reconcile :
    (clusters : List String) (task : Task) → NoSbatch (reconcile_reserved_submit clusters task)
NoSbatch-reconcile clusters task =
    NoSbatch-if (any (λ name. name == task.cluster_name) clusters) _ _
      (NoSbatch-then (recover_scheduler_id task) _ (NoSbatch-recover task)
        (NoSbatch-reconciled task))
      tt

NoSbatch-after_recovery :
    (task : Task) (sub : Submission) (recovery : Recovery)
    → NoSbatch (after_recovery task sub recovery)
NoSbatch-after_recovery task sub (recovered id) = NoSbatch-accept task
NoSbatch-after_recovery task sub no_match =
    NoSbatch-if (is_live sub.context) _ _ (NoSbatch-fail task) (NoSbatch-fail task)
NoSbatch-after_recovery task sub (unknown cause) = NoSbatch-fail task

pub NoSbatch-submitted :
    (task : Task) (sub : Submission) (id : Result Text) → NoSbatch (submitted task sub id)
NoSbatch-submitted task sub (ok id) = NoSbatch-accept task
NoSbatch-submitted task sub (err e) =
    NoSbatch-if (submission_definitely_rejected (is_submit_rejected e.code) (codes sub.cause)) _ _
      (NoSbatch-fail task)
      (NoSbatch-then (recover_scheduler_id task) _ (NoSbatch-recover task)
        (NoSbatch-after_recovery task sub))
