-- ===== src/App/Outcome.antt =====
-- internal/app/app.go: what ExecuteReservedSubmit hands back when it succeeds.
use joyrun.Base.{
  String, ◌≡◌, refl, ◌∙◌, Option-cases, Bool, true, false, not, ◌||◌, Option, none, some, ◌⊎◌, inl,
  inr, List, any, ◌==◌, arith, if◌then◌else◌, ap,
}
use joyrun.Base.Text.{Text, codes, of_digits}
use joyrun.Base.Strings.{trim_space}
use joyrun.Fault.{Error, Result, ok, err}
use joyrun.Timestamp.{Timestamp}
use joyrun.Model.{ComputeState, Task, TaskEvent}
use joyrun.Slurm.{Reply}
use joyrun.Slurm.Submit.{submit, submission_definitely_rejected, find_by_task_id}
use joyrun.Slurm.Submit.Laws.{is_job_id, submit-is_job_id, find_by_task_id-is_job_id}
use joyrun.App.Program.{
  AnswerTo, Submission, Query, get_task, update, done, call, Attempt, ◌>>=◌, ◌>>◌, return,
}
use joyrun.App.Submit.{
  Recovery, recovered, no_match, unknown, SubmitResult, recover_scheduler_id, marker_id, queried_id,
  found_id, accept, reconcile_reserved_submit, reconciled, read_query, recovery_of, uncertain_still,
  is_uncertain, is_created, is_live, is_submit_rejected, after_recovery, execute_read,
  execute_fenced, when_failed, start_submit, end_upload, end_script, end_snapshot, push_snapshot,
  add_script, end_metadata, end_directory, upload_metadata, submit_prepared,
  execute_reserved_submit, run_sbatch, submitted, record_stage, task_event, is_submit_started,
}
use joyrun.App.Phases.{IsPlausible}

-- Whatever the program is answered, if it ends without an error its result has the property.
abbrev pub Ends : {A : Type 0} → Attempt A → (A → Type 0) → Type 0
Ends (done (ok a)) P = P a
Ends (done (err e)) P = Unit
Ends (call r k) P = (a : AnswerTo r) → IsPlausible r a → Ends (k a) P

Ends-then :
    {A B : Type 0} (m : Attempt A) (f : A → Attempt B) (Q : A → Type 0) (P : B → Type 0)
    → Ends m Q
    → ((a : A) → Q a → Ends (f a) P)
    → Ends (m >>= f) P
Ends-then (done (ok a)) f Q P h next = next a h
Ends-then (done (err e)) f Q P h next = tt
Ends-then (call r k) f Q P h next = λ a p. Ends-then (k a) f Q P (h a p) next

Ends-if :
    {A : Type 0} (b : Bool) (m n : Attempt A) (P : A → Type 0)
    → (b ≡ true → Ends m P)
    → (b ≡ false → Ends n P)
    → Ends (if b then m else n) P
Ends-if true m n P h k = h refl
Ends-if false m n P h k = k refl

-- A Slurm job ID: a number in decimal.
abbrev pub IsJob : String → Type 0
IsJob id = (digits : Text) × (is_job_id digits ≡ true) × (id ≡ of_digits digits)

abbrev pub IsQueued : String → Task → Type 0
IsQueued id task =
    (task.id ≡ id) × (task.compute_state ≡ ComputeState.queued) × IsJob task.scheduler_id

-- A success for a task as it was read: the task is queued under a job ID, where its submission was
-- open or uncertain, or it was past its submission and is handed back as it was read.
abbrev pub IsDelivered : String → Task → SubmitResult → Type 0
IsDelivered id read r =
    ((r.deduplicated ≡ false)
      × ((is_created read.compute_state || is_uncertain read.compute_state) ≡ true)
      × IsQueued id r.task)
    ⊎ ((r.deduplicated ≡ true)
        × ((is_created read.compute_state || is_uncertain read.compute_state) ≡ false)
        × (r.task ≡ read))

-- The program reads the task first. Its success is one for the task that was read, and it fails if
-- the read does.
abbrev pub Reads : String → Attempt SubmitResult → (Task → SubmitResult → Type 0) → Type 0
Reads id (call (get_task asked) k) P =
    (asked ≡ id)
    × ((read : Task) → read.id ≡ id → Ends (k (ok read)) (P read))
    × ((e : Error) → Ends (k (err e)) (λ r. true ≡ false))
Reads id _ P = true ≡ false

-- A recovered ID is a job's.
abbrev IsFound : Recovery → Type 0
IsFound (recovered id) = IsJob id
IsFound _ = Unit

marker_id-IsJob : (marker : Reply) {id : String} → marker_id marker ≡ some id → IsJob id
unfolding marker_id is_job_id
marker_id-IsJob marker {id} h = (trim_space marker.stdout, ground arith, ground arith)

found_id-IsFound :
    (cause : String) (r : Result (Option Text))
    → ((id : Text) → r ≡ ok (some id) → is_job_id id ≡ true)
    → IsFound (recovery_of cause (found_id r))
found_id-IsFound cause (err e) h = tt
found_id-IsFound cause (ok none) h = tt
found_id-IsFound cause (ok (some id)) h = (id, h id refl, refl)

recovery_of-IsFound : (task : Task) (q : Query) → IsFound (recovery_of q.cause (queried_id task q))
unfolding queried_id
recovery_of-IsFound task q =
    found_id-IsFound q.cause (find_by_task_id (codes task.id) q.queue q.accounting)
      (find_by_task_id-is_job_id (codes task.id) q.queue q.accounting)

module _ (id : String) (read : Task)
    (going : (is_created read.compute_state || is_uncertain read.compute_state) ≡ true) where
  Ends-accept :
      (task : Task) (job : String)
      → task.id ≡ id
      → IsJob job
      → Ends (accept task job "") (IsDelivered id read)
  Ends-accept task job own named = λ at _ stamp _. saved at
    where
      saved :
          (at : Timestamp) (r : Result Task)
          → IsPlausible
              (update
                (record task {
                  scheduler_id = job;
                  compute_state = ComputeState.queued;
                  submitted_at = some at;
                  updated_at = at;
                })
                (task_event task "" "" "" at))
              r
          → Ends
              (done r >>= λ t. return (record { task = t; deduplicated = false }))
              (IsDelivered id read)
      saved at (ok t) p = inl (
        refl,
        going,
        (ap (λ (u : Task). u.id) p ∙ own, ap (λ (u : Task). u.compute_state) p, rw p named),
      )
      saved at (err e) p = tt

  Ends-recover : (task : Task) → Ends (recover_scheduler_id task) IsFound
  Ends-recover task = λ marker _. read_so marker
    where
      read_so : (marker : Reply) → Ends (read_query task (marker_id marker)) IsFound
      read_so marker = elim (Option-cases (marker_id marker)) [
        | inl e ↦ rw e (λ q _. recovery_of-IsFound task q)
        | inr (found, e) ↦ rw e (marker_id-IsJob marker e)
      ]

  Ends-uncertain_still :
      (task : Task) (msg cause : String)
      → Ends (uncertain_still task msg cause) (IsDelivered id read)
  Ends-uncertain_still task msg cause =
      Ends-if (is_uncertain task.compute_state) _ _ (IsDelivered id read) (λ e. tt)
        (λ e. λ at _ stamp _ r _. tt)

  Ends-reconciled :
      (task : Task) (recovery : Recovery)
      → task.id ≡ id
      → IsFound recovery
      → Ends (reconciled task recovery) (IsDelivered id read)
  Ends-reconciled task (recovered job) own h = Ends-accept task job own h
  Ends-reconciled task no_match own h = Ends-uncertain_still task _ _
  Ends-reconciled task (unknown cause) own h = Ends-uncertain_still task _ cause

  Ends-reconcile :
      (clusters : List String) (task : Task)
      → task.id ≡ id
      → Ends (reconcile_reserved_submit clusters task) (IsDelivered id read)
  Ends-reconcile clusters task own =
      Ends-if (any (λ name. name == task.cluster_name) clusters) _ _ (IsDelivered id read)
        (λ e.
          Ends-then (recover_scheduler_id task) (reconciled task) IsFound (IsDelivered id read)
            (Ends-recover task) (λ recovery h. Ends-reconciled task recovery own h))
        (λ e. tt)

  Ends-after_recovery :
      (task : Task) (sub : Submission) (recovery : Recovery)
      → task.id ≡ id
      → IsFound recovery
      → Ends (after_recovery task sub recovery) (IsDelivered id read)
  Ends-after_recovery task sub (recovered job) own h = Ends-accept task job own h
  Ends-after_recovery task sub no_match own h =
      Ends-if (is_live sub.context) _ _ (IsDelivered id read) (λ e at _ stamp _ r _. tt)
        (λ e at _ stamp _ r _. tt)
  Ends-after_recovery task sub (unknown cause) own h = λ at _ stamp _ r _. tt

  Ends-submitted :
      (task : Task) (sub : Submission) (r : Result Text)
      → task.id ≡ id
      → ((job : Text) → r ≡ ok job → is_job_id job ≡ true)
      → Ends (submitted task sub r) (IsDelivered id read)
  Ends-submitted task sub (ok job) own h = Ends-accept task _ own (job, h job refl, refl)
  Ends-submitted task sub (err e) own h =
      Ends-if (submission_definitely_rejected (is_submit_rejected e.code) (codes sub.cause)) _ _
        (IsDelivered id read) (λ q at _ stamp _ r _. tt)
        (λ q.
          Ends-then (recover_scheduler_id task) (after_recovery task sub) IsFound
            (IsDelivered id read) (Ends-recover task)
            (λ recovery k. Ends-after_recovery task sub recovery own k))

  -- A stage keeps the task's ID; its texts do not matter.
  Ends-next :
      (task : Task) (next : Task → Attempt SubmitResult)
      → task.id ≡ id
      → ((t : Task) → t.id ≡ id → Ends (next t) (IsDelivered id read))
      → Ends (record_stage task "" "" "" >>= next) (IsDelivered id read)
  Ends-next task next own rest = λ at _ stamp _. saved at stamp
    where
      saved :
          (at stamp : Timestamp) (r : Result Task)
          → IsPlausible
              (update (record task { updated_at = at }) (task_event task "" "" "" stamp))
              r
          → Ends (done r >>= next) (IsDelivered id read)
      saved at stamp (ok t) p = rest t (ap (λ (u : Task). u.id) p ∙ own)
      saved at stamp (err e) p = tt

  Ends-guard :
      (b : Bool) (stop : Attempt (Unit {0})) (rest : Attempt SubmitResult)
      → Ends (stop >> rest) (IsDelivered id read)
      → Ends rest (IsDelivered id read)
      → Ends (when_failed b stop >> rest) (IsDelivered id read)
  Ends-guard true stop rest h k = h
  Ends-guard false stop rest h k = k

  Ends-start_submit : (task : Task) → task.id ≡ id → Ends (start_submit task) (IsDelivered id read)
  Ends-start_submit task own = Ends-next task run_sbatch own (λ t same sub _.
      Ends-submitted t sub (submit sub.reply) same (λ job e. (submit-is_job_id sub.reply job e).0))

  Ends-end_snapshot : (task : Task) → task.id ≡ id → Ends (end_snapshot task) (IsDelivered id read)
  Ends-end_snapshot task own =
      Ends-next task end_script own
        (λ t h. Ends-next t end_upload h (λ u k. Ends-next u start_submit k Ends-start_submit))

  Ends-push : (task : Task) → task.id ≡ id → Ends (push_snapshot task) (IsDelivered id read)
  Ends-push task own = λ pushed _.
      Ends-guard pushed.failed _ (end_snapshot task) (λ at _ stamp _ r _. tt)
        (Ends-end_snapshot task own)

  Ends-add_script : (task : Task) → task.id ≡ id → Ends (add_script task) (IsDelivered id read)
  Ends-add_script task own = λ script _.
      Ends-guard script.failed _ (push_snapshot task) (λ at _ stamp _ r _. tt) (Ends-push task own)

  Ends-end_directory :
      (task : Task) → task.id ≡ id → Ends (end_directory task) (IsDelivered id read)
  Ends-end_directory task own =
      Ends-next task end_metadata own (λ t h. Ends-next t add_script h Ends-add_script)

  Ends-upload_metadata :
      (task : Task) → task.id ≡ id → Ends (upload_metadata task) (IsDelivered id read)
  Ends-upload_metadata task own = λ wrote _.
      Ends-guard wrote.failed _ (end_directory task) (λ at _ stamp _ r _. tt)
        (Ends-end_directory task own)

  Ends-submit_prepared :
      (task : Task) → task.id ≡ id → Ends (submit_prepared task) (IsDelivered id read)
  Ends-submit_prepared task own = Ends-next task upload_metadata own Ends-upload_metadata

  Ends-fenced :
      (clusters : List String) (task : Task) (b : Bool)
      → task.id ≡ id
      → Ends (execute_fenced clusters task b) (IsDelivered id read)
  Ends-fenced clusters task true own = Ends-reconcile clusters task own
  Ends-fenced clusters task false own = Ends-submit_prepared task own

  Ends-listed :
      (clusters : List String) (task : Task) (r : Result (List TaskEvent))
      → task.id ≡ id
      → Ends
          (done r >>= λ recorded. execute_fenced clusters task (any is_submit_started recorded))
          (IsDelivered id read)
  Ends-listed clusters task (ok es) own = Ends-fenced clusters task (any is_submit_started es) own
  Ends-listed clusters task (err e) own = tt

Ends-read :
    (id : String) (clusters : List String) (read : Task)
    → read.id ≡ id
    → Ends (execute_read clusters read) (IsDelivered id read)
Ends-read id clusters read own =
    Ends-if (is_uncertain read.compute_state) _ _ (IsDelivered id read)
      (λ e. Ends-reconcile id read (ground arith) clusters read own)
      (λ certain.
        Ends-if (not (is_created read.compute_state)) _ _ (IsDelivered id read)
          (λ past. inr (refl, ground arith, refl))
          (λ fresh r _. Ends-listed id read (ground arith) clusters read r own))

-- ExecuteReservedSubmit reads the task that it is asked for, and succeeds only with that task: if its
-- submission was open or uncertain, it is queued under a decimal Slurm job ID; otherwise it is handed
-- back as it was read. So it is whatever the surroundings answer, as long as GetTask hands back a row
-- with the ID that it was asked for, and an update the task that it wrote, at its next revision.
pub execute-IsDelivered :
    (clusters : List String) (id : String)
    → Reads id (execute_reserved_submit clusters id) (IsDelivered id)
execute-IsDelivered clusters id = (refl, (λ read own. Ends-read id clusters read own), (λ e. tt))
