-- ===== src/App/Fenced.antt =====
-- internal/app/app.go: ExecuteReservedSubmit keeps to its phases.
use joyrun.Base.{
  ℕ, String, ◌≡◌, refl, Bool, true, false, not, List, ◌⊎◌, inl, inr, any, ◌==◌, eq_refl, eq_iff,
  arith, if◌then◌else◌, Bool-cases,
}
use joyrun.Fault.{Result, ok, err}
use joyrun.Model.{Task, TaskEvent}
use joyrun.Slurm.Submit.{submit}
use joyrun.App.Program.{
  AnswerTo, Request, now, get_task, events, update, write_metadata, write_script, push, sbatch,
  done, Attempt, ◌>>=◌, ◌>>◌,
}
use joyrun.App.Submit.{
  SubmitResult, record_stage, task_event, is_uncertain, is_created, execute_read, execute_fenced,
  when_failed, reconcile_reserved_submit, start_submit, end_upload, end_script, end_snapshot,
  push_snapshot, add_script, end_metadata, end_directory, upload_metadata, submit_prepared,
  execute_reserved_submit, run_sbatch, submitted, is_submit_started,
}
use joyrun.App.Phases.{
  NoSbatch, IsPlausible, Phase, quiet, read, armed, ready, after, IsAllowed, Runs, Runs-then,
  Anything, Runs-NoSbatch, IsAllowed-quiet,
}
use joyrun.App.Unsubmitted.{NoSbatch-reconcile, NoSbatch-fail, NoSbatch-submitted}

abbrev is_effect : Request → Bool
is_effect (write_metadata _) = true
is_effect (write_script _) = true
is_effect (push _) = true
is_effect _ = false

module _ (id : String) where
  -- The program holds the current copy of the task, or is about another task.
  abbrev Fits : Phase → Task → Type 0
  Fits ph t = ((ph ≡ armed t.revision) × (t.id ≡ id)) ⊎ ((t.id == id) ≡ false)

  -- The same once SUBMIT_STARTED is recorded.
  abbrev Started : Phase → Task → Type 0
  Started ph t = (ph ≡ ready) ⊎ ((t.id == id) ≡ false)

  IsAllowed-sbatch : (ph : Phase) (t : Task) → (t.id == id) ≡ false → IsAllowed id ph (sbatch t)
  IsAllowed-sbatch ready t h = tt
  IsAllowed-sbatch quiet t h = h
  IsAllowed-sbatch (read n) t h = h
  IsAllowed-sbatch (armed n) t h = h

  own_saved :
      (r : ℕ) (t : Task) (e : TaskEvent)
      → t.revision ≡ r
      → t.id ≡ id
      → e.task_id ≡ id
      → is_submit_started e ≡ false
      → (ans : Result Task) → IsPlausible (update t e) ans
      → Runs id (after id (armed r) (update t e) ans) (done ans) Fits
  own_saved r t e at own event other (ok t') p = inl (ground (arith, eq_refl id), ground arith)
  own_saved r t e at own event other (err x) p = tt

  own-Started :
      (r : ℕ) (t : Task) (e : TaskEvent)
      → t.revision ≡ r
      → t.id ≡ id
      → e.task_id ≡ id
      → is_submit_started e ≡ true
      → (ans : Result Task) → IsPlausible (update t e) ans
      → Runs id (after id (armed r) (update t e) ans) (done ans) Started
  own-Started r t e at own event other (ok t') p = inl (ground (arith, eq_refl id))
  own-Started r t e at own event other (err x) p = tt

  module _ (Post : Phase → Task → Type 0)
      (of_other : (ph : Phase) (t : Task) → (t.id == id) ≡ false → Post ph t) where
    other_saved :
        (ph : Phase) (t : Task) (e : TaskEvent)
        → (t.id == id) ≡ false
        → (ans : Result Task) → IsPlausible (update t e) ans
        → Runs id ph (done ans) Post
    other_saved ph t e other (ok t') p = of_other ph t' (ground arith)
    other_saved ph t e other (err x) p = tt

    Runs-other :
        (ph : Phase) (t : Task) (kind stage msg : String)
        → (t.id == id) ≡ false
        → Runs id ph (record_stage t kind stage msg) Post
    Runs-other ph t kind stage msg other = (
      IsAllowed-quiet id ph now refl,
      λ at _.
          let u : Task = record t { updated_at = at } in
          (
            IsAllowed-quiet id (after id ph now at) now refl,
            λ stamp _.
                let e : TaskEvent = task_event u kind stage msg stamp in
                let ph' : Phase = after id (after id ph now at) now stamp in
                (
                  IsAllowed-quiet id ph' (update u e) refl,
                  λ ans p. other_saved (after id ph' (update u e) ans) u e other ans p,
                ),
          ),
    )

  Runs-stage :
      (ph : Phase) (t : Task) (kind stage msg : String)
      → Fits ph t
      → (kind == "SUBMIT_STARTED") ≡ false
      → Runs id ph (record_stage t kind stage msg) Fits
  Runs-stage ph t kind stage msg (inl (at, own)) other = rw at (
    tt,
    λ a _. (
      tt,
      λ stamp _.
          let u : Task = record t { updated_at = a } in
          (tt, own_saved t.revision u (task_event u kind stage msg stamp) refl own own other),
    ),
  )
  Runs-stage ph t kind stage msg (inr stranger) other =
      Runs-other Fits (λ ph' t' h. inr h) ph t kind stage msg stranger

  Runs-Started :
      (ph : Phase) (t : Task) (stage msg : String)
      → Fits ph t
      → Runs id ph (record_stage t "SUBMIT_STARTED" stage msg) Started
  Runs-Started ph t stage msg (inl (at, own)) = rw at (
    tt,
    λ a _. (
      tt,
      λ stamp _.
          let u : Task = record t { updated_at = a } in
          (
            tt,
            own-Started t.revision u (task_event u "SUBMIT_STARTED" stage msg stamp) refl own own
                refl,
          ),
    ),
  )
  Runs-Started ph t stage msg (inr stranger) =
      Runs-other Started (λ ph' t' h. inr h) ph t "SUBMIT_STARTED" stage msg stranger

  Runs-sbatch : (ph : Phase) (t : Task) → Started ph t → Runs id ph (run_sbatch t) (Anything id)
  Runs-sbatch ph t (inl is_ready) =
      rw is_ready
        (tt, λ sub _. Runs-NoSbatch id quiet _ (NoSbatch-submitted t sub (submit sub.reply)))
  Runs-sbatch ph t (inr stranger) = (
    IsAllowed-sbatch ph t stranger,
    λ sub _.
        Runs-NoSbatch id _ (submitted t sub (submit sub.reply))
          (NoSbatch-submitted t sub (submit sub.reply)),
  )

  Fits-after_effect :
      (ph : Phase) (t : Task) (r : Request) (a : AnswerTo r)
      → is_effect r ≡ true
      → Fits ph t
      → Fits (after id ph r a) t
  Fits-after_effect ph t (write_metadata u) a e (inl (at, own)) = inl (rw at refl, own)
  Fits-after_effect ph t (write_script u) a e (inl (at, own)) = inl (rw at refl, own)
  Fits-after_effect ph t (push u) a e (inl (at, own)) = inl (rw at refl, own)
  Fits-after_effect ph t r a e (inl (at, own)) = ground arith
  Fits-after_effect ph t r a e (inr stranger) = inr stranger

  Runs-guard :
      {A : Type 0} (ph : Phase) (b : Bool) (stop : Attempt (Unit {0})) (rest : Attempt A)
      → NoSbatch (stop >> rest)
      → Runs id ph rest (Anything id)
      → Runs id ph (when_failed b stop >> rest) (Anything id)
  Runs-guard ph true stop rest h k = Runs-NoSbatch id ph (stop >> rest) h
  Runs-guard ph false stop rest h k = k

  Runs-start_submit :
      (ph : Phase) (t : Task) → Fits ph t → Runs id ph (start_submit t) (Anything id)
  Runs-start_submit ph t h =
      Runs-then id ph (record_stage t "SUBMIT_STARTED" "submit" "Submitting task to scheduler")
        run_sbatch Started (Anything id) (Runs-Started ph t _ _ h) Runs-sbatch

  -- One stage before a part that keeps to its phases.
  Runs-next :
      (ph : Phase) (t : Task) (kind stage msg : String) (next : Task → Attempt SubmitResult)
      → Fits ph t
      → (kind == "SUBMIT_STARTED") ≡ false
      → ((ph' : Phase) (t' : Task) → Fits ph' t' → Runs id ph' (next t') (Anything id))
      → Runs id ph (record_stage t kind stage msg >>= next) (Anything id)
  Runs-next ph t kind stage msg next h other rest =
      Runs-then id ph (record_stage t kind stage msg) next Fits (Anything id)
        (Runs-stage ph t kind stage msg h other) rest

  Runs-end_upload : (ph : Phase) (t : Task) → Fits ph t → Runs id ph (end_upload t) (Anything id)
  Runs-end_upload ph t h = Runs-next ph t _ _ _ start_submit h refl Runs-start_submit

  Runs-end_script : (ph : Phase) (t : Task) → Fits ph t → Runs id ph (end_script t) (Anything id)
  Runs-end_script ph t h = Runs-next ph t _ _ _ end_upload h refl Runs-end_upload

  Runs-end_snapshot :
      (ph : Phase) (t : Task) → Fits ph t → Runs id ph (end_snapshot t) (Anything id)
  Runs-end_snapshot ph t h = Runs-next ph t _ _ _ end_script h refl Runs-end_script

  Runs-push : (ph : Phase) (t : Task) → Fits ph t → Runs id ph (push_snapshot t) (Anything id)
  Runs-push ph t h = (
    IsAllowed-quiet id ph (push t) refl,
    λ pushed _.
        Runs-guard (after id ph (push t) pushed) pushed.failed _ (end_snapshot t) (NoSbatch-fail t)
          (Runs-end_snapshot _ t (Fits-after_effect ph t (push t) pushed refl h)),
  )

  Runs-add_script : (ph : Phase) (t : Task) → Fits ph t → Runs id ph (add_script t) (Anything id)
  Runs-add_script ph t h = (
    IsAllowed-quiet id ph (write_script t) refl,
    λ script _.
        Runs-guard (after id ph (write_script t) script) script.failed _ (push_snapshot t)
          (NoSbatch-fail t) (Runs-push _ t (Fits-after_effect ph t (write_script t) script refl h)),
  )

  Runs-end_metadata :
      (ph : Phase) (t : Task) → Fits ph t → Runs id ph (end_metadata t) (Anything id)
  Runs-end_metadata ph t h = Runs-next ph t _ _ _ add_script h refl Runs-add_script

  Runs-end_directory :
      (ph : Phase) (t : Task) → Fits ph t → Runs id ph (end_directory t) (Anything id)
  Runs-end_directory ph t h = Runs-next ph t _ _ _ end_metadata h refl Runs-end_metadata

  Runs-upload_metadata :
      (ph : Phase) (t : Task) → Fits ph t → Runs id ph (upload_metadata t) (Anything id)
  Runs-upload_metadata ph t h = (
    IsAllowed-quiet id ph (write_metadata t) refl,
    λ wrote _.
        Runs-guard (after id ph (write_metadata t) wrote) wrote.failed _ (end_directory t)
          (NoSbatch-fail t)
          (Runs-end_directory _ t (Fits-after_effect ph t (write_metadata t) wrote refl h)),
  )

  pub Runs-submit_prepared :
      (ph : Phase) (t : Task) → Fits ph t → Runs id ph (submit_prepared t) (Anything id)
  Runs-submit_prepared ph t h = Runs-next ph t _ _ _ upload_metadata h refl Runs-upload_metadata

  Runs-fenced :
      (ph : Phase) (clusters : List String) (t : Task) (b : Bool)
      → (b ≡ false → Fits ph t)
      → Runs id ph (execute_fenced clusters t b) (Anything id)
  Runs-fenced ph clusters t true h =
      Runs-NoSbatch id ph (reconcile_reserved_submit clusters t) (NoSbatch-reconcile clusters t)
  Runs-fenced ph clusters t false h = Runs-submit_prepared ph t (h refl)

  -- The program has just read the task, or is about another one.
  abbrev Fetched : Phase → Task → Type 0
  Fetched ph t = ((ph ≡ read t.revision) × (t.id ≡ id)) ⊎ ((t.id == id) ≡ false)

  Runs-listed :
      (ph : Phase) (clusters : List String) (t : Task) (r : Result (List TaskEvent))
      → Fetched ph t
      → Runs id
          (after id ph (events t.id) r)
          (done r >>= λ recorded. execute_fenced clusters t (any is_submit_started recorded))
          (Anything id)
  Runs-listed ph clusters t (err e) h = tt
  Runs-listed ph clusters t (ok es) (inl (at, own)) = rw at (
      Runs-fenced _ clusters t (any is_submit_started es)
        (λ none. inl (ground (arith, eq_refl id), own)))
  Runs-listed ph clusters t (ok es) (inr stranger) =
      Runs-fenced _ clusters t (any is_submit_started es) (λ none. inr stranger)

  Runs-if :
      {A : Type 0} (ph : Phase) (b : Bool) (m n : Attempt A)
      → Runs id ph m (Anything id)
      → Runs id ph n (Anything id)
      → Runs id ph (if b then m else n) (Anything id)
  Runs-if ph true m n h k = h
  Runs-if ph false m n h k = k

  Runs-read :
      (ph : Phase) (clusters : List String) (t : Task)
      → Fetched ph t
      → Runs id ph (execute_read clusters t) (Anything id)
  Runs-read ph clusters t h =
      Runs-if ph (is_uncertain t.compute_state) _ _
        (Runs-NoSbatch id ph (reconcile_reserved_submit clusters t) (NoSbatch-reconcile clusters t))
        (Runs-if ph (not (is_created t.compute_state)) _ _ tt
          (IsAllowed-quiet id ph (events t.id) refl, λ r _. Runs-listed ph clusters t r h))

  Runs-got :
      (clusters : List String) (i : String) (r : Result Task)
      → IsPlausible (get_task i) r
      → Runs id
          (after id quiet (get_task i) r)
          (done r >>= λ task. execute_read clusters task)
          (Anything id)
  Runs-got clusters i (err e) p = tt
  Runs-got clusters i (ok t) p = elim (Bool-cases (t.id == id)) [
    | inl own ↦ Runs-read _ clusters t (inl (rw own refl, ground (arith, eq_iff t.id id)))
    | inr stranger ↦ Runs-read _ clusters t (inr stranger)
  ]

  -- Whatever it is answered, a run of ExecuteReservedSubmit asks for sbatch on a task only after it
  -- read the task, found no SUBMIT_STARTED, and recorded SUBMIT_STARTED without losing the revision.
  pub Runs-execute :
      (clusters : List String) (i : String)
      → Runs id quiet (execute_reserved_submit clusters i) (Anything id)
  Runs-execute clusters i = (tt, λ r p. Runs-got clusters i r p)
