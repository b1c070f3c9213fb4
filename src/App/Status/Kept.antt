-- ===== src/App/Status/Kept.antt =====
-- internal/app/app.go: a refreshed task is still the same task.
use joyrun.Base.{
  String, ◌≡◌, refl, ap, ◌∙◌, Bool, Option, none, some, List, any, ◌==◌, Bool-cases, arith, inl,
  inr,
}
use joyrun.Fault.{Result, ok, err, Result-cases}
use joyrun.Timestamp.{Timestamp}
use joyrun.Model.{Task, TaskEvent}
use joyrun.Store.{Database, Sql}
use joyrun.Store.Metadata.{get_meta}
use joyrun.Store.TaskUpdates.{event_for, update_task, update_task_with_event}
use joyrun.Store.TaskUpdates.Revision.{update-inv}
use joyrun.App.Submit.{task_event}
use joyrun.App.Status.{
  Status, observed, same_status, status_event, refreshed, apply_scheduler_status,
  mark_scheduler_stale, stale_metadata, asked_status, recovered_job, then_status, found_job,
  refresh_task,
}

saved-id :
    (sql : Sql) (task : Task) (event : Option TaskEvent) (db : Database)
    (r : Result Task × Database)
    → update_task sql task event db ≡ r
    → (refreshed task r.0).task.id ≡ task.id
saved-id sql task event db (ok t, db') e =
    ap (λ (u : Task). u.id) (update-inv sql task event db e).0
saved-id sql task event db (err x, db') e = refl

module _ (recent : String → Bool) (stamp : Timestamp → String) where
  pub apply-id :
      (sql : Sql) (now : Timestamp) (task : Task) (status : Status) (db : Database)
      → (apply_scheduler_status recent stamp sql now task status db).0.task.id ≡ task.id
  unfolding apply_scheduler_status observed update_task_with_event
  apply-id sql now task status db =
      let after = observed recent stamp now task status in
      let written : Task = record after { updated_at = now } in
      elim (Bool-cases (same_status task after)) [
        | inl same ↦ elim (Bool-cases (recent (get_meta "scheduler_observed_at" task.metadata))) [
          | inl young ↦ rw (same, young) refl
          | inr old ↦ rw (same, old) (saved-id sql written none db _ refl)
        ]
        | inr changed ↦ rw changed (
            saved-id sql written (some (event_for now written (status_event task written now))) db _
              refl)
      ]

  stale-id :
      (sql : Sql) (now : Timestamp) (task : Task) (db : Database)
      → (mark_scheduler_stale recent stamp sql now task db).0.id ≡ task.id
  unfolding mark_scheduler_stale
  stale-id sql now task db =
      let marked : Task = record task {
        metadata = stale_metadata recent stamp now task.metadata;
        updated_at = now;
      } in
      elim (Result-cases (update_task sql marked none db).0) [
        | inl (saved, e) ↦
            let run : update_task sql marked none db
                ≡ (ok saved, (update_task sql marked none db).1) =
              ground arith in
            rw (mark_scheduler_stale, e)
              (ap (λ (u : Task). u.id) (update-inv sql marked none db run).0)
        | inr (x, e) ↦ rw (mark_scheduler_stale, e) refl
      ]

  asked-id :
      (sql : Sql) (now : Timestamp) (status : Result Status) (task : Task) (db : Database)
      → (asked_status recent stamp sql now status task db).0.task.id ≡ task.id
  asked-id sql now (ok status) task db = apply-id sql now task status db
  asked-id sql now (err e) task db = stale-id sql now task db

  then-id :
      (sql : Sql) (now : Timestamp) (status : Result Status) (given : Task)
      (r : Result Task × Database)
      → (refreshed given r.0).task.id ≡ given.id
      → (then_status recent stamp sql now status given r).0.task.id ≡ given.id
  then-id sql now status given (ok t, db) e = asked-id sql now status t db ∙ e
  then-id sql now status given (err x, db) e = refl

  recovered-id :
      (first second : Sql) (now : Timestamp) (recovery : Result (Option String))
      (status : Result Status) (task : Task) (db : Database)
      → (recovered_job recent stamp first second now recovery status task db).0.task.id ≡ task.id
  unfolding update_task_with_event
  recovered-id first second now (err e) status task db = stale-id first now task db
  recovered-id first second now (ok none) status task db = refl
  recovered-id first second now (ok (some id)) status task db =
      let found = found_job recent stamp now id task in
      let event =
        task_event found "SCHEDULER_ID_RECOVERED" "status"
          "Recovered scheduler ID from remote marker or Slurm task comment" now in
      then-id second now status found _
        (saved-id first found (some (event_for now found event)) db _ refl)

  pub refresh-id :
      (clusters : List String) (first second : Sql) (now : Timestamp)
      (recovery : Result (Option String)) (status : Result Status) (task : Task) (db : Database)
      → (refresh_task recent stamp clusters first second now recovery status task db).0.task.id
        ≡ task.id
  unfolding refresh_task
  refresh-id clusters first second now recovery status task db =
      elim (Bool-cases (any (λ name. name == task.cluster_name) clusters)) [
        | inr gone ↦ rw gone refl
        | inl there ↦ elim (Bool-cases (task.scheduler_id == "")) [
          | inl lost ↦ rw (there, lost) (recovered-id first second now recovery status task db)
          | inr known ↦ rw (there, known) (asked-id second now status task db)
        ]
      ]
