-- ===== src/Tests/Tasks.antt =====
-- The theorems on task rows at the small database.
use joyrun.Base.{
  List, ℕ, ◌≡◌, refl, true, false, not, none, some, [], ◌∷◌, ◌==◌, ◌⊎◌, ◌+◌, ◌≤◌, select_where,
  find_where,
}
use joyrun.Fault.{ok, fail, is_ok, database_conflict}
use joyrun.Timestamp.{text_lt}
use joyrun.Model.{Task, TaskEvent}
use joyrun.Store.{Database}
use joyrun.Store.Metadata.{get_meta, delete_meta, encode_task, scan_task, scan_task-encode_task}
use joyrun.Store.Tasks.{create_task_idempotent, submission_key, insert_all, find_reserved}
use joyrun.Store.Tasks.Reservation.{NoDoubleSubmission, reserve-NoDoubleSubmission, reserve_twice}
use joyrun.Store.TaskUpdates.{update_task, update_tasks_with_events}
use joyrun.Store.TaskUpdates.Revision.{no_lost_update, update-effect}
use joyrun.Store.TaskUpdates.Batch.{next_revisions, IsWritten, batch-all-or-nothing}
use joyrun.Tests.Data.{at_second, working, store, task_named}

abbrev noted : TaskEvent
noted = record {
  task_id = "";
  kind = "STATUS_CHANGED";
  stage = "status";
  message = "";
  created_at = at_second 59;
}

abbrev task : Task
task = task_named "jr_1" "v1:a"

abbrev after_update : Database
after_update = (update_task working task none store).1

update_run : update_task working task none store ≡ (ok (record task { revision = 2 }), after_update)
unfolding update_task
update_run = refl

no_lost_update_example :
    update_task working (record task { elapsed = "1:00" }) none after_update
    ≡ (fail database_conflict true, after_update)
no_lost_update_example =
    no_lost_update working working task (record task { elapsed = "1:00" }) none none store
      update_run refl refl refl refl

update-effect_example :
    (◌≡◌ {A = ℕ} 2 (task.revision + 1))
    × (1 ≤ task.revision)
    × (select_where (λ t. not (t.id == "jr_1")) after_update.tasks
        ≡ select_where (λ t. not (t.id == "jr_1")) store.tasks)
update-effect_example = update-effect working task none store update_run

batch-all-or-nothing_example :
    let (result, db') =
      update_tasks_with_events working (at_second 60) (task ∷ []) (noted ∷ []) store in
    ((is_ok result ≡ false) × (db' ≡ store))
    ⊎ ((after : List Task) × (result ≡ ok after)
        × IsWritten (at_second 60) (task ∷ []) (noted ∷ []) after store db')
batch-all-or-nothing_example =
    batch-all-or-nothing working (at_second 60) (task ∷ []) (noted ∷ []) store

batch_run :
    (update_tasks_with_events working (at_second 60) (task ∷ []) (noted ∷ []) store).0
    ≡ ok (next_revisions (task ∷ []))
unfolding update_tasks_with_events encode_task joyrun.Base.update_where
batch_run = refl

reserve-NoDoubleSubmission_example :
    NoDoubleSubmission (create_task_idempotent working (task_named "jr_2" "v1:b") false store).1
reserve-NoDoubleSubmission_example =
    reserve-NoDoubleSubmission working (task_named "jr_2" "v1:b") store (refl, tt)

abbrev after_reserve : Database
after_reserve = (create_task_idempotent working (task_named "jr_2" "v1:b") false store).1

reserve_run :
    create_task_idempotent working (task_named "jr_2" "v1:b") false store ≡ (ok none, after_reserve)
unfolding create_task_idempotent insert_all find_reserved text_lt encode_task delete_meta find_where
    select_where
reserve_run = refl

reserve_twice_example :
    (held : Task) × (create_task_idempotent working (task_named "jr_3" "v1:b") false after_reserve
      ≡ (ok (some (scan_task held)), after_reserve))
    × (submission_key held ≡ submission_key (task_named "jr_2" "v1:b"))
reserve_twice_example =
    reserve_twice working working (task_named "jr_2" "v1:b") (task_named "jr_3" "v1:b") store
      reserve_run (λ n. refl) refl refl refl refl

scan_task-encode_task_example :
    ((scan_task (encode_task task)).dry_run ≡ false)
    × (get_meta "submission_key" (scan_task (encode_task task)).metadata
        ≡ get_meta "submission_key" task.metadata)
scan_task-encode_task_example = scan_task-encode_task task "submission_key" refl
