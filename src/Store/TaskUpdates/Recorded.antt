-- ===== src/Store/TaskUpdates/Recorded.antt =====
-- internal/store/store.go: what UpdateTaskWithEvent has written, and that a failure writes nothing.
use joyrun.Base.{ℕ, ◌≡◌, true, some, [], ◌∷◌, ◌++◌, inl, inr, any, update_where, arith}
use joyrun.Fault.{Error, ok, err, Result-cases}
use joyrun.Timestamp.{Timestamp}
use joyrun.Model.{Task, TaskEvent}
use joyrun.Store.{Database, Sql}
use joyrun.Store.Tasks.{insert_event}
use joyrun.Store.TaskUpdates.{
  at_revision, next_revision, write_task, update_task_record, update_task, event_for,
  update_task_with_event,
}
use joyrun.Store.TaskUpdates.Revision.{update-inv}

pub record-recorded :
    (sql : Sql) (n : ℕ) (task : Task) (event : TaskEvent) (db : Database) {r : ℕ} {db' : Database}
    → update_task_record sql n task (some event) db ≡ ok (r, db')
    → (any (at_revision task.id task.revision) db.tasks ≡ true)
      × (db'.task_events ≡ db.task_events ++ event ∷ [])
unfolding update_task_record insert_event
record-recorded sql n task event db {r} {db'} h = (ground arith, ground arith)

update-recorded :
    (sql : Sql) (task : Task) (event : TaskEvent) (db : Database) {after : Task} {db' : Database}
    → update_task sql task (some event) db ≡ (ok after, db')
    → (any (at_revision task.id task.revision) db.tasks ≡ true)
      × (db'.task_events ≡ db.task_events ++ event ∷ [])
unfolding update_task
update-recorded sql task event db {after} {db'} h =
    elim (Result-cases (update_task_record sql 2 task (some event) db)) [
      | inl ((r, last), e) ↦
          let (held, added) = record-recorded sql 2 task event db e in (held, ground (arith, added))
      | inr (x, e) ↦ (ground arith, ground arith)
    ]

-- An update that goes through met the row at the task's revision, rewrote it at the next one and
-- added its event at the end.
pub update_with_event-inv :
    (sql : Sql) (now : Timestamp) (task : Task) (event : TaskEvent) (db : Database) {after : Task}
    {db' : Database}
    → update_task_with_event sql now task event db ≡ (ok after, db')
    → (after ≡ next_revision task)
      × (any (at_revision task.id task.revision) db.tasks ≡ true)
      × (db'.tasks
          ≡ update_where
              (at_revision task.id task.revision)
              (write_task (next_revision task))
              db.tasks)
      × (db'.task_events ≡ db.task_events ++ event_for now task event ∷ [])
unfolding update_task_with_event
update_with_event-inv sql now task event db h =
    let (filled, _, rows) = update-inv sql task (some (event_for now task event)) db h in
    let (held, added) = update-recorded sql task (event_for now task event) db h in
    (filled, held, rows, added)

pub update_with_event-err :
    (sql : Sql) (now : Timestamp) (task : Task) (event : TaskEvent) (db : Database) {x : Error}
    {db' : Database}
    → update_task_with_event sql now task event db ≡ (err x, db')
    → db' ≡ db
unfolding update_task_with_event update_task
update_with_event-err sql now task event db {x} {db'} h =
    elim (Result-cases (update_task_record sql 2 task (some (event_for now task event)) db)) [
      | inl ((r, last), e) ↦ ground arith
      | inr (y, e) ↦ ground arith
    ]
