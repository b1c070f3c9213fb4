-- ===== src/Store/TaskUpdates/Revision.antt =====
-- No update of a task is lost.
use joyrun.Base.{
  ℕ, ◌+◌, ◌≤◌, ◌≡◌, refl, ap, true, false, not, Option, none, some, List, [], ◌∷◌, ◌==◌, inl, inr,
  any, update_where, select_where, arith, select_where-update_where,
}
use joyrun.Fault.{ok, fail, Result-cases, database_conflict}
use joyrun.Model.{Task, TaskEvent}
use joyrun.Store.{Database, Sql}
use joyrun.Store.Metadata.{encode_task}
use joyrun.Store.Tasks.{insert_event}
use joyrun.Store.TaskUpdates.{
  add_event, at_revision, next_revision, write_task, update_task_record, update_task,
}

-- Once the rows at a revision are rewritten at the next one, no row is left at the old.
old_revision_gone :
    (task : Task) (ts : List Task)
    → any
        (at_revision task.id task.revision)
        (update_where (at_revision task.id task.revision) (write_task (next_revision task)) ts)
      ≡ false
unfolding update_where encode_task
old_revision_gone task [] = refl
old_revision_gone task (t ∷ ts) = ground (arith, old_revision_gone task ts)

pub tasks-add_event :
    (sql : Sql) (n : ℕ) (event : Option TaskEvent) (db : Database) {db' : Database}
    → add_event sql n event db ≡ ok db'
    → db'.tasks ≡ db.tasks
unfolding insert_event
tasks-add_event sql n none db {db'} h = ground arith
tasks-add_event sql n (some event) db {db'} h = ground arith

-- What a successful update of a row has done.
pub record-inv :
    (sql : Sql) (n : ℕ) (task : Task) (event : Option TaskEvent) (db : Database) {r : ℕ}
    {db' : Database}
    → update_task_record sql n task event db ≡ ok (r, db')
    → (r ≡ task.revision + 1)
      × (1 ≤ task.revision)
      × (db'.tasks
          ≡ update_where
              (at_revision task.id task.revision)
              (write_task (next_revision task))
              db.tasks)
unfolding update_task_record
record-inv sql n task event db {r} {db'} h =
    let written : Database = record db {
      tasks =
          update_where (at_revision task.id task.revision) (write_task (next_revision task))
            db.tasks;
    } in
    elim (Result-cases (add_event sql (n + 1) event written)) [
      | inl (after, e) ↦
          (ground arith, ground arith, ground (arith, tasks-add_event sql (n + 1) event written e))
      | inr (x, e) ↦ (ground arith, ground arith, ground arith)
    ]

pub update-inv :
    (sql : Sql) (task : Task) (event : Option TaskEvent) (db : Database) {after : Task}
    {db' : Database}
    → update_task sql task event db ≡ (ok after, db')
    → (after ≡ next_revision task)
      × (1 ≤ task.revision)
      × (db'.tasks
          ≡ update_where
              (at_revision task.id task.revision)
              (write_task (next_revision task))
              db.tasks)
unfolding update_task
update-inv sql task event db {after} {db'} h =
    elim (Result-cases (update_task_record sql 2 task event db)) [
      | inl ((r, last), e) ↦
          let (at_r, pos, rows) = record-inv sql 2 task event db e in
          (ground (arith, at_r), pos, ground (arith, rows))
      | inr (x, e) ↦ (ground arith, ground arith, ground arith)
    ]

pub conflicts :
    (sql : Sql) (task : Task) (event : Option TaskEvent) (db : Database)
    → sql 0 ≡ true
    → sql 2 ≡ true
    → any (at_revision task.id task.revision) db.tasks ≡ false
    → update_task sql task event db ≡ (fail database_conflict true, db)
unfolding update_task update_task_record
conflicts sql task event db up up' gone = ground arith

-- Of two processes that read the same revision of a task, one writes: after the first update went
-- through, the second, on a database that works, is refused as DATABASE_CONFLICT and changes
-- nothing.
pub no_lost_update :
    (sql sql' : Sql) (a b : Task) (event event' : Option TaskEvent) (db : Database) {after : Task}
    {db' : Database}
    → update_task sql a event db ≡ (ok after, db')
    → b.id ≡ a.id
    → b.revision ≡ a.revision
    → sql' 0 ≡ true
    → sql' 2 ≡ true
    → update_task sql' b event' db' ≡ (fail database_conflict true, db')
no_lost_update sql sql' a b event event' db {after} {db'} h same_id same_revision up up' =
    let (_, _, rows) = update-inv sql a event db h in
    conflicts sql' b event' db' up up'
      (rw (rows, same_id, same_revision) (old_revision_gone a db.tasks))

-- A successful update hands back the task at the next revision and leaves the rows of all other
-- tasks as they were, in their order.
pub update-effect :
    (sql : Sql) (task : Task) (event : Option TaskEvent) (db : Database) {after : Task}
    {db' : Database}
    → update_task sql task event db ≡ (ok after, db')
    → (after.revision ≡ task.revision + 1)
      × (1 ≤ task.revision)
      × (select_where (λ t. not (t.id == task.id)) db'.tasks
          ≡ select_where (λ t. not (t.id == task.id)) db.tasks)
update-effect sql task event db {after} {db'} h =
    let (filled, pos, rows) = update-inv sql task event db h in
    (
      ap (λ (t : Task). t.revision) filled,
      pos,
      rw rows (
          select_where-update_where (λ (t : Task). not (t.id == task.id))
            (at_revision task.id task.revision) (write_task (next_revision task)) db.tasks
            (λ t own. (ground arith, ground arith))),
    )
