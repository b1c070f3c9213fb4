-- ===== src/Store/TaskUpdates.antt =====
-- internal/store/store.go: task updates under optimistic concurrency, single reads, and the import of
-- a recovered task.
pub mod Revision
pub mod Recorded
pub mod Batch
use joyrun.Base.{
  ℕ, zero, suc, ◌+◌, ◌<◌, String, Bool, true, false, ◌&&◌, ◌||◌, not, Option, none, some, List, [],
  ◌∷◌, ◌++◌, ◌==◌, any, update_where, select_where, find_where, nat_eq, ltb, length, if◌then◌else◌,
}
use joyrun.Fault.{
  Code, Result, ok, err, fail, ◌>>=◌, database_failed, database_busy, database_conflict,
  task_not_found, task_already_exists,
}
use joyrun.Timestamp.{Timestamp, is_zero}
use joyrun.Model.{Task, TaskEvent}
use joyrun.Store.{Database, Sql, Exec}
use joyrun.Store.Operations.{has_project, has_task}
use joyrun.Store.Metadata.{encode_task, scan_task}
use joyrun.Store.Tasks.{insert_task, insert_event, commit, first_revision, newest_first, of_source}

-- `WHERE id=? AND revision=?`
abbrev pub at_revision : String → ℕ → Task → Bool
at_revision id revision t = t.id == id && nat_eq t.revision revision

abbrev pub next_revision : Task → Task
next_revision task = record task { revision = task.revision + 1 }

-- The UPDATE writes every column but the id.
abbrev pub write_task : Task → Task → Task
write_task task row = record (encode_task task) { id = row.id }

abbrev pub add_event : Sql → ℕ → Option TaskEvent → Database → Result Database
add_event sql n none db = ok db
add_event sql n (some event) db = insert_event sql n event db

-- updateTaskRecord: the new revision and the transaction's new state. The revision is an int64
-- that starts at 1 and grows by 1; its overflow is out of reach.
unfoldable pub update_task_record :
    Sql → ℕ → Task → Option TaskEvent → Database → Result (ℕ × Database)
unfolding insert_event
update_task_record sql n task event db =
    if ltb task.revision 1
    then fail database_conflict true
    else if not (sql n)
    then fail database_failed true
    else if not (any (at_revision task.id task.revision) db.tasks)
    then fail database_conflict true
    else if not (has_project db task.project_id)
    then fail database_failed true
    else do
      after ← add_event sql (n + 1) event (record db {
        tasks =
            update_where (at_revision task.id task.revision) (write_task (next_revision task))
              db.tasks;
      })
      ok (task.revision + 1, after)

abbrev pub commit_update : Bool → Task → Result (ℕ × Database) → Exec Task
commit_update goes task (err e) db = (err e, db)
commit_update goes task (ok (revision, db')) db =
    if goes
    then (ok (record task { revision = revision }), db')
    else (fail database_failed true, db)

-- updateTask, which UpdateTask calls with no event: the caller's task gets the new revision after
-- the commit. Statement 0 begins, 1 commits.
unfoldable pub update_task : Sql → Task → Option TaskEvent → Exec Task
unfolding update_task_record
update_task sql task event db =
    if ltb task.revision 1
    then (fail database_conflict true, db)
    else if not (sql 0)
    then (fail database_busy true, db)
    else commit_update (sql 1) task (update_task_record sql 2 task event db) db

-- The defaults of an event that goes with a task.
unfoldable pub event_for : Timestamp → Task → TaskEvent → TaskEvent
event_for now task event = record event {
  task_id = if event.task_id == "" then task.id else event.task_id;
  created_at = if is_zero event.created_at then now else event.created_at;
}

-- UpdateTaskWithEvent
unfoldable pub update_task_with_event : Sql → Timestamp → Task → TaskEvent → Exec Task
unfolding update_task event_for
update_task_with_event sql now task event db =
    update_task sql task (some (event_for now task event)) db

-- The loop of UpdateTasksWithEvents; the two lists have one length.
unfoldable pub update_all :
    Sql → ℕ → Timestamp → List Task → List TaskEvent → Database → Result (List Task × Database)
unfolding update_task_record event_for
update_all sql n now [] events db = ok ([], db)
update_all sql n now (t ∷ ts) [] db = fail database_failed false
update_all sql n now (t ∷ ts) (event ∷ events) db = do
  (revision, after) ← update_task_record sql n t (some (event_for now t event)) db
  (rest, last) ← update_all sql (n + 2) now ts events after
  ok (record t { revision = revision } ∷ rest, last)

abbrev pub commit_all : Bool → Result (List Task × Database) → Exec (List Task)
commit_all goes (err e) db = (err e, db)
commit_all goes (ok (tasks, db')) db =
    if goes then (ok tasks, db') else (fail database_failed true, db)

-- UpdateTasksWithEvents: the tasks with their new revisions.
unfoldable pub update_tasks_with_events :
    Sql → Timestamp → List Task → List TaskEvent → Exec (List Task)
unfolding update_all
update_tasks_with_events sql now [] events db = (ok [], db)
update_tasks_with_events sql now (t ∷ ts) events db =
    if not (nat_eq (length events) (length (t ∷ ts)))
    then (fail database_failed false, db)
    else if not (sql 0)
    then (fail database_busy true, db)
    else commit_all (sql 1) (update_all sql 2 now (t ∷ ts) events db) db

-- GetTask
unfoldable pub get_task : Sql → String → Exec Task
unfolding scan_task
get_task sql id db =
    if not (sql 0)
    then (fail database_failed false, db)
    else elim (find_where (λ (t : Task). t.id == id) db.tasks) [
      | none ↦ (fail task_not_found false, db)
      | some t ↦ (ok (scan_task t), db)
    ]

-- Events: the rows come in the order of their ids, which is the order of insertion. The look for the
-- task has statements of its own.
unfoldable pub events : Sql → Sql → String → Exec (List TaskEvent)
unfolding get_task
events read sql id db = elim (get_task read id db).0 [
  | err e ↦ (err e, db)
  | ok _ ↦
      if not (sql 0)
      then (fail database_failed true, db)
      else (ok (select_where (λ (e : TaskEvent). e.task_id == id) db.task_events), db)
]

abbrev first_scanned : List Task → Result Task
first_scanned [] = fail task_not_found false
first_scanned (t ∷ ts) = ok (scan_task t)

-- LatestTask
unfoldable pub latest_task : Sql → String → String → Exec Task
unfolding newest_first scan_task
latest_task sql project source db =
    if not (sql 0)
    then (fail database_failed false, db)
    else (first_scanned (newest_first (select_where (of_source project source) db.tasks)), db)

-- AppendEvent; the look for the task has statements of its own.
unfoldable pub append_event : Sql → Sql → Timestamp → TaskEvent → Exec (Unit {0})
unfolding get_task insert_event
append_event read sql now event db = elim (get_task read event.task_id db).0 [
  | err e ↦ (err e, db)
  | ok _ ↦
      elim (insert_event sql 0
        (record event { created_at = if is_zero event.created_at then now else event.created_at })
        db) [ err e ↦ (err e, db) | ok db' ↦ (ok tt, db') ]
]

abbrev recovered_event : Timestamp → Task → TaskEvent
recovered_event now task = record {
  task_id = task.id;
  kind = "TASK_RECOVERED";
  stage = "recovery";
  message = "Task imported from remote metadata";
  created_at = now;
}

-- ImportTask, where the look for the task found none or found it.
unfoldable pub import_task : Sql → Sql → Timestamp → Task → Exec (Unit {0})
unfolding insert_task insert_event
import_task read sql now given db =
    if not (read 0)
    then (fail database_failed false, db)
    else if has_task db given.id
    then (fail task_already_exists false, db)
    else if not (sql 0)
    then (fail database_busy true, db)
    else let task = first_revision given in
      commit (sql 1) tt
        (do
          with_task ← insert_task sql 2 task db
          insert_event sql 3 (recovered_event now task) with_task)
        db
