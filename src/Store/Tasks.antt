-- ===== src/Store/Tasks.antt =====
-- internal/store/store.go: task rows, their revisions, their events and the reservation of
-- submission keys.
pub mod Reservation
use joyrun.Base.{
  ℕ, zero, suc, ◌+◌, ◌<◌, String, Bool, true, false, ◌&&◌, ◌||◌, not, Option, none, some, List, [],
  ◌∷◌, ◌++◌, ◌==◌, any, update_where, select_where, find_where, nat_eq, ltb, length, map,
  if◌then◌else◌,
}
use joyrun.Fault.{
  Code, Result, ok, err, fail, ◌>>=◌, database_failed, database_busy, database_conflict,
  task_not_found, task_already_exists,
}
use joyrun.Timestamp.{Timestamp, is_zero, text_lt}
use joyrun.Model.{ComputeState, Task, TaskEvent}
use joyrun.Store.{Database, Sql, Exec}
use joyrun.Store.Operations.{has_project, has_task}
use joyrun.Store.Metadata.{get_meta, encode_task, scan_task}

-- insertTask: PRIMARY KEY(id) and the foreign key to the project.
unfoldable pub insert_task : Sql → ℕ → Task → Database → Result Database
insert_task sql n task db =
    if sql n && not (has_task db task.id) && has_project db task.project_id
    then ok (record db { tasks = db.tasks ++ encode_task task ∷ [] })
    else fail database_failed true

-- insertEvent, with the foreign key to the task.
unfoldable pub insert_event : Sql → ℕ → TaskEvent → Database → Result Database
insert_event sql n event db =
    if sql n && has_task db event.task_id
    then ok (record db { task_events = db.task_events ++ event ∷ [] })
    else fail database_failed true

abbrev pub created_event : Task → TaskEvent
created_event task = record {
  task_id = task.id;
  kind = "TASK_CREATED";
  stage = "task";
  message = "Task record created";
  created_at = task.created_at;
}

-- `if task.Revision == 0 { task.Revision = 1 }`
abbrev pub first_revision : Task → Task
first_revision task = record task { revision = if nat_eq task.revision 0 then 1 else task.revision }

-- The loop over a batch inside the transaction, two statements for each task.
unfoldable pub insert_all : Sql → ℕ → List Task → Database → Result Database
unfolding insert_task insert_event
insert_all sql n [] db = ok db
insert_all sql n (task ∷ tasks) db = do
  with_task ← insert_task sql n task db
  with_event ← insert_event sql (n + 1) (created_event task) with_task
  insert_all sql (n + 2) tasks with_event

-- The end of a transaction: commit, or roll back to the database at its begin.
abbrev pub commit : {A : Type 0} → Bool → A → Result Database → Database → Result A × Database
commit goes a (err e) db = (err e, db)
commit goes a (ok db') db = if goes then (ok a, db') else (fail database_failed true, db)

abbrev pub first_revisions : List Task → List Task
first_revisions [] = []
first_revisions (t ∷ ts) = first_revision t ∷ first_revisions ts

-- CreateTasks, and CreateTask on a batch of one. Statement 0 begins, 1 commits.
unfoldable pub create_tasks : Sql → List Task → Exec (Unit {0})
unfolding insert_all
create_tasks sql [] db = (ok tt, db)
create_tasks sql (task ∷ tasks) db =
    if not (sql 0)
    then (fail database_busy true, db)
    else commit (sql 1) tt (insert_all sql 2 (first_revisions (task ∷ tasks)) db) db

abbrev pub submission_key : Task → String
submission_key t = get_meta "submission_key" t.metadata

abbrev pub is_submission_failed : ComputeState → Bool
is_submission_failed ComputeState.submission_failed = true
is_submission_failed _ = false

-- A row that a reservation with this key meets.
unfoldable pub reserves : String → Task → Bool
unfolding get_meta
reserves key t = submission_key t == key && not (is_submission_failed t.compute_state)

-- `ORDER BY created_at DESC`, by the stored texts. The order of equal texts is SQLite's choice.
unfoldable pub by_newest : Task → List Task → List Task
by_newest t [] = t ∷ []
by_newest t (u ∷ us) =
    let rest = by_newest t us in if text_lt t.created_at u.created_at then u ∷ rest else t ∷ u ∷ us

unfoldable pub newest_first : List Task → List Task
unfolding by_newest
newest_first [] = []
newest_first (t ∷ ts) = by_newest t (newest_first ts)

abbrev pub of_source : String → String → Task → Bool
of_source project source t = t.project_id == project && t.source_path == source

-- History
unfoldable pub history : Sql → String → String → Exec (List Task)
unfolding newest_first
history sql project source db =
    if sql 0
    then (ok (map scan_task (newest_first (select_where (of_source project source) db.tasks))), db)
    else (fail database_failed true, db)

-- The first row of the query that the reservation meets.
unfoldable pub find_reserved : String → String → String → Database → Option Task
unfolding newest_first reserves
find_reserved project source key db =
    find_where (reserves key) (newest_first (select_where (of_source project source) db.tasks))

abbrev pub scanned : Option Task → Option Task
scanned none = none
scanned (some t) = some (scan_task t)

-- FindTaskBySubmissionKey
unfoldable pub find_task_by_submission_key : Sql → String → String → String → Exec (Option Task)
unfolding find_reserved
find_task_by_submission_key sql project source key db =
    if project == "" || source == "" || key == ""
    then (fail database_failed false, db)
    else if not (sql 0)
    then (fail database_failed true, db)
    else (ok (scanned (find_reserved project source key db)), db)

-- The first task of a batch that meets a reservation; the query for a task is one statement.
unfoldable pub find_duplicate : Sql → ℕ → List Task → Database → Result (Option Task)
find_duplicate sql n [] db = ok none
find_duplicate sql n (t ∷ ts) db =
    let rest = find_duplicate sql (suc n) ts db in
    if not (sql n)
    then fail database_failed true
    else elim (find_reserved t.project_id t.source_path (submission_key t) db) [
      | some existing ↦ ok (some (scan_task existing))
      | none ↦ rest
    ]

abbrev reserve : Sql → List Task → Result (Option Task) → Exec (Option Task)
reserve sql tasks (err e) db = (err e, db)
reserve sql tasks (ok (some existing)) db = (ok (some existing), db)
reserve sql tasks (ok none) db = commit (sql 1) none (insert_all sql (3 + length tasks) tasks db) db

abbrev pub without_result : Result (Unit {0}) × Database → Result (Option Task) × Database
without_result (ok _, db) = (ok none, db)
without_result (err e, db) = (err e, db)

-- CreateTasksIdempotent. Statement 2 takes the write lock; `some` is the task that was there.
unfoldable pub create_tasks_idempotent : Sql → List Task → Bool → Exec (Option Task)
unfolding find_duplicate
create_tasks_idempotent sql tasks true db = without_result (create_tasks sql tasks db)
create_tasks_idempotent sql [] false db = (ok none, db)
create_tasks_idempotent sql (t ∷ ts) false db =
    if any (λ (u : Task). submission_key u == "") (t ∷ ts)
    then (fail database_failed false, db)
    else if not (sql 0)
    then (fail database_busy true, db)
    else if not (sql 2)
    then (fail database_busy true, db)
    else reserve sql (first_revisions (t ∷ ts)) (find_duplicate sql 3 (first_revisions (t ∷ ts)) db)
        db

-- CreateTaskIdempotent runs the same statements for one task.
unfoldable pub create_task_idempotent : Sql → Task → Bool → Exec (Option Task)
unfolding create_tasks_idempotent
create_task_idempotent sql task force_new db = create_tasks_idempotent sql (task ∷ []) force_new db
