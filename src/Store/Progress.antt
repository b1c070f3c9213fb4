-- ===== src/Store/Progress.antt =====
-- internal/store/operations.go: the task rows of an operation, replaced as a whole.
pub mod Replace
use joyrun.Base.{
  ℕ, zero, suc, ◌+◌, String, Bool, true, false, ◌&&◌, ◌||◌, not, Option, none, some, List, [], ◌∷◌,
  ◌++◌, ◌==◌, any, select_where, nat_eq, ltb, if◌then◌else◌,
}
use joyrun.Fault.{Result, ok, err, fail, operation_invalid, database_failed, database_busy}
use joyrun.Model.{OperationTask}
use joyrun.Store.{Database, Sql, Exec}
use joyrun.Store.Operations.{has_operation, has_task}

-- The defaults that the loop fills in the task at position `index`.
unfoldable pub filled_task : String → ℕ → OperationTask → OperationTask
filled_task operation_id index task = record task {
  operation_id = if task.operation_id == "" then operation_id else task.operation_id;
  ordinal = if nat_eq task.ordinal 0 && ltb 0 index then index else task.ordinal;
  state = if task.state == "" then "pending" else task.state;
  result = if task.result == "" then "{}" else task.result;
}

-- PRIMARY KEY(operation_id, task_id) and UNIQUE(operation_id, ordinal)
abbrev pub clashes : OperationTask → OperationTask → Bool
clashes a b =
    a.operation_id == b.operation_id && (a.task_id == b.task_id || nat_eq a.ordinal b.ordinal)

-- The INSERT goes through: no key is taken, and both foreign keys are there.
unfoldable pub insertable : Database → OperationTask → List OperationTask → Bool
insertable db task rows =
    not (any (clashes task) rows) && has_operation db task.operation_id && has_task db task.task_id

-- The loop: the n-th statement of the transaction inserts the task at position `index`.
unfoldable pub insert_tasks :
    Sql
    → ℕ
    → String
    → ℕ
    → Database
    → List OperationTask
    → List OperationTask
    → Result (List OperationTask)
insert_tasks sql n id index db [] rows = ok rows
insert_tasks sql n id index db (given ∷ tasks) rows =
    let task = filled_task id index given in
    let rest = insert_tasks sql (suc n) id (suc index) db tasks (rows ++ task ∷ []) in
    if not (task.operation_id == id) || task.task_id == ""
    then fail operation_invalid false
    else if sql n && insertable db task rows
    then rest
    else fail database_failed true

abbrev commit_tasks : Sql → Result (List OperationTask) → Exec (Unit {0})
commit_tasks sql (err e) db = (err e, db)
commit_tasks sql (ok rows) db =
    if sql 2 then (ok tt, record db { operation_tasks = rows }) else (fail database_failed true, db)

-- ReplaceOperationTasks. Statement 0 begins the transaction, 1 clears, 2 commits, and 3 on insert.
unfoldable pub replace_operation_tasks : Sql → String → List OperationTask → Exec (Unit {0})
unfolding insert_tasks
replace_operation_tasks sql id tasks db =
    if id == ""
    then (fail operation_invalid false, db)
    else if not (sql 0)
    then (fail database_busy true, db)
    else if not (sql 1)
    then (fail database_failed true, db)
    else commit_tasks sql
        (insert_tasks sql 3 id 0 db tasks
          (select_where (λ r. not (r.operation_id == id)) db.operation_tasks))
        db

-- `ORDER BY ordinal`, an insertion sort; ordinals of one operation are distinct.
unfoldable pub by_ordinal : OperationTask → List OperationTask → List OperationTask
by_ordinal t [] = t ∷ []
by_ordinal t (u ∷ us) =
    let rest = by_ordinal t us in if ltb u.ordinal t.ordinal then u ∷ rest else t ∷ u ∷ us

unfoldable pub sort_ordinal : List OperationTask → List OperationTask
unfolding by_ordinal
sort_ordinal [] = []
sort_ordinal (t ∷ ts) = by_ordinal t (sort_ordinal ts)

-- OperationTasks
unfoldable pub operation_tasks : Sql → String → Exec (List OperationTask)
unfolding sort_ordinal
operation_tasks sql id db =
    if id == ""
    then (fail operation_invalid false, db)
    else if not (sql 0)
    then (fail database_failed true, db)
    else (ok (sort_ordinal (select_where (λ r. r.operation_id == id) db.operation_tasks)), db)
