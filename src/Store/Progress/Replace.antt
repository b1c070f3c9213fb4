-- ===== src/Store/Progress/Replace.antt =====
-- Replacing the task rows of an operation is all or nothing.
use joyrun.Base.{
  ℕ, suc, String, ◌≡◌, refl, true, false, not, List, [], ◌∷◌, ◌⊎◌, ◌++◌, ◌==◌, select_where, arith,
  inl, inr,
}
use mathlib.Core.List.{append-nil}
use joyrun.Fault.{is_ok, ok, Result-cases}
use joyrun.Model.{OperationTask}
use joyrun.Store.{Database, Sql}
use joyrun.Store.Progress.{filled_task, insert_tasks, replace_operation_tasks}

-- The rows that a complete loop adds.
abbrev pub filled_tasks : String → ℕ → List OperationTask → List OperationTask
filled_tasks id index [] = []
filled_tasks id index (t ∷ ts) = filled_task id index t ∷ filled_tasks id (suc index) ts

append_one :
    (rows : List OperationTask) (t : OperationTask) (ts : List OperationTask)
    → (rows ++ t ∷ []) ++ ts ≡ rows ++ t ∷ ts
append_one [] t ts = refl
append_one (r ∷ rows) t ts = rw (append_one rows t ts)

insert_tasks-rows :
    (sql : Sql) (n : ℕ) (id : String) (index : ℕ) (db : Database) (tasks rows : List OperationTask)
    {after : List OperationTask}
    → insert_tasks sql n id index db tasks rows ≡ ok after
    → after ≡ rows ++ filled_tasks id index tasks
unfolding insert_tasks
insert_tasks-rows sql n id index db [] rows {after} h = rw append-nil (ground arith)
insert_tasks-rows sql n id index db (t ∷ ts) rows {after} h = ground (
  arith,
  insert_tasks-rows sql (suc n) id (suc index) db ts (rows ++ filled_task id index t ∷ [])
      {after = after},
  append_one rows (filled_task id index t) (filled_tasks id (suc index) ts),
)

-- The new table: the rows of other operations, in their order, and the given tasks with their
-- defaults filled in.
abbrev pub replaced : String → List OperationTask → Database → Database
replaced id tasks db = record db {
  operation_tasks =
      select_where (λ r. not (r.operation_id == id)) db.operation_tasks ++ filled_tasks id 0 tasks;
}

-- ReplaceOperationTasks either fails and changes nothing, or leaves exactly the given tasks as the
-- rows of the operation, beside the rows of all others.
pub replace-all-or-nothing :
    (sql : Sql) (id : String) (tasks : List OperationTask) (db : Database)
    → let (result, db') = replace_operation_tasks sql id tasks db in
      ((is_ok result ≡ false) × (db' ≡ db)) ⊎ ((is_ok result ≡ true) × (db' ≡ replaced id tasks db))
unfolding replace_operation_tasks
replace-all-or-nothing sql id tasks db =
    let rows =
      select_where (λ (r : OperationTask). not (r.operation_id == id)) db.operation_tasks in
    elim (Result-cases (insert_tasks sql 3 id 0 db tasks rows)) [
      | inl (after, e) ↦ ground (arith, insert_tasks-rows sql 3 id 0 db tasks rows e)
      | inr (x, e) ↦ ground arith
    ]
