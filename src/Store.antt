-- ===== src/Store.antt =====
-- internal/store: the SQLite database. A method is a function from the database to its result and
-- the new database. A transaction that is not committed leaves the database as it was.
pub mod Operations
pub mod Leases
pub mod Progress
pub mod Metadata
pub mod Tasks
pub mod TaskUpdates
use joyrun.Base.{ℕ, Bool, List}
use joyrun.Fault.{Result}
use joyrun.Model.{Operation, OperationTask, OperationEvent, ProjectRow, Task, TaskEvent}

pub record Database : Type 0 where
  pub projects : List ProjectRow
  pub tasks : List Task
  pub task_events : List TaskEvent
  pub operations : List Operation
  pub operation_events : List OperationEvent
  pub operation_tasks : List OperationTask

-- Whether the n-th call into SQLite that a method makes goes through, its constraints apart: a
-- locked file or a failing disk is `false`.
abbrev pub Sql : Type 0
Sql = ℕ → Bool

abbrev pub Exec : Type 0 → Type 0
Exec A = Database → Result A × Database
