-- ===== src/App/World.antt =====
-- internal/app: the store and the cluster that answer the requests, and processes that run over
-- them, interleaved in any order. The clock and the remote host may answer anything; a call into the
-- store runs its code, on a database that may fail at any statement.
use joyrun.Base.{ℕ, suc, String, ◌≡◌, List, [], ◌∷◌, ◌==◌, nat_eq, if◌then◌else◌}
use joyrun.Timestamp.{Timestamp}
use joyrun.Store.{Database, Sql}
use joyrun.Store.TaskUpdates
use joyrun.App.Program.{Request, get_task, events, update, sbatch, AnswerTo, call, Attempt}
use joyrun.App.Submit.{SubmitResult, execute_reserved_submit}
use joyrun.App.Phases.{NoSbatch}

-- The tasks for which sbatch was asked, the last first.
pub record World : Type 0 where
  pub db : Database
  pub sbatches : List String

abbrev pub Kept : World → World → Type 0
Kept w w' = (w'.db ≡ w.db) × (w'.sbatches ≡ w.sbatches)

-- The answer to a request in a world, and the world after it.
abbrev pub Answers : World → (r : Request) → AnswerTo r → World → Type 0
Answers w (get_task id) a w' =
    ((sql : Sql) × (a ≡ (TaskUpdates.get_task sql id w.db).0)) × Kept w w'
Answers w (events id) a w' =
    ((read : Sql) × (sql : Sql) × (a ≡ (TaskUpdates.events read sql id w.db).0)) × Kept w w'
Answers w (update t e) a w' =
    ((sql : Sql) × (now : Timestamp) × (TaskUpdates.update_task_with_event sql now t e w.db
        ≡ (a, w'.db)))
    × (w'.sbatches ≡ w.sbatches)
Answers w (sbatch t) a w' = (w'.db ≡ w.db) × (w'.sbatches ≡ t.id ∷ w.sbatches)
Answers w _ a w' = Kept w w'

abbrev pub put {ℓ} : {A : Type ℓ} → (ℕ → A) → ℕ → A → ℕ → A
put f n x m = if nat_eq m n then x else f m

-- A process that died never moves again, or its place is taken by a new one.
pub record System : Type 0 where
  pub world : World
  pub procs : ℕ → Attempt SubmitResult

pub data Step (clusters : List String) (s : System) : System → Type 0 where
  move :
      (n : ℕ) {r : Request} {k : AnswerTo r → Attempt SubmitResult} (a : AnswerTo r) {w : World}
      → s.procs n ≡ call r k
      → Answers s.world r a w
      → Step clusters s (record { world = w; procs = put s.procs n (k a) })
  execute :
      (n : ℕ) (id : String)
      → Step clusters s (record s { procs = put s.procs n (execute_reserved_submit clusters id) })
  other :
      (n : ℕ) (m : Attempt SubmitResult)
      → NoSbatch m
      → Step clusters s (record s { procs = put s.procs n m })

pub data Reach (clusters : List String) (s : System) : System → Type 0 where
  start : Reach clusters s s
  later : {t u : System} → Reach clusters s t → Step clusters t u → Reach clusters s u

-- How often sbatch was asked for a task.
abbrev pub count : String → List String → ℕ
count id [] = 0
count id (x ∷ xs) = if x == id then suc (count id xs) else count id xs
