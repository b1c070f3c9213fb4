-- ===== src/App/AtMostOnce.antt =====
-- internal/app/app.go: over all interleavings and crashes, one sbatch for a task.
use joyrun.Base.{
  ℕ, ◌≤◌, String, ◌≡◌, refl, subst, true, false, inl, inr, List, [], any, All, nat_eq, arith,
  Bool-cases,
}
use joyrun.Fault.{internal_error, err}
use joyrun.Store.{Database}
use joyrun.App.Program.{done, call, Attempt}
use joyrun.App.Submit.{SubmitResult}
use joyrun.App.Phases.{Phase, quiet, after, Runs, Anything, Runs-NoSbatch}
use joyrun.App.Fenced.{Runs-execute}
use joyrun.App.World.{put, System, Step, move, execute, other, Reach, start, later, count}
use joyrun.App.Invariant.{starts, Inv, Inv-kept}
use joyrun.App.Invariant.Moves.{Inv-move}

module _ (id : String) where
  -- Every process keeps to the phase it is in.
  record Held (s : System) : Type 0 where
    pub ph : ℕ → Phase
    pub inv : Inv id s.world ph
    pub runs : (n : ℕ) → Runs id (ph n) (s.procs n) (Anything id)

  put-runs :
      (ph : ℕ → Phase) (procs : ℕ → Attempt SubmitResult) (n : ℕ) (p : Phase)
      (m : Attempt SubmitResult)
      → ((i : ℕ) → Runs id (ph i) (procs i) (Anything id))
      → Runs id p m (Anything id)
      → (i : ℕ) → Runs id (put ph n p i) (put procs n m i) (Anything id)
  put-runs ph procs n p m h k i = elim (Bool-cases (nat_eq i n)) [
    | inl e ↦ rw e k
    | inr e ↦ rw e (h i)
  ]

  replaced :
      (s : System) (n : ℕ) (m : Attempt SubmitResult)
      → Held s
      → Runs id quiet m (Anything id)
      → Held (record s { procs = put s.procs n m })
  replaced s n m h k = record {
    ph = put h.ph n quiet;
    inv = Inv-kept id n quiet h.inv refl refl tt refl;
    runs = put-runs h.ph s.procs n quiet m h.runs k;
  }

  Step-Held : {clusters : List String} {s t : System} → Step clusters s t → Held s → Held t
  Step-Held {s} (move n {r} {k} a e answered) h =
      let now_runs : Runs id (h.ph n) (call r k) (Anything id) =
        subst (λ m. Runs id (h.ph n) m (Anything id)) e (h.runs n) in
      let (plausible, inv') = Inv-move id n r a h.inv now_runs.0 answered in
      record {
        ph = put h.ph n (after id (h.ph n) r a);
        inv = inv';
        runs =
            put-runs h.ph s.procs n (after id (h.ph n) r a) (k a) h.runs (now_runs.1 a plausible);
      }
  Step-Held {clusters} {s} (execute n i) h = replaced s n _ h (Runs-execute id clusters i)
  Step-Held {s} (other n m harmless) h = replaced s n m h (Runs-NoSbatch id quiet m harmless)

  Reach-Held : {clusters : List String} {s t : System} → Reach clusters s t → Held s → Held t
  Reach-Held start h = h
  Reach-Held (later r st) h = Step-Held st (Reach-Held r h)

abbrev pub idle_processes : ℕ → Attempt SubmitResult
idle_processes n = done (err (record { code = internal_error; retryable = false }))

abbrev pub initial : Database → System
initial db = record { world = record { db = db; sbatches = [] }; procs = idle_processes }

Held-initial :
    (id : String) (db : Database) (revision : ℕ)
    → All (λ t. t.id ≡ id → t.revision ≡ revision) db.tasks
    → Held id (initial db)
Held-initial id db revision rows = record {
  ph = λ n. quiet;
  inv = record {
    rev = revision;
    live = false;
    rows = rows;
    fenced = λ l. ground arith;
    phases = λ n. tt;
    unique = λ m n at_m at_n. ground arith;
    unsent = λ n at. ground arith;
    idle = λ l. refl;
    once = omega arith;
  };
  runs = λ n. tt;
}

-- sbatch is asked for at most once for a task, over any number of runs of ExecuteReservedSubmit for
-- any tasks and any other processes that never ask for sbatch, interleaved in any order, dying at
-- any point, with a database that may fail at any statement and a cluster that may answer anything.
-- At the start the rows of the task have one revision, and sbatch was not asked for it.
pub at_most_once :
    (clusters : List String) (id : String) (db : Database) (revision : ℕ) {s : System}
    → All (λ t. t.id ≡ id → t.revision ≡ revision) db.tasks
    → Reach clusters (initial db) s
    → count id s.world.sbatches ≤ 1
at_most_once clusters id db revision rows r =
    (Reach-Held id r (Held-initial id db revision rows)).inv.once

-- In every state that is reached so, sbatch was asked for the task only if SUBMIT_STARTED is in the
-- store for it: the fence that a later run reads is written before the command goes out.
pub sbatch-fenced :
    (clusters : List String) (id : String) (db : Database) (revision : ℕ) {s : System}
    → All (λ t. t.id ≡ id → t.revision ≡ revision) db.tasks
    → Reach clusters (initial db) s
    → 1 ≤ count id s.world.sbatches
    → any (starts id) s.world.db.task_events ≡ true
sbatch-fenced clusters id db revision rows r asked =
    let h = Reach-Held id r (Held-initial id db revision rows) in
    elim (Bool-cases h.inv.live) [
      | inl e ↦ h.inv.fenced e
      | inr e ↦ absurd (omega (arith, h.inv.idle e))
    ]
