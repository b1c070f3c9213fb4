-- ===== src/App/StatusAll.antt =====
-- internal/app/app.go: StatusAll, after the tasks of the project were listed.
pub mod Complete
pub mod Own
use joyrun.Base.{
  ℕ, zero, suc, String, Bool, true, false, not, Option, none, some, List, [], ◌∷◌, ◌++◌, ◌==◌, any,
  update_where, find_where, if◌then◌else◌,
}
use joyrun.Fault.{Error, Result, ok, err, cluster_not_found}
use joyrun.Timestamp.{Timestamp}
use joyrun.Model.{Task}
use joyrun.Store.{Database, Sql}
use joyrun.App.Submit.{is_uncertain}
use joyrun.App.Status.{
  Status, Refreshed, is_bulk_refreshable, observe_metadata, apply_scheduler_status,
  mark_scheduler_stale,
}
use joyrun.App.Renewal.{Surroundings, refresh_prior}

pub record StatusFailure : Type 0 where
  pub task_id : String
  pub error : Error

-- A clusterBatch, with the name of its cluster.
pub record ClusterBatch : Type 0 where
  pub cluster : String
  pub tasks : List Task

-- An entry of the map `resolved`.
pub record Resolved : Type 0 where
  pub id : String
  pub task : Task

-- The variables of the call, and the database.
pub record Progress : Type 0 where
  pub failures : List StatusFailure
  pub resolved : List Resolved
  pub batches : List ClusterBatch
  pub db : Database

abbrev pub resolve : String → Task → Progress → Progress
resolve id t p = record p { resolved = record { id = id; task = t } ∷ p.resolved }

abbrev pub fail_with : String → Error → Progress → Progress
fail_with id e p = record p { failures = p.failures ++ record { task_id = id; error = e } ∷ [] }

abbrev pub insert_at : ℕ → ClusterBatch → List ClusterBatch → List ClusterBatch
insert_at zero b bs = b ∷ bs
insert_at (suc n) b [] = b ∷ []
insert_at (suc n) b (c ∷ bs) = c ∷ insert_at n b bs

-- A task joins the batch of its cluster. A loop over a map visits its entries in any order: a new
-- batch takes the place that `place` gives it.
unfoldable pub add_to_batch : (String → ℕ) → Task → List ClusterBatch → List ClusterBatch
add_to_batch place t bs =
    if any (λ b. b.cluster == t.cluster_name) bs
    then update_where (λ b. b.cluster == t.cluster_name)
        (λ b. record b { tasks = b.tasks ++ t ∷ [] }) bs
    else insert_at (place t.cluster_name) (record { cluster = t.cluster_name; tasks = t ∷ [] }) bs

abbrev pub keep_refreshed : String → Refreshed × Database → Progress → Progress
keep_refreshed id (r, db) p = elim r.error [
  | some e ↦ fail_with id e (record p { db = db })
  | none ↦ resolve id r.task (record p { db = db })
]

module _ (recent : String → Bool) (stamp : Timestamp → String) (clusters : List String) where
  -- The body of the first loop.
  unfoldable pub sort_task : (String → ℕ) → (Task → Surroundings) → Task → Progress → Progress
  unfolding add_to_batch
  sort_task place meets t p =
      if not (is_bulk_refreshable t.compute_state)
      then resolve t.id t p
      else if t.scheduler_id == ""
      then (if is_uncertain t.compute_state
          then keep_refreshed t.id (refresh_prior recent stamp clusters meets t p.db) p
          else resolve t.id t p)
      else if not (any (λ name. name == t.cluster_name) clusters)
      then fail_with t.id (record { code = cluster_not_found; retryable = false }) p
      else record p { batches = add_to_batch place t p.batches }

  unfoldable pub sort_tasks : (String → ℕ) → (Task → Surroundings) → List Task → Progress → Progress
  sort_tasks place meets [] p = p
  sort_tasks place meets (t ∷ ts) p = sort_tasks place meets ts (sort_task place meets t p)

  abbrev pub mark_stale : Surroundings → Task → Error → Progress → Progress
  mark_stale s t e p =
      fail_with t.id e
        (record p { db = (mark_scheduler_stale recent stamp s.second s.now t p.db).1 })

  -- Metadata is a map that the failed call shares with the task of the loop.
  abbrev pub apply_one : Surroundings → Task → Refreshed × Database → Progress → Progress
  apply_one s t (r, db) p = elim r.error [
    | some e ↦
        mark_stale s (record t { metadata = observe_metadata recent stamp s.now t.metadata }) e
          (record p { db = db })
    | none ↦ resolve t.id r.task (record p { db = db })
  ]

  -- What is done with one task of a batch, from the answer of the scheduler to the batch.
  unfoldable pub finish_task :
      (Task → Surroundings) → Result (String → Status) → Task → Progress → Progress
  finish_task meets (err e) t p = mark_stale (meets t) t e p
  finish_task meets (ok statuses) t p =
      let s = meets t in
      apply_one s t
        (apply_scheduler_status recent stamp s.first s.now t (statuses t.scheduler_id) p.db) p

  unfoldable pub finish_tasks :
      (Task → Surroundings) → Result (String → Status) → List Task → Progress → Progress
  finish_tasks meets answer [] p = p
  finish_tasks meets answer (t ∷ ts) p = finish_tasks meets answer ts (finish_task meets answer t p)

  -- The second loop; `answers` are those of Slurm.Statuses, which has each ID that it is asked for.
  unfoldable pub finish_batches :
      (Task → Surroundings)
      → (String → Result (String → Status))
      → List ClusterBatch
      → Progress
      → Progress
  unfolding finish_tasks
  finish_batches meets answers [] p = p
  finish_batches meets answers (b ∷ bs) p =
      finish_batches meets answers bs (finish_tasks meets (answers b.cluster) b.tasks p)

-- The last loop
unfoldable pub resolved_tasks : List Resolved → List Task → List Task
resolved_tasks rs [] = []
resolved_tasks rs (t ∷ ts) =
    let rest = resolved_tasks rs ts in
    elim (find_where (λ (r : Resolved). r.id == t.id) rs) [ some r ↦ r.task ∷ rest | none ↦ rest ]

pub record StatusAllResult : Type 0 where
  pub tasks : List Task
  pub failures : List StatusFailure

module _ (recent : String → Bool) (stamp : Timestamp → String) (clusters : List String) where
  unfoldable pub status_all :
      (String → ℕ)
      → (Task → Surroundings)
      → (String → Result (String → Status))
      → List Task
      → Database
      → StatusAllResult × Database
  unfolding sort_tasks finish_batches resolved_tasks
  status_all place meets answers tasks db =
      let start : Progress = record { failures = []; resolved = []; batches = []; db = db } in
      let sorted = sort_tasks recent stamp clusters place meets tasks start in
      let p = finish_batches recent stamp clusters meets answers sorted.batches sorted in
      (record { tasks = resolved_tasks p.resolved tasks; failures = p.failures }, p.db)
