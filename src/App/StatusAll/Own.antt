-- ===== src/App/StatusAll/Own.antt =====
-- internal/app/app.go: StatusAll keeps every answer under the ID of its own task.
use joyrun.Base.{
  ℕ, String, ◌≡◌, refl, Bool, some, List, [], ◌∷◌, ◌==◌, any, All, arith, Bool-cases, Option-cases,
  inl, inr, find_where,
}
use joyrun.Fault.{Result, ok, err}
use joyrun.Timestamp.{Timestamp}
use joyrun.Model.{Task}
use joyrun.Store.{Database}
use joyrun.App.Submit.{is_uncertain}
use joyrun.App.Status.{Status, Refreshed, is_bulk_refreshable}
use joyrun.App.Status.Kept.{apply-id, refresh-id}
use joyrun.App.Renewal.{Surroundings, refresh_prior}
use joyrun.App.StatusAll.{
  ClusterBatch, Resolved, Progress, keep_refreshed, sort_task, sort_tasks, apply_one, finish_task,
  finish_tasks, finish_batches,
}

keep_refreshed-IsOwn :
    (own : String) (r : Refreshed × Database) (p : Progress)
    → r.0.task.id ≡ own
    → All (λ (e : Resolved). e.task.id ≡ e.id) p.resolved
    → All (λ (e : Resolved). e.task.id ≡ e.id) (keep_refreshed own r p).resolved
keep_refreshed-IsOwn own (r, db) p same h = elim (Option-cases r.error) [
  | inl e ↦ rw e (same, h)
  | inr (x, e) ↦ rw e h
]

pub found-own :
    (id : String) (rs : List Resolved) (r : Resolved)
    → All (λ (e : Resolved). e.task.id ≡ e.id) rs
    → find_where (λ (e : Resolved). e.id == id) rs ≡ some r
    → r.task.id ≡ r.id
unfolding find_where
found-own id [] r own h = ground arith
found-own id (x ∷ xs) r own h = elim (Bool-cases (x.id == id)) [
  | inl e ↦ ground (arith, e, own.0)
  | inr e ↦ found-own id xs r own.1 (rw e at h)
]

module _ (recent : String → Bool) (stamp : Timestamp → String) (clusters : List String) where
  -- Each entry of the map is about the task under whose ID it stands.
  abbrev pub IsOwn : Progress → Type 0
  IsOwn p = All (λ (r : Resolved). r.task.id ≡ r.id) p.resolved

  sort_task-IsOwn :
      (place : String → ℕ) (meets : Task → Surroundings) (t : Task) (p : Progress)
      → IsOwn p
      → IsOwn (sort_task recent stamp clusters place meets t p)
  unfolding sort_task
  sort_task-IsOwn place meets t p own = elim (Bool-cases (is_bulk_refreshable t.compute_state)) [
    | inr settled ↦ rw settled (refl, own)
    | inl going ↦ elim (Bool-cases (t.scheduler_id == "")) [
      | inl lost ↦ elim (Bool-cases (is_uncertain t.compute_state)) [
        | inl e ↦
            rw (going, lost, e)
              (keep_refreshed-IsOwn t.id (refresh_prior recent stamp clusters meets t p.db) p
                (refresh-id recent stamp clusters (meets t).first (meets t).second (meets t).now
                  (meets t).recovery (meets t).status t p.db)
                own)
        | inr e ↦ rw (going, lost, e) (refl, own)
      ]
      | inr known ↦ elim (Bool-cases (any (λ name. name == t.cluster_name) clusters)) [
        | inl e ↦ rw (going, known, e) own
        | inr e ↦ rw (going, known, e) own
      ]
    ]
  ]

  pub sort_tasks-IsOwn :
      (place : String → ℕ) (meets : Task → Surroundings) (ts : List Task) (p : Progress)
      → IsOwn p
      → IsOwn (sort_tasks recent stamp clusters place meets ts p)
  unfolding sort_tasks
  sort_tasks-IsOwn place meets [] p own = own
  sort_tasks-IsOwn place meets (t ∷ ts) p own =
      sort_tasks-IsOwn place meets ts _ (sort_task-IsOwn place meets t p own)

  apply_one-IsOwn :
      (s : Surroundings) (t : Task) (r : Refreshed × Database) (p : Progress)
      → r.0.task.id ≡ t.id
      → IsOwn p
      → IsOwn (apply_one recent stamp clusters s t r p)
  apply_one-IsOwn s t (r, db) p same own = elim (Option-cases r.error) [
    | inl e ↦ rw e (same, own)
    | inr (x, e) ↦ rw e own
  ]

  finish_task-IsOwn :
      (meets : Task → Surroundings) (answer : Result (String → Status)) (t : Task) (p : Progress)
      → IsOwn p
      → IsOwn (finish_task recent stamp clusters meets answer t p)
  unfolding finish_task
  finish_task-IsOwn meets (err e) t p own = own
  finish_task-IsOwn meets (ok statuses) t p own =
      apply_one-IsOwn (meets t) t _ p
        (apply-id recent stamp (meets t).first (meets t).now t (statuses t.scheduler_id) p.db) own

  finish_tasks-IsOwn :
      (meets : Task → Surroundings) (answer : Result (String → Status)) (ts : List Task)
      (p : Progress)
      → IsOwn p
      → IsOwn (finish_tasks recent stamp clusters meets answer ts p)
  unfolding finish_tasks
  finish_tasks-IsOwn meets answer [] p own = own
  finish_tasks-IsOwn meets answer (t ∷ ts) p own =
      finish_tasks-IsOwn meets answer ts _ (finish_task-IsOwn meets answer t p own)

  pub finish_batches-IsOwn :
      (meets : Task → Surroundings) (answers : String → Result (String → Status))
      (bs : List ClusterBatch) (p : Progress)
      → IsOwn p
      → IsOwn (finish_batches recent stamp clusters meets answers bs p)
  unfolding finish_batches
  finish_batches-IsOwn meets answers [] p own = own
  finish_batches-IsOwn meets answers (b ∷ bs) p own =
      finish_batches-IsOwn meets answers bs _
        (finish_tasks-IsOwn meets (answers b.cluster) b.tasks p own)
