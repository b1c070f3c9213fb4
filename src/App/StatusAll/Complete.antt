-- ===== src/App/StatusAll/Complete.antt =====
-- internal/app/app.go: StatusAll accounts for every task that it was given.
use joyrun.Base.{
  ℕ, zero, suc, String, ◌≡◌, refl, ◌∙◌, Bool, true, false, ◌||◌, List, [], ◌∷◌, ◌++◌, ◌==◌, eq_iff,
  any, All, arith, Bool-cases, Option-cases, inl, inr, update_where, find_where, find_where-holds,
  find_where-any,
}
use joyrun.Fault.{Error, Result, ok, err, cluster_not_found}
use joyrun.Timestamp.{Timestamp}
use joyrun.Model.{Task}
use joyrun.Store.{Database}
use joyrun.App.Submit.{is_uncertain}
use joyrun.App.Status.{Status, Refreshed, is_bulk_refreshable, apply_scheduler_status}
use joyrun.App.Renewal.{Surroundings, refresh_prior}
use joyrun.App.StatusAll.{
  StatusFailure, ClusterBatch, Resolved, Progress, fail_with, insert_at, add_to_batch,
  keep_refreshed, sort_task, sort_tasks, apply_one, finish_task, finish_tasks, finish_batches,
  resolved_tasks, status_all,
}
use joyrun.App.StatusAll.Own.{IsOwn, found-own, sort_tasks-IsOwn, finish_batches-IsOwn}

abbrev named : String → Task → Bool
named id t = t.id == id

abbrev holds : String → ClusterBatch → Bool
holds id b = any (named id) b.tasks

-- The call failed for the task, or has it in its map.
abbrev is_done : String → Progress → Bool
is_done id p = any (λ f. f.task_id == id) p.failures || any (λ r. r.id == id) p.resolved

-- It is done, or in a batch.
abbrev is_met : String → Progress → Bool
is_met id p = is_done id p || any (holds id) p.batches

any-snoc {ℓ} :
    {A : Type ℓ} (p : A → Bool) (xs : List A) (x : A) → any p (xs ++ x ∷ []) ≡ (any p xs || p x)
any-snoc p [] x = ground arith
any-snoc p (y ∷ xs) x = ground (arith, any-snoc p xs x)

insert_at-any :
    (p : ClusterBatch → Bool) (n : ℕ) (b : ClusterBatch) (bs : List ClusterBatch)
    → any p (insert_at n b bs) ≡ (p b || any p bs)
insert_at-any p zero b bs = refl
insert_at-any p (suc n) b [] = refl
insert_at-any p (suc n) b (c ∷ bs) = ground (arith, insert_at-any p n b bs)

-- A batch that a task joins still has the others.
joined-keeps :
    (id : String) (t : Task) (bs : List ClusterBatch)
    → any (holds id) bs ≡ true
    → any (holds id) (
        update_where
          (λ b. b.cluster == t.cluster_name)
          (λ b. record b { tasks = b.tasks ++ t ∷ [] })
          bs)
      ≡ true
unfolding update_where
joined-keeps id t [] h = ground arith
joined-keeps id t (b ∷ bs) h = elim (Bool-cases (b.cluster == t.cluster_name)) [
  | inl e ↦ ground (arith, e, any-snoc (named id) b.tasks t, joined-keeps id t bs)
  | inr e ↦ ground (arith, e, joined-keeps id t bs)
]

joined-any :
    (id : String) (t : Task) (bs : List ClusterBatch)
    → any (λ b. b.cluster == t.cluster_name) bs ≡ true
    → (any (holds id) bs || named id t) ≡ true
    → any (holds id) (
        update_where
          (λ b. b.cluster == t.cluster_name)
          (λ b. record b { tasks = b.tasks ++ t ∷ [] })
          bs)
      ≡ true
unfolding update_where
joined-any id t [] there h = ground arith
joined-any id t (b ∷ bs) there h = elim (Bool-cases (b.cluster == t.cluster_name)) [
  | inl e ↦ ground (arith, e, any-snoc (named id) b.tasks t, joined-keeps id t bs)
  | inr e ↦ ground (arith, e, joined-any id t bs)
]

add_to_batch-any :
    (place : String → ℕ) (id : String) (t : Task) (bs : List ClusterBatch)
    → (any (holds id) bs || named id t) ≡ true
    → any (holds id) (add_to_batch place t bs) ≡ true
unfolding add_to_batch
add_to_batch-any place id t bs h = elim (Bool-cases (any (λ b. b.cluster == t.cluster_name) bs)) [
  | inl there ↦ rw there (joined-any id t bs there h)
  | inr new ↦ ground (
    arith,
    new,
    insert_at-any (holds id) (place t.cluster_name)
        (record { cluster = t.cluster_name; tasks = t ∷ [] }) bs,
  )
]

fail_with-done :
    (id own : String) (e : Error) (p : Progress)
    → is_done id (fail_with own e p) ≡ (is_done id p || (own == id))
fail_with-done id own e p = ground (
  arith,
  any-snoc (λ (f : StatusFailure). f.task_id == id) p.failures
      (record { task_id = own; error = e }),
)

keep_refreshed-done :
    (id own : String) (r : Refreshed × Database) (p : Progress)
    → is_done id (keep_refreshed own r p) ≡ (is_done id p || (own == id))
keep_refreshed-done id own (r, db) p = elim (Option-cases r.error) [
  | inl e ↦ ground (arith, e)
  | inr (x, e) ↦ ground (arith, e, fail_with-done id own x (record p { db = db }))
]

resolved_tasks-any :
    (id : String) (rs : List Resolved) (ts : List Task)
    → All (λ (e : Resolved). e.task.id ≡ e.id) rs
    → any (λ (r : Resolved). r.id == id) rs ≡ true
    → any (named id) ts ≡ true
    → any (named id) (resolved_tasks rs ts) ≡ true
unfolding resolved_tasks
resolved_tasks-any id rs [] own held listed = ground arith
resolved_tasks-any id rs (t ∷ ts) own held listed = elim (Bool-cases (t.id == id)) [
  | inl e ↦
      let is : t.id ≡ id = ground (arith, eq_iff t.id id) in
      let (r, found) = find_where-any (λ (x : Resolved). x.id == t.id) rs (rw is held) in
      let same : r.id ≡ t.id =
        ground
          (arith, find_where-holds (λ (x : Resolved). x.id == t.id) rs found, eq_iff r.id t.id) in
      rw (resolved_tasks, found, found-own t.id rs r own found, same, e) refl
  | inr e ↦ elim (Option-cases (find_where (λ (x : Resolved). x.id == t.id) rs)) [
    | inl none_found ↦
        rw (resolved_tasks, none_found) (resolved_tasks-any id rs ts own held (rw e at listed))
    | inr (r, found) ↦
        rw (resolved_tasks, found)
          (ground (arith, resolved_tasks-any id rs ts own held (rw e at listed)))
  ]
]

module _ (recent : String → Bool) (stamp : Timestamp → String) (clusters : List String) where
  sort_task-met :
      (place : String → ℕ) (meets : Task → Surroundings) (id : String) (t : Task) (p : Progress)
      → (is_met id p || named id t) ≡ true
      → is_met id (sort_task recent stamp clusters place meets t p) ≡ true
  unfolding sort_task
  sort_task-met place meets id t p h = elim (Bool-cases (is_bulk_refreshable t.compute_state)) [
    | inr settled ↦ ground (arith, settled)
    | inl going ↦ elim (Bool-cases (t.scheduler_id == "")) [
      | inl lost ↦ elim (Bool-cases (is_uncertain t.compute_state)) [
        | inl e ↦ ground (
          arith,
          going,
          lost,
          e,
          keep_refreshed-done id t.id (refresh_prior recent stamp clusters meets t p.db) p,
        )
        | inr e ↦ ground (arith, going, lost, e)
      ]
      | inr known ↦ elim (Bool-cases (any (λ name. name == t.cluster_name) clusters)) [
        | inl e ↦ ground (arith, going, known, e, add_to_batch-any place id t p.batches)
        | inr e ↦ ground (
          arith,
          going,
          known,
          e,
          fail_with-done id t.id (record { code = cluster_not_found; retryable = false }) p,
        )
      ]
    ]
  ]

  sort_tasks-met :
      (place : String → ℕ) (meets : Task → Surroundings) (id : String) (ts : List Task)
      (p : Progress)
      → (is_met id p || any (named id) ts) ≡ true
      → is_met id (sort_tasks recent stamp clusters place meets ts p) ≡ true
  unfolding sort_tasks
  sort_tasks-met place meets id [] p h = ground arith
  sort_tasks-met place meets id (t ∷ ts) p h =
      sort_tasks-met place meets id ts _ (elim (Bool-cases (is_met id p || named id t)) [
        | inl e ↦ ground (arith, sort_task-met place meets id t p e)
        | inr e ↦ ground arith
      ])

  apply_one-done :
      (s : Surroundings) (id : String) (t : Task) (r : Refreshed × Database) (p : Progress)
      → is_done id (apply_one recent stamp clusters s t r p) ≡ (is_done id p || named id t)
  apply_one-done s id t (r, db) p = elim (Option-cases r.error) [
    | inl e ↦ ground (arith, e)
    | inr (x, e) ↦ ground (arith, e, fail_with-done id t.id x p)
  ]

  finish_task-done :
      (meets : Task → Surroundings) (answer : Result (String → Status)) (id : String) (t : Task)
      (p : Progress)
      → is_done id (finish_task recent stamp clusters meets answer t p)
        ≡ (is_done id p || named id t)
  unfolding finish_task
  finish_task-done meets (err e) id t p = fail_with-done id t.id e p
  finish_task-done meets (ok statuses) id t p =
      apply_one-done (meets t) id t
        (apply_scheduler_status recent stamp (meets t).first (meets t).now t
          (statuses t.scheduler_id) p.db)
        p

  finish_tasks-done :
      (meets : Task → Surroundings) (answer : Result (String → Status)) (id : String)
      (ts : List Task) (p : Progress)
      → is_done id (finish_tasks recent stamp clusters meets answer ts p)
        ≡ (is_done id p || any (named id) ts)
  unfolding finish_tasks
  finish_tasks-done meets answer id [] p = ground arith
  finish_tasks-done meets answer id (t ∷ ts) p =
      let next = finish_task recent stamp clusters meets answer t p in
      ground
        (arith, finish_tasks-done meets answer id ts next, finish_task-done meets answer id t p)

  finish_batches-done :
      (meets : Task → Surroundings) (answers : String → Result (String → Status)) (id : String)
      (bs : List ClusterBatch) (p : Progress)
      → is_done id (finish_batches recent stamp clusters meets answers bs p)
        ≡ (is_done id p || any (holds id) bs)
  unfolding finish_batches
  finish_batches-done meets answers id [] p = ground arith
  finish_batches-done meets answers id (b ∷ bs) p =
      let next = finish_tasks recent stamp clusters meets (answers b.cluster) b.tasks p in
      ground (
        arith,
        finish_batches-done meets answers id bs next,
        finish_tasks-done meets (answers b.cluster) id b.tasks p,
      )

  -- Each task that StatusAll is given, refreshed or not, is among the tasks that it hands back or
  -- among its failures, whatever the clusters and the database answer.
  pub status_all_complete :
      (place : String → ℕ) (meets : Task → Surroundings)
      (answers : String → Result (String → Status)) (tasks : List Task) (db : Database)
      (id : String)
      → any (λ (t : Task). t.id == id) tasks ≡ true
      → let result = (status_all recent stamp clusters place meets answers tasks db).0 in
        (any (λ (f : StatusFailure). f.task_id == id) result.failures
          || any (λ (t : Task). t.id == id) result.tasks)
        ≡ true
  unfolding status_all
  status_all_complete place meets answers tasks db id listed =
      let start : Progress = record { failures = []; resolved = []; batches = []; db = db } in
      let sorted = sort_tasks recent stamp clusters place meets tasks start in
      let p = finish_batches recent stamp clusters meets answers sorted.batches sorted in
      let own : IsOwn recent stamp clusters p =
        finish_batches-IsOwn recent stamp clusters meets answers sorted.batches sorted
          (sort_tasks-IsOwn recent stamp clusters place meets tasks start tt) in
      let met : is_met id sorted ≡ true = sort_tasks-met place meets id tasks start listed in
      let finished : is_done id p ≡ true =
        finish_batches-done meets answers id sorted.batches sorted ∙ met in
      elim (Bool-cases (any (λ (f : StatusFailure). f.task_id == id) p.failures)) [
        | inl failed ↦ rw failed refl
        | inr fine ↦
            rw (fine) (resolved_tasks-any id p.resolved tasks own (rw fine at finished) listed)
      ]
