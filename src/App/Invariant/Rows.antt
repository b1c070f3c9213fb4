-- ===== src/App/Invariant/Rows.antt =====
-- internal/app/app.go: the rows of the task under reads and updates.
use joyrun.Base.{
  ℕ, ◌+◌, String, ◌≡◌, true, false, some, inl, inr, List, [], ◌∷◌, any, All, update_where,
  find_where, find_where-holds, All-update_where, ◌==◌, eq_refl, eq_iff, arith, Bool-cases,
  Option-cases,
}
use joyrun.Fault.{ok}
use joyrun.Model.{Task}
use joyrun.Store.{Database, Sql}
use joyrun.Store.Metadata.{scan_task, encode_task}
use joyrun.Store.TaskUpdates
use joyrun.Store.TaskUpdates.{
  at_revision, next_revision, write_task, update_task, event_for, update_task_with_event,
}
use joyrun.App.Invariant.{HasRevision}

module _ (id : String) where
  rows-revision :
      (rev : ℕ) (ts : List Task) (i : String) {t : Task}
      → All (HasRevision id rev) ts
      → find_where (λ (u : Task). u.id == i) ts ≡ some t
      → t.id ≡ id
      → t.revision ≡ rev
  unfolding find_where
  rows-revision rev [] i {t} h found own = ground arith
  rows-revision rev (u ∷ ts) i {t} h found own = elim (Bool-cases (u.id == i)) [
    | inl e ↦ ground (arith, h.0)
    | inr e ↦ rows-revision rev ts i {t = t} h.1 (ground arith) own
  ]

  -- What GetTask answers is a task of that ID, at the row's revision.
  pub get_task-revision :
      (rev : ℕ) (db : Database) (sql : Sql) (i : String) {t : Task}
      → All (HasRevision id rev) db.tasks
      → (TaskUpdates.get_task sql i db).0 ≡ ok t
      → (t.id ≡ i) × (t.id ≡ id → t.revision ≡ rev)
  unfolding TaskUpdates.get_task scan_task
  get_task-revision rev db sql i {t} h got =
      elim (Option-cases (find_where (λ (u : Task). u.id == i) db.tasks)) [
        | inl e ↦ ground arith
        | inr (u, e) ↦ (
          ground (arith, find_where-holds (λ (u : Task). u.id == i) db.tasks e, eq_iff u.id i),
          λ own. ground (arith, rows-revision rev db.tasks i h e),
        )
      ]

  -- The rows of the task after an update of another one, and of itself.
  pub rows-other :
      (rev : ℕ) (t : Task) (ts : List Task)
      → (t.id == id) ≡ false
      → All (HasRevision id rev) ts
      → All
          (HasRevision id rev)
          (update_where (at_revision t.id t.revision) (write_task (next_revision t)) ts)
  unfolding encode_task
  rows-other rev t ts stranger h =
      All-update_where (HasRevision id rev) (at_revision t.id t.revision) _ ts
        (λ u hit old own. ground (arith, eq_iff u.id t.id, eq_iff t.id id)) h

  pub rows-own :
      (rev : ℕ) (t : Task) (ts : List Task)
      → t.id ≡ id
      → t.revision ≡ rev
      → All (HasRevision id rev) ts
      → All
          (HasRevision id (rev + 1))
          (update_where (at_revision t.id t.revision) (write_task (next_revision t)) ts)
  unfolding update_where encode_task
  rows-own rev t [] own at h = tt
  rows-own rev t (u ∷ us) own at h =
      (λ same. ground (arith, h.0, eq_refl id, eq_iff u.id id), rows-own rev t us own at h.1)

  pub own-revision :
      (rev : ℕ) (t : Task) (ts : List Task)
      → t.id ≡ id
      → All (HasRevision id rev) ts
      → any (at_revision t.id t.revision) ts ≡ true
      → t.revision ≡ rev
  own-revision rev t [] own h met = ground arith
  own-revision rev t (u ∷ us) own h met = elim (Bool-cases (at_revision t.id t.revision u)) [
    | inl e ↦ ground (arith, h.0, eq_iff u.id t.id)
    | inr e ↦ own-revision rev t us own h.1 (ground arith)
  ]
