-- ===== src/App/Invariant/Recorded.antt =====
-- internal/app/app.go: the SUBMIT_STARTED events of the task.
use joyrun.Base.{
  String, ◌≡◌, refl, true, inl, inr, List, [], ◌∷◌, ◌++◌, any, select_where, any-append, ◌==◌,
  eq_refl, arith,
}
use joyrun.Fault.{Result, ok, Result-cases}
use joyrun.Timestamp.{Timestamp}
use joyrun.Model.{Task, TaskEvent}
use joyrun.Store.{Database, Sql}
use joyrun.Store.TaskUpdates
use joyrun.Store.TaskUpdates.{
  at_revision, next_revision, write_task, update_task, event_for, update_task_with_event,
}
use joyrun.App.Submit.{is_submit_started}
use joyrun.App.Invariant.{starts}

module _ (id : String) where
  starts-select :
      (es : List TaskEvent)
      → any is_submit_started (select_where (λ (e : TaskEvent). e.task_id == id) es)
        ≡ any (starts id) es
  unfolding select_where
  starts-select [] = refl
  starts-select (e ∷ es) = ground (arith, starts-select es)

  -- What Events answers are the events of the task.
  pub events-listed :
      (read' sql : Sql) (i : String) (db : Database) (a : Result (List TaskEvent))
      (es : List TaskEvent)
      → a ≡ (TaskUpdates.events read' sql i db).0
      → a ≡ ok es
      → i ≡ id
      → any is_submit_started es ≡ any (starts id) db.task_events
  unfolding TaskUpdates.events
  events-listed read' sql i db a es h e own =
      elim (Result-cases (TaskUpdates.get_task read' i db).0) [
        | inl (t, q) ↦ ground (arith, starts-select db.task_events)
        | inr (x, q) ↦ ground arith
      ]

  -- The new event is the task's own.
  pub event_for-starts :
      (at : Timestamp) (t : Task) (e : TaskEvent)
      → e.task_id ≡ id
      → t.id ≡ id
      → is_submit_started e ≡ true
      → starts id (event_for at t e) ≡ true
  unfolding event_for
  event_for-starts at t e own same h = ground (arith, eq_refl id)

  pub any-starts-more :
      (es : List TaskEvent) (e : TaskEvent)
      → any (starts id) es ≡ true
      → any (starts id) (es ++ e ∷ []) ≡ true
  any-starts-more es e h = rw (any-append (starts id) es (e ∷ [])) (ground arith)

  pub any-starts-last :
      (es : List TaskEvent) (e : TaskEvent)
      → starts id e ≡ true
      → any (starts id) (es ++ e ∷ []) ≡ true
  any-starts-last es e h = rw (any-append (starts id) es (e ∷ [])) (ground arith)
