-- ===== src/Store/TaskUpdates/Batch.antt =====
-- internal/store/store.go: UpdateTasksWithEvents writes all of its tasks or none.
use joyrun.Base.{
  Bool-cases, nat_eq, length, ℕ, ◌+◌, ◌≡◌, refl, sym, ◌∙◌, true, false, some, List, [], ◌∷◌, ◌++◌,
  ◌⊎◌, inl, inr, any, update_where, arith, append_assoc, append-nil,
}
use joyrun.Fault.{ok, is_ok, Result-cases}
use joyrun.Timestamp.{Timestamp}
use joyrun.Model.{Task, TaskEvent}
use joyrun.Store.{Database, Sql}
use joyrun.Store.TaskUpdates.{
  at_revision, next_revision, write_task, update_task_record, event_for, update_all,
  update_tasks_with_events,
}
use joyrun.Store.TaskUpdates.Revision.{record-inv}
use joyrun.Store.TaskUpdates.Recorded.{record-recorded}

abbrev pub next_revisions : List Task → List Task
next_revisions [] = []
next_revisions (t ∷ ts) = next_revision t ∷ next_revisions ts

-- The rows after each task was written over the row at its revision, one after the other.
abbrev pub rows_after : List Task → List Task → List Task
rows_after [] rows = rows
rows_after (t ∷ ts) rows =
    rows_after ts (update_where (at_revision t.id t.revision) (write_task (next_revision t)) rows)

-- Each task meets a row at its revision when its turn comes.
abbrev pub IsMet : List Task → List Task → Type 0
IsMet [] rows = Unit
IsMet (t ∷ ts) rows =
    (any (at_revision t.id t.revision) rows ≡ true)
    × IsMet ts (update_where (at_revision t.id t.revision) (write_task (next_revision t)) rows)

abbrev pub events_of : Timestamp → List Task → List TaskEvent → List TaskEvent
events_of now (t ∷ ts) (e ∷ es) = event_for now t e ∷ events_of now ts es
events_of now _ _ = []

-- All of the batch was written.
pub record IsWritten (now : Timestamp) (tasks : List Task) (events : List TaskEvent)
    (after : List Task) (db db' : Database) : Type 0 where
  pub revisions : after ≡ next_revisions tasks
  pub met : IsMet tasks db.tasks
  pub rows : db'.tasks ≡ rows_after tasks db.tasks
  pub recorded : db'.task_events ≡ db.task_events ++ events_of now tasks events

update_all-IsWritten :
    (sql : Sql) (n : ℕ) (now : Timestamp) (tasks : List Task) (events : List TaskEvent)
    (db : Database) {after : List Task} {db' : Database}
    → update_all sql n now tasks events db ≡ ok (after, db')
    → IsWritten now tasks events after db db'
unfolding update_all
update_all-IsWritten sql n now [] events db {after} {db'} h =
    let same : db ≡ db' = ground arith in
    record {
      revisions = ground arith;
      met = tt;
      rows = rw (← same) refl;
      recorded = rw (← same) (sym (append-nil db.task_events));
    }
update_all-IsWritten sql n now (t ∷ ts) [] db {after} {db'} h = absurd (ground arith)
update_all-IsWritten sql n now (t ∷ ts) (event ∷ events) db {after} {db'} h =
    let filled = event_for now t event in
    elim (Result-cases (update_task_record sql n t (some filled) db)) [
      | inr (x, e) ↦ absurd (ground arith)
      | inl ((r, middle), e) ↦
          let (at_r, _, rows) = record-inv sql n t (some filled) db e in
          let (met, added) = record-recorded sql n t filled db e in
          elim (Result-cases (update_all sql (n + 2) now ts events middle)) [
            | inr (x, q) ↦ absurd (ground arith)
            | inl ((rest, last), q) ↦
                let w = update_all-IsWritten sql (n + 2) now ts events middle q in
                let same : last ≡ db' = ground arith in
                record {
                  revisions = ground (arith, at_r, w.revisions);
                  met = (met, rw rows at w.met);
                  rows = rw (← same, ← rows) w.rows;
                  recorded = rw (← same) (
                      w.recorded
                      ∙ (rw added refl)
                      ∙ append_assoc db.task_events (filled ∷ []) (events_of now ts events));
                }
          ]
    ]

-- UpdateTasksWithEvents either fails and changes nothing, or hands back every task of the batch at
-- its next revision. Then each task has met a row at its own revision, the rows are those before with
-- every one of the tasks written over its row, and the events of all of them stand behind the others.
pub batch-all-or-nothing :
    (sql : Sql) (now : Timestamp) (tasks : List Task) (events : List TaskEvent) (db : Database)
    → let (result, db') = update_tasks_with_events sql now tasks events db in
      ((is_ok result ≡ false) × (db' ≡ db))
      ⊎ ((after : List Task) × (result ≡ ok after) × IsWritten now tasks events after db db')
unfolding update_tasks_with_events
batch-all-or-nothing sql now [] events db = inr (
  [],
  refl,
  record { revisions = refl; met = tt; rows = refl; recorded = sym (append-nil db.task_events) },
)
batch-all-or-nothing sql now (t ∷ ts) events db =
    elim (Bool-cases (nat_eq (length events) (length (t ∷ ts)))) [
      | inr e ↦ rw e (inl (refl, refl))
      | inl even ↦ elim (Bool-cases (sql 0)) [
        | inr e ↦ rw (even, e) (inl (refl, refl))
        | inl begun ↦ elim (Result-cases (update_all sql 2 now (t ∷ ts) events db)) [
          | inr (x, e) ↦ rw (even, begun, e) (inl (refl, refl))
          | inl ((after, last), e) ↦ elim (Bool-cases (sql 1)) [
            | inr q ↦ rw (even, begun, e, q) (inl (refl, refl))
            | inl q ↦
                rw (even, begun, e, q)
                  (inr (after, refl, update_all-IsWritten sql 2 now (t ∷ ts) events db e))
          ]
        ]
      ]
    ]
