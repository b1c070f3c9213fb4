-- ===== src/App/Status/Terminal.antt =====
-- internal/app/app.go: a terminal state that was once observed is never lost.
use joyrun.Base.{
  String, ◌≡◌, refl, ap, ◌∙◌, Bool, true, false, ◌&&◌, ◌||◌, not, Option, none, some, List, [], ◌∷◌,
  ◌==◌, any, ◌⊎◌, inl, inr, Bool-cases, arith, if◌then◌else◌,
}
use joyrun.Fault.{Result, ok, err, Result-cases}
use joyrun.Timestamp.{Timestamp}
use joyrun.Model.{ComputeState, Task, TaskEvent}
use joyrun.Store.{Database, Sql}
use joyrun.Store.Metadata.{get_meta}
use joyrun.Store.TaskUpdates.{event_for, update_task, update_task_with_event}
use joyrun.Store.TaskUpdates.Revision.{update-inv}
use joyrun.App.Status.{
  Status, is_terminal, merged, observed, same_status, status_event, refreshed,
  apply_scheduler_status, mark_scheduler_stale, refresh_task, stale_metadata, asked_status,
}

module _ (recent : String → Bool) (stamp : Timestamp → String) where
  -- The answers of a row of queries, one after the other.
  abbrev pub observe_all : Timestamp → Task → List Status → Task
  observe_all now task [] = task
  observe_all now task (s ∷ ss) = observe_all now (observed recent stamp now task s) ss

  -- The last state of a list that passes a test, or the one before them.
  abbrev pub last_where : (ComputeState → Bool) → ComputeState → List ComputeState → ComputeState
  last_where p s [] = s
  last_where p s (x ∷ xs) = last_where p (if p x then x else s) xs

  abbrev pub always : ComputeState → Bool
  always s = true

  abbrev pub states : List Status → List ComputeState
  states [] = []
  states (s ∷ ss) = s.state ∷ states ss

  -- What a task's state should be after it was in some state and the answers had others: the last
  -- terminal one if there was any, else the last one.
  abbrev pub verdict : ComputeState → List ComputeState → ComputeState
  verdict s xs =
      if is_terminal s || any is_terminal xs
      then last_where is_terminal s xs
      else last_where always s xs

  last_where-any :
      (p : ComputeState → Bool) (s t : ComputeState) (xs : List ComputeState)
      → any p xs ≡ true
      → last_where p s xs ≡ last_where p t xs
  last_where-any p s t [] h = ground arith
  last_where-any p s t (x ∷ xs) h = elim (Bool-cases (p x)) [
    | inl e ↦ rw e refl
    | inr e ↦ rw e (last_where-any p s t xs (ground arith))
  ]

  verdict-step :
      (s x : ComputeState) (xs : List ComputeState)
      → verdict (if is_terminal s && not (is_terminal x) then s else x) xs ≡ verdict s (x ∷ xs)
  verdict-step s x xs = elim (Bool-cases (is_terminal s)) [
    | inl was ↦ elim (Bool-cases (is_terminal x)) [
      | inl is ↦ rw (was, is) (rw is refl)
      | inr not_yet ↦ rw (was, not_yet) (rw was refl)
    ]
    | inr fresh ↦ elim (Bool-cases (is_terminal x)) [
      | inl is ↦ rw (fresh, is) refl
      | inr not_yet ↦ elim (Bool-cases (any is_terminal xs)) [
        | inl more ↦ ground (arith, last_where-any is_terminal s x xs more)
        | inr none_left ↦ ground arith
      ]
    ]
  ]

  -- After any answers of the scheduler a task's state is the last terminal state that it was in or
  -- that was answered, and if there was none, the last answer.
  pub observe_all-verdict :
      (now : Timestamp) (task : Task) (ss : List Status)
      → (observe_all now task ss).compute_state ≡ verdict task.compute_state (states ss)
  unfolding observed merged
  observe_all-verdict now task [] = ground arith
  observe_all-verdict now task (s ∷ ss) = ground (
    arith,
    observe_all-verdict now (observed recent stamp now task s) ss,
    verdict-step task.compute_state s.state (states ss),
  )

  merged-terminal :
      (task : Task) (status : Status)
      → is_terminal task.compute_state ≡ true
      → is_terminal (merged task status).state ≡ true
  unfolding merged
  merged-terminal task status h = ground arith

  -- The state of a task survives its update.
  saved-state :
      (sql : Sql) (task : Task) (event : Option TaskEvent) (db : Database) (t : Task)
      → (update_task sql task event db).0 ≡ ok t
      → t.compute_state ≡ task.compute_state
  saved-state sql task event db t e =
      let run : update_task sql task event db ≡ (ok t, (update_task sql task event db).1) =
        ground arith in
      ap (λ (u : Task). u.compute_state) (update-inv sql task event db run).0

  refreshed-state :
      (w : Task) (r : Result Task)
      → ((t : Task) → r ≡ ok t → t.compute_state ≡ w.compute_state)
      → (refreshed w r).task.compute_state ≡ w.compute_state
  refreshed-state w (ok t) h = h t refl
  refreshed-state w (err e) h = refl

  -- applySchedulerStatus hands back the task in the merged state, also when its update fails.
  pub apply-state :
      (sql : Sql) (now : Timestamp) (task : Task) (status : Status) (db : Database)
      → (apply_scheduler_status recent stamp sql now task status db).0.task.compute_state
        ≡ (merged task status).state
  unfolding apply_scheduler_status observed update_task_with_event
  apply-state sql now task status db =
      let after = observed recent stamp now task status in
      let written : Task = record after { updated_at = now } in
      elim (Bool-cases (same_status task after)) [
        | inl same ↦ elim (Bool-cases (recent (get_meta "scheduler_observed_at" task.metadata))) [
          | inl young ↦ rw (same, young) refl
          | inr old ↦ rw (same, old) (refreshed-state written _ (saved-state sql written none db))
        ]
        | inr changed ↦ rw changed (
            refreshed-state written _ (
              saved-state sql written (some (event_for now written (status_event task written now)))
                db))
      ]

  stale-state :
      (sql : Sql) (now : Timestamp) (task : Task) (db : Database)
      → (mark_scheduler_stale recent stamp sql now task db).0.compute_state ≡ task.compute_state
  unfolding mark_scheduler_stale
  stale-state sql now task db =
      let marked : Task = record task {
        metadata = stale_metadata recent stamp now task.metadata;
        updated_at = now;
      } in
      elim (Result-cases (update_task sql marked none db).0) [
        | inl (saved, e) ↦ rw (mark_scheduler_stale, e) (saved-state sql marked none db saved e)
        | inr (x, e) ↦ rw (mark_scheduler_stale, e) refl
      ]

  merged-cases :
      (task : Task) (s : Status)
      → is_terminal task.compute_state ≡ true
      → ((merged task s).state ≡ task.compute_state)
        ⊎ ((is_terminal s.state ≡ true) × ((merged task s).state ≡ s.state))
  unfolding merged
  merged-cases task s h = ground arith

  abbrev pub IsSettled : Task → Result Status → Task → Type 0
  IsSettled task status after =
      (after.compute_state ≡ task.compute_state)
      ⊎ ((s : Status) × (status ≡ ok s)
          × (is_terminal s.state ≡ true)
          × (after.compute_state ≡ s.state))

  asked-IsSettled :
      (sql : Sql) (now : Timestamp) (task : Task) (db : Database) (r : Result Status)
      → is_terminal task.compute_state ≡ true
      → IsSettled task r (asked_status recent stamp sql now r task db).0.task
  asked-IsSettled sql now task db (err e) h = inl (stale-state sql now task db)
  asked-IsSettled sql now task db (ok s) h = elim (merged-cases task s h) [
    | inl same ↦ inl (apply-state sql now task s db ∙ same)
    | inr (is, new) ↦ inr (s, refl, is, apply-state sql now task s db ∙ new)
  ]

  -- refreshTask hands back a terminal task that has a scheduler ID in the state that it was in, or in
  -- the terminal state that the cluster answered, whatever the cluster and the database answer else.
  pub refresh-IsSettled :
      (clusters : List String) (first second : Sql) (now : Timestamp)
      (recovery : Result (Option String)) (status : Result Status) (task : Task) (db : Database)
      → is_terminal task.compute_state ≡ true
      → (task.scheduler_id == "") ≡ false
      → IsSettled task status
          (refresh_task recent stamp clusters first second now recovery status task db).0.task
  unfolding refresh_task
  refresh-IsSettled clusters first second now recovery status task db h named =
      elim (Bool-cases (any (λ name. name == task.cluster_name) clusters)) [
        | inr unknown ↦ rw unknown (inl refl)
        | inl known ↦ rw (known, named) (asked-IsSettled second now task db status h)
      ]
