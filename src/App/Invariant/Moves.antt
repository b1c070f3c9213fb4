-- ===== src/App/Invariant/Moves.antt =====
-- internal/app/app.go: every request keeps the invariant.
use joyrun.Base.{
  ℕ, String, ◌≡◌, refl, sym, ap, ◌∙◌, subst, true, false, inl, inr, ◌∷◌, ◌==◌, eq_iff, arith,
  Bool-cases,
}
use joyrun.Fault.{Result, ok, err}
use joyrun.Timestamp.{Timestamp}
use joyrun.Model.{Task, TaskEvent}
use joyrun.Store.{Sql}
use joyrun.Store.TaskUpdates.{event_for, update_task_with_event}
use joyrun.Store.TaskUpdates.Recorded.{update_with_event-inv, update_with_event-err}
use joyrun.App.Program.{
  Submission, Request, now, get_task, events, update, write_metadata, write_script, push, sbatch,
  read_marker, query_jobs, AnswerTo,
}
use joyrun.App.Phases.{IsPlausible, Phase, quiet, read, armed, ready, after, IsAllowed}
use joyrun.App.World.{World, Answers, put, count}
use joyrun.App.Invariant.{
  IsTrue, Inv, is_ready, ready-eq, Inv-kept, Settled-get_task, Settled-events, Settled-plain,
  Inv-plain, IsPlausible-get_task,
}
use joyrun.App.Invariant.Rows.{get_task-revision, rows-other, rows-own, own-revision}
use joyrun.App.Invariant.Recorded.{
  events-listed, event_for-starts, any-starts-more, any-starts-last,
}
use joyrun.App.Invariant.Phases.{Settled-refused, Settled-stranger, settled-own, ready-from}
use joyrun.App.Invariant.Cases.{Inv-stranger, Inv-own, Inv-ready, Inv-sent}

module _ (id : String) where
  armed-asleep :
      {w : World} {ph : ℕ → Phase} {r : ℕ} (inv : Inv id w ph) (n : ℕ)
      → ph n ≡ armed r
      → r ≡ inv.rev
      → inv.live ≡ false
  armed-asleep {r = r} inv n was at = (subst (IsTrue id inv.rev inv.live) was (inv.phases n)).1 at

  -- The invariant over one request, by what the request is.
  Inv-update :
      {w w' : World} {ph : ℕ → Phase} (n : ℕ) (t : Task) (e : TaskEvent) (inv : Inv id w ph)
      (sql : Sql) (at : Timestamp) (a : Result Task)
      → update_task_with_event sql at t e w.db ≡ (a, w'.db)
      → w'.sbatches ≡ w.sbatches
      → IsPlausible (update t e) a × Inv id w' (put ph n (after id (ph n) (update t e) a))
  Inv-update {w} {w'} {ph} n t e inv sql at (err x) run sent =
      let s = Settled-refused id inv.rev inv.live (ph n) t e x in
      (
        tt,
        Inv-kept id n _ inv (update_with_event-err sql at t e w.db run) (ap (count id) sent) s.0
            s.1,
      )
  Inv-update {w} {w'} {ph} n t e inv sql at (ok t') run sent =
      let (filled, met, rows, added) = update_with_event-inv sql at t e w.db run in
      (
        filled,
        elim (Bool-cases (t.id == id)) [
          | inr stranger ↦
              Inv-stranger id n _ inv
                (rw rows (rows-other id inv.rev t w.db.tasks stranger inv.rows))
                (λ l. rw added (any-starts-more id w.db.task_events (event_for at t e) l)) sent
                (Settled-stranger id inv.rev inv.live (ph n) t t' e stranger)
          | inl own ↦
              let same : t.id ≡ id = ground (arith, eq_iff t.id id) in
              let current = own-revision id inv.rev t w.db.tasks same inv.rows met in
              let rows' = rows-own id inv.rev t w.db.tasks same current inv.rows in
              elim (Bool-cases (is_ready id (after id (ph n) (update t e) (ok t')))) [
                | inr plain ↦
                    Inv-own id n _ inv (rw rows rows')
                      (λ l. rw added (any-starts-more id w.db.task_events (event_for at t e) l))
                      sent
                      (settled-own id inv.rev inv.live (ph n) t t' e current (inv.phases n) plain)
                      plain
                | inl begins ↦
                    let (was, _, own_event, started) = ready-from id (ph n) t t' e begins in
                    rw (ready-eq id (after id (ph n) (update t e) (ok t')) begins) (
                      Inv-ready id n inv (armed-asleep inv n was current) (rw rows rows')
                        (rw added (
                          any-starts-last id w.db.task_events (event_for at t e)
                            (event_for-starts id at t e own_event same started)))
                        sent)
              ]
        ],
      )

  Inv-sbatch :
      {w w' : World} {ph : ℕ → Phase} (n : ℕ) (t : Task) (inv : Inv id w ph)
      → IsAllowed id (ph n) (sbatch t)
      → w'.db ≡ w.db
      → w'.sbatches ≡ t.id ∷ w.sbatches
      → Inv id w' (put ph n quiet)
  Inv-sbatch {w} {w'} {ph} n t inv allowed db sent = elim (Bool-cases (t.id == id)) [
    | inl own ↦
        Inv-sent id n inv (sbatch-ready (ph n) t own allowed) db
          (rw sent (ground (arith, eq_iff t.id id)))
    | inr stranger ↦ Inv-kept id n quiet inv db (rw sent (ground arith)) tt refl
  ]
    where
      sbatch-ready :
          (p : Phase) (u : Task) → (u.id == id) ≡ true → IsAllowed id p (sbatch u) → p ≡ ready
      sbatch-ready ready u h k = refl
      sbatch-ready quiet u h k = ground arith
      sbatch-ready (read r) u h k = ground arith
      sbatch-ready (armed r) u h k = ground arith

  after-sbatch : (p : Phase) (t : Task) (a : Submission) → after id p (sbatch t) a ≡ quiet
  after-sbatch quiet t a = refl
  after-sbatch (read r) t a = refl
  after-sbatch (armed r) t a = refl
  after-sbatch ready t a = refl

  pub Inv-move :
      {w w' : World} {ph : ℕ → Phase} (n : ℕ) (r : Request) (a : AnswerTo r) (inv : Inv id w ph)
      → IsAllowed id (ph n) r
      → Answers w r a w'
      → IsPlausible r a × Inv id w' (put ph n (after id (ph n) r a))
  Inv-move {w} n (get_task i) a inv allowed ((sql, got), kept) = (
    IsPlausible-get_task id i a
        (λ t e. (get_task-revision id inv.rev w.db sql i inv.rows (sym got ∙ e)).0),
    Inv-plain id n (get_task i) a inv kept (
        Settled-get_task id inv.rev inv.live _ i a
          (λ t e. (get_task-revision id inv.rev w.db sql i inv.rows (sym got ∙ e)).1)),
  )
  Inv-move {w} n (events i) a inv allowed ((read', sql, got), kept) = (
    tt,
    Inv-plain id n (events i) a inv kept (
        Settled-events id inv.rev inv.live _ i a (inv.phases n) (λ es e own fresh.
          ground (arith, events-listed id read' sql i w.db a es got e own, inv.fenced))),
  )
  Inv-move n (update t e) a inv allowed ((sql, at, run), sent) =
      Inv-update n t e inv sql at a run sent
  Inv-move {ph = ph} n (sbatch t) a inv allowed (db, sent) =
      (tt, rw (after-sbatch (ph n) t a) (Inv-sbatch n t inv allowed db sent))
  Inv-move n now a inv allowed kept = (
    tt,
    Inv-plain id n now a inv kept (Settled-plain id inv.rev inv.live _ now a refl (inv.phases n)),
  )
  Inv-move n (write_metadata t) a inv allowed kept = (
    tt,
    Inv-plain id n (write_metadata t) a inv kept
        (Settled-plain id inv.rev inv.live _ (write_metadata t) a refl (inv.phases n)),
  )
  Inv-move n (write_script t) a inv allowed kept = (
    tt,
    Inv-plain id n (write_script t) a inv kept
        (Settled-plain id inv.rev inv.live _ (write_script t) a refl (inv.phases n)),
  )
  Inv-move n (push t) a inv allowed kept = (
    tt,
    Inv-plain id n (push t) a inv kept
        (Settled-plain id inv.rev inv.live _ (push t) a refl (inv.phases n)),
  )
  Inv-move n (read_marker t) a inv allowed kept = (
    tt,
    Inv-plain id n (read_marker t) a inv kept
        (Settled-plain id inv.rev inv.live _ (read_marker t) a refl (inv.phases n)),
  )
  Inv-move n (query_jobs t) a inv allowed kept = (
    tt,
    Inv-plain id n (query_jobs t) a inv kept
        (Settled-plain id inv.rev inv.live _ (query_jobs t) a refl (inv.phases n)),
  )
