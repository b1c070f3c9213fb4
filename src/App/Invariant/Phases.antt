-- ===== src/App/Invariant/Phases.antt =====
-- internal/app/app.go: the phases of the processes after an update.
use joyrun.Base.{
  ℕ, ◌+◌, String, ◌≡◌, refl, ap, Bool, true, false, ◌&&◌, inl, inr, nat_eq, ◌==◌, eq_iff, arith,
  Bool-cases,
}
use joyrun.Fault.{Error, ok, err}
use joyrun.Model.{Task, TaskEvent}
use joyrun.App.Program.{update}
use joyrun.App.Submit.{is_submit_started}
use joyrun.App.Phases.{Phase, quiet, read, armed, ready, after}
use joyrun.App.Invariant.{IsTrue, is_ready, Settled}

module _ (id : String) where
  pub Settled-refused :
      (rev : ℕ) (live : Bool) (p : Phase) (t : Task) (e : TaskEvent) (x : Error)
      → Settled id rev live (after id p (update t e) (err x))
  Settled-refused rev live quiet t e x = (tt, refl)
  Settled-refused rev live (read r) t e x = (tt, refl)
  Settled-refused rev live (armed r) t e x = (tt, refl)
  Settled-refused rev live ready t e x = (tt, refl)

  pub Settled-stranger :
      (rev : ℕ) (live : Bool) (p : Phase) (t t' : Task) (e : TaskEvent)
      → (t.id == id) ≡ false
      → Settled id rev live (after id p (update t e) (ok t'))
  Settled-stranger rev live quiet t t' e h = (tt, refl)
  Settled-stranger rev live (read r) t t' e h = (tt, refl)
  Settled-stranger rev live (armed r) t t' e h = rw h (tt, refl)
  Settled-stranger rev live ready t t' e h = (tt, refl)

  -- The mover's phase after it wrote the row at the current revision.
  pub settled-own :
      (rev : ℕ) (live : Bool) (p : Phase) (t t' : Task) (e : TaskEvent)
      → t.revision ≡ rev
      → IsTrue id rev live p
      → is_ready id (after id p (update t e) (ok t')) ≡ false
      → IsTrue id (rev + 1) live (after id p (update t e) (ok t'))
  settled-own rev live quiet t t' e at v h = tt
  settled-own rev live (read r) t t' e at v h = tt
  settled-own rev live ready t t' e at v h = tt
  settled-own rev live (armed r) t t' e at v h =
      elim (Bool-cases (t.id == id && nat_eq t.revision r && e.task_id == id)) [
        | inr lost ↦ rw lost tt
        | inl held ↦ elim (Bool-cases (is_submit_started e)) [
          | inl started ↦ ground arith
          | inr plain ↦ rw (held, plain) (ground arith, λ q. v.1 (ground arith))
        ]
      ]

  -- How a process becomes ready.
  pub ready-from :
      (p : Phase) (t t' : Task) (e : TaskEvent)
      → is_ready id (after id p (update t e) (ok t')) ≡ true
      → (p ≡ armed t.revision) × (t.id ≡ id) × (e.task_id ≡ id) × (is_submit_started e ≡ true)
  ready-from quiet t t' e h = ground arith
  ready-from (read r) t t' e h = ground arith
  ready-from ready t t' e h = ground arith
  ready-from (armed r) t t' e h =
      elim (Bool-cases (t.id == id && nat_eq t.revision r && e.task_id == id)) [
        | inr lost ↦ ground arith
        | inl held ↦ elim (Bool-cases (is_submit_started e)) [
          | inl started ↦ (
            ap armed (ground arith),
            ground (arith, eq_iff t.id id),
            ground (arith, eq_iff e.task_id id),
            started,
          )
          | inr plain ↦ ground arith
        ]
      ]

  pub still_set :
      (rev : ℕ) (live : Bool) (p : Phase) → IsTrue id rev live p → IsTrue id (rev + 1) live p
  still_set rev live quiet v = tt
  still_set rev live (read r) v = omega arith
  still_set rev live (armed r) v = (omega (arith, v.0), λ at. absurd (omega (arith, v.0)))
  still_set rev live ready v = tt

  -- Nothing armed is at the revision that the update has just made.
  pub true-live :
      (rev : ℕ) (live : Bool) (p : Phase) → IsTrue id rev live p → IsTrue id (rev + 1) true p
  true-live rev live quiet v = tt
  true-live rev live (read r) v = omega arith
  true-live rev live (armed r) v = (omega (arith, v.0), λ at. absurd (omega (arith, v.0)))
  true-live rev live ready v = tt
