-- ===== src/App/Invariant.antt =====
-- internal/app/app.go: what holds while submissions of a task run: the row, the fence and the phases
-- of the processes.
pub mod Rows
pub mod Recorded
pub mod Phases
pub mod Cases
pub mod Moves
use joyrun.Base.{
  ℕ, suc, ◌+◌, ◌≤◌, String, ◌≡◌, refl, sym, ap, ◌∙◌, subst, Bool, true, false, ◌&&◌, ◌||◌, not,
  Option, none, some, ◌⊎◌, inl, inr, List, [], ◌∷◌, ◌++◌, any, All, select_where, update_where,
  find_where, find_where-holds, nat_eq, nat_eq_iff, any-append, All-update_where, ◌==◌, eq_refl,
  eq_iff, arith, if◌then◌else◌, Bool-cases, Option-cases,
}
use joyrun.Fault.{internal_error, Error, Result, ok, err, Result-cases}
use joyrun.Timestamp.{Timestamp}
use joyrun.Model.{Task, TaskEvent}
use joyrun.Store.{Database, Sql}
use joyrun.Store.Metadata.{scan_task, encode_task}
use joyrun.Store.TaskUpdates
use joyrun.Store.TaskUpdates.{
  at_revision, next_revision, write_task, update_task, event_for, update_task_with_event,
}
use joyrun.Store.TaskUpdates.Recorded.{update_with_event-inv, update_with_event-err}
use joyrun.App.Program.{
  Submission, Request, now, get_task, events, update, write_metadata, write_script, push, sbatch,
  read_marker, query_jobs, AnswerTo, Program, done, call, Attempt,
}
use joyrun.App.Submit.{SubmitResult, is_submit_started, execute_reserved_submit}
use joyrun.App.Phases.{
  NoSbatch, IsPlausible, Phase, quiet, read, armed, ready, after, advanced, IsAllowed, Runs,
  Anything, Runs-NoSbatch,
}
use joyrun.App.Fenced.{Runs-execute}
use joyrun.App.World.{
  World, Kept, Answers, put, System, Step, move, execute, other, Reach, start, later, count,
}

module _ (id : String) where
  abbrev pub starts : TaskEvent → Bool
  starts e = e.task_id == id && is_submit_started e

  abbrev pub HasRevision : ℕ → Task → Type 0
  HasRevision rev t = t.id ≡ id → t.revision ≡ rev

  abbrev pub IsTrue : ℕ → Bool → Phase → Type 0
  IsTrue rev live (read r) = r ≤ rev
  IsTrue rev live (armed r) = (r ≤ rev) × (r ≡ rev → live ≡ false)
  IsTrue rev live _ = Unit

  -- `live`: some process is ready, or sbatch was asked.
  pub record Inv (w : World) (ph : ℕ → Phase) : Type 0 where
    pub rev : ℕ
    pub live : Bool
    pub rows : All (HasRevision rev) w.db.tasks
    pub fenced : live ≡ true → any starts w.db.task_events ≡ true
    pub phases : (n : ℕ) → IsTrue rev live (ph n)
    pub unique : (m n : ℕ) → ph m ≡ ready → ph n ≡ ready → m ≡ n
    pub unsent : (n : ℕ) → ph n ≡ ready → (live ≡ true) × (count id w.sbatches ≡ 0)
    pub idle : live ≡ false → count id w.sbatches ≡ 0
    pub once : count id w.sbatches ≤ 1

  abbrev pub is_ready : Phase → Bool
  is_ready ready = true
  is_ready _ = false

  pub ready-eq : (p : Phase) → is_ready p ≡ true → p ≡ ready
  ready-eq p h = ground arith

  pub put-all :
      (V : Phase → Type 0) (ph : ℕ → Phase) (n : ℕ) (p : Phase)
      → ((m : ℕ) → V (ph m))
      → V p
      → (m : ℕ) → V (put ph n p m)
  put-all V ph n p h v m = elim (Bool-cases (nat_eq m n)) [ inl e ↦ rw e v | inr e ↦ rw e (h m) ]

  -- A ready process is not the one that has just left for a phase that is not.
  pub put-ready :
      (ph : ℕ → Phase) (n : ℕ) (p : Phase)
      → is_ready p ≡ false
      → (m : ℕ) → put ph n p m ≡ ready
      → ph m ≡ ready
  put-ready ph n p h m e = elim (Bool-cases (nat_eq m n)) [
    | inl same ↦ ground arith
    | inr diff ↦ ground arith
  ]

  -- A step that leaves the database and the count, with the mover in a phase that is not ready.
  pub Inv-kept :
      {w w' : World} {ph : ℕ → Phase} (n : ℕ) (p : Phase) (inv : Inv w ph)
      → w'.db ≡ w.db
      → count id w'.sbatches ≡ count id w.sbatches
      → IsTrue inv.rev inv.live p
      → is_ready p ≡ false
      → Inv w' (put ph n p)
  Inv-kept {w} {w'} {ph} n p inv db sent v h = record {
    rev = inv.rev;
    live = inv.live;
    rows = rw db inv.rows;
    fenced = λ l. rw db (inv.fenced l);
    phases = put-all (IsTrue inv.rev inv.live) ph n p inv.phases v;
    unique =
        λ a b at_a at_b. inv.unique a b (put-ready ph n p h a at_a) (put-ready ph n p h b at_b);
    unsent = λ m at. rw sent (inv.unsent m (put-ready ph n p h m at));
    idle = λ l. rw sent (inv.idle l);
    once = rw sent inv.once;
  }

  -- The mover's phase after a request that writes nothing.
  abbrev pub Settled : ℕ → Bool → Phase → Type 0
  Settled rev live p = IsTrue rev live p × (is_ready p ≡ false)

  pub Settled-get_task :
      (rev : ℕ) (live : Bool) (p : Phase) (i : String) (a : Result Task)
      → ((t : Task) → a ≡ ok t → t.id ≡ id → t.revision ≡ rev)
      → Settled rev live (after id p (get_task i) a)
  Settled-get_task rev live quiet i (ok t) h = elim (Bool-cases (t.id == id)) [
    | inl e ↦ rw e (omega (arith, h t refl (ground (arith, eq_iff t.id id))), refl)
    | inr e ↦ rw e (tt, refl)
  ]
  Settled-get_task rev live quiet i (err e) h = (tt, refl)
  Settled-get_task rev live (read r) i a h = (tt, refl)
  Settled-get_task rev live (armed r) i a h = (tt, refl)
  Settled-get_task rev live ready i a h = (tt, refl)

  pub Settled-events :
      (rev : ℕ) (live : Bool) (p : Phase) (i : String) (a : Result (List TaskEvent))
      → IsTrue rev live p
      → ((es : List TaskEvent)
          → a ≡ ok es
          → i ≡ id
          → any is_submit_started es ≡ false
          → live ≡ false)
      → Settled rev live (after id p (events i) a)
  Settled-events rev live quiet i a v h = (tt, refl)
  Settled-events rev live (read r) i (ok es) v h =
      elim (Bool-cases (i == id && not (any is_submit_started es))) [
        | inl e ↦ rw e ((v, λ at. h es refl (ground (arith, eq_iff i id)) (ground arith)), refl)
        | inr e ↦ rw e (tt, refl)
      ]
  Settled-events rev live (read r) i (err e) v h = (tt, refl)
  Settled-events rev live (armed r) i a v h = (tt, refl)
  Settled-events rev live ready i a v h = (tt, refl)

  -- What the store and the cluster do with the other requests does not depend on the request.
  abbrev is_plain : Request → Bool
  is_plain (get_task _) = false
  is_plain (events _) = false
  is_plain (update _ _) = false
  is_plain (sbatch _) = false
  is_plain _ = true

  pub Settled-plain :
      (rev : ℕ) (live : Bool) (p : Phase) (r : Request) (a : AnswerTo r)
      → is_plain r ≡ true
      → IsTrue rev live p
      → Settled rev live (after id p r a)
  Settled-plain rev live quiet r a e v = ground arith
  Settled-plain rev live (read n) r a e v = ground arith
  Settled-plain rev live ready r a e v = (tt, refl)
  Settled-plain rev live (armed n) now a e v = (v, refl)
  Settled-plain rev live (armed n) (write_metadata t) a e v = (v, refl)
  Settled-plain rev live (armed n) (write_script t) a e v = (v, refl)
  Settled-plain rev live (armed n) (push t) a e v = (v, refl)
  Settled-plain rev live (armed n) (read_marker t) a e v = (tt, refl)
  Settled-plain rev live (armed n) (query_jobs t) a e v = (tt, refl)
  Settled-plain rev live (armed n) r a e v = ground arith

  pub Inv-plain :
      {w w' : World} {ph : ℕ → Phase} (n : ℕ) (r : Request) (a : AnswerTo r) (inv : Inv w ph)
      → Kept w w'
      → Settled inv.rev inv.live (after id (ph n) r a)
      → Inv w' (put ph n (after id (ph n) r a))
  Inv-plain {w} {w'} {ph} n r a inv kept s =
      Inv-kept n (after id (ph n) r a) inv kept.0 (ap (count id) kept.1) s.0 s.1

  pub IsPlausible-get_task :
      (i : String) (a : Result Task)
      → ((t : Task) → a ≡ ok t → t.id ≡ i)
      → IsPlausible (get_task i) a
  IsPlausible-get_task i (ok t) h = h t refl
  IsPlausible-get_task i (err e) h = tt
