-- ===== src/App/Phases.antt =====
-- internal/app/app.go: which programs ask for sbatch, and where in its run a program stands with
-- respect to one task.
use joyrun.Base.{
  ℕ, ◌+◌, String, ◌≡◌, Bool, true, false, ◌&&◌, not, any, nat_eq, ◌==◌, arith, if◌then◌else◌,
}
use joyrun.Fault.{ok, err}
use joyrun.App.Program.{
  Request, now, get_task, events, update, write_metadata, write_script, push, sbatch, AnswerTo,
  Program, done, call, Attempt, ◌>>=◌,
}
use joyrun.App.Submit.{is_submit_started}

abbrev pub is_sbatch : Request → Bool
is_sbatch (sbatch _) = true
is_sbatch _ = false

-- A program that never runs sbatch, whatever it is answered.
abbrev pub NoSbatch : {A : Type 0} → Program A → Type 0
NoSbatch (done a) = Unit
NoSbatch (call r k) = (is_sbatch r ≡ false) × ((a : AnswerTo r) → NoSbatch (k a))

pub NoSbatch-then :
    {A B : Type 0} (m : Attempt A) (f : A → Attempt B)
    → NoSbatch m
    → ((a : A) → NoSbatch (f a))
    → NoSbatch (m >>= f)
NoSbatch-then (done (ok a)) f h next = next a
NoSbatch-then (done (err e)) f h next = tt
NoSbatch-then (call r k) f h next = (h.0, λ a. NoSbatch-then (k a) f (h.1 a) next)

-- What the answers of the store are known to be.
abbrev pub IsPlausible : (r : Request) → AnswerTo r → Type 0
IsPlausible (get_task id) (ok t) = t.id ≡ id
IsPlausible (update t e) (ok t') = t' ≡ record t { revision = t.revision + 1 }
IsPlausible _ _ = Unit

-- `read r`: revision r of the task was read; `armed r`: then no SUBMIT_STARTED was found, and the
-- updates since brought the program's copy to revision r; `ready`: SUBMIT_STARTED is recorded.
pub data Phase : Type 0 where
  quiet : Phase
  read : ℕ → Phase
  armed : ℕ → Phase
  ready : Phase

module _ (id : String) where
  abbrev pub advanced : ℕ → Bool → Bool → Phase
  advanced r false _ = quiet
  advanced r true true = ready
  advanced r true false = armed (r + 1)

  abbrev pub after : Phase → (r : Request) → AnswerTo r → Phase
  after quiet (get_task _) (ok t) = if t.id == id then read t.revision else quiet
  after (read r) (events i) (ok es) =
      if i == id && not (any is_submit_started es) then armed r else quiet
  after (armed r) (update t e) (ok _) =
      advanced r (t.id == id && nat_eq t.revision r && e.task_id == id) (is_submit_started e)
  after (armed r) now _ = armed r
  after (armed r) (write_metadata _) _ = armed r
  after (armed r) (write_script _) _ = armed r
  after (armed r) (push _) _ = armed r
  after _ _ _ = quiet

  -- Only a program that is ready runs sbatch for the task.
  abbrev pub IsAllowed : Phase → Request → Type 0
  IsAllowed ready _ = Unit
  IsAllowed _ (sbatch t) = (t.id == id) ≡ false
  IsAllowed _ _ = Unit

  -- The program keeps to its phases from here on, and its result fits the phase at its end.
  abbrev pub Runs : {A : Type 0} → Phase → Attempt A → (Phase → A → Type 0) → Type 0
  Runs ph (done (ok a)) post = post ph a
  Runs ph (done (err e)) post = Unit
  Runs ph (call r k) post =
      IsAllowed ph r × ((a : AnswerTo r) → IsPlausible r a → Runs (after ph r a) (k a) post)

  pub Runs-then :
      {A B : Type 0} (ph : Phase) (m : Attempt A) (f : A → Attempt B) (mid : Phase → A → Type 0)
      (post : Phase → B → Type 0)
      → Runs ph m mid
      → ((ph' : Phase) (a : A) → mid ph' a → Runs ph' (f a) post)
      → Runs ph (m >>= f) post
  Runs-then ph (done (ok a)) f mid post h next = next ph a h
  Runs-then ph (done (err e)) f mid post h next = tt
  Runs-then ph (call r k) f mid post h next =
      (h.0, λ a p. Runs-then (after ph r a) (k a) f mid post (h.1 a p) next)

  pub IsAllowed-quiet : (ph : Phase) (r : Request) → is_sbatch r ≡ false → IsAllowed ph r
  IsAllowed-quiet ready r h = tt
  IsAllowed-quiet quiet r h = ground arith
  IsAllowed-quiet (read n) r h = ground arith
  IsAllowed-quiet (armed n) r h = ground arith

  abbrev pub Anything : {A : Type 0} → Phase → A → Type 0
  Anything ph a = Unit

  pub Runs-NoSbatch : {A : Type 0} (ph : Phase) (m : Attempt A) → NoSbatch m → Runs ph m Anything
  Runs-NoSbatch ph (done (ok a)) h = tt
  Runs-NoSbatch ph (done (err e)) h = tt
  Runs-NoSbatch ph (call r k) h =
      (IsAllowed-quiet ph r h.0, λ a p. Runs-NoSbatch (after ph r a) (k a) (h.1 a))
