-- ===== src/Worker/Poll/Rates.antt =====
-- internal/cli/operations.go: the only two intervals that pollInterval hands out.
use joyrun.Base.{
  ℕ, ◌*◌, ◌≡◌, Bool, true, false, ◌&&◌, ◌||◌, List, [], ◌∷◌, any, arith, Bool-cases, inl, inr,
  if◌then◌else◌,
}
use joyrun.Timestamp.{Timestamp, billion, add, before}
use joyrun.Model.{ComputeState, Task}
use joyrun.Worker.Poll.{
  is_older, uncertain_interval, is_active_state, shorten, poll_from, poll_interval,
}

abbrev pub is_uncertain : ComputeState → Bool
is_uncertain ComputeState.submission_uncertain = true
is_uncertain _ = false

-- An uncertain task whose row was written less than two minutes ago.
abbrev pub is_fresh : Timestamp → Task → Bool
is_fresh now t = is_uncertain t.compute_state && before now (add t.updated_at (120 * billion))

abbrev pub rate : Bool → ℕ
rate fresh = if fresh then 10 else 30

older-before :
    (now t : Timestamp) → is_older now 600 t ≡ true → before now (add t (120 * billion)) ≡ false
unfolding before add
older-before now t h = ground arith

shorten-rate :
    (now : Timestamp) (t : Task) (s : ComputeState) (fresh : Bool)
    → shorten now t s (rate fresh)
      ≡ rate (fresh || (is_uncertain s && before now (add t.updated_at (120 * billion))))
unfolding uncertain_interval
shorten-rate now t ComputeState.submission_uncertain fresh =
    elim (Bool-cases (is_older now 600 t.updated_at)) [
      | inl old ↦ ground (arith, old, older-before now t.updated_at old)
      | inr new ↦ elim (Bool-cases (before now (add t.updated_at (120 * billion)))) [
        | inl e ↦ ground (arith, new, e)
        | inr e ↦ ground (arith, new, e)
      ]
    ]
shorten-rate now t ComputeState.created fresh = ground arith
shorten-rate now t ComputeState.submission_failed fresh = ground arith
shorten-rate now t ComputeState.queued fresh = ground arith
shorten-rate now t ComputeState.running fresh = ground arith
shorten-rate now t ComputeState.completed fresh = ground arith
shorten-rate now t ComputeState.failed fresh = ground arith
shorten-rate now t ComputeState.cancelled fresh = ground arith
shorten-rate now t ComputeState.unknown fresh = ground arith

poll_from-rate :
    (now : Timestamp) (fresh active : Bool) (tasks : List Task)
    → poll_from now (rate fresh) active tasks ≡ (
      rate (fresh || any (is_fresh now) tasks),
      active || any (λ t. is_active_state t.compute_state) tasks,
    )
unfolding poll_from
poll_from-rate now fresh active [] = ground arith
poll_from-rate now fresh active (t ∷ ts) =
    rw
      (
        shorten-rate now t t.compute_state fresh,
        poll_from-rate now (fresh || is_fresh now t)
            (if is_active_state t.compute_state then true else active) ts,
      )
      (ground arith)

-- The daemon asks for a project's states every ten seconds where it has an uncertain task whose row
-- was written in the last two minutes, and every thirty seconds otherwise, however old its uncertain
-- tasks are; and only where a task is uncertain, queued, running or unknown.
pub poll_interval-rates :
    (now : Timestamp) (tasks : List Task)
    → poll_interval now tasks ≡ (
      if any (is_fresh now) tasks then 10 else 30,
      any (λ t. is_active_state t.compute_state) tasks,
    )
unfolding poll_interval
poll_interval-rates now tasks = poll_from-rate now false false tasks
