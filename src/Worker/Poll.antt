-- ===== src/Worker/Poll.antt =====
-- internal/cli/operations.go: pollInterval, how often the daemon asks for the states of a project.
pub mod Rates
use joyrun.Base.{ℕ, ◌*◌, Bool, true, false, not, List, [], ◌∷◌, ltb, if◌then◌else◌}
use joyrun.Timestamp.{Timestamp, billion, add, before}
use joyrun.Model.{ComputeState, Task}

-- `now.Sub(t) >= d`, the duration in seconds
abbrev pub is_older : Timestamp → ℕ → Timestamp → Bool
is_older now d t = not (before now (add t (d * billion)))

-- The interval, in seconds, that one uncertain task asks for.
unfoldable pub uncertain_interval : Timestamp → Task → ℕ
uncertain_interval now t =
    if is_older now 600 t.updated_at then 120 else if is_older now 120 t.updated_at then 30 else 10

abbrev pub is_active_state : ComputeState → Bool
is_active_state ComputeState.submission_uncertain = true
is_active_state ComputeState.queued = true
is_active_state ComputeState.running = true
is_active_state ComputeState.unknown = true
is_active_state _ = false

abbrev pub shorten : Timestamp → Task → ComputeState → ℕ → ℕ
shorten now t ComputeState.submission_uncertain interval =
    if ltb (uncertain_interval now t) interval then uncertain_interval now t else interval
shorten now t _ interval = interval

-- The loop, with the interval and the flag so far.
unfoldable pub poll_from : Timestamp → ℕ → Bool → List Task → ℕ × Bool
poll_from now interval active [] = (interval, active)
poll_from now interval active (t ∷ ts) =
    poll_from now (shorten now t t.compute_state interval)
      (if is_active_state t.compute_state then true else active) ts

-- pollInterval, in seconds
unfoldable pub poll_interval : Timestamp → List Task → ℕ × Bool
unfolding poll_from
poll_interval now tasks = poll_from now 30 false tasks
