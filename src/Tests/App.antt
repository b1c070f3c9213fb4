-- ===== src/Tests/App.antt =====
-- Runs of ExecuteReservedSubmit at the small database.
use joyrun.Base.{
  ℕ, zero, suc, ◌≤◌, String, ◌≡◌, refl, true, false, [], ◌∷◌, any, arith, map, ◌==◌, find_where,
  select_where, update_where,
}
use joyrun.Base.Text.{codes, of_digits}
use joyrun.Base.Strings.{trim_space}
use joyrun.Base.Numbers.{parse_uint}
use joyrun.Model.{ComputeState, Task}
use joyrun.Store.Metadata.{encode_task}
use joyrun.Slurm.Submit.{submit, before_byte}
use joyrun.Store.TaskUpdates
use joyrun.Slurm.{Reply}
use joyrun.App.Program.{
  Request, now, get_task, events, update, write_metadata, write_script, push, sbatch, read_marker,
  query_jobs, AnswerTo, done, call, Attempt, Answer, live,
}
use joyrun.App.Submit.{SubmitResult, execute_reserved_submit, submit_created, marker_id}
use joyrun.App.World.{World, Answers, System, move, execute, Reach, start, later, put, count}
use joyrun.App.Invariant.{starts}
use joyrun.App.Outcome.{Reads, IsDelivered, execute-IsDelivered}
use joyrun.App.AtMostOnce.{initial, at_most_once, sbatch-fenced}
use joyrun.Tests.Data.{at_second, working, store, task_named}

abbrev reply_of : String → Reply
reply_of s = record { stdout = codes s; stderr = []; failed = false }

abbrev fine : Answer
fine = record { failed = false; cause = ""; upload_timeout = false; context = live }

-- A cluster that accepts, a clock that stands still, and a database that works.
abbrev answer : (w : World) (r : Request) → (a : AnswerTo r) × (w' : World) × Answers w r a w'
answer w now = (at_second 100, w, (refl, refl))
answer w (get_task id) =
    ((TaskUpdates.get_task working id w.db).0, w, ((working, refl), (refl, refl)))
answer w (events id) =
    ((TaskUpdates.events working working id w.db).0, w, ((working, working, refl), (refl, refl)))
answer w (update t e) =
    let r = TaskUpdates.update_task_with_event working (at_second 100) t e w.db in
    (r.0, record w { db = r.1 }, ((working, at_second 100, refl), refl))
answer w (write_metadata t) = (fine, w, (refl, refl))
answer w (write_script t) = (fine, w, (refl, refl))
answer w (push t) = (fine, w, (refl, refl))
answer w (sbatch t) = (
  record { reply = reply_of "42\n"; cause = ""; context = live },
  record w { sbatches = t.id ∷ w.sbatches },
  (refl, refl),
)
answer w (read_marker t) = (reply_of "42\n", w, (refl, refl))
answer w (query_jobs t) =
    (record { queue = reply_of ""; accounting = reply_of ""; cause = "" }, w, (refl, refl))

record Run : Type 0 where
  pub last : System
  pub reach : Reach ("hpc" ∷ []) (initial store) last

abbrev turn_by : (r : Run) (n : ℕ) (m : Attempt SubmitResult) → r.last.procs n ≡ m → Run
turn_by r n (done x) e = r
turn_by r n (call q k) e =
    let (a, w, done_so) = answer r.last.world q in
    record {
      last = record { world = w; procs = put r.last.procs n (k a) };
      reach = later r.reach (move n a e done_so);
    }

-- Process `n` makes so many requests, or ends.
unfoldable turns : ℕ → ℕ → Run → Run
turns zero n r = r
turns (suc k) n r = turns k n (turn_by r n (r.last.procs n) refl)

abbrev begin : ℕ → String → Run → Run
begin n id r = record {
  last = record r.last { procs = put r.last.procs n (execute_reserved_submit ("hpc" ∷ []) id) };
  reach = later r.reach (execute n id);
}

abbrev whole : Run
whole = turns 40 0 (begin 0 "jr_1" (record { last = initial store; reach = start }))

-- The process dies after its sbatch, and another one takes over.
abbrev crashed : Run
crashed = turns 27 0 (begin 0 "jr_1" (record { last = initial store; reach = start }))

abbrev taken_over : Run
taken_over = turns 40 1 (begin 1 "jr_1" crashed)

whole_run :
    (count "jr_1" whole.last.world.sbatches ≡ 1)
    × (map (λ (t : Task). t.scheduler_id) whole.last.world.db.tasks ≡ "42" ∷ [])
unfolding turns TaskUpdates.get_task find_where TaskUpdates.events select_where
    TaskUpdates.update_task_with_event update_where encode_task submit before_byte trim_space
    parse_uint of_digits marker_id
whole_run = (refl, refl)

at_most_once_example : count "jr_1" taken_over.last.world.sbatches ≤ 1
at_most_once_example = at_most_once ("hpc" ∷ []) "jr_1" store 1 ((λ own. refl), tt) taken_over.reach

asked_once : count "jr_1" taken_over.last.world.sbatches ≡ 1
unfolding turns TaskUpdates.get_task find_where TaskUpdates.events select_where
    TaskUpdates.update_task_with_event update_where encode_task submit before_byte trim_space
    parse_uint of_digits marker_id
asked_once = refl

taken_over_asked : 1 ≤ count "jr_1" taken_over.last.world.sbatches
taken_over_asked = rw asked_once (omega arith)

sbatch-fenced_example : any (starts "jr_1") taken_over.last.world.db.task_events ≡ true
sbatch-fenced_example =
    sbatch-fenced ("hpc" ∷ []) "jr_1" store 1 ((λ own. refl), tt) taken_over.reach taken_over_asked

crashed_run :
    (count "jr_1" crashed.last.world.sbatches ≡ 1)
    × (map (λ (t : Task). t.compute_state) crashed.last.world.db.tasks ≡ ComputeState.created ∷ [])
unfolding turns TaskUpdates.get_task find_where TaskUpdates.events select_where
    TaskUpdates.update_task_with_event update_where encode_task submit before_byte trim_space
    parse_uint of_digits marker_id
crashed_run = (refl, refl)

taken_over_run : map (λ (t : Task). t.scheduler_id) taken_over.last.world.db.tasks ≡ "42" ∷ []
unfolding turns TaskUpdates.get_task find_where TaskUpdates.events select_where
    TaskUpdates.update_task_with_event update_where encode_task submit before_byte trim_space
    parse_uint of_digits marker_id
taken_over_run = refl

-- One process alone, up to so many requests.
unfoldable alone : ℕ → World → Attempt SubmitResult → World
alone zero w m = w
alone (suc k) w (done x) = w
alone (suc k) w (call q f) = let (a, w', _) = answer w q in alone k w' (f a)

abbrev resubmitted : World
resubmitted = alone 40 crashed.last.world (
    submit_created (task_named "jr_2" "v1:a")
      (find_where (λ (t : Task). t.id == "jr_1") crashed.last.world.db.tasks))

-- After the same crash, `joyrun submit` finds the task by its key and runs sbatch again.
resubmits : count "jr_1" resubmitted.sbatches ≡ 2
unfolding turns alone TaskUpdates.get_task find_where TaskUpdates.events select_where
    TaskUpdates.update_task_with_event update_where encode_task submit before_byte trim_space
    parse_uint of_digits marker_id
resubmits = refl

execute-IsDelivered_example :
    Reads "jr_1" (execute_reserved_submit ("hpc" ∷ []) "jr_1") (IsDelivered "jr_1")
execute-IsDelivered_example = execute-IsDelivered ("hpc" ∷ []) "jr_1"
