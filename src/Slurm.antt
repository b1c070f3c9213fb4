-- ===== src/Slurm.antt =====
-- internal/scheduler/slurm.go: how the answers of Slurm's commands are read. What a remote shell
-- answers is an argument; the shell commands themselves are not modelled.
pub mod Submit
pub mod Statuses
pub mod Nodes
pub mod Panics
use joyrun.Base.{
  ℕ, zero, suc, Bool, true, false, ◌&&◌, ◌||◌, not, Option, none, some, List, [], ◌∷◌,
  if◌then◌else◌,
}
use joyrun.Base.Text.{Text, codes, text_eq, is_one_of}
use joyrun.Base.Strings.{trim_space, trim_suffix, fields, to_upper, is_empty, split_cuts}
use joyrun.Fault.{Result, ok, err, fail, status_failed}

-- What `Runner.Exec` hands back.
pub record Reply : Type 0 where
  pub stdout : Text
  pub stderr : Text
  pub failed : Bool

-- The states that `normalize` answers.
pub data JobState : Type 0 where
  queued running completed cancelled failed unknown : JobState

pub record JobStatus : Type 0 where
  pub state : JobState
  pub raw_state : Text
  pub elapsed : Text
  pub exit_code : Text
  pub reason : Text
  pub start : Text
  pub end : Text

-- `JobStatus{State: "unknown"}`
abbrev pub unknown_status : JobStatus
unknown_status = record {
  state = JobState.unknown;
  raw_state = [];
  elapsed = [];
  exit_code = [];
  reason = [];
  start = [];
  end = [];
}

abbrev queued_words : List Text
queued_words =
    codes "PENDING"
    ∷ codes "CONFIGURING"
    ∷ codes "SUSPENDED"
    ∷ codes "REQUEUED"
    ∷ codes "REQUEUE_FED"
    ∷ codes "REQUEUE_HOLD"
    ∷ []

abbrev running_words : List Text
running_words =
    codes "RUNNING"
    ∷ codes "COMPLETING"
    ∷ codes "RESIZING"
    ∷ codes "SIGNALING"
    ∷ codes "STAGE_OUT"
    ∷ []

abbrev failed_words : List Text
failed_words =
    codes "FAILED"
    ∷ codes "TIMEOUT"
    ∷ codes "NODE_FAIL"
    ∷ codes "OUT_OF_MEMORY"
    ∷ codes "PREEMPTED"
    ∷ codes "BOOT_FAIL"
    ∷ codes "DEADLINE"
    ∷ codes "REVOKED"
    ∷ codes "SPECIAL_EXIT"
    ∷ []

-- The switch of `normalize`.
unfoldable pub state_of_word : Text → JobState
state_of_word w =
    if is_one_of queued_words w
    then JobState.queued
    else if is_one_of running_words w
    then JobState.running
    else if text_eq (codes "COMPLETED") w
    then JobState.completed
    else if text_eq (codes "CANCELLED") w || text_eq (codes "CANCELLED+") w
    then JobState.cancelled
    else if is_one_of failed_words w
    then JobState.failed
    else JobState.unknown

abbrev state_of_words : List Text → Option JobState
state_of_words [] = none
state_of_words (w ∷ ws) = some (state_of_word (to_upper w))

-- normalize; `none` is the panic of `strings.Fields(raw)[0]` on a text with no word.
unfoldable pub normalize : Text → Option JobState
normalize raw = state_of_words (fields raw)

-- cleanTime
unfoldable pub clean_time : Text → Text
clean_time value =
    let t = trim_space value in
    if is_empty t
      || text_eq (codes "Unknown") t
      || text_eq (codes "N/A") t
      || text_eq (codes "None") t
    then []
    else t

-- `fields[k]` of the list padded with "" to six fields.
abbrev pub field : ℕ → List Text → Text
field k [] = []
field zero (f ∷ fs) = f
field (suc k) (f ∷ fs) = field k fs

abbrev raw_of : List Text → Text
raw_of fs = trim_space (trim_suffix b'+' (field 0 fs))

abbrev status_with : List Text → Option JobState → Option JobStatus
status_with fs none = none
status_with fs (some s) = some (record {
  state = s;
  raw_state = raw_of fs;
  elapsed = trim_space (field 1 fs);
  exit_code = trim_space (field 2 fs);
  reason = trim_space (field 3 fs);
  start = clean_time (field 4 fs);
  end = clean_time (field 5 fs);
})

-- statusFromFields; `none` is a panic.
unfoldable pub status_from_fields : List Text → Option JobStatus
status_from_fields fs =
    if is_empty (raw_of fs) then some unknown_status else status_with fs (normalize (raw_of fs))

-- Status, after the row was cut into fields: it tests the first field before the "+" is dropped.
unfoldable pub status_of_row : List Text → Option JobStatus
status_of_row fs =
    if is_empty (trim_space (field 0 fs))
    then some unknown_status
    else status_with fs (normalize (raw_of fs))

abbrev answered : Option JobStatus → Option (Result JobStatus)
answered none = none
answered (some s) = some (ok s)

-- Status, from the answer of the remote shell.
unfoldable pub status : Reply → Option (Result JobStatus)
status reply =
    if reply.failed
    then some (fail status_failed true)
    else answered (status_of_row (split_cuts 6 b'|' (trim_space reply.stdout)))
