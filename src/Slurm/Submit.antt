-- ===== src/Slurm/Submit.antt =====
-- Submit, SubmitMany and FindByTaskID: which job IDs they accept.
pub mod Laws
use joyrun.Base.{
  ℕ, zero, suc, Bool, true, false, ◌&&◌, ◌||◌, not, Option, none, some, List, [], ◌∷◌, is_some,
  nat_eq, any, if◌then◌else◌, String, ◌++◌,
}
use joyrun.Base.Text.{Text, codes, text_eq, contains, set_entry, is_one_of}
use joyrun.Base.Strings.{trim_space, is_empty, split, split_cuts}
use joyrun.Base.Numbers.{parse_uint}
use joyrun.Fault.{
  Error, Result, ok, err, fail, submit_failed, submit_rejected, submit_ambiguous, status_failed,
}
use joyrun.Slurm.{Reply}

-- `strings.Cut(id, ";")`, the part before, or the whole.
unfoldable pub before_byte : ℕ → Text → Text
before_byte b [] = []
before_byte b (c ∷ s) = let rest = before_byte b s in if nat_eq c b then [] else c ∷ rest

abbrev pub rejected_mark : Text
rejected_mark = codes "JOYRUN_SUBMIT_REJECTED"

abbrev pub submitted_id : Reply → Text
submitted_id reply = before_byte b';' (trim_space reply.stdout)

-- Submit, from the answer of the remote shell.
unfoldable pub submit : Reply → Result Text
submit reply =
    if reply.failed
    then (if contains reply.stderr rejected_mark
        then fail submit_rejected false
        else fail submit_failed true)
    else if is_empty (submitted_id reply)
    then fail submit_failed true
    else if is_some (parse_uint (submitted_id reply))
    then ok (submitted_id reply)
    else fail submit_failed false

-- SubmissionDefinitelyRejected, on a fault's code and the text of the error.
unfoldable pub submission_definitely_rejected : Bool → Text → Bool
submission_definitely_rejected code_rejected text = code_rejected || contains text rejected_mark

pub record BatchSubmitResult : Type 0 where
  pub scheduler_ids : List (Text × Text)
  pub failures : List (Text × Text)
  pub rejected : List (Text × Bool)

abbrev pub empty_result : BatchSubmitResult
empty_result = record { scheduler_ids = []; failures = []; rejected = [] }

-- One record of the batch's output.
unfoldable pub read_record : Text → Text → Text → BatchSubmitResult → BatchSubmitResult
read_record kind task value r =
    if text_eq kind (codes "OK")
    then (if is_some (parse_uint value)
        then record r { scheduler_ids = set_entry task value r.scheduler_ids }
        else record r {
          failures = set_entry task (codes "invalid scheduler ID: " ++ value) r.failures;
        })
    else if text_eq kind (codes "ERR")
    then record r { failures = set_entry task (trim_space value) r.failures }
    else if text_eq kind (codes "REJ")
    then record r {
      failures = set_entry task (trim_space value) r.failures;
      rejected = set_entry task true r.rejected;
    }
    else r

-- The loop over the output cut at NUL bytes, three fields at a time.
unfoldable pub read_records : List Text → BatchSubmitResult → BatchSubmitResult
read_records (kind ∷ task ∷ value ∷ rest) r = read_records rest (read_record kind task value r)
read_records _ r = r

-- SubmitMany, from the answer of the remote shell.
unfoldable pub submit_many : ℕ → Reply → BatchSubmitResult × Option Error
submit_many zero reply = (empty_result, none)
submit_many (suc jobs) reply =
    if reply.failed
    then (empty_result, some (record { code = submit_failed; retryable = true }))
    else (read_records (split 0 reply.stdout) empty_result, none)

abbrev add_match : Text → List Text → List Text
add_match id ids = if is_one_of ids id then ids else id ∷ ids

abbrev pub read_marker : Text → List Text → List Text → List Text
read_marker comment (id ∷ mark ∷ rest) ids =
    if text_eq mark comment && is_some (parse_uint (trim_space id))
    then add_match (trim_space id) ids
    else ids
read_marker comment _ ids = ids

-- The loop over the lines of one query; the matches are a set.
unfoldable pub read_markers : Text → List Text → List Text → List Text
read_markers comment [] ids = ids
read_markers comment (line ∷ lines) ids =
    read_markers comment lines (read_marker comment (split_cuts 2 b'|' (trim_space line)) ids)

abbrev pub one_match : List Text → Result (Option Text)
one_match [] = ok none
one_match (id ∷ []) = ok (some id)
one_match (a ∷ b ∷ ids) = fail submit_ambiguous false

abbrev or_accounting : Reply → List Text → List Text → Result (Option Text)
or_accounting accounting recorded [] =
    if accounting.failed then fail status_failed true else one_match recorded
or_accounting accounting recorded (id ∷ ids) = one_match (id ∷ ids)

-- FindByTaskID: the queue, and the accounting only if the queue has no match. `none` is "".
unfoldable pub find_by_task_id : Text → Reply → Reply → Result (Option Text)
find_by_task_id task queue accounting =
    let comment = codes "joyrun:" ++ task in
    let recorded = read_markers comment (split 10 accounting.stdout) [] in
    if queue.failed
    then fail status_failed true
    else or_accounting accounting recorded (read_markers comment (split 10 queue.stdout) [])
