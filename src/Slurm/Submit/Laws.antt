-- ===== src/Slurm/Submit/Laws.antt =====
-- Only numbers are taken for job IDs, and every rejection has its reason.
use joyrun.Base.{
  ℕ, zero, suc, ◌≡◌, Bool, true, false, ◌&&◌, some, List, [], ◌∷◌, ◌⊎◌, inl, inr, arith, is_some,
  All, ◌++◌, Bool-cases,
}
use joyrun.Base.Text.{Text, codes, text_eq, get_entry, get_entry-set_entry, is_one_of}
use joyrun.Base.Strings.{trim_space, split, split_cuts}
use joyrun.Base.Numbers.{parse_uint}
use joyrun.Fault.{ok}
use joyrun.Slurm.{Reply}
use joyrun.Slurm.Submit.{
  BatchSubmitResult, empty_result, read_record, read_records, submit_many, submit, read_markers,
  read_marker, find_by_task_id, one_match, or_accounting,
}

unfoldable pub is_job_id : Text → Bool
is_job_id id = is_some (parse_uint id)

-- What the batch's result maps promise: every accepted ID is a number, and every rejected task has
-- its failure text.
pub record IsSound (r : BatchSubmitResult) : Type 0 where
  pub ids : (task id : Text) → get_entry task r.scheduler_ids ≡ some id → is_job_id id ≡ true
  pub reasons :
      (task : Text)
      → get_entry task r.rejected ≡ some true
      → is_some (get_entry task r.failures) ≡ true

read_record-IsSound :
    (kind task value : Text) (r : BatchSubmitResult)
    → IsSound r
    → IsSound (read_record kind task value r)
unfolding read_record is_job_id
read_record-IsSound kind task value r h = record {
  ids = λ t id e. ground (arith, h.ids t id, get_entry-set_entry task t value r.scheduler_ids);
  reasons = λ t e. ground (
    arith,
    h.reasons t,
    get_entry-set_entry task t true r.rejected,
    get_entry-set_entry task t (trim_space value) r.failures,
    get_entry-set_entry task t (codes "invalid scheduler ID: " ++ value) r.failures,
  );
}

pub read_records-IsSound :
    (parts : List Text) (r : BatchSubmitResult) → IsSound r → IsSound (read_records parts r)
unfolding read_records
read_records-IsSound [] r h = h
read_records-IsSound (k ∷ []) r h = h
read_records-IsSound (k ∷ t ∷ []) r h = h
read_records-IsSound (k ∷ t ∷ v ∷ rest) r h =
    read_records-IsSound rest (read_record k t v r) (read_record-IsSound k t v r h)

nothing-IsSound : IsSound empty_result
unfolding get_entry
nothing-IsSound = record { ids = λ t id e. ground arith; reasons = λ t e. ground arith }

-- Whatever the remote shell prints, SubmitMany files only numbers as scheduler IDs and gives every
-- task that it calls rejected a failure text.
pub submit_many-IsSound : (jobs : ℕ) (reply : Reply) → IsSound (submit_many jobs reply).0
unfolding submit_many
submit_many-IsSound zero reply = nothing-IsSound
submit_many-IsSound (suc jobs) reply = elim (Bool-cases reply.failed) [
  | inl e ↦ rw e nothing-IsSound
  | inr e ↦ rw e (read_records-IsSound (split 0 reply.stdout) empty_result nothing-IsSound)
]

-- A job that Submit reports has a number for its ID, and then the remote command had succeeded.
pub submit-is_job_id :
    (reply : Reply) (id : Text)
    → submit reply ≡ ok id
    → (is_job_id id ≡ true) × (reply.failed ≡ false)
unfolding submit is_job_id
submit-is_job_id reply id h = (ground arith, ground arith)

read_marker-jobs :
    (comment : Text) (parts ids : List Text)
    → All (λ id. is_job_id id ≡ true) ids
    → All (λ id. is_job_id id ≡ true) (read_marker comment parts ids)
unfolding is_job_id
read_marker-jobs comment [] ids h = h
read_marker-jobs comment (id ∷ []) ids h = h
read_marker-jobs comment (id ∷ mark ∷ rest) ids h =
    go (Bool-cases (text_eq mark comment && is_some (parse_uint (trim_space id))))
      (Bool-cases (is_one_of ids (trim_space id)))
  where
    go :
        (text_eq mark comment && is_some (parse_uint (trim_space id)) ≡ true)
          ⊎ (text_eq mark comment && is_some (parse_uint (trim_space id)) ≡ false)
        → (is_one_of ids (trim_space id) ≡ true) ⊎ (is_one_of ids (trim_space id) ≡ false)
        → All (λ i. is_job_id i ≡ true) (read_marker comment (id ∷ mark ∷ rest) ids)
    go (inr e) _ = rw e h
    go (inl e) (inl known) = rw (e, known) h
    go (inl e) (inr fresh) = rw (e, fresh) (ground arith, h)

read_markers-jobs :
    (comment : Text) (lines ids : List Text)
    → All (λ id. is_job_id id ≡ true) ids
    → All (λ id. is_job_id id ≡ true) (read_markers comment lines ids)
unfolding read_markers
read_markers-jobs comment [] ids h = h
read_markers-jobs comment (line ∷ lines) ids h =
    read_markers-jobs comment lines _
      (read_marker-jobs comment (split_cuts 2 b'|' (trim_space line)) ids h)

one_match-is_job_id :
    (ids : List Text) (id : Text)
    → All (λ i. is_job_id i ≡ true) ids
    → one_match ids ≡ ok (some id)
    → is_job_id id ≡ true
one_match-is_job_id [] id h e = ground arith
one_match-is_job_id (a ∷ []) id h e = ground (arith, h.0)
one_match-is_job_id (a ∷ b ∷ ids) id h e = ground arith

or_accounting-is_job_id :
    (accounting : Reply) (recorded active : List Text) (id : Text)
    → All (λ i. is_job_id i ≡ true) recorded
    → All (λ i. is_job_id i ≡ true) active
    → or_accounting accounting recorded active ≡ ok (some id)
    → is_job_id id ≡ true
or_accounting-is_job_id accounting recorded [] id hr ha e =
    one_match-is_job_id recorded id hr (ground arith)
or_accounting-is_job_id accounting recorded (a ∷ active) id hr ha e =
    one_match-is_job_id (a ∷ active) id ha e

-- A job that FindByTaskID recovers for a task has a number for its ID.
pub find_by_task_id-is_job_id :
    (task : Text) (queue accounting : Reply) (id : Text)
    → find_by_task_id task queue accounting ≡ ok (some id)
    → is_job_id id ≡ true
unfolding find_by_task_id
find_by_task_id-is_job_id task queue accounting id h =
    or_accounting-is_job_id accounting (matches accounting) (matches queue) id
      (read_markers-jobs _ (split 10 accounting.stdout) [] tt)
      (read_markers-jobs _ (split 10 queue.stdout) [] tt) (ground arith)
  where
    matches : Reply → List Text
    matches reply = read_markers (codes "joyrun:" ++ task) (split 10 reply.stdout) []
