-- ===== src/Slurm/Panics.antt =====
-- Reading a status row: which rows end in a panic.
use joyrun.Base.{ℕ, ◌≡◌, refl, false, Option, none, some, List, [], ◌∷◌, arith, if◌then◌else◌}
use joyrun.Base.Text.{Text, codes}
use joyrun.Base.Strings.{
  trim_space, trim_suffix, is_space, is_empty, fields, to_upper, trim_space-head, fields-head,
}
use joyrun.Slurm.{
  JobStatus, JobState, unknown_status, normalize, state_of_word, status_with, raw_of,
  status_from_fields, status_of_row,
}

normalize-total :
    (raw : Text) {c : ℕ} {t : Text}
    → raw ≡ c ∷ t
    → is_space c ≡ false
    → (s : JobState) × (normalize raw ≡ some s)
unfolding normalize
normalize-total raw {c} {t} e solid =
    let (w, ws, words) = fields-head c t solid in (state_of_word (to_upper w), rw (e, words) refl)

status_with-total :
    (fs : List Text) (s : JobState) {o : Option JobState}
    → o ≡ some s
    → (r : JobStatus) × (status_with fs o ≡ some r)
status_with-total fs s {o = none} n = ground arith
status_with-total fs s {o = some t} n = (_, refl)

total_on :
    (fs : List Text) (raw : Text)
    → raw_of fs ≡ raw
    → (s : JobStatus) × ((if is_empty raw
          then some unknown_status
          else status_with fs (normalize raw))
        ≡ some s)
total_on fs [] e = (unknown_status, refl)
total_on fs (c ∷ t) e =
    let (s, n) = normalize-total (c ∷ t) refl (trim_space-head (trim_suffix b'+' _) e) in
    status_with-total fs s n

-- Reading the fields of a row of `Statuses` never panics.
pub status_from_fields-total : (fs : List Text) → (s : JobStatus) × (status_from_fields fs ≡ some s)
unfolding status_from_fields
status_from_fields-total fs = total_on fs (raw_of fs) refl

-- `Status` panics on every row whose state field is a lone "+", which `Statuses` reads as unknown.
pub status_of_row-panics :
    (fs : List Text)
    → (status_of_row (codes "+" ∷ fs) ≡ none)
      × (status_from_fields (codes "+" ∷ fs) ≡ some unknown_status)
unfolding status_of_row status_from_fields normalize trim_space trim_suffix fields
status_of_row-panics fs = (refl, refl)
