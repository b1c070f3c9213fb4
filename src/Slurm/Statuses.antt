-- ===== src/Slurm/Statuses.antt =====
-- Statuses: many jobs in one query.
pub mod Laws
use joyrun.Base.{
  ℕ, Bool, true, false, not, Option, none, some, List, [], ◌∷◌, is_some, ◌&&◌, ◌||◌, if◌then◌else◌,
  ◌++◌,
}
use joyrun.Base.Text.{Text, codes, text_eq, set_entry, is_one_of}
use joyrun.Base.Strings.{trim_space, is_empty, split, split_cuts}
use joyrun.Base.Numbers.{parse_uint}
use joyrun.Fault.{Result, ok, err, fail, status_failed}
use joyrun.Slurm.{Reply, JobStatus, unknown_status, status_from_fields}

abbrev pub StatusMap : Type 0
StatusMap = List (Text × JobStatus)

abbrev pub has_key : Text → StatusMap → Bool
has_key k [] = false
has_key k ((j, s) ∷ m) = text_eq j k || has_key k m

-- The IDs asked for, each once, with the status "unknown"; an ID that is no number is an error.
unfoldable pub requested : List Text → StatusMap → Result StatusMap
requested [] m = ok m
requested (given ∷ ids) m =
    let id = trim_space given in
    let skip = requested ids m in
    let more = requested ids (m ++ (id, unknown_status) ∷ []) in
    if is_empty id || has_key id m
    then skip
    else if is_some (parse_uint id)
    then more
    else fail status_failed false

abbrev store_status : Text → StatusMap → Option JobStatus → Option StatusMap
store_status id m none = none
store_status id m (some s) = some (set_entry id s m)

-- One line of the output, cut into fields; `none` is a panic.
unfoldable pub read_row : List Text → StatusMap → Option StatusMap
read_row (source ∷ given ∷ f ∷ fs) m =
    if has_key (trim_space given) m && (text_eq source (codes "A") || text_eq source (codes "Q"))
    then store_status (trim_space given) m (status_from_fields (f ∷ fs))
    else some m
read_row _ m = some m

abbrev pub then_read : Option StatusMap → (StatusMap → Option StatusMap) → Option StatusMap
then_read none f = none
then_read (some m) f = f m

unfoldable pub read_rows : List (List Text) → StatusMap → Option StatusMap
read_rows [] m = some m
read_rows (row ∷ rows) m = then_read (read_row row m) (read_rows rows)

abbrev pub rows_of : Text → List (List Text)
rows_of output = cut (split 10 output)
  where
    cut : List Text → List (List Text)
    cut [] = []
    cut (line ∷ lines) = split_cuts 8 b'|' (trim_space line) ∷ cut lines

abbrev answered : Option StatusMap → Option (Result StatusMap)
answered none = none
answered (some m) = some (ok m)

abbrev ask : Reply → Result StatusMap → Option (Result StatusMap)
ask reply (err e) = some (err e)
ask reply (ok []) = some (ok [])
ask reply (ok (entry ∷ m)) =
    if reply.failed
    then some (fail status_failed true)
    else answered (read_rows (rows_of reply.stdout) (entry ∷ m))

-- Statuses, from the answer of the remote shell; `none` is a panic.
unfoldable pub statuses : List Text → Reply → Option (Result StatusMap)
statuses ids reply = ask reply (requested ids [])
