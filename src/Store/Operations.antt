-- ===== src/Store/Operations.antt =====
-- internal/store/operations.go: the durable queue of operations and the leases of its workers.
pub mod Dedup
use joyrun.Base.{
  ℕ, String, Bool, true, false, ◌&&◌, ◌||◌, not, Option, none, some, List, [], ◌∷◌, ◌++◌, ◌==◌, any,
  select_where, find_where, if◌then◌else◌,
}
use joyrun.Base.Text.{Text, codes, to_lower, contains}
use joyrun.Fault.{
  Result, ok, err, fail, operation_invalid, operation_duplicate, operation_not_found,
  database_failed,
}
use joyrun.Timestamp.{Timestamp, is_zero, text_lt}
use joyrun.Model.{OperationState, is_unset, Operation, OperationEvent}
use joyrun.Store.{Database, Sql, Exec}

-- The text of SQLite's error for a broken constraint or for anything else.
pub data SqlError : Type 0 where
  unique foreign_key : SqlError
  other : Text → SqlError

abbrev error_text : SqlError → Text
error_text unique = codes "constraint failed: UNIQUE constraint failed"
error_text foreign_key = codes "constraint failed: FOREIGN KEY constraint failed"
error_text (other t) = t

unfoldable pub is_unique_violation : SqlError → Bool
unfolding to_lower contains
is_unique_violation e =
    contains (to_lower (error_text e)) (codes "unique")
    || contains (to_lower (error_text e)) (codes "constraint failed")

-- Both operations carry the deduplication key that the partial unique index compares.
abbrev pub same_dedup : Operation → Operation → Bool
same_dedup a b = not (a.dedup_key == "") && a.kind == b.kind && a.dedup_key == b.dedup_key

abbrev pub has_project : Database → String → Bool
has_project db id = any (λ p. p.id == id) db.projects

abbrev pub has_operation : Database → String → Bool
has_operation db id = any (λ o. o.id == id) db.operations

abbrev pub has_task : Database → String → Bool
has_task db id = any (λ t. t.id == id) db.tasks

-- Which constraint of the table an INSERT of the row breaks, if any. Uniqueness is checked while
-- the row is written, the foreign key when the statement ends.
unfoldable pub insert_error : Database → Operation → Option SqlError
insert_error db op =
    if has_operation db op.id || any (same_dedup op) db.operations
    then some unique
    else if has_project db op.project_id
    then none
    else some foreign_key

unfoldable pub append_operation_event :
    Sql → ℕ → Timestamp → String → OperationState → String → String → Exec Unit
append_operation_event sql n now id state stage message db =
    let row : OperationEvent = record {
      operation_id = id;
      state = state;
      stage = stage;
      message = message;
      created_at = now;
    } in
    if sql n && has_operation db id
    then (ok tt, record db { operation_events = db.operation_events ++ row ∷ [] })
    else (fail database_failed true, db)

abbrev or_text : String → String → String
or_text s d = if s == "" then d else s

-- The empty fields that CreateOperation fills.
unfoldable pub with_defaults : Timestamp → Operation → Operation
with_defaults now op =
    let created = if is_zero op.created_at then now else op.created_at in
    record op {
      created_at = created;
      updated_at = if is_zero op.updated_at then created else op.updated_at;
      state = if is_unset op.state then OperationState.queued else op.state;
      stage = or_text op.stage "queued";
      payload = or_text op.payload "{}";
      result = or_text op.result "{}";
    }

insert_failed : SqlError → Exec Operation
unfolding is_unique_violation
insert_failed e db = (
  if is_unique_violation e then fail operation_duplicate false else fail database_failed true,
  db,
)

admit : Result (Unit {0}) × Database → Operation → Result Operation × Database
admit (ok _, db) op = (ok op, db)
admit (err e, db) op = (err e, db)

-- The new row and its event are two statements, not one transaction.
unfoldable pub create_operation : Sql → Timestamp → Operation → Exec Operation
unfolding insert_failed admit
create_operation sql now given db =
    let op = with_defaults now given in
    if given.id == "" || given.kind == "" || given.project_id == ""
    then (fail operation_invalid false, db)
    else if not (sql 0)
    then insert_failed (other (codes "disk I/O error")) db
    else elim (insert_error db op) [
      | some e ↦ insert_failed e db
      | none ↦
          admit
            (append_operation_event sql 1 now op.id op.state op.stage "operation admitted"
              (record db { operations = db.operations ++ op ∷ [] }))
            op
    ]

-- GetOperation
unfoldable pub get_operation : Sql → String → Exec Operation
get_operation sql id db =
    if not (sql 0)
    then (fail database_failed false, db)
    else elim (find_where (λ o. o.id == id) db.operations) [
      | none ↦ (fail operation_not_found false, db)
      | some op ↦ (ok op, db)
    ]

-- `ORDER BY created_at`: the row with the least text. The order of equal texts is SQLite's
-- choice; here the row stored first comes first.
unfoldable pub earliest : List Operation → Option Operation
earliest [] = none
earliest (x ∷ xs) = elim (earliest xs) [
  | none ↦ some x
  | some y ↦ some (if text_lt y.created_at x.created_at then y else x)
]

-- `ORDER BY created_at DESC LIMIT 1`
unfoldable pub latest : List Operation → Option Operation
latest [] = none
latest (x ∷ xs) = elim (latest xs) [
  | none ↦ some x
  | some y ↦ some (if text_lt x.created_at y.created_at then y else x)
]

-- FindOperationByDedup; `none` is the result `false`.
unfoldable pub find_operation_by_dedup : Sql → String → String → Exec (Option Operation)
unfolding latest
find_operation_by_dedup sql kind key db =
    if kind == "" || key == ""
    then (ok none, db)
    else if not (sql 0)
    then (fail database_failed true, db)
    else (ok (latest (select_where (λ o. o.kind == kind && o.dedup_key == key) db.operations)), db)
