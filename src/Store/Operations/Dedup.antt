-- ===== src/Store/Operations/Dedup.antt =====
-- How admission treats operations that carry a deduplication key, and unknown projects.
use joyrun.Base.{
  ◌≡◌, refl, ◌∙◌, inl, inr, true, false, ◌||◌, none, some, List, [], ◌∷◌, ◌++◌, ◌==◌, eq_iff, arith,
  any, Option-cases, any-append,
}
use joyrun.Fault.{ok, fail, operation_duplicate}
use joyrun.Timestamp.{Timestamp}
use joyrun.Model.{Operation}
use joyrun.Store.{Database, Sql}
use joyrun.Store.Operations.{
  unique, foreign_key, is_unique_violation, same_dedup, has_project, insert_error, with_defaults,
  append_operation_event, create_operation,
}

pub create-inv :
    (sql : Sql) (now : Timestamp) (given : Operation) (db : Database) {op : Operation}
    {db' : Database}
    → create_operation sql now given db ≡ (ok op, db')
    → (op ≡ with_defaults now given)
      × (db'.operations ≡ db.operations ++ op ∷ [])
      × (insert_error db op ≡ none)
unfolding create_operation append_operation_event
create-inv sql now given db {op} {db'} h =
    elim (Option-cases (insert_error db (with_defaults now given))) [
      | inl e ↦ (ground arith, ground arith, ground arith)
      | inr (x, e) ↦ (ground arith, ground arith, ground arith)
    ]

violates : is_unique_violation unique ≡ true
unfolding is_unique_violation
violates = refl

violates_foreign : is_unique_violation foreign_key ≡ true
unfolding is_unique_violation
violates_foreign = refl

-- Creating a row that breaks the uniqueness of ids or of deduplication keys.
create-duplicate :
    (sql : Sql) (now : Timestamp) (given : Operation) (db : Database)
    → sql 0 ≡ true
    → (given.id == "" || given.kind == "" || given.project_id == "") ≡ false
    → insert_error db (with_defaults now given) ≡ some unique
    → create_operation sql now given db ≡ (fail operation_duplicate false, db)
unfolding create_operation
create-duplicate sql now given db up full e = ground (arith, violates)

same_key-any :
    (now now' : Timestamp) (a b : Operation) (ops : List Operation)
    → (b.dedup_key == "") ≡ false
    → b.kind ≡ a.kind
    → b.dedup_key ≡ a.dedup_key
    → any (same_dedup (with_defaults now' b)) (ops ++ with_defaults now a ∷ []) ≡ true
unfolding with_defaults
same_key-any now now' a b ops keyed k d =
    any-append (same_dedup (with_defaults now' b)) ops (with_defaults now a ∷ [])
    ∙ ground (arith, eq_iff b.kind a.kind, eq_iff b.dedup_key a.dedup_key)

same_key-insert_error :
    (now now' : Timestamp) (a b : Operation) (db db' : Database)
    → (b.dedup_key == "") ≡ false
    → b.kind ≡ a.kind
    → b.dedup_key ≡ a.dedup_key
    → db'.operations ≡ db.operations ++ with_defaults now a ∷ []
    → insert_error db' (with_defaults now' b) ≡ some unique
unfolding insert_error
same_key-insert_error now now' a b db db' keyed k d rows =
    rw rows (ground (arith, same_key-any now now' a b db.operations keyed k d))

-- After an operation with a deduplication key is admitted, no second one with the same kind and key
-- is: on a database that works, with an id, a kind and a project, the call answers
-- OPERATION_DUPLICATE and changes nothing.
pub create_twice :
    (sql sql' : Sql) (now now' : Timestamp) (a b : Operation) (db : Database) {op : Operation}
    {db' : Database}
    → create_operation sql now a db ≡ (ok op, db')
    → sql' 0 ≡ true
    → (b.id == "" || b.kind == "" || b.project_id == "") ≡ false
    → (b.dedup_key == "") ≡ false
    → b.kind ≡ a.kind
    → b.dedup_key ≡ a.dedup_key
    → create_operation sql' now' b db' ≡ (fail operation_duplicate false, db')
create_twice sql sql' now now' a b db {op} {db'} h up full keyed k d =
    let (filled, rows, _) = create-inv sql now a db h in
    create-duplicate sql' now' b db' up full
      (same_key-insert_error now now' a b db db' keyed k d (rw filled at rows))

-- A row for a project that the database does not know breaks a foreign key, and is reported as a
-- duplicate too: the answer is OPERATION_DUPLICATE although no equivalent operation exists.
pub create-unknown_project :
    (sql : Sql) (now : Timestamp) (given : Operation) (db : Database)
    → sql 0 ≡ true
    → (given.id == "" || given.kind == "" || given.project_id == "") ≡ false
    → has_project db given.project_id ≡ false
    → create_operation sql now given db ≡ (fail operation_duplicate false, db)
unfolding create_operation insert_error with_defaults
create-unknown_project sql now given db up full unknown = ground (arith, violates, violates_foreign)
