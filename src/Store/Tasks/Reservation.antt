-- ===== src/Store/Tasks/Reservation.antt =====
-- A submission key is reserved once.
use joyrun.Base.{
  ℕ, String, ◌≡◌, refl, sym, ◌∙◌, Bool, true, false, ◌&&◌, ◌||◌, not, Option, none, some, List, [],
  ◌∷◌, ◌++◌, ◌==◌, eq_iff, eq_refl, inl, inr, any, Unique, select_where, find_where, arith,
  Bool-cases, Option-cases, any-append, find_where-any, find_where-holds, Unique-append,
}
use joyrun.Fault.{Result, ok, Result-cases}
use joyrun.Model.{Task}
use joyrun.Store.{Database, Sql}
use joyrun.Store.Metadata.{encode_task, scan_task, get_meta-set_meta, get_meta-delete_meta}
use joyrun.Store.Tasks.{
  insert_task, insert_event, insert_all, create_task_idempotent, find_reserved, first_revision,
  newest_first, by_newest, reserves, of_source, submission_key, is_submission_failed,
}

-- Two rows that hold one submission: the same source and key, and neither definitely rejected.
unfoldable pub same_submission : Task → Task → Bool
same_submission a b =
    a.project_id == b.project_id
    && a.source_path == b.source_path
    && not (submission_key a == "")
    && submission_key a == submission_key b
    && not (is_submission_failed a.compute_state)
    && not (is_submission_failed b.compute_state)

any-by_newest :
    (p : Task → Bool) (t : Task) (ts : List Task) → any p (by_newest t ts) ≡ (p t || any p ts)
unfolding by_newest
any-by_newest p t [] = refl
any-by_newest p t (u ∷ us) = ground (arith, any-by_newest p t us)

any-newest_first : (p : Task → Bool) (ts : List Task) → any p (newest_first ts) ≡ any p ts
unfolding newest_first
any-newest_first p [] = refl
any-newest_first p (t ∷ ts) =
    ground (arith, any-by_newest p t (newest_first ts), any-newest_first p ts)

any-select_where :
    (p q : Task → Bool) (ts : List Task) → any p (select_where q ts) ≡ any (λ t. q t && p t) ts
unfolding select_where
any-select_where p q [] = refl
any-select_where p q (t ∷ ts) = ground (arith, any-select_where p q ts)

find_where-none : (p : Task → Bool) (ts : List Task) → find_where p ts ≡ none → any p ts ≡ false
unfolding find_where
find_where-none p [] h = refl
find_where-none p (t ∷ ts) h = ground (arith, find_where-none p ts)

abbrev meets : String → String → String → Task → Bool
meets project source key t = of_source project source t && reserves key t

-- The look for a reservation finds none exactly when no row meets it.
find_reserved-none :
    (project source key : String) (db : Database)
    → find_reserved project source key db ≡ none
    → any (meets project source key) db.tasks ≡ false
unfolding find_reserved
find_reserved-none project source key db h =
    sym (
      any-newest_first (reserves key) (select_where (of_source project source) db.tasks)
      ∙ any-select_where (reserves key) (of_source project source) db.tasks)
    ∙ find_where-none (reserves key)
        (newest_first (select_where (of_source project source) db.tasks)) h

find_reserved-some :
    (project source key : String) (db : Database)
    → any (meets project source key) db.tasks ≡ true
    → (t : Task) × (find_reserved project source key db ≡ some t)
unfolding find_reserved
find_reserved-some project source key db h =
    find_where-any (reserves key) (newest_first (select_where (of_source project source) db.tasks))
      (any-newest_first (reserves key) (select_where (of_source project source) db.tasks)
        ∙ any-select_where (reserves key) (of_source project source) db.tasks
        ∙ h)

submission_key-encode_task : (t : Task) → submission_key (encode_task t) ≡ submission_key t
unfolding encode_task
submission_key-encode_task t = elim (Bool-cases t.dry_run) [
  | inl e ↦ rw e (rw (get_meta-set_meta "submission_key" "dry_run" "1" t.metadata) refl)
  | inr e ↦ rw e (rw (get_meta-delete_meta "submission_key" "dry_run" t.metadata) refl)
]

insert_all-one :
    (sql : Sql) (n : ℕ) (t : Task) (db : Database) {db' : Database}
    → insert_all sql n (t ∷ []) db ≡ ok db'
    → db'.tasks ≡ db.tasks ++ encode_task t ∷ []
unfolding insert_all insert_task insert_event
insert_all-one sql n t db {db'} h = ground arith

-- What a reservation that went through has found and done.
reserve-inv :
    (sql : Sql) (task : Task) (db : Database) {db' : Database}
    → create_task_idempotent sql task false db ≡ (ok none, db')
    → (any (meets task.project_id task.source_path (submission_key task)) db.tasks ≡ false)
      × ((submission_key task == "") ≡ false)
      × (db'.tasks ≡ db.tasks ++ encode_task (first_revision task) ∷ [])
unfolding create_task_idempotent
reserve-inv sql task db {db'} h =
    let key = submission_key task in
    elim (Option-cases (find_reserved task.project_id task.source_path key db)) [
      | inr (t, e) ↦ (ground arith, ground arith, ground arith)
      | inl e ↦ elim (Result-cases (insert_all sql 4 (first_revision task ∷ []) db)) [
        | inr (x, q) ↦ (ground arith, ground arith, ground arith)
        | inl (after, q) ↦ (
          find_reserved-none task.project_id task.source_path key db e,
          ground arith,
          ground (arith, insert_all-one sql 4 (first_revision task) db q),
        )
      ]
    ]

encode_task_fields :
    (t : Task)
    → ((encode_task t).project_id ≡ t.project_id)
      × ((encode_task t).source_path ≡ t.source_path)
      × ((encode_task t).compute_state ≡ t.compute_state)
unfolding encode_task
encode_task_fields t = (refl, refl, refl)

not_same :
    (u e : Task)
    → meets e.project_id e.source_path (submission_key e) u ≡ false
    → same_submission u e ≡ false
unfolding same_submission reserves
not_same u e h = ground arith

none_same :
    (e : Task) (ts : List Task)
    → any (meets e.project_id e.source_path (submission_key e)) ts ≡ false
    → any (λ u. same_submission u e) ts ≡ false
none_same e [] h = refl
none_same e (u ∷ us) h = ground (arith, not_same u e, none_same e us)

meets_encoded :
    (t : Task) (ts : List Task)
    → let e = encode_task (first_revision t) in
      any (meets e.project_id e.source_path (submission_key e)) ts
      ≡ any (meets t.project_id t.source_path (submission_key t)) ts
meets_encoded t ts = rw (
  (encode_task_fields (first_revision t)).0,
  (encode_task_fields (first_revision t)).1,
  submission_key-encode_task (first_revision t),
)

-- No two tasks hold one submission.
abbrev pub NoDoubleSubmission : Database → Type 0
NoDoubleSubmission db = Unique same_submission db.tasks

abbrev is_reserved : Result (Option Task) → Bool
is_reserved (ok none) = true
is_reserved _ = false

reserve-unchanged :
    (sql : Sql) (task : Task) (db : Database)
    → is_reserved (create_task_idempotent sql task false db).0 ≡ false
    → (create_task_idempotent sql task false db).1 ≡ db
unfolding create_task_idempotent
reserve-unchanged sql task db h = ground arith

-- Reserving a submission keeps every submission held by one task at most, whether the reservation
-- makes a task, meets one that is there, or fails.
pub reserve-NoDoubleSubmission :
    (sql : Sql) (task : Task) (db : Database)
    → NoDoubleSubmission db
    → NoDoubleSubmission (create_task_idempotent sql task false db).1
reserve-NoDoubleSubmission sql task db h =
    elim (Result-cases (create_task_idempotent sql task false db).0) [
      | inr (x, e) ↦ rw (reserve-unchanged sql task db (ground arith)) h
      | inl (some t, e) ↦ rw (reserve-unchanged sql task db (ground arith)) h
      | inl (none, e) ↦
          let whole : create_task_idempotent sql task false db
              ≡ (ok none, (create_task_idempotent sql task false db).1) =
            λ i. (e i, (create_task_idempotent sql task false db).1) in
          let (free, named, rows) = reserve-inv sql task db whole in
          let t = encode_task (first_revision task) in
          rw rows (
            Unique-append same_submission db.tasks t
              (none_same t db.tasks (meets_encoded task db.tasks ∙ free)) h)
    ]

reserved_key : (key : String) (t : Task) → reserves key t ≡ true → submission_key t ≡ key
unfolding reserves
reserved_key key t h = ground (arith, eq_iff (submission_key t) key)

find_reserved-key :
    (project source key : String) (db : Database) {t : Task}
    → find_reserved project source key db ≡ some t
    → submission_key t ≡ key
unfolding find_reserved
find_reserved-key project source key db {t} h = reserved_key key t (
    find_where-holds (reserves key)
      (newest_first (select_where (of_source project source) db.tasks)) {a = t} h)

encoded_meets :
    (a : Task)
    → is_submission_failed a.compute_state ≡ false
    → meets a.project_id a.source_path (submission_key a) (encode_task (first_revision a)) ≡ true
unfolding reserves
encoded_meets a active =
    rw
      (
        (encode_task_fields (first_revision a)).0,
        (encode_task_fields (first_revision a)).1,
        (encode_task_fields (first_revision a)).2,
        submission_key-encode_task (first_revision a),
      )
      (ground (arith, eq_refl a.project_id, eq_refl a.source_path, eq_refl (submission_key a)))

-- Once a task that is not marked as rejected has reserved its submission, a second reservation with
-- the same source and key, on a database that works, makes no task: it is answered with a task that
-- holds the key, and changes nothing.
pub reserve_twice :
    (sql sql' : Sql) (a b : Task) (db : Database) {db' : Database}
    → create_task_idempotent sql a false db ≡ (ok none, db')
    → ((n : ℕ) → sql' n ≡ true)
    → is_submission_failed a.compute_state ≡ false
    → b.project_id ≡ a.project_id
    → b.source_path ≡ a.source_path
    → submission_key b ≡ submission_key a
    → (held : Task) × (create_task_idempotent sql' b false db' ≡ (ok (some (scan_task held)), db'))
      × (submission_key held ≡ submission_key a)
unfolding create_task_idempotent
reserve_twice sql sql' a b db {db'} h up active same_project same_source same_key =
    let (free, named, rows) = reserve-inv sql a db h in
    let e = encode_task (first_revision a) in
    let met : any (meets b.project_id b.source_path (submission_key b)) db'.tasks ≡ true =
      rw (rows, same_project, same_source, same_key)
        (any-append (meets a.project_id a.source_path (submission_key a)) db.tasks (e ∷ [])
          ∙ ground (arith, encoded_meets a active)) in
    let (t, found) = find_reserved-some b.project_id b.source_path (submission_key b) db' met in
    (
      t,
      ground (arith, up 0, up 2, up 3, named),
      find_reserved-key b.project_id b.source_path (submission_key b) db' found ∙ same_key,
    )
