-- ===== src/Store/Leases/Invariant.antt =====
-- What holds of the operations table between any two calls of the daemon, its workers and the user.
use joyrun.Base.{
  ℕ, String, ◌≡◌, refl, sym, ◌∙◌, inl, inr, Bool, true, false, ◌&&◌, ◌||◌, not, none, List, [], ◌∷◌,
  ◌++◌, ◌==◌, eq_iff, arith, any, All, Unique, update_where, Bool-cases, Option-cases, is_some,
  All-update_where, All-append, Unique-update_where, Unique-append,
}
use joyrun.Timestamp.{Timestamp}
use joyrun.Model.{OperationState, is_queued, is_running, Operation}
use joyrun.Store.{Database, Sql}
use joyrun.Store.Operations.{
  same_dedup, create_operation, with_defaults, insert_error, append_operation_event,
}
use joyrun.Store.Leases.{
  lease_expired, reclaim, claimed, write_claim, write_values, touch, renewed, requeued, reclaimed,
  candidate, owned_by, claim_next_operation_except, update_operation, update_operation_owned,
  renew_operation_lease, requeue_owned_operation,
}

-- A running operation names its worker and when the lease ends; any other names no worker.
abbrev pub HoldsLease : Operation → Type 0
HoldsLease o =
    ((is_running o.state && (o.lease_owner == "" || not (is_some o.lease_expires_at))) ≡ false)
    × ((not (is_running o.state) && not (o.lease_owner == "")) ≡ false)

abbrev pub same_id : Operation → Operation → Bool
same_id a b = a.id == b.id

-- No two rows share an id, or a kind and a deduplication key, and every row holds its lease.
pub record IsConsistent (ops : List Operation) : Type 0 where
  pub ids : Unique same_id ops
  pub dedup : Unique same_dedup ops
  pub leases : All HoldsLease ops

-- A change of a row that keeps its identity.
record KeepsKeys (f : Operation → Operation) : Type 0 where
  id : (o : Operation) → (f o).id ≡ o.id
  kind : (o : Operation) → (f o).kind ≡ o.kind
  dedup_key : (o : Operation) → (f o).dedup_key ≡ o.dedup_key

update-IsConsistent :
    (p : Operation → Bool) (f : Operation → Operation) (ops : List Operation)
    → KeepsKeys f
    → ((o : Operation) → p o ≡ true → HoldsLease o → HoldsLease (f o))
    → IsConsistent ops
    → IsConsistent (update_where p f ops)
update-IsConsistent p f ops k holds c = record {
  ids = Unique-update_where same_id p f ops (λ x y. rw (k.id x)) (λ x y. rw (k.id y)) c.ids;
  dedup =
      Unique-update_where same_dedup p f ops (λ x y. rw (k.kind x, k.dedup_key x))
        (λ x y. rw (k.kind y, k.dedup_key y)) c.dedup;
  leases = All-update_where HoldsLease p f ops holds c.leases;
}

pub reclaimed-IsConsistent :
    (now : Timestamp) (db : Database) → IsConsistent db.operations → IsConsistent (reclaimed now db)
unfolding reclaimed
reclaimed-IsConsistent now db c =
    update-IsConsistent (lease_expired now) (reclaim now) db.operations
      (record {
        id = λ o. unfold reclaim in refl;
        kind = λ o. unfold reclaim in refl;
        dedup_key = λ o. unfold reclaim in refl;
      })
      (λ o e h. (unfold reclaim in refl, unfold reclaim in refl)) c

claim-IsConsistent :
    (sql : Sql) (owner : String) (now expires : Timestamp) (blocked : List String) (db : Database)
    → IsConsistent db.operations
    → IsConsistent (claim_next_operation_except sql owner now expires blocked db).1.operations
unfolding claim_next_operation_except claimed
claim-IsConsistent sql owner now expires blocked db c = elim (Bool-cases (owner == "")) [
  | inl none_named ↦ rw none_named c
  | inr named ↦ elim (Option-cases (candidate now blocked db)) [
    | inl e ↦ ground (arith, c)
    | inr (x, e) ↦
        let op = claimed owner now expires x in
        ground (
          arith,
          c,
          update-IsConsistent (λ (o : Operation). o.id == op.id && is_queued o.state)
              (write_claim op) (reclaimed now db)
              (record { id = λ o. refl; kind = λ o. refl; dedup_key = λ o. refl })
              (λ o e h. (ground (arith, named), refl)) (reclaimed-IsConsistent now db c),
        )
  ]
]

written : (op : Operation) → KeepsKeys (write_values op)
unfolding write_values
written op = record { id = λ o. refl; kind = λ o. refl; dedup_key = λ o. refl }

written_lease : (op row : Operation) → HoldsLease op → HoldsLease (write_values op row)
unfolding write_values
written_lease op row h = h

same_dedup-sym : (a b : Operation) → same_dedup a b ≡ same_dedup b a
same_dedup-sym a b = ground (
  arith,
  eq_iff a.kind b.kind,
  eq_iff b.kind a.kind,
  eq_iff a.dedup_key b.dedup_key,
  eq_iff b.dedup_key a.dedup_key,
  eq_iff a.dedup_key "",
  eq_iff b.dedup_key "",
)

any-sym :
    (r : Operation → Operation → Bool)
    → ((a b : Operation) → r a b ≡ r b a)
    → (op : Operation) (ops : List Operation) → any (r op) ops ≡ any (λ o. r o op) ops
any-sym r s op [] = refl
any-sym r s op (o ∷ ops) = rw (s op o, any-sym r s op ops)

-- What an INSERT that breaks no constraint has checked.
pub insert_error-none :
    (db : Database) (op : Operation)
    → insert_error db op ≡ none
    → (any (λ o. o.id == op.id) db.operations ≡ false) × (any (same_dedup op) db.operations ≡ false)
unfolding insert_error
insert_error-none db op h = ground arith

inserted-IsConsistent :
    (db : Database) (op : Operation)
    → insert_error db op ≡ none
    → HoldsLease op
    → IsConsistent db.operations
    → IsConsistent (db.operations ++ op ∷ [])
inserted-IsConsistent db op e h c =
    let (fresh, alone) = insert_error-none db op e in
    record {
      ids = Unique-append same_id db.operations op fresh c.ids;
      dedup =
          Unique-append same_dedup db.operations op
            (sym (any-sym same_dedup same_dedup-sym op db.operations) ∙ alone) c.dedup;
      leases = All-append HoldsLease db.operations (op ∷ []) c.leases (h, tt);
    }

operations-append_operation_event :
    (sql : Sql) (n : ℕ) (now : Timestamp) (id : String) (state : OperationState)
    (stage message : String) (db : Database)
    → (append_operation_event sql n now id state stage message db).1.operations ≡ db.operations
unfolding append_operation_event
operations-append_operation_event sql n now id state stage message db = ground arith

create-IsConsistent :
    (sql : Sql) (now : Timestamp) (op : Operation) (db : Database)
    → HoldsLease (with_defaults now op)
    → IsConsistent db.operations
    → IsConsistent (create_operation sql now op db).1.operations
unfolding create_operation
create-IsConsistent sql now given db h c =
    let op = with_defaults now given in
    elim (Option-cases (insert_error db op)) [
      | inr (x, e) ↦ ground (arith, c)
      | inl e ↦ ground (
        arith,
        c,
        inserted-IsConsistent db op e h c,
        operations-append_operation_event sql 1 now op.id op.state op.stage "operation admitted"
            (record db { operations = db.operations ++ op ∷ [] }),
      )
    ]

renewed_lease :
    (now expires : Timestamp) (o : Operation) → HoldsLease o → HoldsLease (renewed now expires o)
unfolding renewed
renewed_lease now expires o h = ground arith

-- Everything that writes the operations table: admission, the workers' calls, and the user's
-- commands (whose row may have been read at any earlier time). The rows that a worker saves are
-- its claimed operation at a later stage, or the finished one.
pub data SystemStep (db db' : Database) : Type 0 where
  admit :
      (sql : Sql) (now : Timestamp) (op : Operation)
      → HoldsLease (with_defaults now op)
      → db' ≡ (create_operation sql now op db).1
      → SystemStep db db'
  claim :
      (sql : Sql) (owner : String) (now expires : Timestamp) (blocked : List String)
      → db' ≡ (claim_next_operation_except sql owner now expires blocked db).1
      → SystemStep db db'
  renew :
      (sql : Sql) (now : Timestamp) (id owner : String) (expires : Timestamp)
      → db' ≡ (renew_operation_lease sql now id owner expires db).1
      → SystemStep db db'
  requeue :
      (sql : Sql) (now : Timestamp) (id owner : String)
      → db' ≡ (requeue_owned_operation sql now id owner db).1
      → SystemStep db db'
  save :
      (sql : Sql) (now : Timestamp) (op : Operation) (owner : String)
      → HoldsLease op
      → db' ≡ (update_operation_owned sql now op owner db).1
      → SystemStep db db'
  write :
      (sql : Sql) (now : Timestamp) (op : Operation)
      → HoldsLease op
      → db' ≡ (update_operation sql now op db).1
      → SystemStep db db'

-- Admission, claims, renewals, requeueing and saves keep the operations consistent, whichever
-- database calls fail: no two share an id or a kind and deduplication key, and each row holds its
-- lease. A row that is admitted or saved is taken to hold its own.
pub step-IsConsistent :
    {db db' : Database}
    → SystemStep db db'
    → IsConsistent db.operations
    → IsConsistent db'.operations
unfolding renew_operation_lease requeue_owned_operation update_operation_owned update_operation
step-IsConsistent {db} (admit sql now op h e) c = rw e (create-IsConsistent sql now op db h c)
step-IsConsistent {db} (claim sql owner now expires blocked e) c =
    rw e (claim-IsConsistent sql owner now expires blocked db c)
step-IsConsistent {db} (renew sql now id owner expires e) c = rw e (
    ground (
      arith,
      c,
      update-IsConsistent (owned_by id owner) (renewed now expires) db.operations
          (record {
            id = λ o. unfold renewed in refl;
            kind = λ o. unfold renewed in refl;
            dedup_key = λ o. unfold renewed in refl;
          })
          (λ o p h. renewed_lease now expires o h) c,
    ))
step-IsConsistent {db} (requeue sql now id owner e) c = rw e (
    ground (
      arith,
      c,
      update-IsConsistent (owned_by id owner) (requeued now) db.operations
          (record {
            id = λ o. unfold requeued in refl;
            kind = λ o. unfold requeued in refl;
            dedup_key = λ o. unfold requeued in refl;
          })
          (λ o p h. (unfold requeued in refl, unfold requeued in refl)) c,
    ))
step-IsConsistent {db} (save sql now op owner h e) c = rw e (
    ground (
      arith,
      c,
      update-IsConsistent (owned_by op.id owner) (write_values (touch now op)) db.operations
          (written (touch now op)) (λ o p _. written_lease (touch now op) o h) c,
    ))
step-IsConsistent {db} (write sql now op h e) c = rw e (
    ground (
      arith,
      c,
      update-IsConsistent (λ (o : Operation). o.id == op.id) (write_values (touch now op))
          db.operations (written (touch now op)) (λ o p _. written_lease (touch now op) o h) c,
    ))
