-- ===== src/Store/Leases/Fencing.antt =====
-- A lease fences its row: what the methods that a worker calls cannot do to rows that it does not
-- hold.
use joyrun.Base.{
  ℕ, String, ◌≡◌, refl, ap, zero, suc, get_elem?-update_where_hit, inl, inr, Bool, true, false,
  ◌&&◌, ◌||◌, not, some, List, [], ◌∷◌, ◌==◌, arith, any, update_where, get_elem?, Option-cases,
  get_elem?-update_where_other, select_where-update_where, select_where,
}
use joyrun.Fault.{ok}
use joyrun.Timestamp.{Timestamp}
use joyrun.Model.{
  OperationState, is_queued, is_running, is_succeeded, is_partially_succeeded, is_failed,
  is_cancelled, Operation,
}
use joyrun.Store.{Database, Sql}
use joyrun.Store.Leases.{
  lease_expired, reclaim, claimed, write_claim, write_values, touch, renewed, requeued, reclaimed,
  candidate, owned_by, claim_next_operation_except, update_operation_owned, renew_operation_lease,
  requeue_owned_operation,
}

-- The database calls of a worker with the lease name `owner`, at the clock value `now`.
pub data WorkerStep (owner : String) (now : Timestamp) (db db' : Database) : Type 0 where
  claim :
      (sql : Sql) (expires : Timestamp) (blocked : List String)
      → db' ≡ (claim_next_operation_except sql owner now expires blocked db).1
      → WorkerStep owner now db db'
  renew :
      (sql : Sql) (id : String) (expires : Timestamp)
      → db' ≡ (renew_operation_lease sql now id owner expires db).1
      → WorkerStep owner now db db'
  requeue :
      (sql : Sql) (id : String)
      → db' ≡ (requeue_owned_operation sql now id owner db).1
      → WorkerStep owner now db db'
  save :
      (sql : Sql) (op : Operation)
      → db' ≡ (update_operation_owned sql now op owner db).1
      → WorkerStep owner now db db'

-- The row is neither free at that time nor held by that worker.
pub record IsFenced (owner : String) (now : Timestamp) (o : Operation) : Type 0 where
  pub not_queued : is_queued o.state ≡ false
  pub not_expired : lease_expired now o ≡ false
  pub not_own : (is_running o.state && o.lease_owner == owner) ≡ false

module _ (owner : String) (now : Timestamp) (db : Database) (i : ℕ) {o : Operation}
    (here : get_elem? db.operations i ≡ some o) (f : IsFenced owner now o) where
  reclaimed_keeps : get_elem? (reclaimed now db) i ≡ some o
  unfolding reclaimed
  reclaimed_keeps =
      get_elem?-update_where_other (lease_expired now) (reclaim now) db.operations i here
        f.not_expired

  claim_keeps :
      (sql : Sql) (expires : Timestamp) (blocked : List String)
      → get_elem? (claim_next_operation_except sql owner now expires blocked db).1.operations i
        ≡ some o
  unfolding claim_next_operation_except
  claim_keeps sql expires blocked = elim (Option-cases (candidate now blocked db)) [
    | inl e ↦ ground (arith, here)
    | inr (x, e) ↦
        let op = claimed owner now expires x in
        ground (
          arith,
          here,
          get_elem?-update_where_other (λ (r : Operation). r.id == op.id && is_queued r.state)
              (write_claim op) (reclaimed now db) i {a = o} reclaimed_keeps
              (ground (arith, f.not_queued)),
        )
  ]

  unowned : (id : String) → owned_by id owner o ≡ false
  unfolding owned_by
  unowned id = ground (arith, f.not_own)

  owned_keeps :
      (id : String) (g : Operation → Operation)
      → get_elem? (update_where (owned_by id owner) g db.operations) i ≡ some o
  owned_keeps id g =
      get_elem?-update_where_other (owned_by id owner) g db.operations i here (unowned id)

  -- A worker's call leaves the row as it is.
  step_keeps : {db' : Database} → WorkerStep owner now db db' → get_elem? db'.operations i ≡ some o
  unfolding renew_operation_lease requeue_owned_operation update_operation_owned
  step_keeps (claim sql expires blocked e) = rw e (claim_keeps sql expires blocked)
  step_keeps (renew sql id expires e) =
      rw e (ground (arith, here, owned_keeps id (renewed now expires)))
  step_keeps (requeue sql id e) = rw e (ground (arith, here, owned_keeps id (requeued now)))
  step_keeps (save sql op e) =
      rw e (ground (arith, here, owned_keeps op.id (write_values (touch now op))))

-- While a worker's lease on a running row has not expired, as the database reads the clock, no call
-- of another worker changes the row.
pub lease-exclusive :
    {other : String} {now : Timestamp} {db db' : Database} (i : ℕ) {o : Operation}
    → WorkerStep other now db db'
    → get_elem? db.operations i ≡ some o
    → is_running o.state ≡ true
    → (o.lease_owner == other) ≡ false
    → lease_expired now o ≡ false
    → get_elem? db'.operations i ≡ some o
lease-exclusive {other} {now} {db} i {o} step here run foreign fresh =
    step_keeps other now db i here
      (record { not_queued = ground arith; not_expired = fresh; not_own = ground arith }) step

-- operationTerminal of internal/cli/operations.go
unfoldable pub operation_terminal : OperationState → Bool
operation_terminal state =
    is_succeeded state || is_partially_succeeded state || is_failed state || is_cancelled state

-- Any number of worker calls, by any workers at any times.
pub data WorkerRun (db : Database) : Database → Type 0 where
  here : WorkerRun db db
  next :
      {middle last : Database} (owner : String) (now : Timestamp)
      → WorkerRun db middle
      → WorkerStep owner now middle last
      → WorkerRun db last

-- No run of worker calls changes a row in a terminal state.
pub terminal_absorbs :
    {db db' : Database} (i : ℕ) {o : Operation}
    → WorkerRun db db'
    → operation_terminal o.state ≡ true
    → get_elem? db.operations i ≡ some o
    → get_elem? db'.operations i ≡ some o
unfolding operation_terminal lease_expired
terminal_absorbs i here t at_i = at_i
terminal_absorbs i {o} (next {middle} owner now run step) t at_i =
    step_keeps owner now middle i (terminal_absorbs i run t at_i)
      (record { not_queued = ground arith; not_expired = ground arith; not_own = ground arith })
      step

pub any-get_elem? :
    (p : Operation → Bool) (xs : List Operation) (i : ℕ) {a : Operation}
    → get_elem? xs i ≡ some a
    → p a ≡ true
    → any p xs ≡ true
any-get_elem? p [] i h t = ground arith
any-get_elem? p (x ∷ xs) zero h t = ground arith
any-get_elem? p (x ∷ xs) (suc i) h t = ground (arith, any-get_elem? p xs i h t)

id_passed_over :
    (id owner : String) (g : Operation → Operation)
    → ((o : Operation) → (g o).id ≡ o.id)
    → (x : Operation) → owned_by id owner x ≡ true
    → (not (x.id == id) ≡ false) × (not ((g x).id == id) ≡ false)
unfolding owned_by
id_passed_over id owner g same x h = ground (arith, same x, ap (λ t. t == id) (same x))

-- A worker that owns the running row writes it: the call succeeds, the row gets the worker's values,
-- and the rows of all other operations stay as they were, in their order.
pub save-effect :
    (sql : Sql) (now : Timestamp) (op : Operation) (owner : String) (db : Database) (i : ℕ)
    {row : Operation}
    → sql 0 ≡ true
    → (op.id == "") ≡ false
    → (owner == "") ≡ false
    → get_elem? db.operations i ≡ some row
    → owned_by op.id owner row ≡ true
    → let (result, db') = update_operation_owned sql now op owner db in
      (result ≡ ok tt)
      × (get_elem? db'.operations i ≡ some (write_values (touch now op) row))
      × (select_where (λ o. not (o.id == op.id)) db'.operations
          ≡ select_where (λ o. not (o.id == op.id)) db.operations)
unfolding update_operation_owned
save-effect sql now op owner db i {row} up named held at_i own =
    let found = any-get_elem? (owned_by op.id owner) db.operations i at_i own in
    let g = write_values (touch now op) in
    let hit = get_elem?-update_where_hit (owned_by op.id owner) g db.operations i at_i own in
    let others =
      select_where-update_where (λ (o : Operation). not (o.id == op.id)) (owned_by op.id owner) g
        db.operations (id_passed_over op.id owner g (λ o. unfold write_values in refl)) in
    (ground (arith, found), ground (arith, found, hit), ground (arith, found, others))
