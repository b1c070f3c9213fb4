-- ===== src/Store/Leases/Stale.antt =====
-- internal/store/operations.go: a worker whose operation was taken over, or ended by the user, cannot
-- write it any more.
use joyrun.Base.{
  ℕ, zero, suc, String, ◌≡◌, refl, ap, sym, ◌∙◌, inl, inr, true, false, ◌&&◌, ◌||◌, not, some, List,
  [], ◌∷◌, ◌==◌, eq_iff, arith, any, All, Unique, update_where, get_elem?, Bool-cases,
}
use joyrun.Fault.{ok, fail, operation_lease_lost}
use joyrun.Timestamp.{Timestamp}
use joyrun.Model.{is_queued, is_running, Operation}
use joyrun.Store.{Database, Sql}
use joyrun.Store.Leases.{
  claimable, claimed, write_claim, write_values, touch, reclaimed, owned_by,
  claim_next_operation_except, update_operation, update_operation_owned, renew_operation_lease,
  requeue_owned_operation,
}
use joyrun.Store.Leases.Fencing.{any-get_elem?}
use joyrun.Store.Leases.Claim.{claim-inv, row_of}
use joyrun.Store.Leases.Invariant.{IsConsistent, same_id, reclaimed-IsConsistent}

-- How a worker loses the operation: another worker claims it, once its lease is over, or the row is
-- written by its id alone with a state in which it does not run, as the user's commands do.
pub data Lost (id owner : String) (now : Timestamp) (db : Database) : Database → Type 0 where
  taken :
      (sql : Sql) (other : String) (expires : Timestamp) (blocked : List String) (op : Operation)
      (db' : Database)
      → (other == owner) ≡ false
      → op.id ≡ id
      → claim_next_operation_except sql other now expires blocked db ≡ (ok (some op), db')
      → Lost id owner now db db'
  ended :
      (sql : Sql) (op : Operation) (db' : Database)
      → is_running op.state ≡ false
      → op.id ≡ id
      → update_operation sql now op db ≡ (ok tt, db')
      → Lost id owner now db db'

strangers :
    (id : String) (ops : List Operation)
    → any (λ (o : Operation). id == o.id) ops ≡ false
    → All (λ (o : Operation). (not (o.id == id) || is_queued o.state) ≡ true) ops
strangers id [] h = tt
strangers id (o ∷ ops) h =
    (ground (arith, eq_iff id o.id, eq_iff o.id id), strangers id ops (ground arith))

-- If one row with the id is queued, every row with it is: there is only the one.
only_queued :
    (ops : List Operation) (i : ℕ) {x : Operation}
    → Unique same_id ops
    → get_elem? ops i ≡ some x
    → is_queued x.state ≡ true
    → All (λ (o : Operation). (not (o.id == x.id) || is_queued o.state) ≡ true) ops
only_queued [] i u at_i q = tt
only_queued (o ∷ ops) zero {x} u at_i q =
    let same : o ≡ x = ground arith in
    (
      ground (arith, ap (λ (y : Operation). is_queued y.state) same ∙ q),
      strangers x.id ops (ap (λ (y : Operation). any (same_id y) ops) (sym same) ∙ u.0),
    )
only_queued (o ∷ ops) (suc i) {x} u at_i q = (
  elim (Bool-cases (o.id == x.id)) [
    | inr apart ↦ rw apart refl
    | inl twice ↦ absurd (ground (arith, u.0, any-get_elem? (same_id o) ops i at_i twice))
  ],
  only_queued ops i u.1 at_i q,
)

written_over :
    (sql : Sql) (now : Timestamp) (op : Operation) (db : Database) {db' : Database}
    → update_operation sql now op db ≡ (ok tt, db')
    → db'.operations ≡ update_where (λ o. o.id == op.id) (write_values (touch now op)) db.operations
unfolding update_operation
written_over sql now op db h = ground arith

none_owned-ended :
    (now : Timestamp) (op : Operation) (owner : String) (ops : List Operation)
    → is_running op.state ≡ false
    → any
        (owned_by op.id owner)
        (update_where (λ o. o.id == op.id) (write_values (touch now op)) ops)
      ≡ false
unfolding update_where owned_by write_values
none_owned-ended now op owner [] h = refl
none_owned-ended now op owner (o ∷ ops) h = elim (Bool-cases (o.id == op.id)) [
  | inl e ↦ rw e (ground (arith, h, none_owned-ended now op owner ops h))
  | inr e ↦ ground (arith, e, none_owned-ended now op owner ops h)
]

none_owned-taken :
    (c : Operation) (owner : String) (ops : List Operation)
    → (c.lease_owner == owner) ≡ false
    → All (λ (o : Operation). (not (o.id == c.id) || is_queued o.state) ≡ true) ops
    → any
        (owned_by c.id owner)
        (update_where (λ o. o.id == c.id && is_queued o.state) (write_claim c) ops)
      ≡ false
unfolding update_where owned_by
none_owned-taken c owner [] h k = refl
none_owned-taken c owner (o ∷ ops) h k = elim (Bool-cases (o.id == c.id)) [
  | inl e ↦ ground (arith, e, k.0, none_owned-taken c owner ops h k.1)
  | inr e ↦ ground (arith, e, none_owned-taken c owner ops h k.1)
]

not_owned :
    {id owner : String} {now : Timestamp} {db db' : Database}
    → Lost id owner now db db'
    → IsConsistent db.operations
    → any (owned_by id owner) db'.operations ≡ false
unfolding claimed claimable
not_owned {id} {owner} {now} {db} (ended sql op db' rests same e) c =
    rw (written_over sql now op db e, ← same) (none_owned-ended now op owner db.operations rests)
not_owned {id} {owner} {now} {db} (taken sql other expires blocked op db' foreign same e) c =
    let (x, chosen, is, rows) = claim-inv sql other now expires blocked db e in
    let (i, row, _, at_i, _, fits, _) = row_of now blocked db chosen in
    let queued : is_queued x.state ≡ true = ground arith in
    let own : x.id ≡ id = sym (ap (λ (o : Operation). o.id) is) ∙ same in
    let others =
      only_queued (reclaimed now db) i (reclaimed-IsConsistent now db c).ids at_i queued in
    rw (rows, ← own)
      (none_owned-taken (claimed other now expires x) owner (reclaimed now db) foreign others)

-- Over consistent operations and a database that works, a worker whose operation another worker has
-- claimed since, or that was written since as no longer running, whichever owner that row still
-- names, cannot write it: to renew, to requeue and to save it is refused as OPERATION_LEASE_LOST and
-- changes nothing.
pub stale_worker :
    (sql : Sql) (later : Timestamp) (id owner : String) (expires : Timestamp) (op : Operation)
    {now : Timestamp} {db db' : Database}
    → Lost id owner now db db'
    → IsConsistent db.operations
    → sql 0 ≡ true
    → (id == "") ≡ false
    → (owner == "") ≡ false
    → op.id ≡ id
    → (renew_operation_lease sql later id owner expires db' ≡ (fail operation_lease_lost true, db'))
      × (requeue_owned_operation sql later id owner db' ≡ (fail operation_lease_lost true, db'))
      × (update_operation_owned sql later op owner db' ≡ (fail operation_lease_lost true, db'))
unfolding renew_operation_lease requeue_owned_operation update_operation_owned
stale_worker sql later id owner expires op lost c up named held same =
    let gone = not_owned lost c in
    (ground (arith, gone), ground (arith, gone), rw same (ground (arith, gone)))
