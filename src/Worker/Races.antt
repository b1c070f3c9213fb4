-- ===== src/Worker/Races.antt =====
-- What the worker's and the user's changes do to rows that changed since they were read.
use joyrun.Base.{
  ℕ, String, ◌≡◌, refl, Bool, true, false, none, some, ◌==◌, arith, any, get_elem?,
  get_elem?-update_where_hit,
}
use joyrun.Timestamp.{Timestamp}
use joyrun.Model.{OperationState, is_running, Operation}
use joyrun.Store.{Database, Sql}
use joyrun.Store.Operations.{append_operation_event}
use joyrun.Store.Leases.{owned_by, update_operation, update_operation_owned, write_values, touch}
use joyrun.Store.Leases.Fencing.{any-get_elem?, operation_terminal}
use joyrun.Worker.{cancel_change, write_change, finish_operation}

-- A worker that finishes an operation whose lease it lost changes nothing: neither rows nor events,
-- whatever outcome it reports and whichever database calls fail.
pub finish-fenced :
    (read put note : Sql) (now : Timestamp) (state : OperationState) (stage message code : String)
    (retryable : Bool) (op : Operation) (db : Database)
    → (op.lease_owner == "") ≡ false
    → any (owned_by op.id op.lease_owner) db.operations ≡ false
    → finish_operation read put note now state stage message code retryable op db ≡ db
unfolding finish_operation update_operation_owned
finish-fenced read put note now state stage message code retryable op db named lost = ground arith

-- The user's cancel does not test the state that the row has by then: on a database that works, an
-- operation of another kind than submit that was read as running, and that its worker has brought to a terminal state in
-- between, ends as cancelled, with the result, the payload and the attempt that the user had read in
-- place of those that the worker wrote.
pub stale-cancel :
    (put note : Sql) (now : Timestamp) (op : Operation) (db : Database) (i : ℕ) {row : Operation}
    → put 0 ≡ true
    → (op.id == "") ≡ false
    → is_running op.state ≡ true
    → (op.kind == "submit") ≡ false
    → get_elem? db.operations i ≡ some row
    → (row.id == op.id) ≡ true
    → operation_terminal row.state ≡ true
    → (after : Operation) × (get_elem?
          (write_change put note now (cancel_change now op) db).1.operations
          i
        ≡ some after)
      × (after.state ≡ OperationState.cancelled)
      × (after.result ≡ op.result)
      × (after.payload ≡ op.payload)
      × (after.attempt ≡ op.attempt)
unfolding write_change cancel_change update_operation append_operation_event
stale-cancel put note now op db i {row} up named run kind at_i same done =
    let w : Operation = record op {
      state = OperationState.cancelled;
      stage = "cancelled";
      error_code = "OPERATION_CANCELLED";
      error_message = "cancelled by user";
      retryable = false;
      lease_owner = "";
      lease_expires_at = none;
      updated_at = now;
    } in
    (
      write_values (touch now w) row,
      ground (
        arith,
        any-get_elem? (λ (o : Operation). o.id == op.id) db.operations i at_i same,
        get_elem?-update_where_hit (λ (o : Operation). o.id == op.id) (write_values (touch now w))
            db.operations i at_i same,
      ),
      unfold write_values in refl,
      unfold write_values in refl,
      unfold write_values in refl,
      unfold write_values in refl,
    )
