-- ===== src/Tests/Leases.antt =====
-- The theorems on operations and leases at the small database.
use joyrun.Base.{
  ◌≡◌, refl, true, false, none, some, [], ◌⊎◌, any, get_elem?, update_where, select_where, arith,
}
use joyrun.Fault.{ok, fail, operation_lease_lost, operation_duplicate}
use joyrun.Timestamp.{text_lt, before}
use joyrun.Timestamp.Order.{fraction-before-whole}
use joyrun.Model.{OperationState, Operation}
use joyrun.Store.{Database}
use joyrun.Store.Operations.{create_operation, with_defaults, insert_error, append_operation_event}
use joyrun.Store.Operations.Dedup.{create_twice, create-unknown_project}
use joyrun.Store.Leases.{
  claim_next_operation_except, candidate, claimed, claimable, reclaimed, lease_expired, owned_by,
  renew_operation_lease, requeue_owned_operation, update_operation_owned,
}
use joyrun.Store.Leases.Claim.{ClaimedFrom, claim-ClaimedFrom, claim-total}
use joyrun.Store.Leases.Stale.{Lost, stale_worker}
use joyrun.Store.Leases.Fencing.{
  WorkerStep, WorkerRun, lease-exclusive, terminal_absorbs, operation_terminal,
}
use joyrun.Store.Leases.Invariant.{IsConsistent, SystemStep, step-IsConsistent}
use joyrun.Worker.{write_change, cancel_change, finish_operation}
use joyrun.Worker.Races.{finish-fenced, stale-cancel}
use joyrun.Tests.Data.{at_second, working, held, waiting, done, store, operation_named}

abbrev after_claim : Database
after_claim = (claim_next_operation_except working "dw_b" (at_second 20) (at_second 50) [] store).1

-- The queued operation is claimed by the second worker.
claim_run :
    claim_next_operation_except working "dw_b" (at_second 20) (at_second 50) [] store
    ≡ (ok (some (claimed "dw_b" (at_second 20) (at_second 50) waiting)), after_claim)
unfolding claim_next_operation_except candidate text_lt select_where update_where
claim_run = refl

claim-ClaimedFrom_example :
    ClaimedFrom "dw_b"
      (at_second 20)
      (at_second 50)
      []
      store
      after_claim
      (claimed "dw_b" (at_second 20) (at_second 50) waiting)
claim-ClaimedFrom_example =
    claim-ClaimedFrom working "dw_b" (at_second 20) (at_second 50) [] store claim_run

claim-total_example :
    ((any (claimable (at_second 20) []) (reclaimed (at_second 20) store) ≡ true)
      × ((op : Operation) × (db' : Database) × (claim_next_operation_except working "dw_b"
              (at_second 20)
              (at_second 50)
              []
              store
            ≡ (ok (some op), db'))))
    ⊎ ((any (claimable (at_second 20) []) (reclaimed (at_second 20) store) ≡ false)
        × (claim_next_operation_except working "dw_b" (at_second 20) (at_second 50) [] store
            ≡ (ok none, store)))
claim-total_example =
    claim-total working "dw_b" (at_second 20) (at_second 50) [] store (λ n. refl) refl

claim_step : WorkerStep "dw_b" (at_second 20) store after_claim
claim_step = WorkerStep.claim working (at_second 50) [] refl

lease-exclusive_example : get_elem? after_claim.operations 0 ≡ some held
unfolding lease_expired text_lt
lease-exclusive_example = lease-exclusive 0 claim_step refl refl refl refl

terminal_absorbs_example : get_elem? after_claim.operations 2 ≡ some done
unfolding operation_terminal
terminal_absorbs_example =
    terminal_absorbs 2 (WorkerRun.next "dw_b" (at_second 20) WorkerRun.here claim_step) refl refl

store-IsConsistent : IsConsistent store.operations
store-IsConsistent = record {
  ids = (refl, (refl, (refl, tt)));
  dedup = (refl, (refl, (refl, tt)));
  leases = ((refl, refl), ((refl, refl), ((refl, refl), tt)));
}

-- The first worker's lease ends at 50; at 60 the second worker takes its operation over.
abbrev taken_over : Database
taken_over = (claim_next_operation_except working "dw_b" (at_second 60) (at_second 90) [] store).1

abbrev first_again : Operation
first_again = claimed "dw_b" (at_second 60) (at_second 90) held

taken_run :
    claim_next_operation_except working "dw_b" (at_second 60) (at_second 90) [] store
    ≡ (ok (some first_again), taken_over)
unfolding claim_next_operation_except candidate text_lt select_where update_where claimed
taken_run = refl

stale_worker_example :
    (renew_operation_lease working (at_second 61) "jo_1" "dw_a" (at_second 99) taken_over
      ≡ (fail operation_lease_lost true, taken_over))
    × (requeue_owned_operation working (at_second 61) "jo_1" "dw_a" taken_over
        ≡ (fail operation_lease_lost true, taken_over))
    × (update_operation_owned working (at_second 61) held "dw_a" taken_over
        ≡ (fail operation_lease_lost true, taken_over))
unfolding claimed
stale_worker_example =
    stale_worker working (at_second 61) "jo_1" "dw_a" (at_second 99) held
      (Lost.taken working "dw_b" (at_second 90) [] first_again taken_over refl refl taken_run)
      store-IsConsistent refl refl refl refl

step-IsConsistent_example : IsConsistent after_claim.operations
step-IsConsistent_example =
    step-IsConsistent (SystemStep.claim working "dw_b" (at_second 20) (at_second 50) [] refl)
      store-IsConsistent

finish-fenced_example :
    finish_operation working working working
      (at_second 20)
      OperationState.succeeded
      "succeeded"
      "operation completed"
      ""
      false
      (record held { lease_owner = "dw_b" })
      store
    ≡ store
unfolding owned_by
finish-fenced_example =
    finish-fenced working working working (at_second 20) OperationState.succeeded "succeeded"
      "operation completed" "" false (record held { lease_owner = "dw_b" }) store refl refl

-- The operation finished between the read and the write of the user's cancel.
stale-cancel_example :
    (after : Operation) × (get_elem?
        (write_change working working
          (at_second 60)
          (cancel_change (at_second 60) (record done { state = OperationState.running }))
          store).1.operations
        2
      ≡ some after)
    × (after.state ≡ OperationState.cancelled)
    × (after.result ≡ "{}")
    × (after.payload ≡ "{}")
    × (after.attempt ≡ 0)
unfolding operation_terminal
stale-cancel_example =
    stale-cancel working working (at_second 60) (record done { state = OperationState.running })
      store 2 refl refl refl refl refl refl refl

abbrev fresh : Operation
fresh = operation_named "jo_4" "k4" OperationState.unset "" none

abbrev after_create : Database
after_create = (create_operation working (at_second 60) fresh store).1

create_run :
    create_operation working (at_second 60) fresh store
    ≡ (ok (with_defaults (at_second 60) fresh), after_create)
unfolding create_operation with_defaults insert_error append_operation_event
create_run = refl

create_twice_example :
    create_operation working (at_second 61) (record fresh { id = "jo_5" }) after_create
    ≡ (fail operation_duplicate false, after_create)
create_twice_example =
    create_twice working working (at_second 60) (at_second 61) fresh (record fresh { id = "jo_5" })
      store create_run refl refl refl refl refl

create-unknown_project_example :
    create_operation working (at_second 60) (record fresh { project_id = "pj_9" }) store
    ≡ (fail operation_duplicate false, store)
create-unknown_project_example =
    create-unknown_project working (at_second 60) (record fresh { project_id = "pj_9" }) store refl
      refl refl

fraction-before-whole_example :
    (text_lt (record { sec = 50; nano = 7 }) (at_second 50) ≡ true)
    × (before (at_second 50) (record { sec = 50; nano = 7 }) ≡ true)
fraction-before-whole_example = fraction-before-whole 50 7 (omega arith)
