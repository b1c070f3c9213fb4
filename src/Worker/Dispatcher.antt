-- ===== src/Worker/Dispatcher.antt =====
-- internal/cli/operations.go: operationWorker, the loop that hands claimed operations to goroutines.
pub mod Slots
use joyrun.Base.{
  ℕ, zero, suc, ◌+◌, String, Bool, true, false, ◌&&◌, ◌||◌, not, Option, none, some, List, [], ◌∷◌,
  ◌==◌, any, ltb, leb, length, if◌then◌else◌,
}
use joyrun.Fault.{Result, ok, err}
use joyrun.Timestamp.{Timestamp}
use joyrun.Model.{Operation}
use joyrun.Store.{Database, Sql}
use joyrun.Store.Leases.{claim_next_operation_except}
use joyrun.Worker.{requeue_operation}

-- The map `active`, as the keys of the operations that run; a key's count is how often it stands there.
pub record Dispatcher : Type 0 where
  pub active : List Operation
  pub db : Database

abbrev pub local_key : String
local_key = "__local__"

abbrev pub mixed_key : String
mixed_key = "__mixed__"

abbrev pub max_concurrent : ℕ
max_concurrent = 8

-- The key of an operation in `active`.
abbrev pub key_of : Operation → String
key_of op = if op.cluster_key == "" then local_key else op.cluster_key

abbrev pub is_active : String → List Operation → Bool
is_active key = any (λ op. key_of op == key)

-- The keys that the claim passes over.
abbrev pub blocked_keys : List Operation → List String
blocked_keys [] = []
blocked_keys (op ∷ ops) =
    let rest = blocked_keys ops in if key_of op == local_key then rest else key_of op ∷ rest

-- Whether a claimed operation meets one that it must not run beside.
unfoldable pub cluster_busy : String → List Operation → Bool
cluster_busy key active =
    is_active key active || (key == mixed_key && any (λ op. not (key_of op == local_key)) active)

abbrev start_or_requeue : Sql → Timestamp → Operation → Dispatcher → Dispatcher
start_or_requeue sql now op d =
    if cluster_busy (key_of op) d.active
    then record d { db = requeue_operation sql now op d.db }
    else record d { active = op ∷ d.active }

abbrev pub after_claim :
    Sql → Timestamp → List Operation → Result (Option Operation) × Database → Dispatcher
after_claim sql now active (err e, db) = record { active = active; db = db }
after_claim sql now active (ok none, db) = record { active = active; db = db }
after_claim sql now active (ok (some op), db) =
    start_or_requeue sql now op (record { active = active; db = db })

-- One round of the loop; the waits between rounds are left out.
unfoldable pub dispatch : Sql → Sql → String → Timestamp → Timestamp → Dispatcher → Dispatcher
unfolding cluster_busy
dispatch claim put owner now expires d =
    if leb max_concurrent (length d.active)
    then d
    else if is_active mixed_key d.active
    then d
    else after_claim put now d.active
        (claim_next_operation_except claim owner now expires (blocked_keys d.active) d.db)
