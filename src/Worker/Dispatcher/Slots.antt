-- ===== src/Worker/Dispatcher/Slots.antt =====
-- internal/cli/operations.go: what the dispatcher of the worker never runs side by side.
use joyrun.Base.{
  ℕ, zero, suc, ◌≤◌, String, ◌≡◌, refl, Bool, true, false, ◌||◌, not, Option, none, some, List, [],
  ◌∷◌, ◌==◌, any, All, Unique, leb, length, arith, Bool-cases, inl, inr,
}
use joyrun.Fault.{Result, ok, err}
use joyrun.Timestamp.{Timestamp}
use joyrun.Model.{Operation}
use joyrun.Store.{Database, Sql}
use joyrun.Worker.Dispatcher.{
  Dispatcher, local_key, mixed_key, max_concurrent, key_of, is_active, cluster_busy, after_claim,
  dispatch,
}

abbrev pub remove_at {ℓ} : {A : Type ℓ} → ℕ → List A → List A
remove_at i [] = []
remove_at zero (x ∷ xs) = xs
remove_at (suc i) (x ∷ xs) = x ∷ remove_at i xs

-- A round of the loop, the end of a running operation, or any change of the store by others.
pub data Turn (d : Dispatcher) : Dispatcher → Type 0 where
  round :
      (claim requeue : Sql) (owner : String) (now expires : Timestamp)
      → Turn d (dispatch claim requeue owner now expires d)
  finish : (i : ℕ) → Turn d (record d { active = remove_at i d.active })
  others : (db : Database) → Turn d (record d { db = db })

pub data Turns (d : Dispatcher) : Dispatcher → Type 0 where
  start : Turns d d
  later : {e f : Dispatcher} → Turns d e → Turn e f → Turns d f

abbrev pub same_key : Operation → Operation → Bool
same_key a b = key_of b == key_of a

abbrev pub is_local : Operation → Bool
is_local op = key_of op == local_key

abbrev pub is_mixed : Operation → Bool
is_mixed op = key_of op == mixed_key

-- At most eight operations run, no two for one cluster (nor two without one), and beside one that
-- spans clusters only one without a cluster.
pub record IsSlotted (active : List Operation) : Type 0 where
  pub few : length active ≤ 8
  pub apart : Unique same_key active
  pub alone : any is_mixed active ≡ true → All (λ op. (is_mixed op || is_local op) ≡ true) active

all_local :
    (ops : List Operation)
    → any (λ op. not (is_local op)) ops ≡ false
    → All (λ op. (is_mixed op || is_local op) ≡ true) ops
all_local [] h = tt
all_local (op ∷ ops) h = (ground arith, all_local ops (ground arith))

start-IsSlotted :
    (op : Operation) (active : List Operation)
    → leb max_concurrent (length active) ≡ false
    → is_active mixed_key active ≡ false
    → cluster_busy (key_of op) active ≡ false
    → IsSlotted active
    → IsSlotted (op ∷ active)
unfolding cluster_busy
start-IsSlotted op active room unmixed free s = record {
  few = ground (arith, s.few);
  apart = (ground arith, s.apart);
  alone = λ h. elim (Bool-cases (is_mixed op)) [
    | inl e ↦ (rw e refl, all_local active (ground arith))
    | inr e ↦ ground arith
  ];
}

any-remove_at :
    (p : Operation → Bool) (i : ℕ) (ops : List Operation)
    → any p ops ≡ false
    → any p (remove_at i ops) ≡ false
any-remove_at p i [] h = refl
any-remove_at p zero (op ∷ ops) h = ground arith
any-remove_at p (suc i) (op ∷ ops) h = ground (arith, any-remove_at p i ops)

All-remove_at {κ} :
    (P : Operation → Type κ) (i : ℕ) (ops : List Operation) → All P ops → All P (remove_at i ops)
All-remove_at P i [] h = h
All-remove_at P zero (op ∷ ops) h = h.1
All-remove_at P (suc i) (op ∷ ops) h = (h.0, All-remove_at P i ops h.1)

Unique-remove_at :
    (i : ℕ) (ops : List Operation) → Unique same_key ops → Unique same_key (remove_at i ops)
Unique-remove_at i [] h = h
Unique-remove_at zero (op ∷ ops) h = h.1
Unique-remove_at (suc i) (op ∷ ops) h =
    (any-remove_at (same_key op) i ops h.0, Unique-remove_at i ops h.1)

length-remove_at : (i : ℕ) (ops : List Operation) → length (remove_at i ops) ≤ length ops
length-remove_at i [] = omega arith
length-remove_at zero (op ∷ ops) = omega arith
length-remove_at (suc i) (op ∷ ops) = omega (arith, length-remove_at i ops)

finish-IsSlotted : (i : ℕ) (ops : List Operation) → IsSlotted ops → IsSlotted (remove_at i ops)
finish-IsSlotted i ops s = record {
  few = omega (arith, s.few, length-remove_at i ops);
  apart = Unique-remove_at i ops s.apart;
  alone = λ h. elim (Bool-cases (any is_mixed ops)) [
    | inl e ↦ All-remove_at _ i ops (s.alone e)
    | inr e ↦ ground (arith, any-remove_at is_mixed i ops)
  ];
}

after_claim-IsSlotted :
    (sql : Sql) (now : Timestamp) (active : List Operation)
    (r : Result (Option Operation) × Database)
    → leb max_concurrent (length active) ≡ false
    → is_active mixed_key active ≡ false
    → IsSlotted active
    → IsSlotted (after_claim sql now active r).active
after_claim-IsSlotted sql now active (err e, db) room unmixed s = s
after_claim-IsSlotted sql now active (ok none, db) room unmixed s = s
after_claim-IsSlotted sql now active (ok (some op), db) room unmixed s =
    elim (Bool-cases (cluster_busy (key_of op) active)) [
      | inl e ↦ rw e s
      | inr e ↦ rw e (start-IsSlotted op active room unmixed e s)
    ]

dispatch-IsSlotted :
    (claim requeue : Sql) (owner : String) (now expires : Timestamp) (d : Dispatcher)
    → IsSlotted d.active
    → IsSlotted (dispatch claim requeue owner now expires d).active
unfolding dispatch
dispatch-IsSlotted claim requeue owner now expires d s =
    elim (Bool-cases (leb max_concurrent (length d.active))) [
      | inl full ↦ rw full s
      | inr room ↦ elim (Bool-cases (is_active mixed_key d.active)) [
        | inl mixed ↦ rw (room, mixed) s
        | inr unmixed ↦
            rw (room, unmixed) (after_claim-IsSlotted requeue now d.active _ room unmixed s)
      ]
    ]

-- However the worker's loop, the ends of its operations and the changes of the store by others follow
-- each other: at most eight operations run at once, no two for one cluster, and an operation that
-- spans clusters runs beside none but a local one.
pub Turns-IsSlotted : {d e : Dispatcher} → Turns d e → IsSlotted d.active → IsSlotted e.active
Turns-IsSlotted start s = s
Turns-IsSlotted (later t (round claim requeue owner now expires)) s =
    dispatch-IsSlotted claim requeue owner now expires _ (Turns-IsSlotted t s)
Turns-IsSlotted (later t (finish i)) s = finish-IsSlotted i _ (Turns-IsSlotted t s)
Turns-IsSlotted (later t (others db)) s = Turns-IsSlotted t s
