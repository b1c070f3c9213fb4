-- ===== src/Fault.antt =====
-- internal/fault/fault.go. An error keeps its code and whether it may be retried; the texts of
-- messages, suggested actions and wrapped causes are left out, since no decision reads them.
use joyrun.Base.{Bool, true, false, ◌≡◌, refl, ◌⊎◌, inl, inr}

-- The codes that the modelled code returns.
pub data Code : Type 0 where
  operation_invalid operation_duplicate operation_not_found operation_lease_lost : Code
  operation_terminal operation_cancel_unsafe operation_not_retryable : Code
  database_failed database_busy database_conflict : Code
  task_not_found task_already_exists : Code
  submit_failed submit_rejected submit_ambiguous status_failed cancel_failed : Code
  nodes_query_failed target_status_invalid : Code
  local_path_unsupported local_path_collision unsafe_template_value : Code
  target_invalid config_invalid invalid_partition : Code
  invalid_parameter unknown_parameter missing_parameter : Code
  upload_policy_exceeded source_entry_required source_entry_excluded : Code
  transfer_unavailable ipc_invalid_frame internal_error : Code
  remote_metadata_failed ssh_timeout submission_cancelled snapshot_prepare_failed : Code
  upload_timeout upload_failed submission_uncertain cluster_not_found : Code
  remote_list_failed no_files_matched submission_safety_unconfirmed : Code

pub record Error : Type 0 where
  pub code : Code
  pub retryable : Bool

pub data Result {ℓ} (A : Type ℓ) : Type ℓ where
  ok : A → Result A
  err : Error → Result A

-- `New` and `Wrap`, with the code and the flag that a call passes.
abbrev pub fail {ℓ} : {A : Type ℓ} → Code → Bool → Result A
fail c r = err (record { code = c; retryable = r })

pub Result-cases {ℓ} :
    {A : Type ℓ} (r : Result A) → ((a : A) × (r ≡ ok a)) ⊎ ((e : Error) × (r ≡ err e))
Result-cases (ok a) = inl (a, refl)
Result-cases (err e) = inr (e, refl)

abbrev pub is_ok {ℓ} : {A : Type ℓ} → Result A → Bool
is_ok (ok a) = true
is_ok (err e) = false

infixl 5 ◌>>=◌
abbrev pub ◌>>=◌ {ℓ κ} : {A : Type ℓ} {B : Type κ} → Result A → (A → Result B) → Result B
ok a >>= f = f a
err e >>= f = err e

-- A chain succeeds only after its first step did, and then with what the rest makes of it.
pub first_step :
    {A B : Type 0} {rest : A → Result B} {b : B} (first : Result A)
    → (first >>= rest) ≡ ok b
    → (x : A) × (rest x ≡ ok b) × (first ≡ ok x)
first_step (ok x) reached = (x, reached, refl)
first_step (err e) reached = cc
