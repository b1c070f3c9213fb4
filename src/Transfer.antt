-- ===== src/Transfer.antt =====
-- internal/transfer/manager.go: which backend moves the files, and the retry with SFTP. What the
-- backends do and which programs are installed are parameters.
pub mod Fallback
use joyrun.Base.{String, Bool, true, false, ◌&&◌, ◌||◌, not, List, [], ◌∷◌, ◌==◌, if◌then◌else◌}
use joyrun.Fault.{Result, ok, err, fail, ◌>>=◌, transfer_unavailable}

-- What the local machine has; `windows` is `goos() == "windows"`.
pub record Machine : Type 0 where
  pub windows : Bool
  pub has_rsync : Bool
  pub has_ssh : Bool

pub data Backend : Type 0 where
  rsync sftp : Backend
  unsupported : String → Backend

-- autoTransfer
abbrev pub auto_transfer : String → Bool
auto_transfer transfer = transfer == "" || transfer == "auto"

abbrev pub usable : Bool → Backend → Result Backend
usable found backend = if found then ok backend else fail transfer_unavailable false

-- backend, where it has no error.
unfoldable pub backend : Machine → String → Result Backend
backend m transfer =
    if auto_transfer transfer
    then (if not m.windows && m.has_rsync then ok rsync else usable m.has_ssh sftp)
    else if transfer == "rsync"
    then usable m.has_rsync rsync
    else if transfer == "sftp"
    then usable m.has_ssh sftp
    else fail transfer_unavailable false

-- How a transfer ended, with the backends that ran; `panicked` is the panic of the switch.
pub data Outcome : Type 0 where
  ended : Result (Unit {0}) → List Backend → Outcome
  panicked : Outcome

-- What the two backends would answer, and whether the call's context is alive after rsync.
pub record Backends : Type 0 where
  pub by_rsync : Result (Unit {0})
  pub by_sftp : Result (Unit {0})
  pub live : Bool

abbrev after_rsync : String → Backends → Result (Unit {0}) → Outcome
after_rsync transfer b (ok done) = ended (ok done) (rsync ∷ [])
after_rsync transfer b (err e) =
    if not (auto_transfer transfer) || not b.live
    then ended (err e) (rsync ∷ [])
    else ended b.by_sftp (rsync ∷ sftp ∷ [])

abbrev run_backend : String → Backends → Result Backend → Outcome
run_backend transfer b (err e) = ended (err e) []
run_backend transfer b (ok rsync) = after_rsync transfer b b.by_rsync
run_backend transfer b (ok sftp) = ended b.by_sftp (sftp ∷ [])
run_backend transfer b (ok (unsupported name)) = panicked

-- Push and Pull, which differ in the backends' method.
unfoldable pub move_files : Machine → String → Backends → Outcome
unfolding backend
move_files m transfer b = run_backend transfer b (backend m transfer)

abbrev check_backend : Result (Unit {0}) → Result (Unit {0}) → Result Backend → Result Backend
check_backend on_remote by_sftp (err e) = err e
check_backend on_remote by_sftp (ok sftp) = by_sftp >>= λ _. ok sftp
check_backend on_remote by_sftp (ok other) = on_remote >>= λ _. ok other

-- Check: the answer of `command -v rsync` on the cluster, and that of the SFTP probe.
unfoldable pub check : Machine → String → Result (Unit {0}) → Result (Unit {0}) → Result Backend
unfolding backend
check m transfer on_remote by_sftp = check_backend on_remote by_sftp (backend m transfer)
