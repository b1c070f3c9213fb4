-- ===== src/Transfer/Fallback.antt =====
-- internal/transfer/manager.go: the retry with SFTP.
use joyrun.Base.{String, false, ◌&&◌, ◌||◌, not, List, [], ◌∷◌, ◌==◌, if◌then◌else◌}
use joyrun.Fault.{Result, fail, is_ok, transfer_unavailable}
use joyrun.Transfer.{Machine, Backend, rsync, sftp, auto_transfer, Backends}

-- The backends that the policy should run.
abbrev pub expected_runs : Machine → String → Backends → List Backend
expected_runs m transfer b =
    if (auto_transfer transfer && not m.windows && m.has_rsync)
      || (not (auto_transfer transfer) && transfer == "rsync" && m.has_rsync)
    then (if auto_transfer transfer && not (is_ok b.by_rsync) && b.live
        then rsync ∷ sftp ∷ []
        else rsync ∷ [])
    else if m.has_ssh
        && (auto_transfer transfer || (not (transfer == "rsync") && transfer == "sftp"))
    then sftp ∷ []
    else []

-- The result is that of the last backend that ran.
abbrev pub last_result : Backends → List Backend → Result (Unit {0})
last_result b [] = fail transfer_unavailable false
last_result b (sftp ∷ []) = b.by_sftp
last_result b (_ ∷ []) = b.by_rsync
last_result b (_ ∷ y ∷ rest) = last_result b (y ∷ rest)
