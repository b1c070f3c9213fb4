-- ===== src/Tests/Status.antt =====
-- The theorems on scheduler answers, transfers, manifests and pulls at concrete inputs.
use joyrun.Base.{
  ◌==◌, map, select_where, ◌≤◌, String, ◌≡◌, refl, Bool, true, false, ◌||◌, none, List, [], ◌∷◌,
  any, ◌++◌, length, arith,
}
use joyrun.Base.Text.{codes, text_eq, has_prefix}
use joyrun.Base.Strings.{split, trim_space, trim_suffix}
use joyrun.Fault.{Result, ok, fail, transfer_unavailable}
use joyrun.Timestamp.{Timestamp}
use joyrun.Model.{ComputeState, Task}
use joyrun.Slurm.{Reply}
use joyrun.App.Status.{Status, refresh_task}
use joyrun.App.Status.Terminal.{observe_all, observe_all-verdict, refresh-IsSettled, IsSettled}
use joyrun.App.StatusAll.{StatusFailure, StatusAllResult, status_all}
use joyrun.App.StatusAll.Complete.{status_all_complete}
use joyrun.App.Renewal.{Surroundings, ensure_force_new_safe}
use joyrun.Store.{Database}
use joyrun.Store.Metadata.{scan_task}
use joyrun.Manifest.{Selection, File, Forest, nil, leaf, folder, Scan, snapshot}
use joyrun.Manifest.Selected.{paths_of, uploaded_paths, flatten, snapshot-uploaded, snapshot-few}
use joyrun.Transfer.{Machine, Backends}
use joyrun.App.Pull.{Choice, RemoteFile}
use joyrun.Tests.Data.{at_second, working, store, task_named}

abbrev recent : String → Bool
recent s = false

abbrev stamp : Timestamp → String
stamp t = "2026-01-01T00:00:00Z"

abbrev status_in : ComputeState → Status
status_in state = record {
  state = state;
  raw_state = "";
  reason = "";
  elapsed = "0:01";
  exit_code = "";
  start = "";
  end = "";
}

-- The answer that the job is unknown comes after its accounting record was purged.
observe_all-verdict_example :
    (observe_all recent stamp (at_second 9) (task_named "jr_1" "v1:a") (
      status_in ComputeState.running
      ∷ status_in ComputeState.completed
      ∷ status_in ComputeState.unknown
      ∷ [])).compute_state
    ≡ ComputeState.completed
observe_all-verdict_example =
    observe_all-verdict recent stamp (at_second 9) (task_named "jr_1" "v1:a") (
      status_in ComputeState.running
      ∷ status_in ComputeState.completed
      ∷ status_in ComputeState.unknown
      ∷ [])

abbrev finished_task : Task
finished_task = record (task_named "jr_1" "v1:a") {
  scheduler_id = "42";
  compute_state = ComputeState.failed;
}

refresh-IsSettled_example :
    IsSettled recent stamp finished_task
      (ok (status_in ComputeState.unknown))
      (refresh_task recent stamp
        ("hpc" ∷ [])
        working
        working
        (at_second 9)
        (ok none)
        (ok (status_in ComputeState.unknown))
        finished_task
        store).0.task
refresh-IsSettled_example =
    refresh-IsSettled recent stamp ("hpc" ∷ []) working working (at_second 9) (ok none)
      (ok (status_in ComputeState.unknown)) finished_task store refl refl

abbrev plain_file : File
plain_file = record { checked = ok 3; content = ok (3, codes "ab12") }

abbrev work_dir : Forest
work_dir =
    folder (codes ".git") (leaf (codes ".git/config") plain_file nil)
      (leaf (codes "big.chk") plain_file (leaf (codes "run.in") plain_file nil))

abbrev selection : Selection
selection = record {
  entry_mode = false;
  workdir_mode = true;
  entry = [];
  include = [];
  exclude = codes ".git/" ∷ codes "big.chk" ∷ [];
  max_files = 2;
  max_total_bytes = 0;
}

abbrev taken : Scan
taken = record {
  entries = record { path = codes "run.in"; size = 3; sha256 = codes "ab12" } ∷ [];
  ignored = codes ".git" ∷ codes "big.chk" ∷ [];
  total = 3;
}

snapshot_run : snapshot text_eq selection work_dir ≡ ok taken
unfolding snapshot trim_space text_eq trim_suffix has_prefix split
snapshot_run = refl

snapshot-uploaded_example :
    paths_of text_eq selection taken.entries
    ≡ uploaded_paths text_eq selection (flatten [] work_dir)
snapshot-uploaded_example = snapshot-uploaded text_eq selection work_dir snapshot_run

few_run : length taken.entries ≤ 2
few_run = snapshot-few text_eq selection work_dir (omega arith) snapshot_run

abbrev machine : Machine
machine = record { windows = false; has_rsync = true; has_ssh = true }

abbrev broken_rsync : Backends
broken_rsync = record { by_rsync = fail transfer_unavailable true; by_sftp = ok tt; live = true }

abbrev listing : Reply
listing = record {
  stdout = codes "run.in" ++ 0 ∷ codes "3" ++ 0 ∷ codes "out.log" ++ 0 ∷ codes "12" ++ 0 ∷ [];
  stderr = [];
  failed = false;
}

abbrev choice : Choice
choice = record {
  all = true;
  overwrite_inputs = false;
  include = [];
  pull_patterns = [];
  inputs = codes "run.in" ∷ [];
}

abbrev remote : List RemoteFile
remote =
    record { path = codes "out.log"; size = 12 } ∷ record { path = codes "run.in"; size = 3 } ∷ []

abbrev no_match : Task → Surroundings
no_match prior = record {
  first = working;
  second = working;
  now = at_second 9;
  recovery = ok none;
  status = ok (status_in ComputeState.completed);
}

abbrev prior : Task
prior = record (task_named "jr_1" "v1:a") {
  scheduler_id = "42";
  compute_state = ComputeState.running;
}

abbrev ran_before : Database
ran_before = record store { tasks = prior ∷ [] }

abbrev confirmed : Database
confirmed =
    (ensure_force_new_safe recent stamp ("hpc" ∷ []) working no_match (task_named "jr_2" "v1:a")
      ran_before).1

-- The database has the task as completed, and the cluster says that its job runs: the new run goes on.
abbrev running_again : Task → Surroundings
running_again prior = record (no_match prior) { status = ok (status_in ComputeState.running) }

abbrev completed_before : Database
completed_before = record store {
  tasks = record prior { compute_state = ComputeState.completed } ∷ [];
}

goes_on_run :
    (ensure_force_new_safe recent stamp
      ("hpc" ∷ [])
      working
      running_again
      (task_named "jr_2" "v1:a")
      completed_before).0
    ≡ ok tt
unfolding ensure_force_new_safe joyrun.Store.Tasks.history select_where
    joyrun.Store.Metadata.get_meta scan_task refresh_task
    joyrun.Store.TaskUpdates.update_task_with_event joyrun.Base.update_where
goes_on_run = refl

-- One task without a job, one with a job, and one on a cluster that was taken out.
abbrev listed : List Task
listed =
    task_named "jr_3" "v1:c"
    ∷ prior
    ∷ record (task_named "jr_4" "v1:d") {
      scheduler_id = "43";
      compute_state = ComputeState.queued;
      cluster_name = "old";
    }
    ∷ []

abbrev all_completed : String → Result (String → Status)
all_completed cluster = ok (λ id. status_in ComputeState.completed)

abbrev all_statuses : StatusAllResult
all_statuses =
    (status_all recent stamp ("hpc" ∷ []) (λ c. 0) no_match all_completed listed ran_before).0

all_statuses_run :
    (map (λ (t : Task). t.id) all_statuses.tasks ≡ "jr_3" ∷ "jr_1" ∷ [])
    × (map (λ (f : StatusFailure). f.task_id) all_statuses.failures ≡ "jr_4" ∷ [])
unfolding status_all joyrun.Base.find_where joyrun.App.StatusAll.sort_task
    joyrun.App.StatusAll.finish_task joyrun.App.Status.apply_scheduler_status
    joyrun.Store.TaskUpdates.update_task_with_event joyrun.Base.update_where
    joyrun.App.StatusAll.sort_tasks joyrun.App.StatusAll.finish_batches
    joyrun.App.StatusAll.finish_tasks joyrun.App.StatusAll.resolved_tasks
    joyrun.App.StatusAll.add_to_batch
all_statuses_run = (refl, refl)

status_all_complete_example :
    (any (λ (f : StatusFailure). f.task_id == "jr_4") all_statuses.failures
      || any (λ (t : Task). t.id == "jr_4") all_statuses.tasks)
    ≡ true
status_all_complete_example =
    status_all_complete recent stamp ("hpc" ∷ []) (λ c. 0) no_match all_completed listed ran_before
      "jr_4" refl
