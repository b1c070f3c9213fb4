-- ===== src/Lib.antt =====
-- JoyRun: a command-line program and a daemon that submit jobs to Slurm clusters over SSH, keep the
-- state of tasks and of background operations in SQLite, and pull results back.
--
-- The parts and how they interact. The command line and the daemon's worker (internal/cli) admit
-- operations into the store (internal/store); workers claim them under leases, run them, and write
-- their progress. Running one renders a script from a target of the configuration (internal/config,
-- internal/template), quotes what goes to the remote shell (internal/remote), and asks Slurm
-- (internal/scheduler) through the commands' output. Pulling files checks their paths first
-- (internal/localfs). The stages of a submission, the reconciliation with Slurm, and the choice of files
-- are in internal/app, the choice of input files in internal/manifest, and the copying in
-- internal/transfer. A client reaches the daemon through internal/daemon. Errors are faults with a code
-- and a flag (internal/fault).
--
-- Which file models which part:
-- - Base.antt and below: shared names, tables, Go's strings (Base/Text, Base/Strings) and the reading
--   of numbers (Base/Numbers). The tests on spaces and letters are those of ASCII text.
-- - Fault.antt: internal/fault/fault.go; Model.antt: internal/model/model.go.
-- - Timestamp.antt: the RFC3339Nano texts that internal/store stores and compares as texts.
-- - Store.antt: the database as a record of tables. Store/Operations, Store/Leases, Store/Progress:
--   internal/store/operations.go (CreateOperation, GetOperation, FindOperationByDedup,
--   AppendOperationEvent; ClaimNextOperationExcept, UpdateOperation, UpdateOperationOwned,
--   RenewOperationLease, RequeueOwnedOperation; ReplaceOperationTasks, OperationTasks).
--   Store/Metadata, Store/Tasks, Store/TaskUpdates: internal/store/store.go (encodeTask, scanTask;
--   CreateTasks, CreateTask(s)Idempotent, FindTaskBySubmissionKey; UpdateTask, UpdateTaskWithEvent,
--   UpdateTasksWithEvents, GetTask, LatestTask, Events, History, AppendEvent, ImportTask).
-- - Worker.antt: of internal/cli/operations.go, the commands `operation cancel` and `retry`,
--   requeueOperation, updateOperationStage and finishOperation. Worker/Dispatcher: the loop of
--   operationWorker, one round at a time. Worker/Poll: pollInterval.
-- - App/Submit: of internal/app/app.go, ExecuteReservedSubmit, reconcileReservedSubmit, submitPrepared,
--   recoverSchedulerID, the failures, and the end of Submit, as programs (App/Program) that put requests
--   to their surroundings: the clock, the store, the remote shell, the transfer. App/World runs any
--   number of them, started and killed at any point, over one database, with all the answers that the
--   database can give and any answers of the cluster; App/Phases, App/Unsubmitted, App/Fenced and
--   App/Invariant carry its theorems in App/AtMostOnce.
-- - App/Status: applySchedulerStatus, markSchedulerStale, refreshTask and the sets of states of the same
--   file. App/StatusAll: StatusAll, once the tasks are listed. App/Renewal: ensureForceNewSafe.
--   App/Pull: listRemoteFiles, and Pull up to its dry run.
-- - Daemon/Frames, Daemon/Session: readFrame, writeFrame, Server.serve and Call of
--   internal/daemon/protocol.go.
-- - Manifest.antt: internal/manifest/manifest.go (matches, validateSelection, selected, enforceLimits
--   and the walk of Snapshot). Transfer.antt: internal/transfer/manager.go.
-- - Slurm.antt, Slurm/Submit, Slurm/Statuses, Slurm/Nodes: internal/scheduler/slurm.go, from the
--   answer of the remote shell on.
-- - Remote.antt: internal/remote/remote.go, the quoting and the options of OpenSSH. Remote/Words reads
--   words as a POSIX shell does.
-- - Config.antt: the types of internal/model/model.go; Config/Size, Config/Params, Config/Partitions
--   and Config/Load: internal/config/config.go after the YAML decoder.
-- - Template.antt and Template/Shell: internal/template/render.go (Validate, UsesEntry, shellData).
-- - Localfs.antt: validatePullPaths of internal/localfs/validate.go; Localfs/Clean: path.Clean.
-- - Tests.antt and below: the theorems at concrete inputs.
--
-- State and errors. A method of the store is a function from the database to its result and the new
-- database. Which SQLite calls fail is an argument: `Sql` tells for the n-th call of a method whether
-- it goes through, the constraints of the schema apart, which the model checks. The clock's readings
-- are arguments. A transaction that is not committed leaves the database as it was. What a remote
-- command answers is an argument (`Reply`); a panic of Go is an answer of its own (`none`, or a
-- constructor). A map is a list of entries, in the order in which a loop visits them; where the code
-- fills the map itself, an argument places each new entry (App/StatusAll).
--
-- Parameters for code that is not in the repository: strconv.ParseFloat and the printing of a value
-- (Config/Params), the parser of text/template and the patterns of path.Match (Config/Load),
-- utf8.ValidString (Localfs), the patterns of path.Match (Manifest, App/Pull), the texts and ages of
-- package time (App/Status), and the JSON of the four messages of a call (Daemon/Session). The theorem
-- on a call has hypotheses on JSON, that it reads back what it wrote of these messages; no other theorem
-- has one on a parameter.
--
-- Bounds: every loop is structural recursion, and no fuel is used. A revision and an attempt count
-- have no upper bound in the model; the program's int64 and int are not reached by counting in ones.
--
-- Not modelled: of internal/app, prepare, the batches, Cancel, Logs, Recover, Doctor and the
-- stages of Pull after its dry run; of internal/cli, the parsing of the command line, runOperation, the
-- rest of the polling and the texts; the daemon's sockets, locks and secret file; the backends of a
-- transfer; symbolic links and ignore files in a manifest; the lists for display, the SQL schema's
-- migration, and everything that only reads or writes files.
pub mod Base
pub mod Fault
pub mod Timestamp
pub mod Model
pub mod Store
pub mod Worker
pub mod Slurm
pub mod Remote
pub mod Config
pub mod Template
pub mod Localfs
mod Tests
pub mod App
pub mod Daemon
pub mod Manifest
pub mod Transfer
