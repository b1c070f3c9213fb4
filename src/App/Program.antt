-- ===== src/App/Program.antt =====
-- internal/app: what the code of the application asks of its surroundings (the clock, the store, the
-- local disk and the cluster), and programs that ask and go on with the answer. Between two requests
-- other processes run, and a process that dies just never asks again.
use joyrun.Base.{String, Bool, List}
use joyrun.Fault.{Result, ok, err}
use joyrun.Timestamp.{Timestamp}
use joyrun.Model.{Task, TaskEvent}
use joyrun.Slurm.{Reply}

-- What `ctx.Err()` says.
pub data ContextState : Type 0 where
  live deadline_exceeded cancelled : ContextState

-- How a call ended that hands back an error alone: the error's text, whether its code is
-- UPLOAD_TIMEOUT, and the state of the call's context afterwards.
pub record Answer : Type 0 where
  pub failed : Bool
  pub cause : String
  pub upload_timeout : Bool
  pub context : ContextState

-- The same of a submission, with the answer of the remote shell.
pub record Submission : Type 0 where
  pub reply : Reply
  pub cause : String
  pub context : ContextState

-- The answers of the two commands of a query, and the text of the error that is made of them.
pub record Query : Type 0 where
  pub queue : Reply
  pub accounting : Reply
  pub cause : String

pub data Request : Type 0 where
  now : Request  -- time.Now().UTC()
  get_task : String → Request  -- Store.GetTask
  events : String → Request  -- Store.Events
  update : Task → TaskEvent → Request  -- Store.UpdateTaskWithEvent
  write_metadata : Task → Request  -- App.writeMetadata
  write_script : Task → Request  -- os.WriteFile of joyrun-job.sh
  push : Task → Request  -- Transfer.Push
  sbatch : Task → Request  -- Slurm.Submit, one remote sbatch command
  read_marker : Task → Request  -- remote.ReadFile of scheduler_id
  query_jobs : Task → Request  -- the squeue and sacct commands of Slurm.FindByTaskID

abbrev pub AnswerTo : Request → Type 0
AnswerTo now = Timestamp
AnswerTo (get_task _) = Result Task
AnswerTo (events _) = Result (List TaskEvent)
AnswerTo (update _ _) = Result Task
AnswerTo (write_metadata _) = Answer
AnswerTo (write_script _) = Answer
AnswerTo (push _) = Answer
AnswerTo (sbatch _) = Submission
AnswerTo (read_marker _) = Reply
AnswerTo (query_jobs _) = Query

pub data Program (A : Type 0) : Type 0 where
  done : A → Program A
  call : (r : Request) → (AnswerTo r → Program A) → Program A

-- A Go function that hands back a value and an error.
abbrev pub Attempt : Type 0 → Type 0
Attempt A = Program (Result A)

-- `if err != nil { return …, err }`
infixl 5 ◌>>=◌ ◌>>◌
abbrev pub ◌>>=◌ : {A B : Type 0} → Attempt A → (A → Attempt B) → Attempt B
done (ok a) >>= f = f a
done (err e) >>= f = done (err e)
call r k >>= f = call r (λ a. k a >>= f)

abbrev pub ◌>>◌ : {B : Type 0} → Attempt (Unit {0}) → Attempt B → Attempt B
m >> k = m >>= λ _. k

abbrev pub ask : (r : Request) → Attempt (AnswerTo r)
ask r = call r (λ a. done (ok a))

-- A request whose error the caller handles as any other.
abbrev pub ask_result : {A : Type 0} → (r : Request) → (AnswerTo r → Result A) → Attempt A
ask_result r read = call r (λ a. done (read a))

abbrev pub return : {A : Type 0} → A → Attempt A
return a = done (ok a)
