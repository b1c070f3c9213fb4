-- ===== src/Tests/Daemon.antt =====
-- A session of the daemon, the dispatcher of the worker and its polling at concrete inputs.
use joyrun.Base.{
  ℕ, ◌≤◌, String, ◌≡◌, refl, true, false, ◌⊎◌, none, some, List, [], ◌∷◌, ◌++◌, map, length, arith,
  ◌==◌, if◌then◌else◌, find_where, select_where, update_where,
}
use joyrun.Base.Text.{Text, codes, text_eq}
use joyrun.Base.Numbers.{pos}
use joyrun.Model.{Operation, ComputeState, Task}
use joyrun.Timestamp.{add, before}
use joyrun.Worker.Poll.{poll_interval}
use joyrun.Worker.Poll.Rates.{poll_interval-rates}
use joyrun.Store.Leases.{claim_next_operation_except}
use joyrun.Daemon.Frames.{write_frame, read_frame, read_full, put_uint32}
use joyrun.Daemon.Frames.RoundTrip.{read_frame-write_frame}
use joyrun.Daemon.Session.{
  Request, HelloResponse, Response, Server, Codec, Handler, read_value, serve, call_input,
  call_output,
}
use joyrun.Daemon.Session.Auth.{IsIdle, IsGreeted, serve-authentic}
use joyrun.Daemon.Session.Answered.{call-serve}
use joyrun.Worker.Dispatcher.{Dispatcher, dispatch, cluster_busy}
use joyrun.Worker.Dispatcher.Slots.{start, later, round, IsSlotted, Turns-IsSlotted}
use joyrun.Tests.Data.{at_second, working, store, task_named}

abbrev frame : Text
frame = 0 ∷ 0 ∷ 0 ∷ 2 ∷ codes "{}"

frame_run : write_frame (codes "{}") ≡ some frame
unfolding write_frame put_uint32
frame_run = refl

read_frame-write_frame_example :
    read_frame (frame ++ codes "next") ≡ some (codes "{}", codes "next")
read_frame-write_frame_example = read_frame-write_frame (codes "{}") (codes "next") frame_run

abbrev server : Server
server = record {
  version = "0.3.0";
  schema = "4";
  instance_id = "di_1";
  pid = 77;
  started_at = "2026-01-01T00:00:00Z";
  status_text = "{}";
  secret = "s3cret";
}

abbrev handler : Handler
handler args cwd = (pos 0, "pulled\n", "")

abbrev args : List String
args = "pull" ∷ "jr_1" ∷ []

abbrev hello_sent : Request
hello_sent = record {
  kind = "hello";
  protocol = 1;
  client_version = "0.3.0";
  secret = "s3cret";
  request_id = "";
  method = "";
  cwd = "";
  args = [];
}

abbrev request_sent : Request
request_sent = record {
  kind = "request";
  protocol = 1;
  client_version = "";
  secret = "";
  request_id = "rq_1";
  method = "command.execute";
  cwd = "/p";
  args = args;
}

abbrev greeting : HelloResponse
greeting = record {
  kind = "hello_ok";
  protocol = 1;
  min_protocol = 1;
  version = "0.3.0";
  instance_id = "di_1";
  pid = 77;
  schema = "4";
  started_at = "2026-01-01T00:00:00Z";
  error = "";
}

abbrev reply : Response
reply = record {
  kind = "response";
  request_id = "rq_1";
  succeeded = true;
  exit_code = pos 0;
  stdout = "pulled\n";
  stderr = "";
  error = "";
}

-- One text for each of the four messages of this call.
abbrev json : Codec
json = record {
  request = λ r. if r.kind == "hello" then codes "H" else codes "R";
  to_request = λ s.
      if text_eq s (codes "H")
      then some hello_sent
      else if text_eq s (codes "R")
      then some request_sent
      else none;
  hello = λ r. codes "G";
  to_hello = λ s. if text_eq s (codes "G") then some greeting else none;
  response = λ r. codes "A";
  to_response = λ s. if text_eq s (codes "A") then some reply else none;
}

abbrev one_byte : ℕ → Text
one_byte c = 0 ∷ 0 ∷ 0 ∷ 1 ∷ c ∷ []

one_byte_run : (c : ℕ) → write_frame (c ∷ []) ≡ some (one_byte c)
unfolding write_frame put_uint32
one_byte_run c = refl

hello_read :
    (json.to_request (codes "H") ≡ some hello_sent)
    × (json.to_request (codes "R") ≡ some request_sent)
unfolding text_eq
hello_read = (refl, refl)

reply_read :
    (json.to_hello (codes "G") ≡ some greeting) × (json.to_response (codes "A") ≡ some reply)
unfolding text_eq
reply_read = (refl, refl)

-- A call of `joyrun pull jr_1` through the daemon.
call-serve_example :
    (call_input json "0.3.0" "s3cret" "rq_1" "/p" args ≡ some (one_byte 72 ++ one_byte 82))
    × ((serve json server true (some handler) (one_byte 72 ++ one_byte 82)).handled
        ≡ (args, "/p") ∷ [])
    × (call_output json (serve json server true (some handler) (one_byte 72 ++ one_byte 82)).output
        ≡ some reply)
call-serve_example =
    call-serve json server handler "0.3.0" "rq_1" "/p" args refl (one_byte_run 72) (one_byte_run 82)
      (one_byte_run 71) (one_byte_run 65) hello_read.0 hello_read.1 reply_read.0 reply_read.1

-- A client that starts with its request.
serve-authentic_example :
    (IsIdle json server (serve json server true (some handler) (one_byte 82))
      ⊎ IsGreeted json server (one_byte 82))
    × (length (serve json server true (some handler) (one_byte 82)).handled ≤ 1)
serve-authentic_example = serve-authentic json server true (some handler) (one_byte 82)

stranger_run :
    serve json server true (some handler) (one_byte 82)
    ≡ record { output = one_byte 71; handled = []; stopped = false }
unfolding serve read_value read_frame read_full write_frame put_uint32 text_eq
stranger_run = refl

abbrev idle : Dispatcher
idle = record { active = []; db = store }

-- One round, at which the waiting operation is claimed.
abbrev busy : Dispatcher
busy = dispatch working working "dw_b" (at_second 20) (at_second 80) idle

busy_run : map (λ (o : Operation). o.id) busy.active ≡ "jo_2" ∷ []
unfolding dispatch claim_next_operation_except cluster_busy select_where find_where update_where
    joyrun.Store.Leases.candidate joyrun.Timestamp.text_lt joyrun.Store.Leases.claimed
busy_run = refl

nothing_runs : IsSlotted []
nothing_runs = record { few = omega arith; apart = tt; alone = λ h. tt }

Turns-IsSlotted_example : IsSlotted busy.active
Turns-IsSlotted_example =
    Turns-IsSlotted (later start (round working working "dw_b" (at_second 20) (at_second 80)))
      nothing_runs

abbrev uncertain : Task
uncertain = record (task_named "jr_1" "v1:a") {
  compute_state = ComputeState.submission_uncertain;
  updated_at = at_second 100;
}

-- An hour later the interval is still thirty seconds.
poll_interval-rates_example : poll_interval (at_second 3700) (uncertain ∷ []) ≡ (30, true)
unfolding before add
poll_interval-rates_example = poll_interval-rates (at_second 3700) (uncertain ∷ [])
