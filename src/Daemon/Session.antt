-- ===== src/Daemon/Session.antt =====
-- internal/daemon/protocol.go: Server.serve and Call.
pub mod Auth
pub mod Answered
use joyrun.Base.{
  ℕ, String, Bool, true, false, ◌&&◌, ◌||◌, not, Option, none, some, List, [], ◌∷◌, ◌++◌, ◌==◌,
  nat_eq, if◌then◌else◌,
}
use joyrun.Base.Text.{Text}
use joyrun.Base.Numbers.{ℤ, pos}
use joyrun.Daemon.Frames.{write_frame, read_frame}

pub record Request : Type 0 where
  pub kind : String
  pub protocol : ℕ
  pub client_version : String
  pub secret : String
  pub request_id : String
  pub method : String
  pub cwd : String
  pub args : List String

pub record HelloResponse : Type 0 where
  pub kind : String
  pub protocol : ℕ
  pub min_protocol : ℕ
  pub version : String
  pub instance_id : String
  pub pid : ℕ
  pub schema : String
  pub started_at : String
  pub error : String

pub record Response : Type 0 where
  pub kind : String
  pub request_id : String
  pub succeeded : Bool
  pub exit_code : ℤ
  pub stdout : String
  pub stderr : String
  pub error : String

-- What a connection reads of a Server. `status_text` is the JSON text of `daemon status`.
pub record Server : Type 0 where
  pub version : String
  pub schema : String
  pub instance_id : String
  pub pid : ℕ
  pub started_at : String
  pub status_text : String
  pub secret : String

-- json.Marshal and json.Unmarshal at the three types; `none` is an error.
pub record Codec : Type 0 where
  pub request : Request → Text
  pub to_request : Text → Option Request
  pub hello : HelloResponse → Text
  pub to_hello : Text → Option HelloResponse
  pub response : Response → Text
  pub to_response : Text → Option Response

abbrev pub Handler : Type 0
Handler = List String → String → ℤ × String × String

-- What a connection did: the bytes it wrote, the commands it ran, and whether it stopped the daemon.
pub record Served : Type 0 where
  pub output : Text
  pub handled : List (List String × String)
  pub stopped : Bool

abbrev pub protocol_version : ℕ
protocol_version = 1

abbrev pub nothing : Served
nothing = record { output = []; handled = []; stopped = false }

-- `_ = writeFrame(…)`
abbrev pub written : Option Text → Text
written none = []
written (some frame) = frame

abbrev pub is_daemon_call : String → List String → Bool
is_daemon_call name (a ∷ b ∷ rest) = a == "daemon" && b == name
is_daemon_call name _ = false

-- The method that Call asks for.
abbrev pub method_of : List String → String
method_of args =
    if is_daemon_call "status" args
    then "daemon.status"
    else if is_daemon_call "stop" args
    then "daemon.stop"
    else "command.execute"

module _ (json : Codec) where
  abbrev with_rest : {A : Type 0} → Text → Option A → Option (A × Text)
  with_rest rest none = none
  with_rest rest (some a) = some (a, rest)

  abbrev decoded : {A : Type 0} → (Text → Option A) → Option (Text × Text) → Option (A × Text)
  decoded parse none = none
  decoded parse (some (body, rest)) = with_rest rest (parse body)

  -- readFrame with json.Unmarshal
  unfoldable pub read_value : {A : Type 0} → (Text → Option A) → Text → Option (A × Text)
  read_value parse s = decoded parse (read_frame s)

  module _ (server : Server) where
    abbrev pub is_authentic : Request → Bool
    is_authentic hello =
        hello.kind == "hello"
        && nat_eq hello.protocol protocol_version
        && hello.secret == server.secret

    abbrev pub hello_error : HelloResponse
    hello_error = record {
      kind = "hello_error";
      protocol = protocol_version;
      min_protocol = protocol_version;
      version = server.version;
      instance_id = "";
      pid = 0;
      schema = "";
      started_at = "";
      error = "IPC_AUTH_FAILED";
    }

    abbrev pub hello_ok : HelloResponse
    hello_ok = record {
      kind = "hello_ok";
      protocol = protocol_version;
      min_protocol = protocol_version;
      version = server.version;
      instance_id = server.instance_id;
      pid = server.pid;
      schema = server.schema;
      started_at = server.started_at;
      error = "";
    }

    abbrev pub answer_with : Request → Bool → ℤ → String → String → String → Response
    answer_with req fine code out errors error = record {
      kind = "response";
      request_id = req.request_id;
      succeeded = fine;
      exit_code = code;
      stdout = out;
      stderr = errors;
      error = error;
    }

    abbrev pub is_zero_code : ℤ → Bool
    is_zero_code (pos n) = nat_eq n 0
    is_zero_code _ = false

    abbrev pub said : Response → Served
    said r = record nothing { output = written (write_frame (json.response r)) }

    abbrev pub handle : Option Handler → Request → Served
    handle none req = said (answer_with req false (pos 1) "" "" "DAEMON_HANDLER_UNAVAILABLE")
    handle (some handler) req =
        let (code, out, errors) = handler req.args req.cwd in
        record (said (answer_with req (is_zero_code code) code out errors "")) {
          handled = (req.args, req.cwd) ∷ [];
        }

    -- serve, once the request is read.
    unfoldable pub serve_request : Option Handler → Request → Served
    serve_request handler req =
        if not (req.kind == "request")
        then said (answer_with req false (pos 1) "" "" "IPC_INVALID_REQUEST")
        else if req.method == "daemon.stop"
        then record (said (answer_with req true (pos 0) "" "" "")) { stopped = true }
        else if req.method == "daemon.status"
        then said (answer_with req true (pos 0) server.status_text "" "")
        else handle handler req

    abbrev pub after_hello : Option Handler → Text → Option (Request × Text) → Served
    after_hello handler greeting none = record nothing { output = greeting }
    after_hello handler greeting (some (req, rest)) =
        let s = serve_request handler req in record s { output = greeting ++ s.output }

    -- The reply to an authentic hello; a frame that cannot be written ends the connection.
    abbrev pub greeted : Option Handler → Text → Option Text → Served
    greeted handler rest none = nothing
    greeted handler rest (some greeting) =
        after_hello handler greeting (read_value json.to_request rest)

    abbrev pub heard : Option Handler → Option (Request × Text) → Served
    heard handler none = nothing
    heard handler (some (hello, rest)) =
        if not (is_authentic hello)
        then record nothing { output = written (write_frame (json.hello hello_error)) }
        else greeted handler rest (write_frame (json.hello hello_ok))

    -- Server.serve on all that a client sends. `free` says whether one of the 64 slots is free.
    unfoldable pub serve : Bool → Option Handler → Text → Served
    unfolding serve_request
    serve free handler input =
        if free then heard handler (read_value json.to_request input) else nothing

  abbrev pub hello_of : String → String → Request
  hello_of version secret = record {
    kind = "hello";
    protocol = protocol_version;
    client_version = version;
    secret = secret;
    request_id = "";
    method = "";
    cwd = "";
    args = [];
  }

  abbrev pub request_of : String → String → List String → Request
  request_of id cwd args = record {
    kind = "request";
    protocol = protocol_version;
    client_version = "";
    secret = "";
    request_id = id;
    method = method_of args;
    cwd = cwd;
    args = args;
  }

  -- What Call sends, if both frames can be written.
  abbrev both : Option Text → Option Text → Option Text
  both (some a) (some b) = some (a ++ b)
  both _ _ = none

  unfoldable pub call_input : String → String → String → String → List String → Option Text
  call_input version secret id cwd args =
      both (write_frame (json.request (hello_of version secret)))
        (write_frame (json.request (request_of id cwd args)))

  abbrev second : Option (Response × Text) → Option Response
  second none = none
  second (some (r, rest)) = some r

  abbrev first : Option (HelloResponse × Text) → Option Response
  first none = none
  first (some (hello, rest)) =
      if hello.kind == "hello_ok" then second (read_value json.to_response rest) else none

  -- What Call hands back for the bytes that the server sent; `none` is an error.
  unfoldable pub call_output : Text → Option Response
  unfolding read_value
  call_output output = first (read_value json.to_hello output)
