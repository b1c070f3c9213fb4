-- ===== src/Daemon/Session/Answered.antt =====
-- internal/daemon/protocol.go: a client that knows the secret gets its command's answer.
use joyrun.Base.{String, ◌≡◌, refl, true, Option, some, List, [], ◌∷◌, ◌++◌, eq_refl, append-nil}
use joyrun.Base.Text.{Text}
use joyrun.Daemon.Frames.{write_frame}
use joyrun.Daemon.Frames.RoundTrip.{read_frame-write_frame}
use joyrun.Daemon.Session.{
  Response, Server, Codec, Handler, answer_with, is_zero_code, hello_ok, hello_of, request_of,
  method_of, serve_request, serve, read_value, call_input, call_output,
}

-- A value that was written is read back, if the two JSON functions agree on it.
read_value-write_frame :
    {A : Type 0} (json : Codec) (parse : Text → Option A) (body rest : Text) {a : A} {sent : Text}
    → write_frame body ≡ some sent
    → parse body ≡ some a
    → read_value json parse (sent ++ rest) ≡ some (a, rest)
unfolding read_value
read_value-write_frame json parse body rest w p = rw (read_frame-write_frame body rest w, p) refl

module _ (json : Codec) (server : Server) (handler : Handler) where
  -- What the daemon answers to a command.
  abbrev pub outcome : String → String → List String → Response
  outcome id cwd args =
      let (code, out, errors) = handler args cwd in
      answer_with json server (request_of json id cwd args) (is_zero_code json server code) code out
        errors ""

  -- A call with the session's secret, of a command other than `daemon stop` and `daemon status`, runs
  -- exactly that command and hands its exit code and texts back to the client, where a connection is
  -- free, the four messages fit into frames, and JSON reads back what it wrote of them.
  pub call-serve :
      (version id cwd : String) (args : List String)
      {hello_frame request_frame greeting reply : Text}
      → method_of args ≡ "command.execute"
      → write_frame (json.request (hello_of json version server.secret)) ≡ some hello_frame
      → write_frame (json.request (request_of json id cwd args)) ≡ some request_frame
      → write_frame (json.hello (hello_ok json server)) ≡ some greeting
      → write_frame (json.response (outcome id cwd args)) ≡ some reply
      → json.to_request (json.request (hello_of json version server.secret))
        ≡ some (hello_of json version server.secret)
      → json.to_request (json.request (request_of json id cwd args))
        ≡ some (request_of json id cwd args)
      → json.to_hello (json.hello (hello_ok json server)) ≡ some (hello_ok json server)
      → json.to_response (json.response (outcome id cwd args)) ≡ some (outcome id cwd args)
      → let s = serve json server true (some handler) (hello_frame ++ request_frame) in
        (call_input json version server.secret id cwd args ≡ some (hello_frame ++ request_frame))
        × (s.handled ≡ (args, cwd) ∷ [])
        × (call_output json s.output ≡ some (outcome id cwd args))
  unfolding serve serve_request call_input call_output
  call-serve version id cwd args {hello_frame} {request_frame} {greeting} {reply} command wh wr wg
        wp jh jr jg jp =
      let heard_hello : read_value json json.to_request (hello_frame ++ request_frame)
          ≡ some (hello_of json version server.secret, request_frame) =
        read_value-write_frame json json.to_request _ request_frame wh jh in
      let heard_request : read_value json json.to_request request_frame
          ≡ some (request_of json id cwd args, []) =
        rw (← append-nil request_frame) (read_value-write_frame json json.to_request _ [] wr jr) in
      let answer : read_value json json.to_response reply ≡ some (outcome id cwd args, []) =
        rw (← append-nil reply) (read_value-write_frame json json.to_response _ [] wp jp) in
      let greeted : read_value json json.to_hello (greeting ++ reply)
          ≡ some (hello_ok json server, reply) =
        read_value-write_frame json json.to_hello _ reply wg jg in
      (
        rw (wh, wr) refl,
        rw (heard_hello, eq_refl server.secret, wg, heard_request, command) refl,
        rw (heard_hello, eq_refl server.secret, wg, heard_request, command, wp, greeted, answer)
            refl,
      )
