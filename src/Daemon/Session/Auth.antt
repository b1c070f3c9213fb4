-- ===== src/Daemon/Session/Auth.antt =====
-- internal/daemon/protocol.go: no command runs without the session's secret.
use joyrun.Base.{
  eq_iff, ◌≤◌, ◌≡◌, refl, Bool, true, false, Option, none, some, [], ◌⊎◌, inl, inr, length, arith,
  Bool-cases,
}
use joyrun.Base.Text.{Text}
use joyrun.Daemon.Frames.{write_frame}
use joyrun.Daemon.Session.{
  Request, Server, Codec, Handler, Served, is_authentic, serve_request, serve, read_value,
  after_hello, greeted, heard, hello_ok,
}

module _ (json : Codec) (server : Server) where
  -- Nothing ran and the daemon goes on.
  abbrev pub IsIdle : Served → Type 0
  IsIdle s = (s.handled ≡ []) × (s.stopped ≡ false)

  -- The connection began with a hello that knows the secret.
  abbrev pub IsGreeted : Text → Type 0
  IsGreeted input =
      (hello : Request) × (rest : Text) × (read_value json json.to_request input
        ≡ some (hello, rest))
      × (hello.kind ≡ "hello")
      × (hello.protocol ≡ 1)
      × (hello.secret ≡ server.secret)

  authentic-inv :
      (hello : Request)
      → is_authentic json server hello ≡ true
      → (hello.kind ≡ "hello") × (hello.protocol ≡ 1) × (hello.secret ≡ server.secret)
  authentic-inv hello known =
      ground (arith, eq_iff hello.kind "hello", eq_iff hello.secret server.secret)

  serve_request-one :
      (handler : Option Handler) (req : Request)
      → length (serve_request json server handler req).handled ≤ 1
  unfolding serve_request
  serve_request-one none req = ground arith
  serve_request-one (some handler) req = ground arith

  after_hello-one :
      (handler : Option Handler) (greeting : Text) (r : Option (Request × Text))
      → length (after_hello json server handler greeting r).handled ≤ 1
  after_hello-one handler greeting none = omega arith
  after_hello-one handler greeting (some (req, rest)) = serve_request-one handler req

  greeted-one :
      (handler : Option Handler) (rest : Text) (frame : Option Text)
      → length (greeted json server handler rest frame).handled ≤ 1
  greeted-one handler rest none = omega arith
  greeted-one handler rest (some greeting) =
      after_hello-one handler greeting (read_value json json.to_request rest)

  heard-authentic :
      (handler : Option Handler) (r : Option (Request × Text))
      → let s = heard json server handler r in
        (IsIdle s
          ⊎ ((hello : Request) × (rest : Text) × (r ≡ some (hello, rest))
              × (hello.kind ≡ "hello")
              × (hello.protocol ≡ 1)
              × (hello.secret ≡ server.secret)))
        × (length s.handled ≤ 1)
  heard-authentic handler none = (inl (refl, refl), omega arith)
  heard-authentic handler (some (hello, rest)) =
      elim (Bool-cases (is_authentic json server hello)) [
        | inr stranger ↦ rw stranger (inl (refl, refl), omega arith)
        | inl known ↦ (
          (let (kind, protocol, secret) = authentic-inv hello known in
              inr (hello, rest, refl, kind, protocol, secret)),
          rw known (greeted-one handler rest (write_frame (json.hello (hello_ok json server)))),
        )
      ]

  -- Whatever a client sends, the connection runs no command and does not stop the daemon, unless its
  -- first frame is a hello of this protocol with the session's secret; and it runs one command at
  -- most.
  pub serve-authentic :
      (free : Bool) (handler : Option Handler) (input : Text)
      → let s = serve json server free handler input in
        (IsIdle s ⊎ IsGreeted input) × (length s.handled ≤ 1)
  unfolding serve
  serve-authentic false handler input = (inl (refl, refl), omega arith)
  serve-authentic true handler input =
      heard-authentic handler (read_value json json.to_request input)
