-- ===== src/Daemon/Frames/RoundTrip.antt =====
-- internal/daemon/protocol.go: a frame that was written is read back.
use joyrun.Base.{
  ℕ, ◌+◌, ◌*◌, ◌/◌, ◌%◌, ◌^◌, ◌<◌, ◌≡◌, refl, ◌||◌, some, [], ◌∷◌, ◌++◌, length, ltb, nat_eq, arith,
  Bool-cases, inl, inr,
}
use joyrun.Base.Text.{Text}
use joyrun.Daemon.Frames.{max_frame_size, put_uint32, write_frame, read_full, read_frame}

read_full-append : (body rest : Text) → read_full (length body) (body ++ rest) ≡ some (body, rest)
unfolding read_full
read_full-append [] rest = refl
read_full-append (c ∷ body) rest = rw (read_full-append body rest) refl

-- The four bytes of a length below 2 ^ 32 give the length.
uint32-bytes :
    (n : ℕ)
    → n < 2 ^ 32
    → n / 2 ^ 24 % 2 ^ 8 * 2 ^ 24
        + n / 2 ^ 16 % 2 ^ 8 * 2 ^ 16
        + n / 2 ^ 8 % 2 ^ 8 * 2 ^ 8
        + n % 2 ^ 8
      ≡ n
uint32-bytes n h = omega arith

-- Every frame that writeFrame sends, readFrame reads back to the same data, whatever follows it on
-- the stream, and leaves exactly what follows.
pub read_frame-write_frame :
    (body rest : Text) {sent : Text}
    → write_frame body ≡ some sent
    → read_frame (sent ++ rest) ≡ some (body, rest)
unfolding write_frame read_frame put_uint32
read_frame-write_frame body rest {sent} h =
    elim (Bool-cases (nat_eq (length body) 0 || ltb max_frame_size (length body))) [
      | inl bad ↦ ground arith
      | inr good ↦
          let is : sent ≡ put_uint32 (length body) ++ body = ground arith in
          rw (is, uint32-bytes (length body) (ground arith), good) (read_full-append body rest)
    ]
