-- ===== src/Daemon/Frames.antt =====
-- internal/daemon/protocol.go: readFrame and writeFrame.
pub mod RoundTrip
use joyrun.Base.{
  ℕ, zero, suc, ◌+◌, ◌*◌, ◌/◌, ◌%◌, ◌^◌, Bool, true, false, ◌||◌, Option, none, some, List, [], ◌∷◌,
  ◌++◌, length, ltb, nat_eq, if◌then◌else◌,
}
use joyrun.Base.Text.{Text}

-- `8 << 20`
abbrev pub max_frame_size : ℕ
max_frame_size = 8_388_608

-- binary.BigEndian.PutUint32 of `uint32(n)`
unfoldable pub put_uint32 : ℕ → Text
put_uint32 n = n / 2 ^ 24 % 2 ^ 8 ∷ n / 2 ^ 16 % 2 ^ 8 ∷ n / 2 ^ 8 % 2 ^ 8 ∷ n % 2 ^ 8 ∷ []

-- writeFrame, after json.Marshal; `none` is its error, and then nothing is written.
unfoldable pub write_frame : Text → Option Text
unfolding put_uint32
write_frame body =
    if nat_eq (length body) 0 || ltb max_frame_size (length body)
    then none
    else some (put_uint32 (length body) ++ body)

-- io.ReadFull of so many bytes: what was read, and what is left of the stream.
unfoldable pub read_full : ℕ → Text → Option (Text × Text)
read_full zero s = some ([], s)
read_full (suc n) [] = none
read_full (suc n) (c ∷ s) = add_byte c (read_full n s)
  where
    add_byte : ℕ → Option (Text × Text) → Option (Text × Text)
    add_byte c none = none
    add_byte c (some (body, rest)) = some (c ∷ body, rest)

-- readFrame, before json.Unmarshal.
unfoldable pub read_frame : Text → Option (Text × Text)
unfolding read_full
read_frame (a ∷ b ∷ c ∷ d ∷ s) =
    let n = a * 2 ^ 24 + b * 2 ^ 16 + c * 2 ^ 8 + d in
    if nat_eq n 0 || ltb max_frame_size n then none else read_full n s
read_frame _ = none
