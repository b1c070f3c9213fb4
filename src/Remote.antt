-- ===== src/Remote.antt =====
-- internal/remote/remote.go: quoting for the remote POSIX shell and the options of OpenSSH.
pub mod Words
use joyrun.Base.{
  ℕ, Bool, true, false, Option, none, some, List, [], ◌∷◌, ◌++◌, if◌then◌else◌, nat_eq, String,
}
use joyrun.Base.Text.{Text, codes, has_prefix}
use joyrun.Base.Strings.{trim_space, is_empty}

-- `strings.ReplaceAll(value, "'", …)` with the quoted apostrophe of Quote.
unfoldable pub escape : Text → Text
escape [] = []
escape (c ∷ s) = if nat_eq c b'\'' then codes "'\"'\"'" ++ escape s else c ∷ escape s

-- Quote, and shellQuote of internal/template/render.go.
unfoldable pub quote : Text → Text
quote value = b'\'' ∷ escape value ++ b'\'' ∷ []

abbrev last_slash : ℕ → Text → Option Text → Option Text
last_slash c s none = if nat_eq c b'/' then some [] else none
last_slash c s (some front) = some (c ∷ front)

-- The part before the last "/"; `none` if there is none.
unfoldable pub before_last_slash : Text → Option Text
before_last_slash [] = none
before_last_slash (c ∷ s) = last_slash c s (before_last_slash s)

abbrev parent : Option Text → Text
parent none = codes "."
parent (some []) = codes "."
parent (some (c ∷ front)) = c ∷ front

-- Dir
unfoldable pub dir : Text → Text
dir path = parent (before_last_slash path)

-- OpenSSHOptionsFor
unfoldable pub open_ssh_options_for : Text → List Text
open_ssh_options_for control_path =
    (codes "-o"
      ∷ codes "BatchMode=yes"
      ∷ codes "-o"
      ∷ codes "ConnectTimeout=15"
      ∷ codes "-o"
      ∷ codes "ServerAliveInterval=15"
      ∷ codes "-o"
      ∷ codes "ServerAliveCountMax=3"
      ∷ [])
    ++ (if is_empty control_path
        then []
        else codes "-o"
          ∷ codes "ControlMaster=auto"
          ∷ codes "-o"
          ∷ codes "ControlPersist=300"
          ∷ codes "-o"
          ∷ (codes "ControlPath=" ++ control_path)
          ∷ [])

-- The quoted options, two at a time; an odd one at the end is dropped.
unfoldable pub quoted_pairs : List Text → List Text
quoted_pairs (flag ∷ value ∷ options) = quote flag ∷ quote value ∷ quoted_pairs options
quoted_pairs _ = []

-- strings.Join with one blank.
unfoldable pub join_blank : List Text → Text
join_blank [] = []
join_blank (w ∷ []) = w
join_blank (w ∷ v ∷ ws) = w ++ b' ' ∷ join_blank (v ∷ ws)

-- OpenSSHShellFor
unfoldable pub open_ssh_shell_for : Text → Text
open_ssh_shell_for control_path =
    join_blank (codes "ssh" ∷ quoted_pairs (open_ssh_options_for control_path))

-- detail
unfoldable pub detail : Text → Text → Text
detail message stderr =
    if is_empty (trim_space stderr) then message else message ++ codes ": " ++ trim_space stderr
