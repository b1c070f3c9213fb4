-- ===== src/Localfs.antt =====
-- internal/localfs/validate.go: which remote paths may be written below the local destination. The
-- tests of the destination by os.Lstat are not modelled.
pub mod Clean
pub mod Safe
pub mod Inside
use joyrun.Base.{
  ℕ, zero, suc, Bool, true, false, ◌&&◌, ◌||◌, not, Option, none, some, List, [], ◌∷◌, ◌++◌,
  if◌then◌else◌, any, nat_eq, leb, ltb, length,
}
use joyrun.Base.Text.{Text, codes, is_one_of, text_eq, get_entry, set_entry, has_prefix, to_lower}
use joyrun.Base.Strings.{is_empty, split, split_cuts, to_upper}
use joyrun.Fault.{Result, ok, err, fail, local_path_unsupported, local_path_collision}
use joyrun.Localfs.Clean.{clean}

abbrev head_or_empty : List Text → Text
head_or_empty [] = []
head_or_empty (w ∷ ws) = w

-- strings.HasSuffix with one byte.
unfoldable pub ends_with : ℕ → Text → Bool
ends_with b [] = false
ends_with b (c ∷ []) = nat_eq c b
ends_with b (c ∷ d ∷ s) = ends_with b (d ∷ s)

-- windowsReservedName
unfoldable pub windows_reserved_name : Text → Bool
windows_reserved_name name =
    is_one_of (codes "CON" ∷ codes "PRN" ∷ codes "AUX" ∷ codes "NUL" ∷ []) name || is_port name
  where
    is_port : Text → Bool
    is_port (a ∷ b ∷ c ∷ d ∷ []) =
        (text_eq (a ∷ b ∷ c ∷ []) (codes "COM") || text_eq (a ∷ b ∷ c ∷ []) (codes "LPT"))
        && leb b'1' d
        && leb d b'9'
    is_port _ = false

-- The tests of one component, in validateWindowsPath.
unfoldable pub windows_component : Text → Bool
windows_component component =
    not (is_empty component || ends_with b'.' component || ends_with b' ' component)
    && not (any (λ c. ltb c 32 || any (nat_eq c) (codes "<>:\"\\|?*")) component)
    && not (windows_reserved_name (to_upper (head_or_empty (split_cuts 1 b'.' component))))

abbrev every_component : List Text → Bool
every_component [] = true
every_component (c ∷ cs) = windows_component c && every_component cs

-- validateWindowsPath: no error.
unfoldable pub validate_windows_path : Text → Bool
validate_windows_path value = every_component (split b'/' value)

abbrev is_abs : Text → Bool
is_abs path = has_prefix path (codes "/")

-- The tests on one path, before those of Windows. `valid_utf8` is utf8.ValidString.
unfoldable pub is_safe_relative : (Text → Bool) → Text → Bool
is_safe_relative valid_utf8 file = not (
    is_empty file
    || not (valid_utf8 file)
    || any (nat_eq 0) file
    || is_abs file
    || text_eq (clean file) (codes ".")
    || text_eq (clean file) (codes "..")
    || has_prefix (clean file) (codes "../")
    || not (text_eq (clean file) file))

unfoldable pub key_of : Bool → Text → Text
key_of windows file = if windows then to_lower (clean file) else clean file

abbrev pub collides : Text → Option Text → Bool
collides cleaned none = false
collides cleaned (some previous) = not (text_eq previous cleaned)

-- The loop of validatePullPaths, with the paths that were seen under their keys; `windows` is
-- `goos == "windows"`.
unfoldable pub validate_seen :
    (Text → Bool) → Bool → List Text → List (Text × Text) → Result (Unit {0})
validate_seen valid_utf8 windows [] seen = ok tt
validate_seen valid_utf8 windows (file ∷ files) seen =
    let key = key_of windows file in
    let rest = validate_seen valid_utf8 windows files (set_entry key (clean file) seen) in
    if not (is_safe_relative valid_utf8 file)
    then fail local_path_unsupported false
    else if windows && not (validate_windows_path (clean file))
    then fail local_path_unsupported false
    else if collides (clean file) (get_entry key seen)
    then fail local_path_collision false
    else rest

-- validatePullPaths
unfoldable pub validate_pull_paths : (Text → Bool) → List Text → Bool → Result (Unit {0})
validate_pull_paths valid_utf8 files windows = validate_seen valid_utf8 windows files []
