-- ===== src/Manifest.antt =====
-- internal/manifest/manifest.go: which files of a work directory are uploaded. The directory is a
-- tree as filepath.WalkDir meets it; path.Match is the parameter `glob`.
pub mod Selected
use joyrun.Base.{
  ℕ, ◌+◌, Bool, true, false, ◌&&◌, ◌||◌, not, List, [], ◌∷◌, ◌++◌, any, ltb, nat_eq, length,
  if◌then◌else◌,
}
use joyrun.Base.Text.{Text, codes, text_eq, has_prefix, is_one_of}
use joyrun.Base.Strings.{trim_space, trim_suffix, is_empty, split}
use joyrun.Fault.{
  Result, ok, err, fail, ◌>>=◌, upload_policy_exceeded, source_entry_required,
  source_entry_excluded,
}

-- `entry_mode` and `workdir_mode` are the tests of Mode on the two words.
pub record Selection : Type 0 where
  pub entry_mode : Bool
  pub workdir_mode : Bool
  pub entry : Text
  pub include : List Text
  pub exclude : List Text
  pub max_files : ℕ
  pub max_total_bytes : ℕ

-- model.ManifestEntry
pub record ManifestEntry : Type 0 where
  pub path : Text
  pub size : ℕ
  pub sha256 : Text

-- A file: its size as the tests on its kind and its link give it, or their error, and the size and
-- the hash of what is read of it.
pub record File : Type 0 where
  pub checked : Result ℕ
  pub content : Result (ℕ × Text)

-- The entries of a directory in the order of the walk, each with its path from the root; after an
-- entry come its later siblings.
pub data Forest : Type 0 where
  nil : Forest
  leaf : Text → File → Forest → Forest
  folder : Text → Forest → Forest → Forest

-- strings.TrimPrefix(s, "/")
unfoldable pub trim_slash : Text → Text
trim_slash [] = []
trim_slash (c ∷ s) = if nat_eq c b'/' then s else c ∷ s

-- strings.Contains(s, "/")
abbrev pub has_slash : Text → Bool
has_slash s = any (λ c. nat_eq c b'/') s

-- filepath.Base, on a path with no trailing slash.
abbrev last_part : Text → List Text → Text
last_part s [] = s
last_part s (w ∷ ws) = last_part w ws

unfoldable pub base_of : Text → Text
base_of path = last_part path (split b'/' path)

-- containsPathSegment
unfoldable pub contains_path_segment : Text → Text → Bool
contains_path_segment value segment = is_one_of (split b'/' value) segment

abbrev ends_with_slash : Text → Bool
ends_with_slash [] = false
ends_with_slash (c ∷ []) = nat_eq c b'/'
ends_with_slash (c ∷ d ∷ s) = ends_with_slash (d ∷ s)

-- What the walk has gathered.
pub record Scan : Type 0 where
  pub entries : List ManifestEntry
  pub ignored : List Text
  pub total : ℕ

abbrev pub ignore : Text → Scan → Scan
ignore rel scan = record scan { ignored = scan.ignored ++ rel ∷ [] }

module _ (glob : Text → Text → Bool) where
  -- A pattern that names a directory by its last slash.
  unfoldable pub matches_folder : Text → Text → Bool
  unfolding contains_path_segment
  matches_folder path prefix =
      text_eq path prefix
      || has_prefix path (prefix ++ codes "/")
      || (not (has_slash prefix) && contains_path_segment path prefix)

  -- Any other pattern.
  unfoldable pub matches_file : Text → Bool → Text → Bool
  unfolding base_of
  matches_file path is_dir pattern =
      glob pattern path
      || (not (has_slash pattern) && glob pattern (base_of path))
      || (is_dir && (text_eq path pattern || has_prefix path (pattern ++ codes "/")))

  unfoldable pub matches_one : Text → Bool → Text → Bool
  unfolding matches_folder matches_file trim_slash
  matches_one path is_dir raw =
      let pattern = trim_slash (trim_space raw) in
      if ends_with_slash pattern
      then matches_folder path (trim_suffix b'/' pattern)
      else matches_file path is_dir pattern

  -- matches
  unfoldable pub matches : Text → Bool → List Text → Bool
  unfolding matches_one
  matches path is_dir patterns = any (matches_one path is_dir) patterns

  -- validateSelection
  unfoldable pub validate_selection : Selection → Result (Unit {0})
  unfolding matches
  validate_selection s =
      if not s.entry_mode
      then ok tt
      else if is_empty s.entry
      then fail source_entry_required false
      else if matches s.entry false s.exclude
      then fail source_entry_excluded false
      else ok tt

  -- selected
  unfoldable pub selected : Text → Selection → Bool
  unfolding matches
  selected rel s = s.workdir_mode || text_eq rel s.entry || matches rel false s.include

  -- enforceLimits; the sum of the sizes of the files on a disk fits an int64.
  unfoldable pub enforce_limits : Selection → ℕ → ℕ → Result (Unit {0})
  enforce_limits s files total =
      if ltb 0 s.max_files && ltb s.max_files files
      then fail upload_policy_exceeded false
      else if ltb 0 s.max_total_bytes && ltb s.max_total_bytes total
      then fail upload_policy_exceeded false
      else ok tt

  -- One file that is selected.
  unfoldable pub add_file : Selection → Text → File → Scan → Result Scan
  unfolding enforce_limits
  add_file s rel file scan = do
    size ← file.checked
    _ ← enforce_limits s (length scan.entries + 1) (scan.total + size)
    (copied, hash) ← file.content
    ok (record scan {
      entries = scan.entries ++ record { path = rel; size = copied; sha256 = hash } ∷ [];
      total = scan.total + copied;
    })

  unfoldable pub visit_file : Selection → Text → File → Scan → Result Scan
  unfolding add_file matches selected
  visit_file s rel file scan =
      if matches rel false s.exclude
      then ok (ignore rel scan)
      else if not (selected rel s)
      then ok (ignore rel scan)
      else add_file s rel file scan

  -- The callback of WalkDir over the tree; SkipDir passes over the directory's entries.
  unfoldable pub walk : Selection → Forest → Scan → Result Scan
  unfolding visit_file
  walk s nil scan = ok scan
  walk s (leaf rel file next) scan = visit_file s rel file scan >>= walk s next
  walk s (folder rel kids next) scan =
      if matches rel true s.exclude
      then walk s next (ignore rel scan)
      else walk s kids scan >>= walk s next

  -- Build and Snapshot, which differ in where the size and the hash of a file come from: the file
  -- itself, or the copy. Other errors than UPLOAD_POLICY_EXCEEDED get a code of the caller's.
  unfoldable pub snapshot : Selection → Forest → Result Scan
  unfolding validate_selection walk
  snapshot s tree = do
    _ ← validate_selection s
    walk s tree (record { entries = []; ignored = []; total = 0 })
