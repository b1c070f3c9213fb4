-- ===== src/App/Pull.antt =====
-- internal/app/app.go: which remote files Pull fetches. What the file system says of the destination
-- is a parameter.
pub mod Chosen
use joyrun.Base.{
  ℕ, Bool, true, false, ◌&&◌, ◌||◌, not, Option, none, some, List, [], ◌∷◌, any, if◌then◌else◌,
}
use joyrun.Base.Text.{Text, codes, text_eq, is_one_of}
use joyrun.Base.Strings.{is_empty, split}
use joyrun.Base.Numbers.{ℤ, pos, negsuc, parse_int}
use joyrun.Fault.{Result, ok, err, fail, ◌>>=◌, remote_list_failed, no_files_matched}
use joyrun.Timestamp.{bytes_lt}
use joyrun.Slurm.{Reply}
use joyrun.Manifest.{matches}
use joyrun.Localfs.{validate_pull_paths}

pub record RemoteFile : Type 0 where
  pub path : Text
  pub size : ℕ

abbrev file_of : Text → ℕ → RemoteFile
file_of path size = record { path = path; size = size }

abbrev with_file : Text → ℕ → Result (List RemoteFile) → Result (List RemoteFile)
with_file name size (err e) = err e
with_file name size (ok files) = ok (file_of name size ∷ files)

-- A size that was read; a negative one is refused.
abbrev with_size : Text → Option ℤ → Result (List RemoteFile) → Result (List RemoteFile)
with_size name none rest = fail remote_list_failed true
with_size name (some (pos size)) rest = with_file name size rest
with_size name (some (negsuc n)) rest = fail remote_list_failed true

-- The loop over the records of the listing: names, each with its size behind it.
unfoldable pub read_files : List Text → Result (List RemoteFile)
read_files [] = ok []
read_files (name ∷ []) = if is_empty name then ok [] else ok (file_of name 0 ∷ [])
read_files (name ∷ raw ∷ more) =
    let skipped = read_files (raw ∷ more) in
    let rest = read_files more in
    if is_empty name
    then skipped
    else if is_empty raw
    then with_file name 0 skipped
    else with_size name (parse_int raw) rest

-- sort.Slice by path
unfoldable pub insert_file : RemoteFile → List RemoteFile → List RemoteFile
insert_file f [] = f ∷ []
insert_file f (g ∷ gs) =
    let rest = insert_file f gs in if bytes_lt g.path f.path then g ∷ rest else f ∷ g ∷ gs

unfoldable pub sort_files : List RemoteFile → List RemoteFile
unfolding insert_file
sort_files [] = []
sort_files (f ∷ fs) = insert_file f (sort_files fs)

abbrev sorted : Result (List RemoteFile) → Result (List RemoteFile)
sorted (err e) = err e
sorted (ok files) = ok (sort_files files)

-- listRemoteFiles, from the answer of the remote shell.
unfoldable pub list_remote_files : Reply → Result (List RemoteFile)
unfolding read_files sort_files
list_remote_files reply =
    if reply.failed
    then fail remote_list_failed true
    else sorted (read_files (split 0 reply.stdout))

-- sort.Strings
unfoldable pub insert_text : Text → List Text → List Text
insert_text s [] = s ∷ []
insert_text s (t ∷ ts) =
    let rest = insert_text s ts in if bytes_lt t s then t ∷ rest else s ∷ t ∷ ts

unfoldable pub sort_texts : List Text → List Text
unfolding insert_text
sort_texts [] = []
sort_texts (s ∷ ss) = insert_text s (sort_texts ss)

-- The options of a pull, with the patterns and the input paths of its task.
pub record Choice : Type 0 where
  pub all : Bool
  pub overwrite_inputs : Bool
  pub include : List Text
  pub pull_patterns : List Text
  pub inputs : List Text

abbrev pub patterns_of : Choice → List Text
patterns_of c = elim c.include [ [] ↦ c.pull_patterns | p ∷ ps ↦ p ∷ ps ]

abbrev pub job_script : Text
job_script = codes "joyrun-job.sh"

module _ (glob : Text → Text → Bool) where
  -- A file that the loop of Pull does not pass over.
  unfoldable pub is_wanted : Choice → Text → Bool
  is_wanted c file =
      not (is_empty file || text_eq file job_script)
      && (c.all || matches glob file false (patterns_of c))
      && (not (is_one_of c.inputs file) || c.overwrite_inputs)

  unfoldable pub wanted_files : Choice → List RemoteFile → List Text
  unfolding is_wanted
  wanted_files c [] = []
  wanted_files c (f ∷ fs) =
      let rest = wanted_files c fs in if is_wanted c f.path then f.path ∷ rest else rest

  abbrev pub none_matched : List Text → Result (List Text)
  none_matched [] = fail no_files_matched false
  none_matched (f ∷ fs) = ok (f ∷ fs)

  -- Pull up to the transfer: the files, in order, or the refusal. `destination` is what
  -- ValidatePullDestination finds on disk.
  unfoldable pub pull_plan :
      (Text → Bool) → Bool → (List Text → Result (Unit {0})) → Choice → Reply → Result (List Text)
  unfolding list_remote_files wanted_files sort_texts
  pull_plan valid_utf8 windows destination c reply = do
    remote ← list_remote_files reply
    files ← none_matched (sort_texts (wanted_files c remote))
    _ ← validate_pull_paths valid_utf8 files windows
    _ ← destination files
    ok files
