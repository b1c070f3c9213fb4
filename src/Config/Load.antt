-- ===== src/Config/Load.antt =====
-- Load, after the YAML decoder: the checks of the configuration, in their order. Every refusal is
-- CONFIG_INVALID; a size may end in a panic.
pub mod Placed
use joyrun.Base.{
  ℕ, Bool, true, false, ◌&&◌, ◌||◌, not, Option, none, some, List, [], ◌∷◌, if◌then◌else◌, any,
  nat_eq, leb, is_some, ◌++◌, map,
}
use joyrun.Base.Text.{Text, codes, is_one_of, text_eq, get_entry, has_prefix}
use joyrun.Base.Strings.{is_empty, trim_space, trim_suffix}
use joyrun.Base.Numbers.{ℤ, pos, negsuc, is_digit}
use joyrun.Fault.{Result, ok, err, is_ok}
use joyrun.Template.{Node, validate, uses_entry}
use joyrun.Config.{Partition, Cluster, ParamSpec, Placement, Target, Config}
use joyrun.Config.Size.{Size, parse_byte_size}
use joyrun.Config.Params.{Value, validate_spec}

-- How far a check gets.
pub data Verdict : Type 0 where
  passed invalid panicked : Verdict

abbrev pub test : Bool → Verdict
test b = if b then Verdict.passed else Verdict.invalid

infixr 4 ◌then◌
abbrev pub ◌then◌ : Verdict → Verdict → Verdict
Verdict.passed then w = w
Verdict.invalid then w = Verdict.invalid
Verdict.panicked then w = Verdict.panicked

abbrev pub each : {A : Type 0} → (A → Verdict) → List A → Verdict
each f [] = Verdict.passed
each f (x ∷ xs) = f x then each f xs

abbrev is_lower : ℕ → Bool
is_lower c = leb b'a' c && leb c b'z'

abbrev is_alphanumeric : ℕ → Bool
is_alphanumeric c = is_lower c || (leb b'A' c && leb c b'Z') || is_digit c

abbrev every : (ℕ → Bool) → Text → Bool
every p s = not (any (λ c. not (p c)) s)

-- The regular expression of a partition's name.
unfoldable pub is_partition_name : Text → Bool
is_partition_name [] = false
is_partition_name (c ∷ s) =
    is_alphanumeric c && every (λ d. is_alphanumeric d || any (nat_eq d) (codes "._-")) s

-- The regular expression of a parameter's name.
unfoldable pub is_param_name : Text → Bool
is_param_name [] = false
is_param_name (c ∷ s) = is_lower c && every (λ d. is_lower d || is_digit d || nat_eq d b'_') s

abbrev is_negative : ℤ → Bool
is_negative (pos n) = false
is_negative (negsuc n) = true

abbrev sized : Size → Verdict
sized (Size.size n) = Verdict.passed
sized Size.refused = Verdict.invalid
sized Size.panics = Verdict.panicked

-- A size that may be left out.
abbrev check_size : Text → Verdict
check_size raw = if is_empty raw then Verdict.passed else sized (parse_byte_size raw)

abbrev check_partition : Text × Partition → Verdict
check_partition (name, partition) =
    test (is_partition_name name)
    then test (not (is_negative partition.cores_per_node))
    then check_size partition.memory_per_node

-- The transfer that is left out is "auto".
abbrev pub with_transfer : Cluster → Cluster
with_transfer cluster =
    if is_empty cluster.transfer then record cluster { transfer = codes "auto" } else cluster

unfoldable pub check_cluster : Cluster → Verdict
check_cluster cluster =
    test (not (is_empty cluster.host || is_empty cluster.remote_root))
    then test (has_prefix cluster.remote_root (codes "/"))
    then test (text_eq cluster.scheduler (codes "slurm"))
    then test (
        is_one_of (codes "auto" ∷ codes "rsync" ∷ codes "sftp" ∷ [])
          (with_transfer cluster).transfer)
    then each check_partition cluster.partitions

-- The loop over the allowed partitions, with those that were seen.
unfoldable pub check_allowed : List (Text × Partition) → List Text → List Text → Verdict
check_allowed partitions seen [] = Verdict.passed
check_allowed partitions seen (name ∷ names) =
    let rest = check_allowed partitions (name ∷ seen) names in
    test (not (is_one_of seen name)) then test (is_some (get_entry name partitions)) then rest

unfoldable pub check_placement : List (Text × Partition) → Placement → Verdict
check_placement partitions placement =
    test (not (is_empty placement.default_partition))
    then test (is_some_text placement.allowed_partitions)
    then check_allowed partitions [] placement.allowed_partitions
    then test (is_one_of placement.allowed_partitions placement.default_partition)
  where
    is_some_text : List Text → Bool
    is_some_text [] = false
    is_some_text (t ∷ ts) = true

-- `strings.TrimSuffix(strings.TrimPrefix(…, "/"), "/")` of a pattern with slashes.
abbrev trim_slashes : Text → Text
trim_slashes [] = []
trim_slashes (c ∷ s) = trim_suffix b'/' (if nat_eq c b'/' then s else c ∷ s)

abbrev is_one : ℤ → Bool
is_one (pos n) = nat_eq n 1
is_one (negsuc n) = false

abbrev pub normalized : Config → Config
normalized cfg = record cfg { clusters = map (λ e. (e.0, with_transfer e.1)) cfg.clusters }

abbrev pub loaded : Config → Verdict → Verdict × Option Config
loaded cfg Verdict.passed = (Verdict.passed, some cfg)
loaded cfg v = (v, none)

-- `is_pattern` tells that path.Match takes a text for a pattern; `parse` is text/template's parser.
module _ {Float : Type 0} (parse_float : Text → Option Float) (sprint : Value Float → Text)
    (parse : Text → Option (List Node)) (is_pattern : Text → Bool) where
  abbrev check_param : Text × ParamSpec → Verdict
  check_param (key, spec) =
      test (not (text_eq key (codes "partition")))
      then test (is_param_name key)
      then test (is_ok (validate_spec parse_float sprint spec))

  abbrev check_template : List (Text × ParamSpec) → Text → Verdict
  check_template params value = test (is_ok (validate parse value params))

  abbrev check_source : Target → Verdict
  check_source target =
      test (not (is_empty target.source_kind))
      then test
          (is_one_of (codes "file" ∷ codes "directory" ∷ codes "either" ∷ []) target.source_kind)
      then test (
          not (
            (uses_entry parse target.script || any (uses_entry parse) target.logs)
            && not (text_eq target.source_kind (codes "file"))))
      then test (
          not (
            text_eq target.source_kind (codes "directory")
            && any (λ pattern. true) target.source_patterns))
      then each (λ pattern. test (not (is_empty pattern)) then test (is_pattern pattern))
          target.source_patterns

  abbrev check_push_mode : Target → Verdict
  check_push_mode target =
      if text_eq target.push_mode (codes "entry")
      then test (text_eq target.source_kind (codes "file"))
      else test (text_eq target.push_mode (codes "workdir"))

  abbrev check_push : Target → Verdict
  check_push target =
      check_push_mode target
      then each
          (λ pattern. test (not (is_empty pattern)) then test (is_pattern (trim_slashes pattern)))
          target.push_patterns
      then test (not (is_negative target.max_files))
      then check_size target.max_total_size

  abbrev check_in_cluster : Target → Option Cluster → Verdict
  check_in_cluster target none = Verdict.invalid
  check_in_cluster target (some cluster) =
      test (not (is_empty (trim_space target.software)))
      then check_placement cluster.partitions target.placement
      then test (not (is_empty target.script))
      then each check_param target.params
      then check_template target.params target.script
      then each (check_template target.params) target.logs
      then check_source target
      then check_push target

  unfoldable pub check_target : List (Text × Cluster) → Target → Verdict
  check_target clusters target = check_in_cluster target (get_entry target.cluster clusters)

  abbrev check_config : Config → Verdict
  check_config cfg =
      test (is_one cfg.version)
      then each (λ e. check_cluster e.1) cfg.clusters
      then each (λ e. check_target (normalized cfg).clusters e.1) cfg.targets

  -- Load: the configuration with its defaults, `none` if it is refused, or a panic.
  unfoldable pub load : Config → Verdict × Option Config
  load cfg = loaded (normalized cfg) (check_config cfg)
