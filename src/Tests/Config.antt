-- ===== src/Tests/Config.antt =====
-- A small configuration, values for a script, and paths of remote files.
use joyrun.Base.{ℕ, ◌≡◌, refl, Bool, true, Option, none, some, List, [], ◌∷◌, ◌≤◌, ◌||◌}
use joyrun.Base.Text.{
  Text, codes, text_eq, get_entry, set_entry, has_prefix, lower, to_lower, is_one_of,
}
use joyrun.Base.Strings.{
  trim_space, trim_left, trim_right, is_space, split, split_cuts, upper, to_upper, is_empty,
}
use joyrun.Base.Numbers.{pos, parse_digits, digits_from}
use joyrun.Fault.{is_ok}
use joyrun.Config.{Partition, Cluster, ParamSpec, Target, Config}
use joyrun.Config.Size.{max_int64, parse_byte_size, cut_digits, is_unit, multiplier}
use joyrun.Config.Size.Bounds.{parse_byte_size-bounds}
use joyrun.Config.Params.{
  Value, ValueSource, resolve_params, default_values, set_values, check_required, convert,
  choice_allowed, validate_spec, cut_equals,
}
use joyrun.Config.Params.Chosen.{is_chosen, resolve_params-is_chosen}
use joyrun.Config.Partitions.{resolve_partition}
use joyrun.Config.Load.{
  load, check_cluster, check_target, check_placement, check_allowed, is_partition_name,
  is_param_name,
}
use joyrun.Config.Load.Placed.{load-resolve_partition}
use joyrun.Template.{Node, validate, valid_nodes, valid_node, uses_entry, node_uses_entry}
use joyrun.Remote.Words.{Mode, read_word}
use joyrun.Template.Shell.{
  Data, Param, shell_data, shell_params, has_line_break, IsSafe, AreSafe, shell_data-IsSafe,
}
use joyrun.Remote.{quote}
use joyrun.Localfs.{
  validate_pull_paths, validate_seen, is_safe_relative, key_of, validate_windows_path,
  windows_component, windows_reserved_name, ends_with,
}
use joyrun.Localfs.Clean.{clean, keep, step, join_back}
use joyrun.Localfs.Safe.{validate_pull_paths-NoCollision}

parse_byte_size-bounds_example : (1 ≤ 2147483648) × (2147483648 ≤ max_int64)
unfolding parse_byte_size trim_space trim_left trim_right is_space cut_digits is_unit multiplier
    to_upper upper get_entry parse_digits digits_from text_eq
parse_byte_size-bounds_example = parse_byte_size-bounds (codes " 2GiB") refl

-- No floating-point number is read here, and a value is printed by its text.
abbrev no_float : Text → Option ℕ
no_float s = none

abbrev print : Value ℕ → Text
print (Value.string t) = t
print v = codes "?"

abbrev mode_spec : ParamSpec
mode_spec = record {
  type = codes "string";
  default = some (codes "fast");
  required = true;
  choices = codes "fast" ∷ codes "safe" ∷ [];
}

abbrev specs : List (Text × ParamSpec)
specs = (codes "mode", mode_spec) ∷ []

abbrev chosen : List (Text × (Value ℕ × ValueSource))
chosen = (codes "mode", (Value.string (codes "safe"), ValueSource.cli)) ∷ []

resolve_params-is_chosen_example :
    is_chosen no_float print specs (codes "mode") (Value.string (codes "safe")) ≡ true
unfolding resolve_params default_values set_values check_required convert choice_allowed
    validate_spec cut_equals get_entry set_entry text_eq
resolve_params-is_chosen_example =
    resolve_params-is_chosen no_float print specs (codes "mode=safe" ∷ []) (codes "mode")
      (Value.string (codes "safe"), ValueSource.cli) (refl, tt) refl refl

abbrev parse_script : Text → Option (List Node)
parse_script s = some (Node.text s ∷ [])

abbrev any_pattern : Text → Bool
any_pattern s = true

abbrev main : Partition
main = record { cores_per_node = pos 64; memory_per_node = [] }

abbrev cluster : Cluster
cluster = record {
  host = codes "hpc";
  scheduler = codes "slurm";
  remote_root = codes "/scratch";
  transfer = codes "auto";
  partitions = (codes "main", main) ∷ (codes "gpu", main) ∷ [];
}

abbrev target : Target
target = record {
  cluster = codes "c";
  software = codes "prog";
  placement = record { default_partition = codes "main"; allowed_partitions = codes "main" ∷ [] };
  source_kind = codes "file";
  source_patterns = codes "*.inp" ∷ [];
  params = specs;
  script = codes "run";
  push_mode = codes "entry";
  push_patterns = [];
  max_files = pos 0;
  max_total_size = [];
  logs = [];
}

abbrev config : Config
config = record {
  version = pos 1;
  clusters = (codes "c", cluster) ∷ [];
  targets = (codes "c/prog", target) ∷ [];
}

load-resolve_partition_example :
    (cluster' : Cluster) × (get_entry (codes "c") config.clusters ≡ some cluster')
    × (is_ok (resolve_partition cluster' target (codes "gpu"))
        ≡ (is_empty (codes "gpu") || is_one_of (codes "main" ∷ []) (codes "gpu")))
unfolding load check_cluster check_target check_placement check_allowed is_partition_name
    is_param_name validate valid_nodes valid_node uses_entry node_uses_entry validate_spec convert
    choice_allowed get_entry text_eq has_prefix trim_space trim_left trim_right is_space
load-resolve_partition_example =
    load-resolve_partition no_float print parse_script any_pattern config (codes "c/prog")
      {target = target} (codes "gpu") refl refl

abbrev values : Data
values = record {
  input = codes "a b.inp";
  stem = codes "a b";
  name = codes "it's";
  task_id = codes "jr_1";
  work_dir = codes "/scratch/jr_1";
  params = (codes "mode", Param.text (codes "safe")) ∷ (codes "n", Param.other (codes "4")) ∷ [];
  partition = record { name = codes "main"; cores_per_node = pos 64; memory_per_node = [] };
}

abbrev rendered : Data
rendered = record {
  input = quote (codes "a b.inp");
  stem = quote (codes "a b");
  name = quote (codes "it's");
  task_id = quote (codes "jr_1");
  work_dir = quote (codes "/scratch/jr_1");
  params =
      (codes "mode", Param.text (quote (codes "safe"))) ∷ (codes "n", Param.other (codes "4")) ∷ [];
  partition = record {
    name = quote (codes "main");
    cores_per_node = pos 64;
    memory_per_node = quote [];
  };
}

shell_data-IsSafe_example :
    IsSafe values.input rendered.input
    × IsSafe values.stem rendered.stem
    × IsSafe values.name rendered.name
    × IsSafe values.task_id rendered.task_id
    × IsSafe values.work_dir rendered.work_dir
    × AreSafe values.params rendered.params
    × (read_word Mode.bare rendered.partition.name ≡ some (values.partition.name, []))
    × (read_word Mode.bare rendered.partition.memory_per_node
        ≡ some (values.partition.memory_per_node, []))
unfolding shell_data shell_params has_line_break
shell_data-IsSafe_example = shell_data-IsSafe values refl

abbrev remote_files : List Text
remote_files = codes "Out/a.log" ∷ codes "out/b.log" ∷ codes "Out/a.log" ∷ []

validate_pull_paths-NoCollision_example : codes "Out/a.log" ≡ codes "Out/a.log"
unfolding validate_pull_paths validate_seen is_safe_relative key_of validate_windows_path
    windows_component windows_reserved_name ends_with clean keep step join_back split split_cuts
    text_eq get_entry set_entry has_prefix to_lower lower to_upper upper
validate_pull_paths-NoCollision_example =
    validate_pull_paths-NoCollision (λ s. true) true remote_files (codes "Out/a.log")
      (codes "Out/a.log") refl refl refl refl
