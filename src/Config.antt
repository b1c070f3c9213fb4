-- ===== src/Config.antt =====
-- The configuration: internal/config/config.go, and its types of internal/model/model.go. Maps are
-- lists of entries in the order in which the loops visit them. A default or a choice of a
-- parameter is kept as fmt.Sprint prints it, the only form that the code reads. A text is a list of
-- code points here.
pub mod Size
pub mod Params
pub mod Partitions
pub mod Load
use joyrun.Base.{ℕ, Bool, Option, List}
use joyrun.Base.Text.{Text}
use joyrun.Base.Numbers.{ℤ}

pub record Partition : Type 0 where
  pub cores_per_node : ℤ
  pub memory_per_node : Text

pub record Cluster : Type 0 where
  pub host : Text
  pub scheduler : Text
  pub remote_root : Text
  pub transfer : Text
  pub partitions : List (Text × Partition)

pub record ResolvedPartition : Type 0 where
  pub name : Text
  pub cores_per_node : ℤ
  pub memory_per_node : Text

pub record ParamSpec : Type 0 where
  pub type : Text
  pub default : Option Text
  pub required : Bool
  pub choices : List Text

pub record Placement : Type 0 where
  pub default_partition : Text
  pub allowed_partitions : List Text

pub record Target : Type 0 where
  pub cluster : Text
  pub software : Text
  pub placement : Placement
  pub source_kind : Text
  pub source_patterns : List Text
  pub params : List (Text × ParamSpec)
  pub script : Text
  pub push_mode : Text
  pub push_patterns : List Text
  pub max_files : ℤ
  pub max_total_size : Text
  pub logs : List Text

pub record Config : Type 0 where
  pub version : ℤ
  pub clusters : List (Text × Cluster)
  pub targets : List (Text × Target)
