-- ===== src/Config/Partitions.antt =====
-- ResolvePartition
use joyrun.Base.{false, Option, none, some, [], if◌then◌else◌}
use joyrun.Base.Text.{Text, is_one_of, get_entry}
use joyrun.Base.Strings.{is_empty}
use joyrun.Base.Numbers.{pos}
use joyrun.Fault.{Result, ok, fail, invalid_partition, target_invalid}
use joyrun.Config.{Partition, Cluster, ResolvedPartition, Target}

-- Where the partition came from: `none` is "".
pub data Origin : Type 0 where
  no_origin target_default cli : Origin

-- `model.ResolvedPartition{}`
abbrev pub no_partition : ResolvedPartition
no_partition = record { name = []; cores_per_node = pos 0; memory_per_node = [] }

abbrev pub declared : Text → Origin → Option Partition → Result (ResolvedPartition × Origin)
declared name from none = fail target_invalid false
declared name from (some partition) = ok (
  record {
    name = name;
    cores_per_node = partition.cores_per_node;
    memory_per_node = partition.memory_per_node;
  },
  from,
)

unfoldable pub named_partition :
    Cluster → Target → Text → Origin → Result (ResolvedPartition × Origin)
named_partition cluster target name from =
    if is_empty name
    then ok (no_partition, Origin.no_origin)
    else if is_one_of target.placement.allowed_partitions name
    then declared name from (get_entry name cluster.partitions)
    else fail invalid_partition false

-- ResolvePartition. An override that is not empty is the name, so the branch of the source for an
-- override under an empty name is never taken.
unfoldable pub resolve_partition : Cluster → Target → Text → Result (ResolvedPartition × Origin)
resolve_partition cluster target override =
    if is_empty override
    then named_partition cluster target target.placement.default_partition Origin.target_default
    else named_partition cluster target override Origin.cli
