-- ===== src/Slurm/Nodes.antt =====
-- parseNodes: the rows of sinfo.
pub mod Counts
use joyrun.Base.{
  ℕ, zero, suc, ◌+◌, Bool, true, false, ◌&&◌, ◌||◌, not, Option, none, some, List, [], ◌∷◌, ◌++◌,
  any, nat_eq, if◌then◌else◌,
}
use joyrun.Base.Text.{Text, codes, text_eq, to_lower, is_one_of}
use joyrun.Base.Strings.{trim_space, trim_right, trim_suffix, is_empty, split, split_cuts}
use joyrun.Base.Numbers.{ℤ, parse_int}
use joyrun.Fault.{Result, ok, err, fail, nodes_query_failed, target_status_invalid}
use joyrun.Slurm.{Reply}

pub record NodeInfo : Type 0 where
  pub name : Text
  pub state : Text
  pub cpus : ℤ
  pub memory_mb : ℤ
  pub gres : Text
  pub partition : Text

pub record NodeSummary : Type 0 where
  pub total : ℕ
  pub idle : ℕ
  pub mixed : ℕ
  pub allocated : ℕ
  pub unavailable : ℕ

pub record NodesResult : Type 0 where
  pub summary : NodeSummary
  pub nodes : List NodeInfo

-- The answers of nodeStateCategory.
pub data NodeCategory : Type 0 where
  idle mixed allocated unavailable : NodeCategory

abbrev is_flag : ℕ → Bool
is_flag c = any (nat_eq c) (codes "*~#@%$!^")

-- normalizeNodeState
unfoldable pub normalize_node_state : Text → Text
normalize_node_state raw = to_lower (trim_right is_flag (trim_space raw))

unfoldable pub node_state_category : Text → NodeCategory
node_state_category state =
    if text_eq (codes "idle") state
    then NodeCategory.idle
    else if is_one_of (codes "mixed" ∷ codes "mix" ∷ []) state
    then NodeCategory.mixed
    else if is_one_of (codes "allocated" ∷ codes "alloc" ∷ codes "completing" ∷ codes "comp" ∷ [])
        state
    then NodeCategory.allocated
    else NodeCategory.unavailable

abbrev count_node : NodeCategory → NodeSummary → NodeSummary
count_node NodeCategory.idle s = record s { total = s.total + 1; idle = s.idle + 1 }
count_node NodeCategory.mixed s = record s { total = s.total + 1; mixed = s.mixed + 1 }
count_node NodeCategory.allocated s = record s { total = s.total + 1; allocated = s.allocated + 1 }
count_node NodeCategory.unavailable s = record s {
  total = s.total + 1;
  unavailable = s.unavailable + 1;
}

unfoldable pub add_node : NodeInfo → NodesResult → NodesResult
add_node node r = record {
  summary = count_node (node_state_category node.state) r.summary;
  nodes = r.nodes ++ node ∷ [];
}

abbrev pub named : Text → NodeInfo → Bool
named name node = text_eq node.name name

abbrev with_memory : Text → Text → Text → Text → ℤ → Option ℤ → NodesResult → Result NodesResult
with_memory part name state gres cpus none r = fail nodes_query_failed false
with_memory part name state gres cpus (some memory) r = ok (
    add_node
      (record {
        name = name;
        state = normalize_node_state state;
        cpus = cpus;
        memory_mb = memory;
        gres = trim_space gres;
        partition = trim_suffix b'*' (trim_space part);
      })
      r)

abbrev with_cpus : Text → Text → Text → Text → Text → Option ℤ → NodesResult → Result NodesResult
with_cpus part name state memory gres none r = fail nodes_query_failed false
with_cpus part name state memory gres (some cpus) r =
    with_memory part name state gres cpus (parse_int (trim_space memory)) r

-- One row, cut into fields: six, or an error. A name that was seen is passed over before the
-- numbers are read.
unfoldable pub read_node : List Text → NodesResult → Result NodesResult
read_node (part ∷ given ∷ state ∷ cpus ∷ memory ∷ gres ∷ []) r =
    let name = trim_space given in
    if is_empty name
    then fail nodes_query_failed false
    else if any (named name) r.nodes
    then ok r
    else with_cpus part name state memory gres (parse_int (trim_space cpus)) r
read_node _ r = fail nodes_query_failed false

abbrev pub then_nodes : Result NodesResult → (NodesResult → Result NodesResult) → Result NodesResult
then_nodes (ok r) f = f r
then_nodes (err e) f = err e

unfoldable pub read_lines : List Text → NodesResult → Result NodesResult
read_lines [] r = ok r
read_lines (given ∷ lines) r =
    let line = trim_space given in
    then_nodes (if is_empty line then ok r else read_node (split_cuts 5 b'|' line) r)
      (read_lines lines)

abbrev pub no_nodes : NodesResult
no_nodes = record {
  summary = record { total = 0; idle = 0; mixed = 0; allocated = 0; unavailable = 0 };
  nodes = [];
}

unfoldable pub parse_nodes : Text → Result NodesResult
parse_nodes output = read_lines (split 10 output) no_nodes

-- Nodes, from the answer of the remote shell.
unfoldable pub nodes : Text → Reply → Result NodesResult
nodes partition reply =
    if is_empty (trim_space partition)
    then fail target_status_invalid false
    else if reply.failed
    then fail nodes_query_failed true
    else parse_nodes reply.stdout
