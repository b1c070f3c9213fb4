-- ===== src/Template.antt =====
-- internal/template/render.go: which templates are allowed, and the values that a script is rendered
-- with. text/template's parser gives the nodes; the other fields of a node are not read here.
pub mod Shell
use joyrun.Base.{
  Bool, true, false, ◌&&◌, ◌||◌, not, Option, none, some, List, [], ◌∷◌, if◌then◌else◌, any, nat_eq,
  is_some,
}
use joyrun.Base.Text.{Text, codes, is_one_of, text_eq, get_entry}
use joyrun.Fault.{Result, ok, err, fail, target_invalid}
use joyrun.Config.{ParamSpec}

-- An argument of a command: a field chain such as `.Params.nodes`, or anything else.
pub data Argument : Type 0 where
  field : List Text → Argument
  other_argument : Argument

-- A node of the tree. An action has its pipe, if there is one: whether it declares variables, and
-- the arguments of each command.
pub data Node : Type 0 where
  text : Text → Node
  action : Option (Bool × List (List Argument)) → Node
  other_node : Node

-- The switches of validateAction on the names of a field.
unfoldable pub valid_ident : List (Text × ParamSpec) → List Text → Bool
valid_ident params (name ∷ []) =
    is_one_of (codes "Input" ∷ codes "Stem" ∷ codes "Name" ∷ codes "TaskID" ∷ codes "WorkDir" ∷ [])
      name
valid_ident params (group ∷ name ∷ []) =
    if text_eq group (codes "Params")
    then is_some (get_entry name params)
    else text_eq group (codes "Partition")
      && is_one_of (codes "Name" ∷ codes "CoresPerNode" ∷ codes "MemoryPerNode" ∷ []) name
valid_ident params _ = false

-- validateAction: every failure is TARGET_INVALID.
unfoldable pub valid_action : List (Text × ParamSpec) → Option (Bool × List (List Argument)) → Bool
valid_action params (some (false, (Argument.field ident ∷ []) ∷ [])) = valid_ident params ident
valid_action params _ = false

unfoldable pub valid_node : List (Text × ParamSpec) → Node → Bool
valid_node params (Node.text t) = true
valid_node params (Node.action pipe) = valid_action params pipe
valid_node params Node.other_node = false

-- The loop of Validate.
unfoldable pub valid_nodes : List (Text × ParamSpec) → List Node → Bool
valid_nodes params [] = true
valid_nodes params (node ∷ nodes) = valid_node params node && valid_nodes params nodes

abbrev validate_parsed : List (Text × ParamSpec) → Option (List Node) → Result (Unit {0})
validate_parsed params none = fail target_invalid false
validate_parsed params (some nodes) =
    if valid_nodes params nodes then ok tt else fail target_invalid false

unfoldable pub node_uses_entry : Node → Bool
node_uses_entry (Node.action (some (declares, (Argument.field (name ∷ []) ∷ []) ∷ []))) =
    is_one_of (codes "Input" ∷ codes "Stem" ∷ []) name
node_uses_entry _ = false

abbrev uses_entry_parsed : Option (List Node) → Bool
uses_entry_parsed none = false
uses_entry_parsed (some nodes) = any node_uses_entry nodes

-- `parse` is text/template's: `none` is its error, an empty tree has no nodes.
module _ (parse : Text → Option (List Node)) where
  -- Validate
  unfoldable pub validate : Text → List (Text × ParamSpec) → Result (Unit {0})
  validate value params = validate_parsed params (parse value)

  -- UsesEntry
  unfoldable pub uses_entry : Text → Bool
  uses_entry value = uses_entry_parsed (parse value)
