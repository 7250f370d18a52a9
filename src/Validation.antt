-- ===== src/Validation.antt =====
-- pkg/flow/validation.go: what ParseFromJSONWithOptions checks of a decoded flow. A Go map or set is
-- a function or a list; errors keep their kind and their names, not their text.
pub mod Upstream
pub mod Search
pub mod Accepted
pub mod Branches
mod Tests
use echopoint_runner.Prelude.{
  ℕ, zero, suc, Bool, true, false, ◌&&◌, ◌||◌, not, List, [], ◌∷◌, ◌++◌, Option, none, some,
  is_some, length, if◌then◌else◌,
}
use echopoint_runner.Prelude.Text.{Text, text_eq}
use echopoint_runner.Prelude.Strings.{dot, split_two, trim_space, is_blank, contains}
use echopoint_runner.Value.{has_path_root}
use echopoint_runner.Engine.Graph.{Edge, RunWhen, always, update_text}
use echopoint_runner.Engine.State.{same_phase}

-- BranchData, as far as the checks read it: the targets of its cases, and its default.
pub record Branch : Type 0 where
  pub targets : List Text
  pub default : Text

-- What the checks read of a node. `assertion_references` and `resolved_references` are what
-- AssertionReferences and ResolvedReferences report for its kind.
pub record FlowNode : Type 0 where
  pub id : Text
  pub run_when : RunWhen
  pub input_schema : List Text
  pub output_schema : List Text
  pub assertion_references : List Text
  pub resolved_references : List Text
  pub branch : Option Branch

pub record ParsedFlow : Type 0 where
  pub nodes : List FlowNode
  pub edges : List Edge
  pub initial_inputs : List Text

pub record ParseOptions : Type 0 where
  pub allowed_initial_input_keys : List Text
  pub allow_unknown_initial_inputs : Bool

pub data ReferenceError : Type 0 where
  empty_reference bad_form : ReferenceError

pub data FlowError : Type 0 where
  invalid_reference : (node ref : Text) → ReferenceError → FlowError
  unknown_initial : (node ref key : Text) → FlowError
  source_unavailable : (node source ref : Text) → FlowError
  undeclared_output : (node key source : Text) → FlowError
  not_a_successor : (branch target : Text) → FlowError

pub data Parsed : Type 0 where
  parsed : (source key : Text) → Parsed
  unparsed : ReferenceError → Parsed

-- The trimmed names that are not empty: the loops over the initial inputs, and buildOutputSet.
unfoldable pub build_output_set : List Text → List Text
build_output_set [] = []
build_output_set (name ∷ names) =
    let rest = build_output_set names in
    if is_blank (trim_space name) then rest else trim_space name ∷ rest

abbrev pub NodeOutputs : Type 0
NodeOutputs = Text → Option (List Text)

unfoldable pub outputs_by_node : List FlowNode → NodeOutputs → NodeOutputs
unfolding build_output_set
outputs_by_node [] m = m
outputs_by_node (n ∷ ns) m = outputs_by_node ns (
    if is_blank (trim_space n.id)
    then m
    else update_text m (trim_space n.id) (some (build_output_set n.output_schema)))

-- One round of the loop of buildPredecessors.
unfoldable pub add_predecessor : (Text → List Text) → (source target : Text) → Text → List Text
add_predecessor m source target =
    if is_blank source || is_blank target then m else update_text m target (m target ++ source ∷ [])

unfoldable pub add_predecessors : List Edge → (Text → List Text) → Text → List Text
unfolding add_predecessor
add_predecessors [] m = m
add_predecessors (e ∷ es) m =
    add_predecessors es (add_predecessor m (trim_space e.source) (trim_space e.target))

unfoldable pub build_predecessors : List Edge → Text → List Text
unfolding add_predecessors
build_predecessors es = add_predecessors es (λ _. [])

-- append(pending, ps...), on a stack whose head is the last element of the slice
unfoldable pub push_each : List Text → List Text → List Text
push_each [] stack = stack
push_each (p ∷ ps) stack = push_each ps (p ∷ stack)

abbrev pub store_known : NodeOutputs → Text → Option (List Text) → NodeOutputs
store_known up a none = up
store_known up a (some outputs) = update_text up a (some outputs)

-- The loop of upstreamOutputs; `none` is a loop that has not ended.
unfoldable pub search :
    (Text → List Text)
    → NodeOutputs
    → ℕ
    → (stack visited : List Text) → NodeOutputs
    → Option NodeOutputs
unfolding push_each contains
search preds outputs fuel [] visited up = some up
search preds outputs zero (a ∷ stack) visited up = none
search preds outputs (suc fuel) (a ∷ stack) visited up =
    let skipped = search preds outputs fuel stack visited up in
    let taken =
      search preds outputs fuel (push_each (preds a) stack) (a ∷ visited)
        (store_known up a (outputs a)) in
    if contains visited a then skipped else taken

-- upstreamOutputs
unfoldable pub upstream_outputs : ℕ → Text → (Text → List Text) → NodeOutputs → Option NodeOutputs
unfolding search
upstream_outputs fuel id preds outputs =
    search preds outputs fuel (push_each (preds id) []) (id ∷ []) (λ _. none)

-- parseReference behind SplitN
unfoldable pub parse_parts : Text → List Text → Parsed
unfolding trim_space
parse_parts ref (source ∷ key ∷ []) =
    if is_blank (trim_space source) || is_blank (trim_space key)
    then unparsed bad_form
    else parsed (trim_space source) (trim_space key)
parse_parts ref _ = parsed [] ref

unfoldable pub parse_reference : Text → Parsed
unfolding parse_parts split_two
parse_reference ref =
    if is_blank (trim_space ref)
    then unparsed empty_reference
    else parse_parts (trim_space ref) (split_two dot (trim_space ref))

unfoldable pub validate_initial_input_reference :
    Text → Text → Text → List Text → ParseOptions → Option FlowError
validate_initial_input_reference id ref key inputs options =
    if contains inputs key || options.allow_unknown_initial_inputs
    then none
    else some (unknown_initial id ref key)

abbrev is_always : FlowNode → Bool
is_always n = same_phase n.run_when always

-- validateNodeOutputReference behind its lookup
unfoldable pub check_outputs : FlowNode → Text → Text → Text → Option (List Text) → Option FlowError
check_outputs n ref source key none =
    if is_always n then none else some (source_unavailable n.id source ref)
check_outputs n ref source key (some outputs) =
    if has_path_root key (contains outputs) || is_always n
    then none
    else some (undeclared_output n.id key source)

abbrev or_input : Bool → Option FlowError → Option FlowError
or_input input_rooted none = none
or_input input_rooted (some e) = if input_rooted then none else some e

-- The body of the loop of validateNodeReferences behind parseReference.
unfoldable pub check_parsed :
    FlowNode → Text → List Text → NodeOutputs → ParseOptions → Parsed → Option FlowError
unfolding validate_initial_input_reference check_outputs
check_parsed n ref inputs available options (unparsed e) = some (invalid_reference n.id ref e)
check_parsed n ref inputs available options (parsed source key) =
    let rooted = has_path_root (trim_space ref) (contains inputs) in
    if not (is_some (available source)) && rooted
    then none
    else if is_blank source
    then validate_initial_input_reference n.id ref key inputs options
    else or_input rooted (check_outputs n ref source key (available source))

unfoldable pub check_reference :
    FlowNode → List Text → NodeOutputs → ParseOptions → Text → Option FlowError
unfolding check_parsed parse_reference
check_reference n inputs available options ref =
    let checked = check_parsed n ref inputs available options (parse_reference ref) in
    if contains inputs (trim_space ref) then none else checked

abbrev pub first_error : Option FlowError → Option FlowError → Option FlowError
first_error none later = later
first_error (some e) later = some e

unfoldable pub check_references :
    FlowNode → List Text → NodeOutputs → ParseOptions → List Text → Option FlowError
unfolding check_reference
check_references n inputs available options [] = none
check_references n inputs available options (ref ∷ refs) =
    let later = check_references n inputs available options refs in
    first_error (check_reference n inputs available options ref) later

abbrev pub references : FlowNode → List Text
references n = (n.input_schema ++ n.assertion_references) ++ n.resolved_references

unfoldable pub validate_node_references :
    FlowNode → List Text → NodeOutputs → ParseOptions → Option FlowError
unfolding check_references
validate_node_references n inputs available options =
    check_references n inputs available options (references n)

-- successorsBySource[source] has target.
unfoldable pub is_successor : List Edge → Text → Text → Bool
unfolding trim_space text_eq
is_successor [] source target = false
is_successor (e ∷ es) source target =
    (not (is_blank (trim_space e.source))
      && not (is_blank (trim_space e.target))
      && text_eq (trim_space e.source) source
      && text_eq (trim_space e.target) target)
    || is_successor es source target

unfoldable pub validate_branch_target : List Edge → Text → Text → Option FlowError
unfolding is_successor
validate_branch_target es id target =
    if is_blank (trim_space target)
    then none
    else if is_successor es id (trim_space target)
    then none
    else some (not_a_successor id (trim_space target))

unfoldable pub check_targets : List Edge → Text → List Text → Option FlowError
unfolding validate_branch_target
check_targets es id [] = none
check_targets es id (target ∷ targets) =
    let later = check_targets es id targets in
    first_error (validate_branch_target es id target) later

-- The cases, then the default.
unfoldable pub check_branch : List Edge → Text → Option Branch → Option FlowError
unfolding check_targets
check_branch es id none = none
check_branch es id (some b) = check_targets es id (b.targets ++ b.default ∷ [])

unfoldable pub validate_branch_targets : List Edge → List FlowNode → Option FlowError
unfolding check_branch
validate_branch_targets es [] = none
validate_branch_targets es (n ∷ ns) =
    let later = validate_branch_targets es ns in first_error (check_branch es n.id n.branch) later

-- A node's check on the outcome of its search.
abbrev pub on_upstream : FlowNode → List Text → ParseOptions → Option NodeOutputs → Option FlowError
on_upstream n inputs options none = none
on_upstream n inputs options (some available) = validate_node_references n inputs available options

unfoldable pub validate_each :
    List Edge → List Text → NodeOutputs → ParseOptions → List FlowNode → Option FlowError
unfolding upstream_outputs build_predecessors
validate_each es inputs outputs options [] = none
validate_each es inputs outputs options (n ∷ ns) =
    let later = validate_each es inputs outputs options ns in
    first_error
      (on_upstream n inputs options
        (upstream_outputs (length es) (trim_space n.id) (build_predecessors es) outputs))
      later

-- The keys of `availableInitialInputs`.
abbrev pub initial_keys : ParsedFlow → ParseOptions → List Text
initial_keys f options = build_output_set (f.initial_inputs ++ options.allowed_initial_input_keys)

-- validateFlowReferences of a flow that is not nil
unfoldable pub validate_flow_references : ParsedFlow → ParseOptions → Option FlowError
unfolding validate_each validate_branch_targets outputs_by_node build_output_set
validate_flow_references f options =
    first_error
      (validate_each f.edges (initial_keys f options) (outputs_by_node f.nodes (λ _. none)) options
        f.nodes)
      (validate_branch_targets f.edges f.nodes)
