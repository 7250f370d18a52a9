-- ===== src/Validation/Tests.antt =====
-- A flow with a branch, and the theorems on accepted flows at it.
use echopoint_runner.Prelude.{
  ◌≡◌, refl, ◌↔◌, inl, inr, false, List, [], ◌∷◌, Option, none, some, In, length,
}
use echopoint_runner.Prelude.Text.{Text, codes, text_eq}
use echopoint_runner.Prelude.Strings.{is_blank, trim_space, contains, split_two}
use echopoint_runner.Value.{has_path_root}
use echopoint_runner.Engine.Graph.{Edge, on_success}
use echopoint_runner.Validation.{
  FlowNode, Branch, ParsedFlow, ParseOptions, NodeOutputs, source_unavailable,
  validate_flow_references, outputs_by_node, build_predecessors, upstream_outputs,
  validate_node_references,
}
use echopoint_runner.Validation.Upstream.{links}
use echopoint_runner.Validation.Search.{IsUpstream, upstream_outputs-IsUpstream}
use echopoint_runner.Validation.Accepted.{Sourced, validate_flow_references-Sourced}
use echopoint_runner.Validation.Branches.{validate_flow_references-links}

abbrev step : Text → List Text → List Text → Option Branch → FlowNode
step id inputs outputs branch = record {
  id = id;
  run_when = on_success;
  input_schema = inputs;
  output_schema = outputs;
  assertion_references = [];
  resolved_references = [];
  branch = branch;
}

abbrev edge : Text → Text → Edge
edge source target = record { id = []; source = source; target = target }

abbrev login : FlowNode
login = step (codes "login") (codes "user.name" ∷ []) (codes "token" ∷ []) none

abbrev choose : Branch
choose = record { targets = codes "show" ∷ []; default = [] }

abbrev pick : FlowNode
pick = step (codes "pick") [] [] (some choose)

abbrev show : FlowNode
show = step (codes "show") (codes "login.token.raw" ∷ []) [] none

abbrev flow : ParsedFlow
flow = record {
  nodes = show ∷ login ∷ pick ∷ [];
  edges = edge (codes "login") (codes " pick") ∷ edge (codes "pick") (codes "show") ∷ [];
  initial_inputs = codes "user" ∷ [];
}

abbrev strict : ParseOptions
strict = record { allowed_initial_input_keys = []; allow_unknown_initial_inputs = false }

accepted : validate_flow_references flow strict ≡ none
unfolding validate_flow_references text_eq has_path_root trim_space contains split_two
    validate_node_references
accepted = refl

-- A reference to a node that no path leads from.
rejected :
    validate_flow_references (record flow { edges = [] }) strict
    ≡ some (source_unavailable (codes "show") (codes "login") (codes "login.token.raw"))
unfolding validate_flow_references text_eq has_path_root trim_space contains split_two
    validate_node_references
rejected = refl

validate_flow_references-Sourced_example : Sourced flow strict show (codes "login.token.raw")
validate_flow_references-Sourced_example =
    validate_flow_references-Sourced flow strict show (codes "login.token.raw") accepted (inl refl)
      refl (inl refl)

show_named : is_blank (trim_space (codes "show")) ≡ false
unfolding trim_space
show_named = refl

validate_flow_references-links_example :
    In (codes "pick", trim_space (codes "show")) (links flow.edges)
validate_flow_references-links_example =
    validate_flow_references-links flow strict pick choose (codes "show") accepted
      (inr (inr (inl refl))) refl (inl refl) show_named

upstream_outputs-IsUpstream_example :
    (up : NodeOutputs) × (upstream_outputs
        (length flow.edges)
        (codes "show")
        (build_predecessors flow.edges)
        (outputs_by_node flow.nodes (λ _. none))
      ≡ some up)
    × ((a : Text) (o : List Text)
        → (up a ≡ some o)
          ↔ IsUpstream
              (links flow.edges)
              (outputs_by_node flow.nodes (λ _. none))
              (codes "show")
              a
              o)
upstream_outputs-IsUpstream_example =
    upstream_outputs-IsUpstream flow.edges (outputs_by_node flow.nodes (λ _. none)) (codes "show")
