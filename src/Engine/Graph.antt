-- ===== src/Engine/Graph.antt =====
-- NewFlowEngine of pkg/engine/engine.go over pkg/flow/flow.go and pkg/edge/edge.go. A Go map that is
-- keyed by a node is keyed here by `ptr`, the identity of the node's pointer.
pub mod Edges
use echopoint_runner.Prelude.{
  ℕ, zero, suc, ◌+◌, ◌==◌, Bool, List, [], ◌∷◌, ◌++◌, Option, none, some, count_by, if◌then◌else◌,
}
use echopoint_runner.Prelude.Text.{Text, text_eq}

-- spi.RunWhen is any text of the flow definition.
pub data RunWhen : Type 0 where
  on_success always : RunWhen
  other : Text → RunWhen

-- What the engine reads of a node.
pub record Node : Type 0 where
  pub ptr : ℕ
  pub id : Text
  pub display_name : Text
  pub kind : Text
  pub run_when : RunWhen
  pub input_schema : List Text

pub record Edge : Type 0 where
  pub id : Text
  pub source : Text
  pub target : Text

pub record Flow : Type 0 where
  pub name : Text
  pub nodes : List Node
  pub edges : List Edge

pub record FlowEngine : Type 0 where
  pub nodes : List Node
  pub node_map : Text → Option Node
  pub node_edge_output : ℕ → List Node
  pub node_edge_source : ℕ → List Node
  pub node_edge_input : ℕ → ℕ

pub data Built : Type 0 where
  built : FlowEngine → Built
  source_missing : (source target : Text) → Built
  target_missing : (target source : Text) → Built

-- m[k] = v
abbrev pub update {ℓ} : {V : Type ℓ} → (ℕ → V) → ℕ → V → ℕ → V
update f k v j = if k == j then v else f j

abbrev pub update_text {ℓ} : {V : Type ℓ} → (Text → V) → Text → V → Text → V
update_text f k v j = if text_eq k j then v else f j

-- The loop over the nodes: the last node of a name is the one that edges reach.
unfoldable pub register_nodes : List Node → (Text → Option Node) → Text → Option Node
register_nodes [] node_map = node_map
register_nodes (n ∷ ns) node_map = register_nodes ns (update_text node_map n.id (some n))

abbrev pub empty_engine : List Node → FlowEngine
empty_engine nodes = record {
  nodes = nodes;
  node_map = register_nodes nodes (λ _. none);
  node_edge_output = λ _. [];
  node_edge_source = λ _. [];
  node_edge_input = λ _. 0;
}

-- The three writes for one edge.
unfoldable pub add_edge : FlowEngine → Node → Node → FlowEngine
add_edge g source target = record g {
  node_edge_output =
      update g.node_edge_output source.ptr (g.node_edge_output source.ptr ++ target ∷ []);
  node_edge_source =
      update g.node_edge_source target.ptr (g.node_edge_source target.ptr ++ source ∷ []);
  node_edge_input = update g.node_edge_input target.ptr (g.node_edge_input target.ptr + 1);
}

-- The rest of the loop over the edges, behind the two lookups.
unfoldable pub connect :
    Edge → Option Node → Option Node → FlowEngine → (FlowEngine → Built) → Built
unfolding add_edge
connect e none target g go_on = source_missing e.source e.target
connect e (some source) none g go_on = target_missing e.target e.source
connect e (some source) (some target) g go_on = go_on (add_edge g source target)

unfoldable pub register_edges : List Edge → FlowEngine → Built
unfolding connect
register_edges [] g = built g
register_edges (e ∷ es) g =
    connect e (g.node_map e.source) (g.node_map e.target) g (λ g'. register_edges es g')

unfoldable pub new_flow_engine : Flow → Built
unfolding register_edges register_nodes
new_flow_engine f = register_edges f.edges (empty_engine f.nodes)

-- How often a node stands in a list.
abbrev pub count_ptr : ℕ → List Node → ℕ
count_ptr p = count_by (λ n. n.ptr == p)
