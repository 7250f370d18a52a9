-- ===== src/Engine/Graph/Edges.antt =====
-- What NewFlowEngine of pkg/engine/engine.go promises of the graph it builds.
use echopoint_runner.Prelude.{
  ℕ, ◌+◌, ◌≡◌, refl, sym, ap, ◌∙◌, ◌&&◌, count_by, inl, inr, Bool, false, ◌==◌, ==_iff, List, [],
  ◌∷◌, ◌++◌, Option, none, some, All, In, All-append, length, length-append, Bool-cases,
  if◌then◌else◌, arith,
}
use echopoint_runner.Prelude.Text.{Text, text_eq, eq_of_text_eq}
use echopoint_runner.Engine.Graph.{
  Node, Edge, Flow, FlowEngine, Built, built, source_missing, target_missing, update, update_text,
  register_nodes, add_edge, connect, register_edges, new_flow_engine, count_ptr, empty_engine,
}

-- A node whose pointer none of the listed nodes has, and a list of nodes with different pointers.
abbrev pub Fresh : Node → List Node → Type 0
Fresh n = All (λ m. (n.ptr == m.ptr) ≡ false)

abbrev pub Apart : List Node → Type 0
Apart [] = Unit
Apart (n ∷ ns) = Fresh n ns × Apart ns

-- The two edge maps are transposes of each other, the counts are the numbers of incoming edges, and
-- only nodes of the flow stand at the ends of edges.
pub record WellFormed (g : FlowEngine) : Type 0 where
  pub balanced : (p q : ℕ) → count_ptr q (g.node_edge_output p) ≡ count_ptr p (g.node_edge_source q)
  pub counted : (q : ℕ) → g.node_edge_input q ≡ length (g.node_edge_source q)
  pub sources : (q : ℕ) → All (λ p. In p g.nodes) (g.node_edge_source q)
  pub targets : (p : ℕ) → All (λ q. In q g.nodes) (g.node_edge_output p)
  pub named : (id : Text) (n : Node) → g.node_map id ≡ some n → In n g.nodes

count_ptr-append :
    (p : ℕ) (xs ys : List Node) → count_ptr p (xs ++ ys) ≡ count_ptr p xs + count_ptr p ys
count_ptr-append p [] ys = omega arith
count_ptr-append p (x ∷ xs) ys = let rest = count_ptr-append p xs ys in omega arith

abbrev one_if : Bool → ℕ
one_if b = if b then 1 else 0

count_ptr-update :
    (f : ℕ → List Node) (k p q : ℕ) (t : Node)
    → count_ptr q (update f k (f k ++ t ∷ []) p)
      ≡ count_ptr q (f p) + (if k == p then one_if (t.ptr == q) else 0)
count_ptr-update f k p q t = elim (Bool-cases (k == p)) [
  | inl same ↦
      let e = (==_iff k p).0 same in rw (same, e) (count_ptr-append q (f p) (t ∷ []) ∙ omega arith)
  | inr other ↦ rw other (omega arith)
]

add_edge-balanced :
    (g : FlowEngine) (s t : Node) (p q : ℕ)
    → count_ptr q (g.node_edge_output p) ≡ count_ptr p (g.node_edge_source q)
    → count_ptr q ((add_edge g s t).node_edge_output p)
      ≡ count_ptr p ((add_edge g s t).node_edge_source q)
unfolding add_edge
add_edge-balanced g s t p q h =
    let out = count_ptr-update g.node_edge_output s.ptr p q t in
    let src = count_ptr-update g.node_edge_source t.ptr q p s in ground arith

add_edge-counted :
    (g : FlowEngine) (s t : Node) (q : ℕ)
    → g.node_edge_input q ≡ length (g.node_edge_source q)
    → g.node_edge_input t.ptr ≡ length (g.node_edge_source t.ptr)
    → (add_edge g s t).node_edge_input q ≡ length ((add_edge g s t).node_edge_source q)
unfolding add_edge
add_edge-counted g s t q h k =
    let sum = length-append (g.node_edge_source t.ptr) (s ∷ []) in
    elim (Bool-cases (t.ptr == q)) [ inl same ↦ rw same (omega arith) | inr other ↦ rw other h ]

add_edge-sources :
    (g : FlowEngine) (s t : Node) (q : ℕ)
    → In s g.nodes
    → All (λ p. In p g.nodes) (g.node_edge_source q)
    → All (λ p. In p g.nodes) (g.node_edge_source t.ptr)
    → All (λ p. In p g.nodes) ((add_edge g s t).node_edge_source q)
unfolding add_edge
add_edge-sources g s t q i h k = elim (Bool-cases (t.ptr == q)) [
  | inl same ↦
      rw same (All-append (λ p. In p g.nodes) (g.node_edge_source t.ptr) (s ∷ []) k (i, tt))
  | inr other ↦ rw other h
]

add_edge-targets :
    (g : FlowEngine) (s t : Node) (p : ℕ)
    → In t g.nodes
    → All (λ q. In q g.nodes) (g.node_edge_output p)
    → All (λ q. In q g.nodes) (g.node_edge_output s.ptr)
    → All (λ q. In q g.nodes) ((add_edge g s t).node_edge_output p)
unfolding add_edge
add_edge-targets g s t p i h k = elim (Bool-cases (s.ptr == p)) [
  | inl same ↦
      rw same (All-append (λ q. In q g.nodes) (g.node_edge_output s.ptr) (t ∷ []) k (i, tt))
  | inr other ↦ rw other h
]

add_edge-WellFormed :
    (g : FlowEngine) (s t : Node)
    → In s g.nodes
    → In t g.nodes
    → WellFormed g
    → WellFormed (add_edge g s t)
unfolding add_edge
add_edge-WellFormed g s t i j w = record {
  balanced = λ p q. add_edge-balanced g s t p q (w.balanced p q);
  counted = λ q. add_edge-counted g s t q (w.counted q) (w.counted t.ptr);
  sources = λ q. add_edge-sources g s t q i (w.sources q) (w.sources t.ptr);
  targets = λ p. add_edge-targets g s t p j (w.targets p) (w.targets s.ptr);
  named = w.named;
}

nodes-add_edge : (g : FlowEngine) (s t : Node) → (add_edge g s t).nodes ≡ g.nodes
unfolding add_edge
nodes-add_edge g s t = refl

node_map-add_edge : (g : FlowEngine) (s t : Node) → (add_edge g s t).node_map ≡ g.node_map
unfolding add_edge
node_map-add_edge g s t = refl

abbrev pub OnBuilt : (FlowEngine → Type 0) → Built → Type 0
OnBuilt P (built g) = P g
OnBuilt P (source_missing _ _) = Unit
OnBuilt P (target_missing _ _) = Unit

OnBuilt-map :
    (P Q : FlowEngine → Type 0) (b : Built)
    → ((g : FlowEngine) → P g → Q g)
    → OnBuilt P b
    → OnBuilt Q b
OnBuilt-map P Q (built g) f h = f g h
OnBuilt-map P Q (source_missing _ _) f h = tt
OnBuilt-map P Q (target_missing _ _) f h = tt

connect-built :
    (P : FlowEngine → Type 0) (e : Edge) (source target : Option Node) (g : FlowEngine)
    (go_on : FlowEngine → Built)
    → ((s t : Node) → source ≡ some s → target ≡ some t → OnBuilt P (go_on (add_edge g s t)))
    → OnBuilt P (connect e source target g go_on)
unfolding connect
connect-built P e none target g go_on h = tt
connect-built P e (some s) none g go_on h = tt
connect-built P e (some s) (some t) g go_on h = h s t refl refl

abbrev is_ptr : ℕ → Option Node → Bool
is_ptr p none = false
is_ptr p (some n) = n.ptr == p

-- An edge of the flow that leads from one node to another, by the names of its ends.
abbrev pub joins : (Text → Option Node) → (p q : ℕ) → Edge → Bool
joins named p q e = is_ptr p (named e.source) && is_ptr q (named e.target)

-- The graph of a list of edges between named nodes, beside the edges that it had before.
abbrev Extends : List Edge → FlowEngine → FlowEngine → Type 0
Extends es g g' =
    (p q : ℕ)
    → count_ptr q (g'.node_edge_output p)
      ≡ count_ptr q (g.node_edge_output p) + count_by (joins g.node_map p q) es

-- What an edge adds between two nodes.
add_edge-count_ptr :
    (g : FlowEngine) (s t : Node) (p q : ℕ)
    → count_ptr q ((add_edge g s t).node_edge_output p)
      ≡ count_ptr q (g.node_edge_output p) + one_if ((s.ptr == p) && (t.ptr == q))
unfolding add_edge
add_edge-count_ptr g s t p q =
    count_ptr-update g.node_edge_output s.ptr p q t
    ∙ elim (Bool-cases (s.ptr == p)) [ inl same ↦ rw same refl | inr other ↦ rw other refl ]

-- What the loop over the edges makes of an engine.
record Registered (es : List Edge) (g g' : FlowEngine) : Type 0 where
  well_formed : WellFormed g'
  same_nodes : g'.nodes ≡ g.nodes
  same_names : g'.node_map ≡ g.node_map
  extends : Extends es g g'

regroup : (a b c : ℕ) → (a + b) + c ≡ a + (b + c)
regroup a b c = omega arith

add_edge-Registered :
    (e : Edge) (es : List Edge) (g g' : FlowEngine) (s t : Node)
    → g.node_map e.source ≡ some s
    → g.node_map e.target ≡ some t
    → Registered es (add_edge g s t) g'
    → Registered (e ∷ es) g g'
add_edge-Registered e es g g' s t found_s found_t r = record {
  well_formed = r.well_formed;
  same_nodes = r.same_nodes ∙ nodes-add_edge g s t;
  same_names = r.same_names ∙ node_map-add_edge g s t;
  extends = λ p q.
      let more =
        r.extends p q
        ∙ ap (λ m. count_ptr q ((add_edge g s t).node_edge_output p) + count_by (joins m p q) es)
            (node_map-add_edge g s t) in
      let one = add_edge-count_ptr g s t p q in
      rw (found_s, found_t)
        (more
          ∙ ap (λ k. k + count_by (joins g.node_map p q) es) one
          ∙ regroup (count_ptr q (g.node_edge_output p)) (one_if ((s.ptr == p) && (t.ptr == q)))
              (count_by (joins g.node_map p q) es));
}

register_edges-Registered :
    (es : List Edge) (g : FlowEngine)
    → WellFormed g
    → OnBuilt (Registered es g) (register_edges es g)
unfolding register_edges
register_edges-Registered [] g w = record {
  well_formed = w;
  same_nodes = refl;
  same_names = refl;
  extends = λ p q. omega arith;
}
register_edges-Registered (e ∷ es) g w =
    connect-built (Registered (e ∷ es) g) e (g.node_map e.source) (g.node_map e.target) g
      (λ g'. register_edges es g')
      λ s t found_s found_t.
        OnBuilt-map (Registered es (add_edge g s t)) (Registered (e ∷ es) g)
          (register_edges es (add_edge g s t))
          (λ g' r. add_edge-Registered e es g g' s t found_s found_t r)
          (register_edges-Registered es (add_edge g s t)
            (add_edge-WellFormed g s t (w.named e.source s found_s) (w.named e.target t found_t) w))

register_nodes-In :
    (ns all : List Node) (node_map : Text → Option Node)
    → ((n : Node) → In n ns → In n all)
    → ((id : Text) (n : Node) → node_map id ≡ some n → In n all)
    → (id : Text) (n : Node) → register_nodes ns node_map id ≡ some n
    → In n all
unfolding register_nodes
register_nodes-In [] all node_map sub h = h
register_nodes-In (m ∷ ns) all node_map sub h =
    register_nodes-In ns all (update_text node_map m.id (some m)) (λ n i. sub n (inr i))
      λ id n e. elim (Bool-cases (text_eq m.id id)) [
        | inl same ↦ let e' : some m ≡ some n = rw same at e in sub n (inl (cc))
        | inr other ↦ h id n (rw other at e)
      ]

register_nodes-id :
    (ns : List Node) (node_map : Text → Option Node)
    → ((id : Text) (n : Node) → node_map id ≡ some n → n.id ≡ id)
    → (id : Text) (n : Node) → register_nodes ns node_map id ≡ some n
    → n.id ≡ id
unfolding register_nodes
register_nodes-id [] node_map h = h
register_nodes-id (m ∷ ns) node_map h =
    register_nodes-id ns (update_text node_map m.id (some m)) λ id n e.
      elim (Bool-cases (text_eq m.id id)) [
        | inl same ↦
            let e' : some m ≡ some n = rw same at e in
            let is_m : m ≡ n = cc in ap (λ k. k.id) (sym is_m) ∙ eq_of_text_eq m.id id same
        | inr other ↦ h id n (rw other at e)
      ]

none_before : (n : ℕ) → 0 + n ≡ n
none_before n = omega arith

-- The engine of a flow: a well-formed graph on its nodes, whose names are their ids, with an edge
-- from one node to another for each edge of the flow between them.
pub record IsGraphOf (f : Flow) (g : FlowEngine) : Type 0 where
  pub well_formed : WellFormed g
  pub same_nodes : g.nodes ≡ f.nodes
  pub ids : (id : Text) (n : Node) → g.node_map id ≡ some n → n.id ≡ id
  pub edges :
      (p q : ℕ) → count_ptr q (g.node_edge_output p) ≡ count_by (joins g.node_map p q) f.edges

-- For every flow that NewFlowEngine accepts, the engine has the flow's nodes, its successor and
-- predecessor maps are transposes of each other with multiplicity, nodeEdgeInput counts the
-- incoming edges of each node, only nodes of the flow are at the ends of edges, and one node stands
-- among another's successors as often as the flow has an edge whose source leads to the other and whose
-- target leads to the one in the node map, which leads from a name only to a node with that id.
pub new_flow_engine-IsGraphOf : (f : Flow) → OnBuilt (IsGraphOf f) (new_flow_engine f)
unfolding new_flow_engine
new_flow_engine-IsGraphOf f =
    OnBuilt-map (Registered f.edges (empty_engine f.nodes)) (IsGraphOf f)
      (register_edges f.edges (empty_engine f.nodes))
      (λ g r. record {
        well_formed = r.well_formed;
        same_nodes = r.same_nodes;
        ids = λ id n e.
            register_nodes-id f.nodes (λ _. none) (λ id n e. cc) id n
              (sym (ap (λ m. m id) r.same_names) ∙ e);
        edges = λ p q.
            r.extends p q
            ∙ none_before (count_by (joins (empty_engine f.nodes).node_map p q) f.edges)
            ∙ ap (λ m. count_by (joins m p q) f.edges) (sym r.same_names);
      })
      (register_edges-Registered f.edges (empty_engine f.nodes) (record {
        balanced = λ p q. refl;
        counted = λ q. refl;
        sources = λ q. tt;
        targets = λ p. tt;
        named = register_nodes-In f.nodes f.nodes (λ _. none) (λ n i. i) (λ id n e. cc);
      }))
