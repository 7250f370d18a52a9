-- ===== src/Engine/Skip.antt =====
-- Why a node does not run: upstreamFailure, isFullyDead, inputsReferenceSkippedNode and isRoutedAway
-- of pkg/engine/execution.go, and the skip reasons of pkg/engine/skipped.go.
use echopoint_runner.Prelude.{
  Bool, true, false, ◌&&◌, ◌||◌, not, List, [], ◌∷◌, Option, none, some, any, all, ltb, ◌==◌,
  if◌then◌else◌,
}
use echopoint_runner.Prelude.Text.{Text}
use echopoint_runner.Prelude.Strings.{contains, is_blank}
use echopoint_runner.Refs.{parse_data_ref, resolve_data_ref, collect_missing_inputs}
use echopoint_runner.Engine.Graph.{FlowEngine, Node}
use echopoint_runner.Engine.State.{
  State, SkipReason, Skipped, dependency_failed, dependency_skipped, routed_away_by_branch,
  missing_inputs, not_reachable, node_display_name,
}

unfoldable pub first_cause : List Node → (Text → Option Text) → Option Text
first_cause [] causes = none
first_cause (p ∷ ps) causes =
    let later = first_cause ps causes in
    elim (causes p.id) [ some cause ↦ some cause | none ↦ later ]

unfoldable pub upstream_failure : FlowEngine → Node → State → Option Text
unfolding first_cause
upstream_failure g n s = first_cause (g.node_edge_source n.ptr) s.failure_cause

abbrev pub nonempty : List Node → Bool
nonempty [] = false
nonempty (n ∷ ns) = true

unfoldable pub is_fully_dead : FlowEngine → Node → State → Bool
is_fully_dead g n s =
    let predecessors = g.node_edge_source n.ptr in
    nonempty predecessors
    && all (λ p. s.dead_edges p.id n.id || s.skipped_nodes p.id || s.failed_nodes p.id) predecessors

unfoldable pub is_routed_away : FlowEngine → Node → State → Bool
is_routed_away g n s =
    let predecessors = g.node_edge_source n.ptr in
    nonempty predecessors && all (λ p. s.dead_edges p.id n.id || s.routed_away p.id) predecessors

-- Whether the reference, as input assembly resolves it, belongs to a node.
abbrev of_node : Option (Text × Text) → Bool
of_node none = false
of_node (some (source, key)) = not (is_blank source)

abbrev names_skipped : State → Option (Text × Text) → Bool
names_skipped s none = false
names_skipped s (some (source, key)) = if is_blank source then false else s.skipped_nodes source

unfoldable pub references_skipped : State → Text → Bool
references_skipped s ref =
    names_skipped s (parse_data_ref ref) && of_node (resolve_data_ref ref s.all_outputs)

unfoldable pub inputs_reference_skipped_node : Node → State → Bool
unfolding references_skipped
inputs_reference_skipped_node n s = any (references_skipped s) n.input_schema

-- The byte order of sort.Strings, which is that of code points.
unfoldable pub text_le : Text → Text → Bool
text_le [] t = true
text_le (c ∷ s) [] = false
text_le (c ∷ s) (d ∷ t) = let rest = text_le s t in if c == d then rest else ltb c d

unfoldable pub insert_text : Text → List Text → List Text
unfolding text_le
insert_text t [] = t ∷ []
insert_text t (u ∷ us) = let rest = insert_text t us in if text_le t u then t ∷ u ∷ us else u ∷ rest

-- sort.Strings
unfoldable pub sort_texts : List Text → List Text
unfolding insert_text
sort_texts [] = []
sort_texts (t ∷ ts) = insert_text t (sort_texts ts)

-- The variables of the loop of describeSkipCause; the empty name is "".
pub record Blame : Type 0 where
  pub failed_dep : Text
  pub skipped_dep : Text
  pub seen : List Text

unfoldable pub blame_source : FlowEngine → State → Blame → Option (Text × Text) → Blame
blame_source g s b none = b
blame_source g s b (some (source, key)) =
    if is_blank source || contains b.seen source
    then b
    else let b' = record b { seen = source ∷ b.seen } in
      let skipped =
        if s.skipped_nodes source && is_blank b.skipped_dep
        then record b' { skipped_dep = node_display_name g source }
        else b' in
      elim (s.failure_cause source) [
        | some cause ↦ if is_blank b.failed_dep then record b' { failed_dep = cause } else skipped
        | none ↦ skipped
      ]

unfoldable pub blame_all : FlowEngine → State → Blame → List Text → Blame
unfolding blame_source
blame_all g s b [] = b
blame_all g s b (ref ∷ refs) =
    blame_all g s (blame_source g s b (resolve_data_ref ref s.all_outputs)) refs

-- The loop of routedAwayBy; `none` is its early return of false.
unfoldable pub routed_by : FlowEngine → Text → List Node → State → Text → Option Text
routed_by g id [] s by = if is_blank by then none else some by
routed_by g id (p ∷ ps) s by =
    let by' = if is_blank by then node_display_name g p.id else by in
    let after_dead = routed_by g id ps s by' in
    let after_skipped = routed_by g id ps s by in
    if s.failed_nodes p.id
    then none
    else if s.dead_edges p.id id
    then after_dead
    else if s.skipped_nodes p.id
    then after_skipped
    else none

unfoldable pub routed_away_by : FlowEngine → Node → State → Option Text
unfolding routed_by
routed_away_by g n s =
    let predecessors = g.node_edge_source n.ptr in
    if nonempty predecessors then routed_by g n.id predecessors s [] else none

abbrev cause_or_unreachable : Option Text → SkipReason
cause_or_unreachable none = not_reachable
cause_or_unreachable (some cause) =
    if is_blank cause then not_reachable else dependency_failed cause

abbrev any_missing : List Text → SkipReason → SkipReason
any_missing [] reason = reason
any_missing (ref ∷ refs) reason = missing_inputs

-- The switch of describeSkipCause.
unfoldable pub reason_of : Blame → List Text → Option Text → SkipReason
reason_of b missing cause =
    if not (is_blank b.failed_dep)
    then dependency_failed b.failed_dep
    else if not (is_blank b.skipped_dep)
    then dependency_skipped b.skipped_dep
    else any_missing missing (cause_or_unreachable cause)

-- describeSkipCause without the message, which the reason determines.
unfoldable pub describe_skip_cause : FlowEngine → Node → State → Skipped
unfolding sort_texts routed_away_by reason_of blame_all
describe_skip_cause g n s =
    let missing = sort_texts (collect_missing_inputs n.input_schema s.all_outputs) in
    let blame = blame_all g s (record { failed_dep = []; skipped_dep = []; seen = [] }) missing in
    record {
      reason = elim (routed_away_by g n s) [
        | some branch ↦ routed_away_by_branch branch
        | none ↦ reason_of blame missing (s.failure_cause n.id)
      ];
      missing = missing;
    }
