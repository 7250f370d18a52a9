-- ===== src/Validation/Accepted.antt =====
-- What holds of a flow that validateFlowReferences of pkg/flow/validation.go accepts.
use echopoint_runner.Prelude.{
  ◌≡◌, refl, sym, ap, ◌∙◌, subst, ◌⊎◌, inl, inr, Bool, true, false, ◌||◌, List, [], ◌∷◌, Option,
  none, some, In, clash, length, Bool-cases, arith,
}
use echopoint_runner.Prelude.Text.{Text}
use echopoint_runner.Prelude.Strings.{contains, is_blank, trim_space}
use echopoint_runner.Value.{has_path_root}
use echopoint_runner.Engine.Graph.{Edge, always}
use echopoint_runner.Engine.State.{same_phase}
use echopoint_runner.Validation.{
  NodeOutputs, FlowNode, ParsedFlow, ParseOptions, FlowError, Parsed, parsed, unparsed, first_error,
  build_predecessors, upstream_outputs, outputs_by_node, initial_keys, references, parse_reference,
  check_outputs, validate_initial_input_reference, check_parsed, check_reference, check_references,
  validate_node_references, validate_each, validate_flow_references, on_upstream,
}
use echopoint_runner.Validation.Upstream.{links}
use echopoint_runner.Validation.Search.{IsUpstream, upstream_outputs-IsUpstream}

-- The three ways a reference of a node has a source: a path into a flow input; a plain name that is
-- a flow input, or may be unknown; an output that a node declares.
abbrev pub Grounded : List Text → NodeOutputs → ParseOptions → Text → Type 0
Grounded inputs available options ref =
    (has_path_root (trim_space ref) (contains inputs) ≡ true)
    ⊎ ((key : Text) × (parse_reference ref ≡ parsed [] key)
        × ((contains inputs key || options.allow_unknown_initial_inputs) ≡ true))
    ⊎ ((source : Text) × (key : Text) × (o : List Text) × (parse_reference ref ≡ parsed source key)
        × (available source ≡ some o)
        × (has_path_root key (contains o) ≡ true))

abbrev is_late : FlowNode → Bool
is_late n = same_phase n.run_when always

check_outputs-some :
    (n : FlowNode) (ref source key : Text) (found : Option (List Text))
    → is_late n ≡ false
    → check_outputs n ref source key found ≡ none
    → (o : List Text) × (found ≡ some o) × (has_path_root key (contains o) ≡ true)
unfolding check_outputs
check_outputs-some n ref source key none early h = absurd (ground arith)
check_outputs-some n ref source key (some o) early h =
    elim (Bool-cases (has_path_root key (contains o))) [
      | inl rooted ↦ (o, refl, rooted)
      | inr unrooted ↦ absurd (ground arith)
    ]

pub first_error-none :
    (here later : Option FlowError) → first_error here later ≡ none → (here ≡ none) × (later ≡ none)
first_error-none none later h = (refl, h)
first_error-none (some e) later h = cc

blank_nil : (t : Text) → is_blank t ≡ true → t ≡ []
blank_nil [] h = refl
blank_nil (c ∷ t) h = absurd (clash _ h refl)

module _ (n : FlowNode) (inputs : List Text) (available : NodeOutputs) (options : ParseOptions)
    (early : is_late n ≡ false) where
  check_parsed-Grounded :
      (ref : Text) (p : Parsed)
      → parse_reference ref ≡ p
      → has_path_root (trim_space ref) (contains inputs) ≡ false
      → check_parsed n ref inputs available options p ≡ none
      → Grounded inputs available options ref
  unfolding check_parsed validate_initial_input_reference
  check_parsed-Grounded ref (unparsed e) eq unrooted h = cc
  check_parsed-Grounded ref (parsed source key) eq unrooted h =
      elim (Bool-cases (is_blank source)) [
        | inl blank ↦
            let nil = blank_nil source blank in
            inr (inl (key, eq ∙ ap (λ s. parsed s key) nil, ground arith))
        | inr named ↦
            let (o, found, rooted) =
              check_outputs-some n ref source key (available source) early (ground arith) in
            inr (inr (source, key, o, eq, found, rooted))
      ]

  unrooted_key : (t : Text) → has_path_root t (contains inputs) ≡ false → contains inputs t ≡ false
  unfolding has_path_root
  unrooted_key t r = ground arith

  check_reference-Grounded :
      (ref : Text)
      → check_reference n inputs available options ref ≡ none
      → Grounded inputs available options ref
  unfolding check_reference
  check_reference-Grounded ref h =
      elim (Bool-cases (has_path_root (trim_space ref) (contains inputs))) [
        | inl rooted ↦ inl rooted
        | inr unrooted ↦
            let no_key = unrooted_key (trim_space ref) unrooted in
            check_parsed-Grounded ref (parse_reference ref) refl unrooted (rw no_key at h)
      ]

  check_references-Grounded :
      (refs : List Text) (ref : Text)
      → check_references n inputs available options refs ≡ none
      → In ref refs
      → Grounded inputs available options ref
  unfolding check_references
  check_references-Grounded [] ref h i = absurd i
  check_references-Grounded (r ∷ refs) ref h i =
      let (here, later) = first_error-none _ _ h in
      elim i [
        | inl e ↦
            subst (Grounded inputs available options) (sym e) (check_reference-Grounded r here)
        | inr j ↦ check_references-Grounded refs ref later j
      ]

-- The source of a reference of the flow, as a node's declared output upstream of `n`.
abbrev pub Sourced : ParsedFlow → ParseOptions → FlowNode → Text → Type 0
Sourced f options n ref =
    (has_path_root (trim_space ref) (contains (initial_keys f options)) ≡ true)
    ⊎ ((key : Text) × (parse_reference ref ≡ parsed [] key)
        × ((contains (initial_keys f options) key || options.allow_unknown_initial_inputs) ≡ true))
    ⊎ ((source : Text) × (key : Text) × (o : List Text) × (parse_reference ref ≡ parsed source key)
        × IsUpstream (links f.edges) (outputs_by_node f.nodes (λ _. none)) (trim_space n.id) source
            o
        × (has_path_root key (contains o) ≡ true))

validate_each-In :
    (es : List Edge) (inputs : List Text) (outputs : NodeOutputs) (options : ParseOptions)
    (ns : List FlowNode) (n : FlowNode)
    → validate_each es inputs outputs options ns ≡ none
    → In n ns
    → on_upstream n inputs options
        (upstream_outputs (length es) (trim_space n.id) (build_predecessors es) outputs)
      ≡ none
unfolding validate_each
validate_each-In es inputs outputs options [] n h i = absurd i
validate_each-In es inputs outputs options (m ∷ ns) n h i =
    let (here, later) = first_error-none _ _ h in
    elim i [
      | inl e ↦
          subst
            (λ k.
              on_upstream k inputs options
                (upstream_outputs (length es) (trim_space k.id) (build_predecessors es) outputs)
              ≡ none)
            (sym e) here
      | inr j ↦ validate_each-In es inputs outputs options ns n later j
    ]

-- In a flow that validateFlowReferences accepts, every reference of a node that is not an always node
-- is rooted at a flow input, or is a plain name that is a flow input or may be unknown, or names an
-- output that a node with an edge path to this one declares.
pub validate_flow_references-Sourced :
    (f : ParsedFlow) (options : ParseOptions) (n : FlowNode) (ref : Text)
    → validate_flow_references f options ≡ none
    → In n f.nodes
    → same_phase n.run_when always ≡ false
    → In ref (references n)
    → Sourced f options n ref
unfolding validate_flow_references validate_node_references
validate_flow_references-Sourced f options n ref accepted i early j =
    let outputs = outputs_by_node f.nodes (λ _. none) in
    let inputs = initial_keys f options in
    let (each, branches) = first_error-none _ _ accepted in
    let (up, ends, exact) = upstream_outputs-IsUpstream f.edges outputs (trim_space n.id) in
    let checked = validate_each-In f.edges inputs outputs options f.nodes n each i in
    let grounded =
      check_references-Grounded n inputs up options early (references n) ref
        (sym (ap (on_upstream n inputs options) ends) ∙ checked) j in
    elim grounded [
      | inl rooted ↦ inl rooted
      | inr (inl plain) ↦ inr (inl plain)
      | inr (inr (source, key, o, p, found, rooted)) ↦
          inr (inr (source, key, o, p, (exact source o).0 found, rooted))
    ]
