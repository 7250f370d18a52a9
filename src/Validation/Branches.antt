-- ===== src/Validation/Branches.antt =====
-- The routing targets that validateBranchTargets of pkg/flow/validation.go accepts.
use echopoint_runner.Prelude.{
  ◌≡◌, refl, sym, ap, ◌∙◌, subst, inl, inr, true, false, not, ◌&&◌, ◌||◌, List, [], ◌∷◌, ◌++◌, none,
  some, In, clash, Bool-cases, ||→⊎, &&→×, arith,
}
use echopoint_runner.Prelude.Text.{Text, text_eq, eq_of_text_eq}
use echopoint_runner.Prelude.Strings.{is_blank, trim_space}
use echopoint_runner.Engine.Graph.{Edge}
use echopoint_runner.Validation.{
  FlowNode, Branch, ParsedFlow, ParseOptions, is_successor, validate_branch_target, check_targets,
  check_branch, validate_branch_targets, validate_flow_references,
}
use echopoint_runner.Validation.Upstream.{links}
use echopoint_runner.Validation.Accepted.{first_error-none}

In-link :
    (s t : Text) (e : Edge) (es : List Edge)
    → not (is_blank (trim_space e.source))
        && not (is_blank (trim_space e.target))
        && text_eq (trim_space e.source) s
        && text_eq (trim_space e.target) t
      ≡ true
    → In (s, t) (links (e ∷ es))
In-link s t e es h =
    let (front, target) : ((not (is_blank (trim_space e.source))
            && not (is_blank (trim_space e.target))
            && text_eq (trim_space e.source) s)
          ≡ true)
        × (text_eq (trim_space e.target) t ≡ true) =
      &&→× _ _ h in
    let (both, source) : ((not (is_blank (trim_space e.source))
            && not (is_blank (trim_space e.target)))
          ≡ true)
        × (text_eq (trim_space e.source) s ≡ true) =
      &&→× _ _ front in
    let kept : (is_blank (trim_space e.source) || is_blank (trim_space e.target)) ≡ false =
      ground arith in
    rw kept (
      inl (
        ap (λ k. (k, t)) (sym (eq_of_text_eq _ s source))
        ∙ ap (λ k. (trim_space e.source, k)) (sym (eq_of_text_eq _ t target))))

links-later :
    (l : Text × Text) (e : Edge) (es : List Edge) → In l (links es) → In l (links (e ∷ es))
links-later l e es i =
    elim (Bool-cases (is_blank (trim_space e.source) || is_blank (trim_space e.target))) [
      | inl dropped ↦ rw dropped i
      | inr kept ↦ rw kept (inr i)
    ]

is_successor-In : (es : List Edge) (s t : Text) → is_successor es s t ≡ true → In (s, t) (links es)
unfolding is_successor
is_successor-In [] s t h = absurd (clash _ h refl)
is_successor-In (e ∷ es) s t h = elim (||→⊎ _ _ h) [
  | inl here ↦ In-link s t e es here
  | inr later ↦ links-later (s, t) e es (is_successor-In es s t later)
]

validate_branch_target-In :
    (es : List Edge) (id target : Text)
    → is_blank (trim_space target) ≡ false
    → validate_branch_target es id target ≡ none
    → In (id, trim_space target) (links es)
unfolding validate_branch_target
validate_branch_target-In es id target named h =
    elim (Bool-cases (is_successor es id (trim_space target))) [
      | inl reached ↦ is_successor-In es id (trim_space target) reached
      | inr unreached ↦ absurd (ground arith)
    ]

check_targets-In :
    (es : List Edge) (id : Text) (targets : List Text) (target : Text)
    → check_targets es id targets ≡ none
    → In target targets
    → is_blank (trim_space target) ≡ false
    → In (id, trim_space target) (links es)
unfolding check_targets
check_targets-In es id [] target h i named = absurd i
check_targets-In es id (u ∷ targets) target h i named =
    let (here, later) = first_error-none _ _ h in
    elim i [
      | inl e ↦
          validate_branch_target-In es id target named
            (subst (λ k. validate_branch_target es id k ≡ none) (sym e) here)
      | inr j ↦ check_targets-In es id targets target later j named
    ]

validate_branch_targets-In :
    (es : List Edge) (ns : List FlowNode) (n : FlowNode)
    → validate_branch_targets es ns ≡ none
    → In n ns
    → check_branch es n.id n.branch ≡ none
unfolding validate_branch_targets
validate_branch_targets-In es [] n h i = absurd i
validate_branch_targets-In es (m ∷ ns) n h i =
    let (here, later) = first_error-none _ _ h in
    elim i [
      | inl e ↦ subst (λ k. check_branch es k.id k.branch ≡ none) (sym e) here
      | inr j ↦ validate_branch_targets-In es ns n later j
    ]

-- In a flow that validateFlowReferences accepts, for each branch node and every target of its cases and
-- its default that is not blank, there is an edge whose ends, without the white space around them, are
-- the node's id and the target without the white space around it.
pub validate_flow_references-links :
    (f : ParsedFlow) (options : ParseOptions) (n : FlowNode) (b : Branch) (target : Text)
    → validate_flow_references f options ≡ none
    → In n f.nodes
    → n.branch ≡ some b
    → In target (b.targets ++ b.default ∷ [])
    → is_blank (trim_space target) ≡ false
    → In (n.id, trim_space target) (links f.edges)
unfolding validate_flow_references check_branch
validate_flow_references-links f options n b target accepted i e j named =
    let (each, branches) = first_error-none _ _ accepted in
    let checked = validate_branch_targets-In f.edges f.nodes n branches i in
    check_targets-In f.edges n.id (b.targets ++ b.default ∷ []) target
      (subst (λ k. check_branch f.edges n.id k ≡ none) e checked) j named
