-- ===== src/Modules/Chains.antt =====
-- Accepted module graphs of pkg/engine/module_cycle_validation.go against the guards of
-- ExecuteModule of pkg/engine/engine.go.
use echopoint_runner.Prelude.{
  ℕ, zero, suc, ◌≡◌, refl, sym, ap, ◌∙◌, subst, inl, inr, false, List, [], ◌∷◌, ◌++◌, Option, none,
  some, In, Bool-cases, arith,
}
use mathlib.Core.List.{append-nil, append_assoc}
use echopoint_runner.Prelude.Text.{Text}
use echopoint_runner.Prelude.Strings.{trim_space, is_blank, contains}
use echopoint_runner.Modules.{
  Module, Modules, Decoded, Target, ModuleError, Verdict, accepted, unfinished, refused, found,
  detect_module_cycle, validate_module_graph, Admission, id_required, cycle, admitted, admit_module,
}
use echopoint_runner.Modules.Cached.{
  PlainWalk, then_verdict, plain_resolve, plain_checked, plain_enter, plain_visit, plain_each,
  plain_walk, validate_module_graph-plain_walk,
}

-- The flow ids along a path of module references that starts in a flow run with the inputs.
pub data Chain {D : Type 0} (resolver : Text → Option (Target D)) (decode : D → Option Decoded)
    : Modules → List Text → List Text → Type 0 where
  stop : {ms : Modules} {inputs : List Text} → Chain resolver decode ms inputs []
  follow :
      {ms below : Modules} {inputs keys ids : List Text} (m : Module)
      → In (some m) ms
      → is_blank (trim_space m.flow_id) ≡ false
      → plain_resolve resolver decode (trim_space m.flow_id) (inputs ++ m.bindings)
        ≡ found below keys
      → Chain resolver decode below keys ids
      → Chain resolver decode ms inputs (m.flow_id ∷ ids)

abbrev then_admit : Admission → (List Text → Admission) → Admission
then_admit (admitted stack) rest = rest stack
then_admit id_required rest = id_required
then_admit (cycle c) rest = cycle c

-- The guards of nested calls of ExecuteModule, each on the call stack that the one above set up.
abbrev pub admit_all : List Text → List Text → Admission
admit_all stack [] = admitted stack
admit_all stack (id ∷ ids) = then_admit (admit_module stack id) (λ s. admit_all s ids)

abbrev pub trimmed : List Text → List Text
trimmed [] = []
trimmed (id ∷ ids) = trim_space id ∷ trimmed ids

then_verdict-accepted :
    (v w : Verdict) → then_verdict v w ≡ accepted → (v ≡ accepted) × (w ≡ accepted)
then_verdict-accepted accepted w h = (refl, h)
then_verdict-accepted unfinished w h = cc
then_verdict-accepted (refused e) w h = cc

admit_module-admitted :
    (stack : List Text) (id : Text)
    → is_blank (trim_space id) ≡ false
    → contains stack (trim_space id) ≡ false
    → admit_module stack id ≡ admitted (stack ++ trim_space id ∷ [])
unfolding admit_module
admit_module-admitted stack id named unseen = rw (named, unseen)

module _ {D : Type 0} (resolver : Text → Option (Target D)) (decode : D → Option Decoded) where
  plain_each-In :
      (go : PlainWalk) (ms : Modules) (stack inputs : List Text) (m : Option Module)
      → plain_each resolver decode go ms stack inputs ≡ accepted
      → In m ms
      → plain_visit resolver decode go stack inputs m ≡ accepted
  plain_each-In go [] stack inputs m h i = absurd i
  plain_each-In go (n ∷ ms) stack inputs m h i =
      let (here, later) = then_verdict-accepted _ _ h in
      elim i [
        | inl e ↦ subst (λ k. plain_visit resolver decode go stack inputs k ≡ accepted) (sym e) here
        | inr j ↦ plain_each-In go ms stack inputs m later j
      ]

  plain_checked-accepted :
      (go : PlainWalk) (stack inputs : List Text) (m : Module) (e : Option ModuleError)
      (below : Modules) (keys : List Text)
      → plain_checked resolver decode go stack inputs m e ≡ accepted
      → plain_resolve resolver decode (trim_space m.flow_id) (inputs ++ m.bindings)
        ≡ found below keys
      → (e ≡ none) × (go below (stack ++ trim_space m.flow_id ∷ []) keys ≡ accepted)
  plain_checked-accepted go stack inputs m (some e) below keys h r = cc
  plain_checked-accepted go stack inputs m none below keys h r =
      (refl, sym (ap (plain_enter go stack (trim_space m.flow_id)) r) ∙ h)

  plain_visit-accepted :
      (go : PlainWalk) (stack inputs : List Text) (m : Module) (below : Modules) (keys : List Text)
      → plain_visit resolver decode go stack inputs (some m) ≡ accepted
      → is_blank (trim_space m.flow_id) ≡ false
      → plain_resolve resolver decode (trim_space m.flow_id) (inputs ++ m.bindings)
        ≡ found below keys
      → (detect_module_cycle stack (trim_space m.flow_id) ≡ none)
        × (go below (stack ++ trim_space m.flow_id ∷ []) keys ≡ accepted)
  plain_visit-accepted go stack inputs m below keys h named r =
      plain_checked-accepted go stack inputs m (detect_module_cycle stack (trim_space m.flow_id))
        below keys (rw named at h) r

  no_cycle-unseen :
      (stack : List Text) (id : Text)
      → detect_module_cycle stack id ≡ none
      → contains stack id ≡ false
  unfolding detect_module_cycle
  no_cycle-unseen stack id h = elim (Bool-cases (contains stack id)) [
    | inl seen ↦ absurd (ground arith)
    | inr unseen ↦ unseen
  ]

  plain_walk-admitted :
      (fuel : ℕ) (ms : Modules) (stack inputs ids : List Text)
      → plain_walk resolver decode fuel ms stack inputs ≡ accepted
      → Chain resolver decode ms inputs ids
      → admit_all stack ids ≡ admitted (stack ++ trimmed ids)
  unfolding plain_walk
  plain_walk-admitted fuel ms stack inputs ids h stop = ap admitted (sym (append-nil stack))
  plain_walk-admitted zero ms stack inputs ids h (follow m i named r rest) = cc
  plain_walk-admitted (suc fuel) ms stack inputs ids h
        (follow {below = below} {keys = keys} {ids = later} m i named r rest) =
      let go = plain_walk resolver decode fuel in
      let visited = plain_each-In go ms stack inputs (some m) h i in
      let (no_cycle, inside) = plain_visit-accepted go stack inputs m below keys visited named r in
      let guard = admit_module-admitted stack m.flow_id named (no_cycle-unseen stack _ no_cycle) in
      ap (λ a. then_admit a (λ s. admit_all s later)) guard
      ∙ plain_walk-admitted fuel below (stack ++ trim_space m.flow_id ∷ []) keys later inside rest
      ∙ ap admitted (append_assoc stack (trim_space m.flow_id ∷ []) (trimmed later))

  -- If validateModuleGraph accepts a flow on a call stack, then along every path of module references
  -- from it whose flow ids are not blank, the guards of ExecuteModule, called one inside the other, let
  -- each call through: no flow id repeats one of the stack or of the path.
  pub validate_module_graph-admitted :
      (fuel : ℕ) (root : Modules) (stack inputs ids : List Text)
      → validate_module_graph resolver decode fuel root stack inputs ≡ accepted
      → Chain resolver decode root inputs ids
      → admit_all stack ids ≡ admitted (stack ++ trimmed ids)
  validate_module_graph-admitted fuel root stack inputs ids h chain =
      plain_walk-admitted fuel root stack inputs ids
        (sym (validate_module_graph-plain_walk resolver decode fuel root stack inputs) ∙ h) chain
