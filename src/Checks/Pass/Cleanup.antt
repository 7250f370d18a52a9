-- ===== src/Checks/Pass/Cleanup.antt =====
-- What a failed node of pkg/engine/execution.go still yields: extractAvailableOutputs.
use echopoint_runner.Checks.Evaluate.{
  Assertion, AssertionResult, AssertError, ExtractError, NodeOutput, evaluate_assertions,
  extract_outputs, extract_available_outputs, available_onto, with_value, validate_outputs,
}
use echopoint_runner.Checks.Pass.Outcome.{Stored}
use echopoint_runner.Checks.Pass.{
  assertion_failed, unresolved_reference, missing_output, PassError, Returned, BaseResult,
  CheckedNode, effective, validated, merge_outputs, merge_produced, after_assertions,
  apply_assertions_and_outputs, extraction_failed,
}
use echopoint_runner.Checks.{Library}
use echopoint_runner.Prelude.Result.{Result, ok, err}
use echopoint_runner.Prelude.Strings.{lookup}
use echopoint_runner.Prelude.Text.{Text, text_eq, text_eq_refl}
use echopoint_runner.Prelude.{
  false, List, [], ◌∷◌, ◌++◌, Option, none, some, ◌≡◌, refl, subst, inl, inr, In, Bool-cases, clash,
}
use echopoint_runner.Value.{Value}

with_value-Stored :
    (name : Text) (r : Result ExtractError Value) (available : List (Text × Value)) (k : Text)
    → Stored available k
    → Stored (with_value name r available) k
unfolding lookup
with_value-Stored name (err e) available k h = h
with_value-Stored name (ok v) available k h = elim (Bool-cases (text_eq name k)) [
  | inl same ↦ rw same refl
  | inr other ↦ rw other h
]

with_value_own :
    (name : Text) (r : Result ExtractError Value) (available : List (Text × Value)) (v : Value)
    → r ≡ ok v
    → Stored (with_value name r available) name
unfolding lookup
with_value_own name r available v h = rw h (rw (text_eq_refl name) refl)

Stored-append :
    (outputs base : List (Text × Value)) (k : Text) → Stored outputs k → Stored (outputs ++ base) k
unfolding lookup
Stored-append [] base k h = absurd (clash false h refl)
Stored-append ((j, v) ∷ outputs) base k h = elim (Bool-cases (text_eq j k)) [
  | inl same ↦ rw same refl
  | inr other ↦ rw other (Stored-append outputs base k (rw other at h))
]

module _ {C : Type 0} (rc : C) where
  available_onto-keeps :
      (outputs : List (NodeOutput C)) (available : List (Text × Value)) (k : Text)
      → Stored available k
      → Stored (available_onto available outputs rc) k
  unfolding available_onto
  available_onto-keeps [] available k h = h
  available_onto-keeps (o ∷ outputs) available k h =
      available_onto-keeps outputs (with_value o.name (o.extractor.extract rc) available) k
        (with_value-Stored o.name (o.extractor.extract rc) available k h)

  available_onto-Stored :
      (outputs : List (NodeOutput C)) (available : List (Text × Value)) (o : NodeOutput C)
      (v : Value)
      → In o outputs
      → o.extractor.extract rc ≡ ok v
      → Stored (available_onto available outputs rc) o.name
  unfolding available_onto
  available_onto-Stored [] available o v i h = absurd i
  available_onto-Stored (p ∷ outputs) available o v (inl e) h =
      subst
        (λ q.
          Stored (available_onto (with_value q.name (q.extractor.extract rc) available) outputs rc)
            o.name)
        e
        (available_onto-keeps outputs (with_value o.name (o.extractor.extract rc) available) o.name
          (with_value_own o.name (o.extractor.extract rc) available v h))
  available_onto-Stored (p ∷ outputs) available o v (inr i) h =
      available_onto-Stored outputs (with_value p.name (p.extractor.extract rc) available) o v i h

  -- Each output whose extractor yields a value has one.
  abbrev pub Available : List (NodeOutput C) → List (Text × Value) → Type 0
  Available outputs produced =
      (o : NodeOutput C) (v : Value)
      → In o outputs
      → o.extractor.extract rc ≡ ok v
      → Stored produced o.name

  abbrev pub KeptAfter : List (NodeOutput C) → BaseResult → PassError → Type 0
  KeptAfter outputs b (assertion_failed e) = Available outputs b.outputs
  KeptAfter outputs b (unresolved_reference ref) = Unit
  KeptAfter outputs b (extraction_failed e) = Unit
  KeptAfter outputs b (missing_output name) = Unit

  abbrev pub Kept : List (NodeOutput C) → BaseResult × Option Returned → Type 0
  Kept outputs (b, some e) = KeptAfter outputs b e.about
  Kept outputs (b, none) = Unit

  validated-Kept :
      (outputs : List (NodeOutput C)) (b : BaseResult) (o : Option Text)
      → Kept outputs (validated b o)
  validated-Kept outputs b none = tt
  validated-Kept outputs b (some name) = tt

  merge_produced-Kept :
      (n : CheckedNode C) (b : BaseResult) (r : Result ExtractError (List (Text × Value)))
      → Kept n.outputs (merge_produced n b r)
  unfolding merge_produced
  merge_produced-Kept n b (err e) = tt
  merge_produced-Kept n b (ok produced) =
      let merged = merge_outputs b produced in
      validated-Kept n.outputs merged
        (validate_outputs n.output_schema (effective merged.outputs produced))

  after_assertions-Kept :
      (n : CheckedNode C) (outcome : List AssertionResult × Option AssertError) (b : BaseResult)
      → Kept n.outputs (after_assertions n rc outcome b)
  unfolding after_assertions
  after_assertions-Kept n (results, some e) b = λ o v i h.
      Stored-append (extract_available_outputs n.outputs rc) b.outputs o.name
        (unfold extract_available_outputs in available_onto-Stored n.outputs [] o v i h)
  after_assertions-Kept n (results, none) b =
      merge_produced-Kept n (record b { assertion_results = results })
        (extract_outputs n.outputs rc)

-- After a failed assertion the result still holds a value for each declared output whose extractor
-- yields one on the response, for the cleanup nodes.
pub apply_assertions_and_outputs-Kept :
    {C : Type 0} (lib : Library) (n : CheckedNode C) (assertions : List (Assertion C)) (rc : C)
    (b : BaseResult)
    → Kept rc n.outputs (apply_assertions_and_outputs lib n (ok assertions) (some rc) b)
unfolding apply_assertions_and_outputs
apply_assertions_and_outputs-Kept lib n assertions rc b =
    after_assertions-Kept rc n (evaluate_assertions lib assertions rc) b
