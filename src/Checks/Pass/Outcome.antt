-- ===== src/Checks/Pass/Outcome.antt =====
-- What a node's result holds after applyAssertionsAndOutputs of pkg/engine/execution.go.
use echopoint_runner.Checks.Evaluate.First.{Holds, numbered, evaluate_assertions-Verdict}
use echopoint_runner.Checks.Evaluate.{
  Assertion, AssertionResult, AssertError, ExtractError, extract_outputs, validate_outputs,
}
use echopoint_runner.Checks.Pass.{
  Returned, user_code, code_or, BaseResult, CheckedNode, effective, validated, fail, merge_outputs,
  merge_produced, after_assertions, apply_assertions_and_outputs,
}
use echopoint_runner.Checks.{Library}
use echopoint_runner.Prelude.Result.{Result, ok, err}
use echopoint_runner.Prelude.Strings.{lookup}
use echopoint_runner.Prelude.Text.{Text}
use echopoint_runner.Prelude.{
  true, List, [], ◌∷◌, ◌++◌, Option, none, some, is_some, ◌≡◌, refl, sym, ap, subst, All, inl, inr,
  Bool-cases, clash,
}
use echopoint_runner.Value.{Value}

abbrev pub Stored : List (Text × Value) → Text → Type 0
Stored outputs name = is_some (lookup name outputs) ≡ true

validate_outputs-Stored :
    (names : List Text) (produced : List (Text × Value))
    → validate_outputs names produced ≡ none
    → All (Stored produced) names
unfolding validate_outputs
validate_outputs-Stored [] produced h = tt
validate_outputs-Stored (name ∷ names) produced h =
    elim (Bool-cases (is_some (lookup name produced))) [
      | inl there ↦ (there, validate_outputs-Stored names produced (rw there at h))
      | inr gone ↦ absurd (clash true refl (ap is_some (rw gone at h)))
    ]

effective-append :
    (produced base : List (Text × Value)) → effective (produced ++ base) produced ≡ produced ++ base
effective-append [] [] = refl
effective-append [] (o ∷ base) = refl
effective-append (o ∷ produced) base = refl

-- What the pass promises of the result and the error that it returns: with no error the assertions
-- hold, their results are recorded and each name of the schema has a value. An error is about the one
-- that the result stores, whose own code, if it has one, stands before that of the returned error.
abbrev pub Delivered :
    Type 0 → List AssertionResult → List Text → BaseResult × Option Returned → Type 0
Delivered Passed results schema (b, none) =
    Passed × (b.assertion_results ≡ results) × All (Stored b.outputs) schema
Delivered Passed results schema (b, some e) =
    (b.error ≡ some e.about) × (b.error_code ≡ some (code_or e.code (user_code e.about)))

validated-Delivered :
    {Passed : Type 0} (b : BaseResult) (names : List Text) (o : Option Text)
    → Passed
    → validate_outputs names b.outputs ≡ o
    → Delivered Passed b.assertion_results names (validated b o)
validated-Delivered b names none p h = (p, refl, validate_outputs-Stored names b.outputs h)
validated-Delivered b names (some name) p h = (unfold fail in refl, unfold fail in refl)

merge_produced-Delivered :
    {Passed C : Type 0} (n : CheckedNode C) (b : BaseResult)
    (r : Result ExtractError (List (Text × Value)))
    → Passed
    → Delivered Passed b.assertion_results n.output_schema (merge_produced n b r)
unfolding merge_produced
merge_produced-Delivered n b (err e) p = (refl, refl)
merge_produced-Delivered {Passed} n b (ok produced) p =
    let merged = merge_outputs b produced in
    let all = effective-append produced b.outputs in
    subst
      (λ o.
        Delivered Passed b.assertion_results n.output_schema
          (validated merged (validate_outputs n.output_schema o)))
      (sym all)
      (validated-Delivered merged n.output_schema (validate_outputs n.output_schema merged.outputs)
        p refl)

-- Where a node's result has a response and the references of its assertions have values: if the pass
-- over it returns no error, every assertion holds on the response, the result records all of them in
-- order, and every name of the output schema has a value in it; if it returns an error, the result
-- stores the error that the returned one is about, with its own code, or else with the returned one's.
pub apply_assertions_and_outputs-Delivered :
    {C : Type 0} (lib : Library) (n : CheckedNode C) (assertions : List (Assertion C)) (rc : C)
    (b : BaseResult)
    → Delivered
        (All (Holds lib rc) assertions)
        (numbered lib rc 0 assertions)
        n.output_schema
        (apply_assertions_and_outputs lib n (ok assertions) (some rc) b)
unfolding apply_assertions_and_outputs
apply_assertions_and_outputs-Delivered lib n assertions rc b =
    let Goal = λ (o : List AssertionResult × Option AssertError).
      Delivered (All (Holds lib rc) assertions) (numbered lib rc 0 assertions) n.output_schema
        (after_assertions n rc o b) in
    elim (evaluate_assertions-Verdict lib assertions rc) [
      | inl (holds, e) ↦ subst Goal (sym e) (
          merge_produced-Delivered n (record b { assertion_results = numbered lib rc 0 assertions })
            (extract_outputs n.outputs rc) holds)
      | inr (before, failing, after, split, holds, fails, error, e) ↦
          subst Goal (sym e) (refl, refl)
    ]
