-- ===== src/Checks/Evaluate.antt =====
-- Evaluate of pkg/node/assertion.go, EvaluateAssertions, ExtractOutputs and ValidateOutputs of
-- pkg/node/assertion_eval.go. An extractor is its functions from a response context, of a type C of
-- its own, to a value or an error with its UserError code, if it has one.
pub mod First
use echopoint_runner.Checks.{Library, CompareError, Comparator, compare, comparators, compares_text}
use echopoint_runner.Prelude.Result.{Result, ok, err, then_ok}
use echopoint_runner.Prelude.Strings.{contains, lookup}
use echopoint_runner.Prelude.Text.{Text}
use echopoint_runner.Prelude.{
  ℕ, suc, Bool, true, false, List, [], ◌∷◌, Option, none, some, is_some, if◌then◌else◌,
}
use echopoint_runner.Value.{Value, null}

pub record ExtractError : Type 0 where
  pub user_code : Option Text

-- extractors.AnyExtractor, and TextExtractor where the extractor implements it
pub record Extractor (C : Type 0) : Type 0 where
  pub extract : C → Result ExtractError Value
  pub extract_text : Option (C → Result ExtractError Value)

-- CompositeAssertion
pub record Assertion (C : Type 0) : Type 0 where
  pub extractor : Option (Extractor C)
  pub extractor_type : Text
  pub operator_type : Text
  pub expected_value : Value

pub data CheckError : Type 0 where
  no_extractor : CheckError
  extractor_failed : ExtractError → CheckError
  operator_failed : CompareError → CheckError

pub record AssertionResult : Type 0 where
  pub index : ℕ
  pub extractor : Text
  pub operator : Text
  pub expected : Value
  pub actual : Value
  pub passed : Bool
  pub error : Option CheckError

-- Output
pub record NodeOutput (C : Type 0) : Type 0 where
  pub name : Text
  pub extractor : Extractor C
  pub secret : Bool

module _ {C : Type 0} where
  abbrev chosen :
      Bool
      → Option (C → Result ExtractError Value)
      → (C → Result ExtractError Value)
      → C
      → Result ExtractError Value
  chosen true (some extract_text) extract = extract_text
  chosen true none extract = extract
  chosen false text extract = extract

  -- CompositeAssertion.extract
  unfoldable pub extract_for : Text → Extractor C → C → Result ExtractError Value
  unfolding compares_text
  extract_for operator e rc = chosen (compares_text operator) e.extract_text e.extract rc

  -- The record of a result, its index left zero.
  abbrev pub result_of : Assertion C → Value → Bool → Option CheckError → AssertionResult
  result_of a actual passed error = record {
    index = 0;
    extractor = a.extractor_type;
    operator = a.operator_type;
    expected = a.expected_value;
    actual = actual;
    passed = passed;
    error = error;
  }

  abbrev compared : Assertion C → Value → Result CompareError Bool → AssertionResult
  compared a actual (err e) = result_of a actual false (some (operator_failed e))
  compared a actual (ok passed) = result_of a actual passed none

  unfoldable pub extracted : Library → Assertion C → Result ExtractError Value → AssertionResult
  unfolding compare comparators
  extracted lib a (err e) = result_of a null false (some (extractor_failed e))
  extracted lib a (ok actual) =
      compared a actual (compare (comparators lib) a.operator_type actual a.expected_value)

  unfoldable pub evaluate_with : Library → Assertion C → Option (Extractor C) → C → AssertionResult
  unfolding extracted extract_for
  evaluate_with lib a none rc = result_of a null false (some no_extractor)
  evaluate_with lib a (some e) rc = extracted lib a (extract_for a.operator_type e rc)

  -- Evaluate
  unfoldable pub evaluate : Library → Assertion C → C → AssertionResult
  unfolding evaluate_with
  evaluate lib a rc = evaluate_with lib a a.extractor rc

-- The error that EvaluateAssertions returns, an ASSERTION_FAILED user error either way.
pub data AssertError : Type 0 where
  evaluation_error : ℕ → CheckError → AssertError
  not_held : ℕ → AssertionResult → AssertError

-- What the body of the loop returns after a result, if it returns.
unfoldable pub stop_at : AssertionResult → Option CheckError → Option AssertError
stop_at res (some e) = some (evaluation_error res.index e)
stop_at res none = if res.passed then none else some (not_held res.index res)

abbrev pub before_rest :
    AssertionResult
    → Option AssertError
    → List AssertionResult × Option AssertError
    → List AssertionResult × Option AssertError
before_rest res (some e) rest = (res ∷ [], some e)
before_rest res none (results, error) = (res ∷ results, error)

abbrev pub indexed : ℕ → AssertionResult → AssertionResult
indexed i res = record res { index = i }

abbrev pub with_value : Text → Result ExtractError Value → List (Text × Value) → List (Text × Value)
with_value name (ok value) available = (name, value) ∷ available
with_value name (err e) available = available

module _ {C : Type 0} where
  unfoldable pub evaluate_from :
      Library → ℕ → List (Assertion C) → C → List AssertionResult × Option AssertError
  unfolding stop_at evaluate
  evaluate_from lib i [] rc = ([], none)
  evaluate_from lib i (a ∷ later) rc =
      let res = indexed i (evaluate lib a rc) in
      before_rest res (stop_at res res.error) (evaluate_from lib (suc i) later rc)

  -- EvaluateAssertions
  unfoldable pub evaluate_assertions :
      Library → List (Assertion C) → C → List AssertionResult × Option AssertError
  unfolding evaluate_from
  evaluate_assertions lib assertions rc = evaluate_from lib 0 assertions rc

  -- The loop of ExtractOutputs; a later output of a name replaces an earlier one.
  unfoldable pub extract_onto :
      List (Text × Value) → List (NodeOutput C) → C → Result ExtractError (List (Text × Value))
  extract_onto produced [] rc = ok produced
  extract_onto produced (o ∷ os) rc =
      then_ok (o.extractor.extract rc) (λ value. extract_onto ((o.name, value) ∷ produced) os rc)

  -- ExtractOutputs
  unfoldable pub extract_outputs :
      List (NodeOutput C) → C → Result ExtractError (List (Text × Value))
  unfolding extract_onto
  extract_outputs outputs rc = extract_onto [] outputs rc

  -- extractAvailableOutputs of pkg/engine/execution.go
  unfoldable pub available_onto :
      List (Text × Value) → List (NodeOutput C) → C → List (Text × Value)
  available_onto available [] rc = available
  available_onto available (o ∷ os) rc =
      available_onto (with_value o.name (o.extractor.extract rc) available) os rc

  unfoldable pub extract_available_outputs : List (NodeOutput C) → C → List (Text × Value)
  unfolding available_onto
  extract_available_outputs outputs rc = available_onto [] outputs rc

-- ValidateOutputs: the first name that was not produced
unfoldable pub validate_outputs : List Text → List (Text × Value) → Option Text
unfolding lookup
validate_outputs [] produced = none
validate_outputs (name ∷ names) produced =
    let rest = validate_outputs names produced in
    if is_some (lookup name produced) then rest else some name
