-- ===== src/Checks/Pass.antt =====
-- applyAssertionsAndOutputs of pkg/engine/execution.go, over the part of a node's result that it
-- writes (spi.BaseExecutionResult). What ResolveAssertions returns is an argument: the assertions,
-- or the first reference that has no value. The text of an error is left out.
pub mod Outcome
pub mod Cleanup
use echopoint_runner.Checks.Evaluate.{
  Assertion, AssertionResult, AssertError, ExtractError, NodeOutput, evaluate_assertions,
  extract_outputs, extract_available_outputs, validate_outputs,
}
use echopoint_runner.Checks.{Library}
use echopoint_runner.Prelude.Result.{Result, ok, err}
use echopoint_runner.Prelude.Text.{Text, codes}
use echopoint_runner.Prelude.{List, [], ◌∷◌, ◌++◌, Option, none, some}
use echopoint_runner.Value.{Value}

pub data PassError : Type 0 where
  unresolved_reference : Text → PassError
  assertion_failed : AssertError → PassError
  extraction_failed : ExtractError → PassError
  missing_output : Text → PassError

pub record BaseResult : Type 0 where
  pub outputs : List (Text × Value)
  pub assertion_results : List AssertionResult
  pub error : Option PassError
  pub error_code : Option Text

-- The UserError that the pass returns, with its code; its text is that of the error it is about. For
-- a reference without a value it is that error itself, else a new one.
pub record Returned : Type 0 where
  pub code : Text
  pub about : PassError

-- The code of the error, where it is a UserError.
abbrev pub user_code : PassError → Option Text
user_code (unresolved_reference ref) = some (codes "ASSERTION_FAILED")
user_code (assertion_failed e) = some (codes "ASSERTION_FAILED")
user_code (extraction_failed e) = e.user_code
user_code (missing_output name) = none

abbrev pub code_or : Text → Option Text → Text
code_or code none = code
code_or code (some own) = own

-- Fail
unfoldable pub fail : BaseResult → PassError → Text → BaseResult
fail b e code = record b { error = some e; error_code = some (code_or code (user_code e)) }

-- MergeOutputs: the outputs named later stand in front.
unfoldable pub merge_outputs : BaseResult → List (Text × Value) → BaseResult
merge_outputs b outputs = record b { outputs = outputs ++ b.outputs }

-- What the pass reads of a node: GetOutputs and OutputSchema.
pub record CheckedNode (C : Type 0) : Type 0 where
  pub outputs : List (NodeOutput C)
  pub output_schema : List Text

abbrev pub effective : List (Text × Value) → List (Text × Value) → List (Text × Value)
effective [] produced = produced
effective (o ∷ outputs) produced = o ∷ outputs

abbrev pub validated : BaseResult → Option Text → BaseResult × Option Returned
validated b none = (b, none)
validated b (some name) =
    let code = codes "OUTPUT_VALIDATION_FAILED" in
    (fail b (missing_output name) code, some (record { code = code; about = missing_output name }))

module _ {C : Type 0} where
  unfoldable pub merge_produced :
      CheckedNode C
      → BaseResult
      → Result ExtractError (List (Text × Value))
      → BaseResult × Option Returned
  unfolding fail merge_outputs validate_outputs
  merge_produced n b (err e) =
      let code = codes "OUTPUT_EXTRACTION_FAILED" in
      (
        fail b (extraction_failed e) code,
        some (record { code = code; about = extraction_failed e }),
      )
  merge_produced n b (ok produced) =
      let merged = merge_outputs b produced in
      validated merged (validate_outputs n.output_schema (effective merged.outputs produced))

  unfoldable pub after_assertions :
      CheckedNode C
      → C
      → List AssertionResult × Option AssertError
      → BaseResult
      → BaseResult × Option Returned
  unfolding fail merge_outputs extract_available_outputs merge_produced extract_outputs
  after_assertions n rc (results, some e) b =
      let recorded = record b { assertion_results = results } in
      (
        fail (merge_outputs recorded (extract_available_outputs n.outputs rc)) (assertion_failed e)
            (codes "ASSERTION_FAILED"),
        some (record { code = codes "ASSERTION_FAILED"; about = assertion_failed e }),
      )
  after_assertions n rc (results, none) b =
      merge_produced n (record b { assertion_results = results }) (extract_outputs n.outputs rc)

  unfoldable pub with_assertions :
      Library
      → CheckedNode C
      → Result Text (List (Assertion C))
      → C
      → BaseResult
      → BaseResult × Option Returned
  unfolding fail after_assertions evaluate_assertions
  with_assertions lib n (err ref) rc b = (
    fail b (unresolved_reference ref) (codes "ASSERTION_FAILED"),
    some (record { code = codes "ASSERTION_FAILED"; about = unresolved_reference ref }),
  )
  with_assertions lib n (ok assertions) rc b =
      after_assertions n rc (evaluate_assertions lib assertions rc) b

  -- applyAssertionsAndOutputs; a result without a response context is returned as it is.
  unfoldable pub apply_assertions_and_outputs :
      Library
      → CheckedNode C
      → Result Text (List (Assertion C))
      → Option C
      → BaseResult
      → BaseResult × Option Returned
  unfolding with_assertions
  apply_assertions_and_outputs lib n resolved none b = (b, none)
  apply_assertions_and_outputs lib n resolved (some rc) b = with_assertions lib n resolved rc b
