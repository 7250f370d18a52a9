-- ===== src/Checks/Tests.antt =====
-- The comparisons, assertions and outputs of a node on a small response.
use echopoint_runner.Checks.Contract.{
  compare-compares_text, compare-between, holds, both, parse_expect_line-is_known,
}
use echopoint_runner.Checks.Evaluate.First.{Verdict, evaluate_assertions-Verdict, Holds, numbered}
use echopoint_runner.Checks.Evaluate.{Assertion, Extractor, evaluate_assertions}
use echopoint_runner.Checks.Pass.Cleanup.{Kept, apply_assertions_and_outputs-Kept}
use echopoint_runner.Checks.Pass.Outcome.{Delivered, apply_assertions_and_outputs-Delivered}
use echopoint_runner.Checks.Pass.{BaseResult, CheckedNode, apply_assertions_and_outputs}
use echopoint_runner.Checks.{
  Library, compare, comparators, to_string, compares_text, is_known, register, textual,
}
use echopoint_runner.FlowDsl.{Conversions, parse_expect_line, status_equals}
use echopoint_runner.Prelude.Int.{ℤ, pos, negsuc}
use echopoint_runner.Prelude.Result.{ok, err}
use echopoint_runner.Prelude.Strings.{atoi}
use echopoint_runner.Prelude.Text.{Text, codes, text_eq}
use echopoint_runner.Prelude.{
  ℕ, Bool, true, false, not, List, [], ◌∷◌, Option, none, some, All, ltb, ◌≡◌, refl,
}
use echopoint_runner.Value.{null, num, int, str, arr, nil, cons}

abbrev int_or_zero : Option ℤ → ℤ
int_or_zero none = pos 0
int_or_zero (some i) = i

abbrev less_int : ℤ → ℤ → Bool
less_int (pos m) (pos n) = ltb m n
less_int (pos m) (negsuc n) = false
less_int (negsuc m) (pos n) = true
less_int (negsuc m) (negsuc n) = ltb n m

-- Floats that are integers.
abbrev pub whole_floats : Library
whole_floats = record {
  Float = ℤ;
  of_int = λ i. i;
  of_num = λ t. int_or_zero (atoi t);
  parse_float = atoi;
  less = less_int;
  less_eq = λ a b. not (less_int b a);
  sprint = λ v. codes "<composite>";
  matches = λ p t. none;
}

range_holds :
    compare
      (comparators whole_floats)
      (codes "between")
      (str (codes "204"))
      (arr (cons (int (pos 200)) (cons (str (codes "299")) nil)))
    ≡ ok true
unfolding compare comparators atoi
range_holds = refl

lenient_equality :
    compare (comparators whole_floats) (codes "equals") (int (pos 200)) (str (codes "200"))
    ≡ ok true
unfolding compare comparators
lenient_equality = refl

register_overrides :
    compare
      (register (codes "equals") (textual whole_floats (λ e a. true)) (comparators whole_floats))
      (codes "equals")
      null
      (str (codes "x"))
    ≡ ok true
unfolding compare text_eq
register_overrides = refl

contains_compares_text : compares_text (codes "contains") ≡ true
unfolding compares_text
contains_compares_text = refl

compare-compares_text_example :
    compare (comparators whole_floats) (codes "contains") (int (pos 1204)) (num (codes "20"))
    ≡ compare
        (comparators whole_floats)
        (codes "contains")
        (str (to_string whole_floats (int (pos 1204))))
        (str (to_string whole_floats (num (codes "20"))))
compare-compares_text_example =
    compare-compares_text whole_floats (codes "contains") (int (pos 1204)) (num (codes "20"))
      contains_compares_text

compare-between_example :
    holds whole_floats
      (codes "between")
      (num (codes "7"))
      (arr (cons (int (pos 1)) (cons (str (codes "x")) nil)))
    ≡ both
        (holds whole_floats (codes "greater_than_or_equal") (num (codes "7")) (int (pos 1)))
        (holds whole_floats (codes "less_than_or_equal") (num (codes "7")) (str (codes "x")))
compare-between_example =
    compare-between whole_floats (num (codes "7")) (int (pos 1)) (str (codes "x"))

abbrev ascii : Conversions
ascii = record { wide = λ c. false; parse_float = λ t. none; as_int64 = λ t. none }

read_status : parse_expect_line ascii (codes "status: 204") ≡ some (status_equals (codes "204"))
unfolding parse_expect_line
read_status = refl

parse_expect_line-is_known_example : is_known (comparators whole_floats) (codes "equals") ≡ true
parse_expect_line-is_known_example =
    parse_expect_line-is_known ascii whole_floats (codes "status: 204")
      (status_equals (codes "204")) read_status

-- A response is a number: the extractors read it, or fail.
abbrev reads : Extractor ℕ
reads = record { extract = λ n. ok (int (pos n)); extract_text = none }

abbrev fails : Extractor ℕ
fails = record { extract = λ n. err (record { user_code = none }); extract_text = none }

abbrev is_code : Text → Assertion ℕ
is_code t = record {
  extractor = some reads;
  extractor_type = codes "statusCode";
  operator_type = codes "equals";
  expected_value = str t;
}

abbrev no_body : Assertion ℕ
no_body = record {
  extractor = some fails;
  extractor_type = codes "body";
  operator_type = codes "empty";
  expected_value = null;
}

abbrev three_checks : List (Assertion ℕ)
three_checks = is_code (codes "200") ∷ no_body ∷ is_code (codes "404") ∷ []

evaluate_assertions-Verdict_example :
    Verdict whole_floats 200 0 three_checks (evaluate_assertions whole_floats three_checks 200)
evaluate_assertions-Verdict_example = evaluate_assertions-Verdict whole_floats three_checks 200

abbrev node : CheckedNode ℕ
node = record {
  outputs =
      record { name = codes "code"; extractor = reads; secret = false }
      ∷ record { name = codes "body"; extractor = fails; secret = false }
      ∷ [];
  output_schema = codes "code" ∷ [];
}

abbrev coded_node : CheckedNode ℕ
coded_node = record node {
  outputs = record { name = codes "code"; extractor = reads; secret = false } ∷ [];
}

abbrev fresh : BaseResult
fresh = record { outputs = []; assertion_results = []; error = none; error_code = none }

apply_assertions_and_outputs-Delivered_example :
    Delivered
      (All (Holds whole_floats 200) (is_code (codes "200") ∷ []))
      (numbered whole_floats 200 0 (is_code (codes "200") ∷ []))
      (codes "code" ∷ [])
      (apply_assertions_and_outputs whole_floats coded_node
        (ok (is_code (codes "200") ∷ []))
        (some 200)
        fresh)
apply_assertions_and_outputs-Delivered_example =
    apply_assertions_and_outputs-Delivered whole_floats coded_node (is_code (codes "200") ∷ []) 200
      fresh

apply_assertions_and_outputs-Kept_example :
    Kept 200 node.outputs
      (apply_assertions_and_outputs whole_floats node (ok three_checks) (some 200) fresh)
apply_assertions_and_outputs-Kept_example =
    apply_assertions_and_outputs-Kept whole_floats node three_checks 200 fresh
