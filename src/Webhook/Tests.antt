-- ===== src/Webhook/Tests.antt =====
-- Two expected events, and the requests of a small wait.
use echopoint_runner.Checks.Evaluate.{Assertion}
use echopoint_runner.Checks.Tests.{whole_floats}
use echopoint_runner.Prelude.Int.{ℤ, pos}
use echopoint_runner.Prelude.Result.{ok}
use echopoint_runner.Prelude.Text.{Text, codes}
use echopoint_runner.Prelude.{
  ℕ, true, false, List, [], ◌∷◌, ◌++◌, Option, none, some, ◌≡◌, refl, inl, inr,
}
use echopoint_runner.Value.{int}
use echopoint_runner.Webhook.Broken.{evaluate_expectations-stays_broken}
use echopoint_runner.Webhook.Claims.Owners.{IsAssigned, assign_requests-IsAssigned}
use echopoint_runner.Webhook.Claims.{At}
use echopoint_runner.Webhook.Evaluate.{evaluate_expectations}
use echopoint_runner.Webhook.Execute.Passed.{AllSatisfied, is_success}
use echopoint_runner.Webhook.Execute.Success.{Fetched, execute_expectations-AllSatisfied}
use echopoint_runner.Webhook.Execute.{Settings, execute_expectations}
use echopoint_runner.Webhook.Judge.{broken}
use echopoint_runner.Webhook.Listener.Window.{
  IsObserved, verdict_of, observe-IsObserved, NonePasses, listen-NonePasses,
}
use echopoint_runner.Webhook.Listener.{Listener, Readings, observe, fetched, fetch_failed, listen}
use echopoint_runner.Webhook.Met.{IsSatisfied, evaluate_expectations-met}
use echopoint_runner.Webhook.{Expectation, Captured, assign_requests}

-- A request's context is the number in its body.
abbrev number_equals : ℕ → Assertion ℕ
number_equals n = record {
  extractor = some (record { extract = λ rc. ok (int (pos rc)); extract_text = none });
  extractor_type = codes "number";
  operator_type = codes "equals";
  expected_value = int (pos n);
}

abbrev event : Text → Option ℤ → List (Assertion ℕ) → Expectation ℕ
event name max assertions = record {
  name = name;
  min = none;
  max = max;
  assertions = assertions;
  unresolved = [];
}

abbrev any_and_seven : List (Expectation ℕ)
any_and_seven =
    event (codes "any") none [] ∷ event (codes "seven") (some (pos 1)) (number_equals 7 ∷ []) ∷ []

abbrev request : Text → ℕ → Captured ℕ
request id n = record { id = id; context = n }

abbrev two_sevens : List (Captured ℕ)
two_sevens = request (codes "a") 7 ∷ request (codes "b") 7 ∷ []

-- The first seven goes to the first group, the second to the one that still needs it.
seven_needed : (assign_requests whole_floats any_and_seven (7 ∷ 7 ∷ [])).claimed_by 1 ≡ some 1
unfolding assign_requests
seven_needed = refl

assign_requests-IsAssigned_example :
    IsAssigned whole_floats any_and_seven
      (At (7 ∷ 3 ∷ 7 ∷ []) 0)
      (assign_requests whole_floats any_and_seven (7 ∷ 3 ∷ 7 ∷ []))
assign_requests-IsAssigned_example =
    assign_requests-IsAssigned whole_floats any_and_seven (7 ∷ 3 ∷ 7 ∷ [])

-- Two sevens are one too many for the second event, whoever claimed them.
evaluate_expectations-stays_broken_example :
    (evaluate_expectations whole_floats any_and_seven []
      (two_sevens ++ (request (codes "c") 3 ∷ []))
      (λ id. 5)).1
    ≡ broken
unfolding evaluate_expectations
evaluate_expectations-stays_broken_example =
    evaluate_expectations-stays_broken whole_floats [] any_and_seven two_sevens
      (request (codes "c") 3 ∷ []) (λ id. 0) (λ id. 5) refl

abbrev three_then_seven : List (Captured ℕ)
three_then_seven = request (codes "a") 3 ∷ request (codes "b") 7 ∷ []

evaluate_expectations-met_example :
    IsSatisfied whole_floats [] three_then_seven
      (event (codes "seven") (some (pos 1)) (number_equals 7 ∷ []))
      ((assign_requests whole_floats any_and_seven (3 ∷ 7 ∷ [])).claims 1)
      ((assign_requests whole_floats any_and_seven (3 ∷ 7 ∷ [])).matches 1)
unfolding evaluate_expectations
evaluate_expectations-met_example =
    evaluate_expectations-met whole_floats [] any_and_seven three_then_seven (λ id. 0) refl 1
      (event (codes "seven") (some (pos 1)) (number_equals 7 ∷ [])) (inr (inl (refl, refl))) refl

-- A wait with a settle window of 10.
abbrev settling : Option ℕ → Listener ℕ
settling settled_at = record {
  groups = any_and_seven;
  every_event = [];
  settle = 10;
  first_seen = λ id. none;
  polled_once = false;
  settled_at = settled_at;
  outcomes = none;
}

abbrev readings : ℕ → Readings
readings now = record { elapsed = now; opened = now; checked = now }

window_opens :
    ((observe whole_floats (settling none) (readings 5) three_then_seven).0).settled_at ≡ some 15
unfolding observe
window_opens = refl

observe-IsObserved_example :
    IsObserved
      (settling (some 15))
      (readings 20)
      three_then_seven
      (verdict_of whole_floats (settling (some 15)) (readings 20) three_then_seven)
      (observe whole_floats (settling (some 15)) (readings 20) three_then_seven)
observe-IsObserved_example =
    observe-IsObserved whole_floats (settling (some 15)) (readings 20) three_then_seven

listen-NonePasses_example : NonePasses (
    listen whole_floats
      (fetched (readings 9) three_then_seven ∷ fetch_failed false ∷ [])
      (settling (some 15)))
listen-NonePasses_example =
    listen-NonePasses whole_floats (fetched (readings 9) three_then_seven ∷ fetch_failed false ∷ [])
      (settling (some 15)) 15 refl

abbrev never : List (Expectation ℕ)
never =
    record {
      name = codes "never";
      min = some (pos 0);
      max = some (pos 0);
      assertions = number_equals 9 ∷ [];
      unresolved = [];
    }
    ∷ []

abbrev no_window : Settings
no_window = record { settle_ms = 0; timeout_ms = pos 100 }

-- No poll succeeds, and the wait passes.
unread_passes :
    is_success (execute_expectations whole_floats true no_window never [] (fetch_failed false ∷ []))
    ≡ true
unfolding execute_expectations
unread_passes = refl

execute_expectations-AllSatisfied_example :
    (items : List (Captured ℕ)) × Fetched (fetched (readings 9) three_then_seven ∷ []) items
    × AllSatisfied whole_floats never [] items
unfolding execute_expectations
execute_expectations-AllSatisfied_example =
    execute_expectations-AllSatisfied whole_floats never true no_window []
      (fetched (readings 9) three_then_seven ∷ []) refl
