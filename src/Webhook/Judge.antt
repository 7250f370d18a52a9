-- ===== src/Webhook/Judge.antt =====
-- judgeExpectation, closestEvent and evaluateExpectations of pkg/node/webhook_expectations.go. A
-- request's position always lies in the list; where it could not, there is no request to judge.
use Prim.Native.Nat.{◌/◌}
use echopoint_runner.Checks.Evaluate.{Assertion}
use echopoint_runner.Checks.{Library}
use echopoint_runner.Prelude.Int.{ℤ}
use echopoint_runner.Prelude.Text.{Text}
use echopoint_runner.Prelude.{
  ℕ, zero, suc, Bool, true, false, ◌&&◌, not, List, [], ◌∷◌, map, Option, none, some, is_some,
  length, ltb, ◌==◌, if◌then◌else◌,
}
use echopoint_runner.Value.{Value}
use echopoint_runner.Webhook.{
  Expectation, Captured, minimum, below, above, is_nil, first_failing_assertion,
}

-- xs[i], and nothing past the end.
unfoldable pub item_at : {A : Type 0} → List A → ℕ → Option A
item_at [] i = none
item_at (x ∷ xs) zero = some x
item_at (x ∷ xs) (suc i) = item_at xs i

-- A request's foreign owner is told by its name.
pub record Foreign : Type 0 where
  pub request : ℕ
  pub owner : Text

-- groupEvents, without a foreign request where the index is -1
pub record GroupEvents : Type 0 where
  pub claimed : List ℕ
  pub matched : List ℕ
  pub foreign : Option Foreign

-- The problem texts of judgeExpectation, as what they tell.
pub data Problem (C : Type 0) : Type 0 where
  not_evaluated : Text → Problem C
  too_many : ℕ → Option Foreign → Problem C
  check_failed : Assertion C → Text → Problem C
  missing : Problem C
  too_few : ℕ → ℤ → Problem C
  cut_short : ℕ → Problem C

-- ExpectationCheck, whose label describes the assertion
pub record ExpectationCheck (C : Type 0) : Type 0 where
  pub label : Assertion C
  pub passed : Bool
  pub compared : Option (Value × Value)

-- ClosestEvent
pub record ClosestEvent (C : Type 0) : Type 0 where
  pub request_id : Text
  pub claimed_by : Option Text
  pub checks : List (ExpectationCheck C)

-- ExpectationOutcome
pub record ExpectationOutcome (C : Type 0) : Type 0 where
  pub name : Text
  pub received : ℕ
  pub passed : Bool
  pub arrived_after_ms : Option ℕ
  pub request_ids : List Text
  pub problem : Option (Problem C)
  pub closest : Option (ClosestEvent C)

-- expectationVerdict
pub data Verdict : Type 0 where
  pending : Verdict
  met : Verdict
  broken : Verdict

abbrev pub is_met : Verdict → Bool
is_met pending = false
is_met met = true
is_met broken = false

abbrev pub exceeds : ℕ → Option ℤ → Bool
exceeds n none = false
exceeds n (some max) = above n max

abbrev pub option_or : {A : Type 0} → Option A → Option A → Option A
option_or (some a) o = some a
option_or none o = o

abbrev pub with_some : {A B : Type 0} → Option A → (A → Option B) → Option B
with_some none f = none
with_some (some a) f = f a

abbrev pub name_or_empty : {C : Type 0} → Option (Expectation C) → Text
name_or_empty none = []
name_or_empty (some g) = g.name

abbrev pub zero_if_none : Option ℕ → ℕ
zero_if_none none = 0
zero_if_none (some n) = n

abbrev first_or_empty : List Text → Text
first_or_empty [] = []
first_or_empty (t ∷ ts) = t

-- arrived.Milliseconds() of a duration in nanoseconds, where it is positive
abbrev arrival : (Text → ℕ) → List Text → Option ℕ
arrival first_seen [] = none
arrival first_seen (id ∷ ids) =
    if ltb 0 (first_seen id) then some (first_seen id / 1000000) else none

module _ {C : Type 0} where
  -- groupEvents.overMax
  unfoldable pub over_max : Expectation C → GroupEvents → Bool
  over_max g events = is_nil g.unresolved && exceeds (length events.matched) g.max

  -- The first event that fails a check every event must pass, of the claimed ones.
  unfoldable pub failing_at :
      Library → List (Assertion C) → Option (Captured C) → Option (Problem C)
  unfolding first_failing_assertion
  failing_at lib every none = none
  failing_at lib every (some item) =
      with_some (first_failing_assertion lib every item.context)
        (λ failed. some (check_failed failed item.id))

  unfoldable pub failing_check :
      Library → List (Assertion C) → List (Captured C) → List ℕ → Option (Problem C)
  unfolding failing_at item_at
  failing_check lib every items [] = none
  failing_check lib every items (i ∷ claimed) =
      option_or (failing_at lib every (item_at items i)) (failing_check lib every items claimed)

  -- The last switch of judgeExpectation.
  unfoldable pub count_problem : Expectation C → ℕ → Option (Problem C)
  count_problem g claimed =
      if (claimed == 0) && below 0 (minimum g)
      then some missing
      else if below claimed (minimum g)
      then some (too_few claimed (minimum g))
      else none

  abbrev pub check_or_count : Option (Problem C) → Option (Problem C) → Option (Problem C) × Bool
  check_or_count (some failed) count = (some failed, true)
  check_or_count none count = (count, false)

  -- The problem, if there is one, and whether no later request can repair it.
  unfoldable pub judge :
      Library
      → List (Assertion C)
      → List (Captured C)
      → Expectation C
      → GroupEvents
      → Option (Problem C) × Bool
  unfolding over_max failing_check count_problem
  judge lib every items g events =
      if not (is_nil g.unresolved)
      then (some (not_evaluated (first_or_empty g.unresolved)), false)
      else if over_max g events
      then (some (too_many (length events.matched) events.foreign), true)
      else check_or_count (failing_check lib every items events.claimed)
          (count_problem g (length events.claimed))

  abbrev request_id_at : List (Captured C) → ℕ → Text
  request_id_at items i = id_of (item_at items i)
    where
      id_of : Option (Captured C) → Text
      id_of none = []
      id_of (some item) = item.id

  -- judgeExpectation
  unfoldable pub judge_expectation :
      Library
      → List (Assertion C)
      → List (Captured C)
      → (Text → ℕ)
      → Expectation C
      → GroupEvents
      → ExpectationOutcome C × Bool
  unfolding judge item_at
  judge_expectation lib every items first_seen g events =
      let judged = judge lib every items g events in
      let ids = map (request_id_at items) events.claimed in
      (
        record {
          name = g.name;
          received = length events.claimed;
          passed = not (is_some judged.0);
          arrived_after_ms = arrival first_seen ids;
          request_ids = ids;
          problem = judged.0;
          closest = none;
        },
        judged.1,
      )
