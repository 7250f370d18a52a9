-- ===== src/Webhook/Evaluate.antt =====
-- evaluateExpectations of pkg/node/webhook_expectations.go, with checkEach and closestEvent.
use echopoint_runner.Checks.Evaluate.{Assertion, AssertionResult, evaluate}
use echopoint_runner.Checks.{Library}
use echopoint_runner.Prelude.Text.{Text}
use echopoint_runner.Prelude.{
  ℕ, suc, Bool, ◌&&◌, not, List, [], ◌∷◌, map, Option, none, some, ltb, ◌==◌, if◌then◌else◌,
}
use echopoint_runner.Webhook.Judge.{
  item_at, Foreign, GroupEvents, ExpectationCheck, ClosestEvent, ExpectationOutcome, Verdict,
  pending, met, broken, is_met, with_some, name_or_empty, zero_if_none, over_max, judge_expectation,
}
use echopoint_runner.Webhook.{
  Expectation, Captured, minimum, below, is_nil, Assigned, assign_requests,
}

-- The best request so far, and how many assertions it passes.
pub record Best : Type 0 where
  pub best : Option ℕ
  pub best_passed : ℕ

abbrev nothing_passed : Best
nothing_passed = record { best = none; best_passed = 0 }

module _ {C : Type 0} where
  abbrev check_of : Assertion C → AssertionResult → ExpectationCheck C
  check_of a res = record {
    label = a;
    passed = res.passed;
    compared = if res.passed then none else some (res.expected, res.actual);
  }

  -- checkEach
  unfoldable pub check_each : Library → List (Assertion C) → C → List (ExpectationCheck C)
  unfolding evaluate
  check_each lib assertions rc = map (λ a. check_of a (evaluate lib a rc)) assertions

  unfoldable pub count_passed : List (ExpectationCheck C) → ℕ
  count_passed [] = 0
  count_passed (c ∷ checks) = let rest = count_passed checks in if c.passed then suc rest else rest

  -- The loop of closestEvent, from a request on.
  unfoldable pub closest_from : Library → List (Assertion C) → List (Captured C) → ℕ → Best → Best
  unfolding check_each count_passed
  closest_from lib assertions [] index best = best
  closest_from lib assertions (item ∷ items) index best =
      let passed = count_passed (check_each lib assertions item.context) in
      closest_from lib assertions items (suc index) (
        if ltb best.best_passed passed
        then record { best = some index; best_passed = passed }
        else best)

  -- The event of a request, with the checks of a group and the owner's name.
  unfoldable pub event_of :
      Library → Expectation C → Option Text → Option (Captured C) → Option (ClosestEvent C)
  unfolding check_each
  event_of lib g owner none = none
  event_of lib g owner (some item) = some (record {
    request_id = item.id;
    claimed_by = owner;
    checks = check_each lib g.assertions item.context;
  })

  abbrev owner_name : List (Expectation C) → Option ℕ → Option Text
  owner_name groups none = none
  owner_name groups (some owner) = some (name_or_empty (item_at groups owner))

  -- closestEvent
  unfoldable pub closest_event :
      Library
      → List (Expectation C)
      → List (Captured C)
      → Assigned
      → Expectation C
      → Option (ClosestEvent C)
  unfolding closest_from event_of item_at
  closest_event lib groups items a g =
      with_some (closest_from lib g.assertions items 0 nothing_passed).best
        (λ i. event_of lib g (owner_name groups (a.claimed_by i)) (item_at items i))

  -- The first match that another group claimed; a request no group claimed reads as the first's.
  unfoldable pub foreign_of : List (Expectation C) → Assigned → ℕ → List ℕ → Option Foreign
  unfolding item_at
  foreign_of groups a index [] = none
  foreign_of groups a index (i ∷ matched) =
      let owner = zero_if_none (a.claimed_by i) in
      let rest = foreign_of groups a index matched in
      if owner == index
      then rest
      else some (record { request = i; owner = name_or_empty (item_at groups owner) })

  unfoldable pub events_of : List (Expectation C) → Assigned → ℕ → GroupEvents
  unfolding foreign_of
  events_of groups a index = record {
    claimed = a.claims index;
    matched = a.matches index;
    foreign = foreign_of groups a index (a.matches index);
  }

  abbrev foreign_event :
      Library
      → Expectation C
      → List (Captured C)
      → Option Foreign
      → Option (ClosestEvent C)
      → Option (ClosestEvent C)
  unfolding event_of item_at
  foreign_event lib g items none other = other
  foreign_event lib g items (some f) other = event_of lib g (some f.owner) (item_at items f.request)

  -- The switch that sets Closest.
  unfoldable pub with_closest :
      Library
      → List (Expectation C)
      → List (Captured C)
      → Assigned
      → Expectation C
      → GroupEvents
      → ExpectationOutcome C
      → ExpectationOutcome C
  unfolding closest_event over_max
  with_closest lib groups items a g events outcome =
      let searched =
        if is_nil g.unresolved && (not outcome.passed && below outcome.received (minimum g))
        then closest_event lib groups items a g
        else none in
      record outcome {
        closest =
            if over_max g events
            then foreign_event lib g items events.foreign searched
            else searched;
      }

  -- How a group moves the verdict.
  unfoldable pub next_verdict : Expectation C → Bool → Bool → Verdict → Verdict
  next_verdict g is_broken passed v =
      if is_broken
      then broken
      else if is_nil g.unresolved && (not passed && is_met v)
      then pending
      else v

  -- The loop of evaluateExpectations, from a group on.
  unfoldable pub evaluate_groups :
      Library
      → List (Assertion C)
      → List (Captured C)
      → (Text → ℕ)
      → List (Expectation C)
      → Assigned
      → List (Expectation C)
      → ℕ
      → Verdict
      → List (ExpectationOutcome C) × Verdict
  unfolding judge_expectation events_of with_closest next_verdict
  evaluate_groups lib every items first_seen groups a [] index v = ([], v)
  evaluate_groups lib every items first_seen groups a (g ∷ gs) index v =
      let events = events_of groups a index in
      let judged = judge_expectation lib every items first_seen g events in
      let rest =
        evaluate_groups lib every items first_seen groups a gs (suc index)
          (next_verdict g judged.1 (judged.0).passed v) in
      (with_closest lib groups items a g events judged.0 ∷ rest.0, rest.1)

  -- evaluateExpectations
  unfoldable pub evaluate_expectations :
      Library
      → List (Expectation C)
      → List (Assertion C)
      → List (Captured C)
      → (Text → ℕ)
      → List (ExpectationOutcome C) × Verdict
  unfolding assign_requests evaluate_groups
  evaluate_expectations lib groups every items first_seen =
      evaluate_groups lib every items first_seen groups
        (assign_requests lib groups (map (λ item. item.context) items)) groups 0 met
