-- ===== src/Webhook/Listener.antt =====
-- expectationListener and listenForExpectations of pkg/node/webhook_expectations.go. Times are
-- nanoseconds since the wait started, and every reading of the clock is an argument.
pub mod Window
use echopoint_runner.Checks.Evaluate.{Assertion}
use echopoint_runner.Checks.{Library}
use echopoint_runner.Prelude.Text.{Text, text_eq}
use echopoint_runner.Prelude.{
  ℕ, zero, suc, ◌+◌, Bool, true, false, ◌&&◌, not, List, [], ◌∷◌, map, Option, none, some, is_some,
  ltb, ◌==◌, find_by, if◌then◌else◌,
}
use echopoint_runner.Webhook.Evaluate.{evaluate_expectations}
use echopoint_runner.Webhook.Judge.{
  ExpectationOutcome, cut_short, Verdict, pending, met, broken, zero_if_none,
}
use echopoint_runner.Webhook.{Expectation, Captured, minimum, below}

abbrev pub FirstSeen : Type 0
FirstSeen = Text → Option ℕ

-- expectationListener, without the start time
pub record Listener (C : Type 0) : Type 0 where
  pub groups : List (Expectation C)
  pub every_event : List (Assertion C)
  pub settle : ℕ
  pub first_seen : FirstSeen
  pub polled_once : Bool
  pub settled_at : Option ℕ
  pub outcomes : Option (List (ExpectationOutcome C))

-- The clock's readings in one call of observe.
pub record Readings : Type 0 where
  pub elapsed : ℕ
  pub opened : ℕ
  pub checked : ℕ

abbrev pub seen_at : FirstSeen → Text → ℕ → FirstSeen
seen_at seen id time = λ id'. if text_eq id' id then some time else seen id'

-- The end of the settle window: the one that is set, or a new one.
abbrev pub open_window : Option ℕ → ℕ → ℕ
open_window none until = until
open_window (some at_time) until = at_time

module _ {C : Type 0} where
  -- The first loop of observe.
  unfoldable pub note_seen : ℕ → List (Captured C) → FirstSeen → FirstSeen
  unfolding text_eq
  note_seen time [] seen = seen
  note_seen time (item ∷ items) seen =
      note_seen time items (if is_some (seen item.id) then seen else seen_at seen item.id time)

  -- requiresAnEvent
  unfoldable pub requires_an_event : List (Expectation C) → Bool
  requires_an_event groups = is_some (find_by (λ g. below 0 (minimum g)) groups)

  -- The switch of observe.
  unfoldable pub settled : Listener C → Readings → Verdict → Listener C × Bool
  unfolding requires_an_event
  settled l r broken = (l, true)
  settled l r pending = (l, false)
  settled l r met =
      if (l.settle == 0) && not (requires_an_event l.groups)
      then (l, false)
      else let until = open_window l.settled_at (r.opened + l.settle) in
        (record l { settled_at = some until }, not (ltb r.checked until))

  unfoldable pub poll_verdict :
      Library → Listener C → FirstSeen → List (Captured C) → List (ExpectationOutcome C) × Verdict
  unfolding evaluate_expectations
  poll_verdict lib l seen items =
      evaluate_expectations lib l.groups l.every_event items (λ id. zero_if_none (seen id))

  -- observe
  unfoldable pub observe : Library → Listener C → Readings → List (Captured C) → Listener C × Bool
  unfolding note_seen poll_verdict settled
  observe lib l r items =
      let seen = note_seen (if l.polled_once then r.elapsed else 0) items l.first_seen in
      let judged = poll_verdict lib l seen items in
      settled (record l { first_seen = seen; polled_once = true; outcomes = some judged.0 }) r
        judged.1

  abbrev pub judged_or :
      Option (List (ExpectationOutcome C))
      → List (ExpectationOutcome C)
      → List (ExpectationOutcome C)
  judged_or (some outcomes) unpolled = outcomes
  judged_or none unpolled = unpolled

  -- finalOutcomes
  unfoldable pub final_outcomes : Library → Listener C → List (ExpectationOutcome C)
  unfolding evaluate_expectations
  final_outcomes lib l = judged_or l.outcomes (evaluate_expectations lib l.groups [] [] (λ id. 0)).0

  abbrev pub fail_passed : ℕ → ExpectationOutcome C → ExpectationOutcome C
  fail_passed settle o =
      if o.passed then record o { passed = false; problem = some (cut_short settle) } else o

  -- timedOutOutcomes
  unfoldable pub timed_out_outcomes : Library → Listener C → List (ExpectationOutcome C)
  unfolding final_outcomes
  timed_out_outcomes lib l =
      if is_some l.settled_at
      then map (fail_passed l.settle) (final_outcomes lib l)
      else final_outcomes lib l

-- What a fetch gives: the requests, or an error, with the test of the second branch of the loop.
pub data Poll (C : Type 0) : Type 0 where
  fetched : Readings → List (Captured C) → Poll C
  fetch_failed : Bool → Poll C

-- How a wait ends: judged by its last poll, with a fetch error, or at its timeout.
pub data Ended (C : Type 0) : Type 0 where
  observed : Listener C → Ended C
  fatal : List (ExpectationOutcome C) → Ended C
  timed_out : List (ExpectationOutcome C) → Ended C

module _ {C : Type 0} where
  abbrev pub after_poll : Listener C × Bool → Ended C → Ended C
  after_poll (l, true) rest = observed l
  after_poll (l, false) rest = rest

  -- The loop of listenForExpectations on the polls made before the timeout.
  unfoldable pub listen : Library → List (Poll C) → Listener C → Ended C
  unfolding observe timed_out_outcomes final_outcomes
  listen lib [] l = timed_out (timed_out_outcomes lib l)
  listen lib (fetched r items ∷ polls) l =
      let polled = observe lib l r items in after_poll polled (listen lib polls polled.0)
  listen lib (fetch_failed true ∷ polls) l = fatal (final_outcomes lib l)
  listen lib (fetch_failed false ∷ polls) l = let rest = listen lib polls l in rest
