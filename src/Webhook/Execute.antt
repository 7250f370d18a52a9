-- ===== src/Webhook/Execute.antt =====
-- executeExpectations of pkg/node/webhook_expectations.go, with the checks of its settings. They look
-- at the node's groups; the resolved ones, which are modelled, have the same names, bounds and numbers
-- of assertions. A settle window is zero or more milliseconds here.
pub mod Passed
pub mod Success
use Prim.Native.Nat.{◌*◌}
use echopoint_runner.Checks.Evaluate.{Assertion}
use echopoint_runner.Checks.{Library}
use echopoint_runner.Prelude.Int.{ℤ, pos, negsuc}
use echopoint_runner.Prelude.Strings.{trim_space, is_blank}
use echopoint_runner.Prelude.Text.{Text}
use echopoint_runner.Prelude.{
  ℕ, zero, suc, ◌+◌, Bool, true, false, ◌||◌, not, List, [], ◌∷◌, Option, none, some, is_some,
  length, ltb, if◌then◌else◌,
}
use echopoint_runner.Webhook.Judge.{ExpectationOutcome}
use echopoint_runner.Webhook.Listener.{Listener, Poll, Ended, observed, fatal, timed_out, listen}
use echopoint_runner.Webhook.{Expectation, minimum, is_nil}

-- `a < b` of two ints
abbrev pub less : ℤ → ℤ → Bool
less (pos a) (pos b) = ltb a b
less (pos a) (negsuc b) = false
less (negsuc a) (pos b) = true
less (negsuc a) (negsuc b) = ltb b a

-- The settings of a wait that are not in its groups.
pub record Settings : Type 0 where
  pub settle_ms : ℕ
  pub timeout_ms : ℤ

-- defaultWebhookWaitTimeoutMs
abbrev pub default_timeout_ms : ℕ
default_timeout_ms = 30000

-- timeoutMs
unfoldable pub timeout : Settings → ℤ
timeout s = if less (pos 0) s.timeout_ms then s.timeout_ms else pos default_timeout_ms

pub data ConfigError : Type 0 where
  settle_too_long : ConfigError
  unnamed : ℕ → ConfigError
  no_assertion : Text → ConfigError
  negative_min : Text → ConfigError
  max_below_min : Text → ConfigError

abbrev pub max_below : Option ℤ → ℤ → Bool
max_below none min = false
max_below (some max) min = less max min

abbrev first_error : Option ConfigError → Option ConfigError → Option ConfigError
first_error (some e) later = some e
first_error none later = later

module _ {C : Type 0} where
  -- validateSettle
  unfoldable pub validate_settle : Settings → List (Expectation C) → Option ConfigError
  unfolding timeout
  validate_settle s groups =
      if is_nil groups || less (pos s.settle_ms) (timeout s) then none else some settle_too_long

  -- The switch of validateExpectations, at a group's index.
  unfoldable pub validate_expectation : ℕ → Expectation C → Option ConfigError
  unfolding trim_space
  validate_expectation index g =
      if is_blank (trim_space g.name)
      then some (unnamed (suc index))
      else if is_nil g.assertions
      then some (no_assertion g.name)
      else if less (minimum g) (pos 0)
      then some (negative_min g.name)
      else if max_below g.max (minimum g)
      then some (max_below_min g.name)
      else none

  unfoldable pub validate_each : ℕ → List (Expectation C) → Option ConfigError
  unfolding validate_expectation
  validate_each index [] = none
  validate_each index (g ∷ gs) =
      first_error (validate_expectation index g) (validate_each (suc index) gs)

  -- validateExpectations
  unfoldable pub validate_expectations : Settings → List (Expectation C) → Option ConfigError
  unfolding validate_settle validate_each
  validate_expectations s groups = first_error (validate_settle s groups) (validate_each 0 groups)

  -- The listener that listenForExpectations starts with; a millisecond is 1000000 nanoseconds.
  abbrev pub new_listener : Settings → List (Expectation C) → List (Assertion C) → Listener C
  new_listener s groups every = record {
    groups = groups;
    every_event = every;
    settle = s.settle_ms * 1000000;
    first_seen = λ id. none;
    polled_once = false;
    settled_at = none;
    outcomes = none;
  }

  -- countReceived
  unfoldable pub count_received : List (ExpectationOutcome C) → ℕ
  count_received [] = 0
  count_received (o ∷ outs) = o.received + count_received outs

  -- failedCount of executeExpectations
  unfoldable pub count_failed : List (ExpectationOutcome C) → ℕ
  count_failed [] = 0
  count_failed (o ∷ outs) = let rest = count_failed outs in if o.passed then rest else suc rest

-- The result of executeExpectations: each error it returns, or the number received.
pub data Executed (C : Type 0) : Type 0 where
  no_inputs : Executed C
  misconfigured : ConfigError → Executed C
  not_fetched : List (ExpectationOutcome C) → Executed C
  events_failed : ℕ → List (ExpectationOutcome C) → Executed C
  succeeded : ℕ → List (ExpectationOutcome C) → Executed C

module _ {C : Type 0} where
  unfoldable pub report : List (ExpectationOutcome C) → Executed C
  unfolding count_failed count_received
  report outs =
      if ltb 0 (count_failed outs)
      then events_failed (count_failed outs) outs
      else succeeded (count_received outs) outs

  abbrev pub outcomes_or_empty : Option (List (ExpectationOutcome C)) → List (ExpectationOutcome C)
  outcomes_or_empty none = []
  outcomes_or_empty (some outs) = outs

  unfoldable pub report_end : Ended C → Executed C
  unfolding report
  report_end (observed l) = report (outcomes_or_empty l.outcomes)
  report_end (timed_out outs) = report outs
  report_end (fatal outs) = not_fetched outs

  abbrev pub unless_misconfigured : Option ConfigError → Executed C → Executed C
  unless_misconfigured (some e) rest = misconfigured e
  unless_misconfigured none rest = rest

  -- executeExpectations; `has_inputs` tells whether waitInputs gives no error.
  unfoldable pub execute_expectations :
      Library
      → Bool
      → Settings
      → List (Expectation C)
      → List (Assertion C)
      → List (Poll C)
      → Executed C
  unfolding validate_expectations listen report_end
  execute_expectations lib has_inputs s groups every polls =
      if has_inputs
      then unless_misconfigured (validate_expectations s groups)
          (report_end (listen lib polls (new_listener s groups every)))
      else no_inputs
