-- ===== src/Webhook.antt =====
-- pkg/node/webhook_expectations.go: which expected event each captured request counts for. A request
-- is known by its position, oldest first, and the maps by group and by request are functions.
pub mod Judge
pub mod Evaluate
pub mod Met
pub mod Listener
pub mod Execute
pub mod Claims
pub mod Broken
mod Tests
use echopoint_runner.Checks.Evaluate.{Assertion, evaluate}
use echopoint_runner.Checks.{Library}
use echopoint_runner.Prelude.Int.{ℤ, pos, negsuc}
use echopoint_runner.Prelude.Text.{Text}
use echopoint_runner.Prelude.{
  ℕ, zero, suc, Bool, true, false, ◌&&◌, List, [], ◌∷◌, ◌++◌, Option, none, some, is_some, length,
  ltb, ◌==◌, find_by, not, if◌then◌else◌,
}

-- resolvedExpectation
pub record Expectation (C : Type 0) : Type 0 where
  pub name : Text
  pub min : Option ℤ
  pub max : Option ℤ
  pub assertions : List (Assertion C)
  pub unresolved : List Text

-- capturedRequest, with its assertion context
pub record Captured (C : Type 0) : Type 0 where
  pub id : Text
  pub context : C

-- Comparisons of a count with an int.
abbrev pub below : ℕ → ℤ → Bool
below n (pos m) = ltb n m
below n (negsuc m) = false

abbrev pub above : ℕ → ℤ → Bool
above n (pos m) = ltb m n
above n (negsuc m) = true

abbrev pub one_if_none : Option ℤ → ℤ
one_if_none none = pos 1
one_if_none (some z) = z

abbrev pub is_nil : {A : Type 0} → List A → Bool
is_nil [] = true
is_nil (x ∷ xs) = false

module _ {C : Type 0} where
  -- minimum
  abbrev pub minimum : Expectation C → ℤ
  minimum g = one_if_none g.min

  -- firstFailingAssertion
  unfoldable pub first_failing_assertion : Library → List (Assertion C) → C → Option (Assertion C)
  unfolding evaluate
  first_failing_assertion lib assertions rc =
      find_by (λ a. not (evaluate lib a rc).passed) assertions

  -- allAssertionsPass
  unfoldable pub all_assertions_pass : Library → List (Assertion C) → C → Bool
  unfolding first_failing_assertion
  all_assertions_pass lib assertions rc = not (is_some (first_failing_assertion lib assertions rc))

  -- The test of the inner loop of assignRequests.
  unfoldable pub satisfies : Library → Expectation C → C → Bool
  unfolding all_assertions_pass
  satisfies lib g rc = is_nil g.unresolved && all_assertions_pass lib g.assertions rc

abbrev pub Rows : Type 0
Rows = ℕ → List ℕ

-- rows[g] = append(rows[g], i)
abbrev pub append_row : Rows → ℕ → ℕ → Rows
append_row rows g i = λ h. if h == g then rows h ++ i ∷ [] else rows h

pub record Assigned : Type 0 where
  pub claims : Rows
  pub matches : Rows
  pub claimed_by : ℕ → Option ℕ

-- `chosen` and `needed` of the outer loop.
pub record Choice : Type 0 where
  pub chosen : Option ℕ
  pub needed : Bool

-- The switch of the inner loop.
unfoldable pub choose : {C : Type 0} → Expectation C → ℕ → Rows → Choice → Choice
choose g index claims c =
    if c.needed
    then c
    else if below (length (claims index)) (minimum g)
    then record { chosen = some index; needed = true }
    else if is_some c.chosen
    then c
    else record { chosen = some index; needed = false }

module _ {C : Type 0} where
  -- The inner loop of assignRequests, from a group on.
  unfoldable pub match_groups :
      Library → C → ℕ → Rows → List (Expectation C) → ℕ → Choice → Rows → Choice × Rows
  unfolding choose satisfies
  match_groups lib rc item claims [] index c matches = (c, matches)
  match_groups lib rc item claims (g ∷ gs) index c matches =
      let matched = satisfies lib g rc in
      match_groups lib rc item claims gs (suc index)
        (if matched then choose g index claims c else c)
        (if matched then append_row matches index item else matches)

abbrev pub owned_by : (ℕ → Option ℕ) → ℕ → ℕ → ℕ → Option ℕ
owned_by owner item g = λ j. if j == item then some g else owner j

-- What the outer loop does with a chosen group.
unfoldable pub claim : ℕ → Assigned → Choice × Rows → Option ℕ → Assigned
claim item a (c, matches) none = record a { matches = matches }
claim item a (c, matches) (some g) = record {
  claims = append_row a.claims g item;
  matches = matches;
  claimed_by = owned_by a.claimed_by item g;
}

abbrev pub nothing_chosen : Choice
nothing_chosen = record { chosen = none; needed = false }

abbrev pub nothing_assigned : Assigned
nothing_assigned = record { claims = λ g. []; matches = λ g. []; claimed_by = λ i. none }

module _ {C : Type 0} where
  unfoldable pub assign_one : Library → List (Expectation C) → ℕ → C → Assigned → Assigned
  unfolding match_groups claim
  assign_one lib groups item rc a =
      let matched = match_groups lib rc item a.claims groups 0 nothing_chosen a.matches in
      claim item a matched (matched.0).chosen

  unfoldable pub assign_from : Library → List (Expectation C) → ℕ → List C → Assigned → Assigned
  unfolding assign_one
  assign_from lib groups item [] a = a
  assign_from lib groups item (rc ∷ rcs) a =
      assign_from lib groups (suc item) rcs (assign_one lib groups item rc a)

  -- assignRequests
  unfoldable pub assign_requests : Library → List (Expectation C) → List C → Assigned
  unfolding assign_from
  assign_requests lib groups contexts = assign_from lib groups 0 contexts nothing_assigned
