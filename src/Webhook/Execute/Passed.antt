-- ===== src/Webhook/Execute/Passed.antt =====
-- What it says of the requests that every outcome of evaluateExpectations in
-- pkg/node/webhook_expectations.go passed.
use echopoint_runner.Checks.Evaluate.{Assertion}
use echopoint_runner.Checks.{Library}
use echopoint_runner.Prelude.Text.{Text}
use echopoint_runner.Prelude.{
  ℕ, suc, Bool, true, false, not, List, [], ◌∷◌, map, ltb, lt→ltb, All, ◌≡◌, refl, sym, subst, inl,
  inr, arith, Bool-cases, clash,
}
use echopoint_runner.Webhook.Claims.{At}
use echopoint_runner.Webhook.Evaluate.{
  events_of, with_closest, evaluate_groups, evaluate_expectations,
}
use echopoint_runner.Webhook.Execute.{
  count_failed, Executed, no_inputs, misconfigured, not_fetched, events_failed, succeeded, report,
}
use echopoint_runner.Webhook.Judge.{
  item_at, ExpectationOutcome, Verdict, met, judge, judge_expectation,
}
use echopoint_runner.Webhook.Listener.{fail_passed}
use echopoint_runner.Webhook.Met.{IsSatisfied, Passes, judge-IsSatisfied}
use echopoint_runner.Webhook.{Expectation, Captured, is_nil, Assigned, assign_requests}

abbrev pub AllPassed : {C : Type 0} → List (ExpectationOutcome C) → Type 0
AllPassed outs = All (λ o. o.passed ≡ true) outs

none_failed :
    {C : Type 0} (outs : List (ExpectationOutcome C))
    → ltb 0 (count_failed outs) ≡ false
    → AllPassed outs
unfolding count_failed
none_failed [] h = tt
none_failed (o ∷ outs) h = elim (Bool-cases o.passed) [
  | inl passed ↦ (passed, none_failed outs (rw passed at h))
  | inr failed ↦ absurd (
      clash (ltb 0 (suc (count_failed outs))) (lt→ltb 0 (suc (count_failed outs)) (omega arith))
        (rw failed at h))
]

pub passed_before :
    {C : Type 0} (settle : ℕ) (outs : List (ExpectationOutcome C))
    → AllPassed (map (fail_passed settle) outs)
    → AllPassed outs
passed_before settle [] h = tt
passed_before settle (o ∷ outs) h = (
  elim (Bool-cases o.passed) [
    | inl passed ↦ passed
    | inr failed ↦ absurd (clash false (rw failed at h.0) refl)
  ],
  passed_before settle outs h.1,
)

module _ {C : Type 0} (lib : Library) (groups : List (Expectation C)) where
  -- Every group is evaluated and satisfied, on the requests of a poll.
  abbrev pub AllSatisfied : List (Assertion C) → List (Captured C) → Type 0
  AllSatisfied every items =
      (i : ℕ) (g : Expectation C)
      → At groups 0 i g
      → (is_nil g.unresolved ≡ true)
        × IsSatisfied lib every items g
            ((assign_requests lib groups (map (λ item. item.context) items)).claims i)
            ((assign_requests lib groups (map (λ item. item.context) items)).matches i)

  passed_is_judged :
      (every : List (Assertion C)) (items : List (Captured C)) (seen : Text → ℕ) (a : Assigned)
      (g : Expectation C) (index : ℕ)
      → (with_closest lib groups items a g
          (events_of groups a index)
          (judge_expectation lib every items seen g (events_of groups a index)).0).passed
        ≡ true
      → (is_nil g.unresolved ≡ true)
        × IsSatisfied lib every items g (a.claims index) (a.matches index)
  unfolding with_closest judge_expectation judge events_of
  passed_is_judged every items seen a g index h = elim (Bool-cases (is_nil g.unresolved)) [
    | inr unresolved ↦ absurd (clash false (rw unresolved at h) refl)
    | inl resolved ↦ (
      resolved,
      judge-IsSatisfied lib every items g (events_of groups a index) resolved (not_true _ h),
    )
  ]
    where
      not_true : (b : Bool) → not b ≡ true → b ≡ false
      not_true true e = absurd (clash false e refl)
      not_true false e = refl

  evaluate_groups_passed :
      (every : List (Assertion C)) (items : List (Captured C)) (seen : Text → ℕ) (a : Assigned)
      (gs : List (Expectation C)) (index : ℕ) (v : Verdict)
      → AllPassed (evaluate_groups lib every items seen groups a gs index v).0
      → (i : ℕ) (g : Expectation C) → At gs index i g
      → (is_nil g.unresolved ≡ true) × IsSatisfied lib every items g (a.claims i) (a.matches i)
  unfolding evaluate_groups
  evaluate_groups_passed every items seen a [] index v h i g at_place = absurd at_place
  evaluate_groups_passed every items seen a (g ∷ gs) index v h i g' (inl (here, same)) =
      subst
        (λ k.
          (is_nil k.unresolved ≡ true) × IsSatisfied lib every items k (a.claims i) (a.matches i))
        (sym same)
        (subst
          (λ k.
            (is_nil g.unresolved ≡ true) × IsSatisfied lib every items g (a.claims k) (a.matches k))
          (sym here) (passed_is_judged every items seen a g index h.0))
  evaluate_groups_passed every items seen a (g ∷ gs) index v h i g' (inr later) =
      evaluate_groups_passed every items seen a gs (suc index) _ h.1 i g' later

  pub satisfied_if_passed :
      (every : List (Assertion C)) (items : List (Captured C)) (seen : Text → ℕ)
      → AllPassed (evaluate_expectations lib groups every items seen).0
      → AllSatisfied every items
  unfolding evaluate_expectations
  satisfied_if_passed every items seen h =
      evaluate_groups_passed every items seen
        (assign_requests lib groups (map (λ item. item.context) items)) groups 0 met h

  sound_on_nothing :
      (every : List (Assertion C)) (claimed : List ℕ)
      → All (λ i. Passes lib every (item_at [] i)) claimed
  unfolding item_at
  sound_on_nothing every [] = tt
  sound_on_nothing every (i ∷ claimed) = (tt, sound_on_nothing every claimed)

  -- Without a request there is nothing that an event's checks could fail on.
  pub for_every_check : (every : List (Assertion C)) → AllSatisfied [] [] → AllSatisfied every []
  for_every_check every h i g place =
      let (resolved, s) = h i g place in
      (
        resolved,
        record {
          enough = s.enough;
          within = s.within;
          sound = sound_on_nothing every ((assign_requests lib groups []).claims i);
        },
      )

abbrev pub is_success : {C : Type 0} → Executed C → Bool
is_success (succeeded n outs) = true
is_success (events_failed n outs) = false
is_success (not_fetched outs) = false
is_success (misconfigured e) = false
is_success no_inputs = false

pub report_success :
    {C : Type 0} (outs : List (ExpectationOutcome C))
    → is_success (report outs) ≡ true
    → AllPassed outs
unfolding report
report_success outs h = elim (Bool-cases (ltb 0 (count_failed outs))) [
  | inl failed ↦ absurd (clash false (rw failed at h) refl)
  | inr passed ↦ none_failed outs passed
]
