-- ===== src/Checks/Evaluate/First.antt =====
-- EvaluateAssertions of pkg/node/assertion_eval.go stops at the first assertion that does not hold.
use echopoint_runner.Checks.Evaluate.{
  Assertion, AssertionResult, AssertError, CheckError, not_held, evaluation_error, evaluate,
  stop_at, before_rest, indexed, evaluate_from, evaluate_assertions,
}
use echopoint_runner.Checks.{Library}
use echopoint_runner.Prelude.{
  ℕ, suc, Bool, true, false, not, ◌&&◌, List, [], ◌∷◌, ◌++◌, Option, none, some, is_some, ◌≡◌, refl,
  ap, ◌∙◌, All, ◌⊎◌, inl, inr, Bool-cases, clash,
}

-- Neither the extraction nor the comparison erred, and the assertion passed.
abbrev pub is_held : AssertionResult → Bool
is_held res = not (is_some res.error) && res.passed

stop_at-held :
    (i : ℕ) (res : AssertionResult) (error : Option CheckError)
    → (not (is_some error) && res.passed) ≡ true
    → stop_at (indexed i res) error ≡ none
unfolding stop_at
stop_at-held i res none h = rw h refl
stop_at-held i res (some e) h = absurd (clash false h refl)

stop_at-failed :
    (i : ℕ) (res : AssertionResult) (error : Option CheckError)
    → (not (is_some error) && res.passed) ≡ false
    → (e : AssertError) × (stop_at (indexed i res) error ≡ some e)
unfolding stop_at
stop_at-failed i res none h = (not_held i (indexed i res), rw h refl)
stop_at-failed i res (some e) h = (evaluation_error i e, refl)

module _ {C : Type 0} (lib : Library) (rc : C) where
  abbrev pub Holds : Assertion C → Type 0
  Holds a = is_held (evaluate lib a rc) ≡ true

  -- The results of a list of assertions, each with its place.
  abbrev pub numbered : ℕ → List (Assertion C) → List AssertionResult
  numbered i [] = []
  numbered i (a ∷ later) = indexed i (evaluate lib a rc) ∷ numbered (suc i) later

  -- What a list of assertions comes to, from a place on.
  abbrev pub Verdict : ℕ → List (Assertion C) → List AssertionResult × Option AssertError → Type 0
  Verdict i assertions outcome =
      (All Holds assertions × (outcome ≡ (numbered i assertions, none)))
      ⊎ ((before : List (Assertion C)) × (failing : Assertion C) × (after : List (Assertion C))
          × (assertions ≡ before ++ failing ∷ after)
          × All Holds before
          × (is_held (evaluate lib failing rc) ≡ false)
          × (error : AssertError) × (outcome ≡ (numbered i (before ++ failing ∷ []), some error)))

  evaluate_from-Verdict :
      (i : ℕ) (assertions : List (Assertion C))
      → Verdict i assertions (evaluate_from lib i assertions rc)
  unfolding evaluate_from
  evaluate_from-Verdict i [] = inl (tt, refl)
  evaluate_from-Verdict i (a ∷ later) =
      let res = evaluate lib a rc in
      let rest = evaluate_from lib (suc i) later rc in
      elim (Bool-cases (is_held res)) [
        | inr failed ↦
            let (e, stops) = stop_at-failed i res res.error failed in
            inr (
              [],
              a,
              later,
              refl,
              tt,
              failed,
              e,
              ap (λ o. before_rest (indexed i res) o rest) stops,
            )
        | inl held ↦
            let goes_on =
              ap (λ o. before_rest (indexed i res) o rest) (stop_at-held i res res.error held) in
            elim (evaluate_from-Verdict (suc i) later) [
              | inl (all, e) ↦ inl ((held, all), goes_on ∙ ap (before_rest (indexed i res) none) e)
              | inr (before, failing, after, split, holds, fails, error, e) ↦ inr (
                a ∷ before,
                failing,
                after,
                ap (◌∷◌ a) split,
                (held, holds),
                fails,
                error,
                goes_on ∙ ap (before_rest (indexed i res) none) e,
              )
            ]
      ]

-- EvaluateAssertions returns no error exactly when every assertion holds, and then the results of
-- all of them, each with its place; else it returns the results up to the first assertion that does
-- not hold, that one included, and evaluates none behind it.
pub evaluate_assertions-Verdict :
    {C : Type 0} (lib : Library) (assertions : List (Assertion C)) (rc : C)
    → Verdict lib rc 0 assertions (evaluate_assertions lib assertions rc)
unfolding evaluate_assertions
evaluate_assertions-Verdict lib assertions rc = evaluate_from-Verdict lib rc 0 assertions
