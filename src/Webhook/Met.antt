-- ===== src/Webhook/Met.antt =====
-- The met verdict of evaluateExpectations in pkg/node/webhook_expectations.go.
use echopoint_runner.Checks.Evaluate.{Assertion}
use echopoint_runner.Checks.{Library}
use echopoint_runner.Prelude.Text.{Text}
use echopoint_runner.Prelude.{
  ℕ, suc, Bool, true, false, ◌&&◌, not, List, [], ◌∷◌, map, Option, none, some, is_some, length,
  ◌==◌, All, ◌≡◌, refl, sym, ap, ◌∙◌, subst, inl, inr, arith, Bool-cases, clash,
}
use echopoint_runner.Webhook.Claims.{At}
use echopoint_runner.Webhook.Evaluate.{
  events_of, next_verdict, evaluate_groups, evaluate_expectations,
}
use echopoint_runner.Webhook.Judge.{
  item_at, GroupEvents, Problem, Verdict, met, is_met, exceeds, over_max, failing_at, failing_check,
  judge, judge_expectation, option_or, check_or_count, count_problem, with_some, check_failed,
}
use echopoint_runner.Webhook.{
  Expectation, Captured, minimum, below, is_nil, first_failing_assertion, all_assertions_pass,
  Assigned, assign_requests,
}

-- What the count of a group says when it finds no problem.
count_problem-none :
    {C : Type 0} (g : Expectation C) (claimed : ℕ)
    → is_some (count_problem g claimed) ≡ false
    → below claimed (minimum g) ≡ false
unfolding count_problem
count_problem-none g claimed h = elim (Bool-cases (below claimed (minimum g))) [
  | inr enough ↦ enough
  | inl short ↦ elim (Bool-cases ((claimed == 0) && below 0 (minimum g))) [
    | inl zero_of ↦ absurd (clash true refl (rw zero_of at h))
    | inr some_of ↦ absurd (clash true refl (rw (some_of, short) at h))
  ]
]

module _ {C : Type 0} (lib : Library) (every : List (Assertion C)) where
  -- A request, if it is there, passes the checks of every event.
  abbrev pub Passes : Option (Captured C) → Type 0
  Passes none = Unit
  Passes (some item) = all_assertions_pass lib every item.context ≡ true

  with_some-none :
      (o : Option (Assertion C)) (id : Text)
      → is_some (with_some o (λ failed. some (check_failed failed id))) ≡ false
      → not (is_some o) ≡ true
  with_some-none none id h = refl
  with_some-none (some a) id h = absurd (clash true refl h)

  failing_at-none : (o : Option (Captured C)) → is_some (failing_at lib every o) ≡ false → Passes o
  unfolding failing_at all_assertions_pass
  failing_at-none none h = tt
  failing_at-none (some item) h =
      with_some-none (first_failing_assertion lib every item.context) item.id h

  option_or-none :
      (o r : Option (Problem C))
      → is_some (option_or o r) ≡ false
      → (is_some o ≡ false) × (is_some r ≡ false)
  option_or-none none r h = (refl, h)
  option_or-none (some p) r h = absurd (clash true refl h)

  failing_check-none :
      (items : List (Captured C)) (claimed : List ℕ)
      → is_some (failing_check lib every items claimed) ≡ false
      → All (λ i. Passes (item_at items i)) claimed
  unfolding failing_check
  failing_check-none items [] h = tt
  failing_check-none items (i ∷ claimed) h =
      let (here, later) =
        option_or-none (failing_at lib every (item_at items i))
          (failing_check lib every items claimed) h in
      (failing_at-none (item_at items i) here, failing_check-none items claimed later)

  -- A group that has the events it expects, none too many, and all of them sound.
  pub record IsSatisfied (items : List (Captured C)) (g : Expectation C) (claimed matched : List ℕ)
      : Type 0 where
    pub enough : below (length claimed) (minimum g) ≡ false
    pub within : exceeds (length matched) g.max ≡ false
    pub sound : All (λ i. Passes (item_at items i)) claimed

  check_or_count-none :
      (f o : Option (Problem C))
      → is_some (check_or_count f o).0 ≡ false
      → (is_some f ≡ false) × (is_some o ≡ false)
  check_or_count-none none o h = (refl, h)
  check_or_count-none (some p) o h = absurd (clash true refl h)

  pub judge-IsSatisfied :
      (items : List (Captured C)) (g : Expectation C) (e : GroupEvents)
      → is_nil g.unresolved ≡ true
      → is_some (judge lib every items g e).0 ≡ false
      → IsSatisfied items g e.claimed e.matched
  unfolding judge over_max
  judge-IsSatisfied items g e resolved h = elim (Bool-cases (exceeds (length e.matched) g.max)) [
    | inl over ↦ absurd (clash true refl (rw (resolved, over) at h))
    | inr within ↦
        let (checks, counts) =
          check_or_count-none (failing_check lib every items e.claimed)
            (count_problem g (length e.claimed)) (rw (resolved, within) at h) in
        record {
          enough = count_problem-none g (length e.claimed) counts;
          within = within;
          sound = failing_check-none items e.claimed checks;
        }
  ]

not_met : {A : Type 0} (v : Verdict) → is_met v ≡ false → v ≡ met → A
not_met v h e = absurd (clash true refl (sym (ap is_met e) ∙ h))

next_verdict-met :
    {C : Type 0} (g : Expectation C) (b p : Bool) (v : Verdict)
    → is_met (next_verdict g b p v) ≡ true
    → (is_met v ≡ true) × (is_nil g.unresolved ≡ true → p ≡ true)
unfolding next_verdict
next_verdict-met g true p v h = absurd (clash false h refl)
next_verdict-met g false true v h = ground arith
next_verdict-met g false false v h = ground arith

module _ {C : Type 0} (lib : Library) (every : List (Assertion C))
    (groups : List (Expectation C)) where
  -- What a met verdict says of the group at a place.
  abbrev pub Good : List (Captured C) → Assigned → ℕ → Expectation C → Type 0
  Good items a i g =
      is_nil g.unresolved ≡ true → IsSatisfied lib every items g (a.claims i) (a.matches i)

  evaluate_groups-met :
      (items : List (Captured C)) (seen : Text → ℕ) (a : Assigned) (gs : List (Expectation C))
      (index : ℕ) (v : Verdict)
      → is_met (evaluate_groups lib every items seen groups a gs index v).1 ≡ true
      → (is_met v ≡ true) × ((i : ℕ) (g : Expectation C) → At gs index i g → Good items a i g)
  unfolding evaluate_groups judge_expectation events_of
  evaluate_groups-met items seen a [] index v h = (h, λ i g never. absurd never)
  evaluate_groups-met items seen a (g ∷ gs) index v h =
      let e = events_of groups a index in
      let j = judge_expectation lib every items seen g e in
      let next = next_verdict g j.1 (j.0).passed v in
      let (now, later) = evaluate_groups-met items seen a gs (suc index) next h in
      let (before, passes) = next_verdict-met g j.1 (j.0).passed v now in
      (
        before,
        λ i g' place resolved. elim place [
          | inr after ↦ later i g' after resolved
          | inl (here, same) ↦
              at_place i g' here same
                (λ r.
                  judge-IsSatisfied lib every items g e r
                    (none_of (judge lib every items g e).0 (passes r)))
                resolved
        ],
      )
    where
      none_of : (o : Option (Problem C)) → not (is_some o) ≡ true → is_some o ≡ false
      none_of none h = refl
      none_of (some p) h = absurd (clash false h refl)

      at_place :
          (i : ℕ) (g' : Expectation C)
          → i ≡ index
          → g' ≡ g
          → Good items a index g
          → Good items a i g'
      at_place i g' here same good =
          subst (λ k. Good items a i k) (sym same) (subst (λ k. Good items a k g) (sym here) good)

  -- When evaluateExpectations finds the wait met, every group whose references had values claimed at least
  -- its minimum of requests, no more than its maximum match it, and each request it claimed passes the
  -- checks of every event.
  pub evaluate_expectations-met :
      (items : List (Captured C)) (seen : Text → ℕ)
      → (evaluate_expectations lib groups every items seen).1 ≡ met
      → (i : ℕ) (g : Expectation C) → At groups 0 i g
      → is_nil g.unresolved ≡ true
      → IsSatisfied lib every items g
          ((assign_requests lib groups (map (λ item. item.context) items)).claims i)
          ((assign_requests lib groups (map (λ item. item.context) items)).matches i)
  unfolding evaluate_expectations
  evaluate_expectations-met items seen h =
      (evaluate_groups-met items seen
        (assign_requests lib groups (map (λ item. item.context) items)) groups 0 met
        (ap is_met h)).1
