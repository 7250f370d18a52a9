-- ===== src/Webhook/Broken.antt =====
-- The broken verdict of evaluateExpectations in pkg/node/webhook_expectations.go.
pub mod Growth
use echopoint_runner.Checks.Evaluate.{Assertion}
use echopoint_runner.Checks.{Library}
use echopoint_runner.Prelude.Int.{ℤ, pos, negsuc}
use echopoint_runner.Prelude.Text.{Text}
use echopoint_runner.Prelude.{
  ℕ, zero, suc, ◌≤◌, Bool, true, false, ◌&&◌, not, List, [], ◌∷◌, ◌++◌, map, Option, none, some,
  is_some, length, ltb, ltb→lt, lt→ltb, ◌==◌, if◌then◌else◌, ◌≡◌, refl, sym, ap, ◌∙◌, subst, ◌⊎◌,
  inl, inr, arith, Bool-cases, clash,
}
use echopoint_runner.Webhook.Broken.Growth.{
  Starts, Starts-length, Grown, Grew, assign_requests-Grew,
}
use echopoint_runner.Webhook.Evaluate.{
  events_of, with_closest, next_verdict, evaluate_groups, evaluate_expectations,
}
use echopoint_runner.Webhook.Judge.{
  item_at, GroupEvents, Problem, Verdict, pending, met, broken, is_met, exceeds, over_max,
  failing_at, failing_check, judge, judge_expectation, option_or, check_or_count, count_problem,
}
use echopoint_runner.Webhook.{Expectation, Captured, is_nil, above, Assigned, assign_requests}

above_more : (m n : ℕ) (z : ℤ) → m ≤ n → above m z ≡ true → above n z ≡ true
above_more m n (pos k) le h = let lt = ltb→lt k m h in lt→ltb k n (omega arith)
above_more m n (negsuc k) le h = refl

exceeds_more : (m n : ℕ) (max : Option ℤ) → m ≤ n → exceeds m max ≡ true → exceeds n max ≡ true
exceeds_more m n none le h = absurd (clash false h refl)
exceeds_more m n (some z) le h = above_more m n z le h

map-append : {A B : Type 0} (f : A → B) (xs ys : List A) → map f (xs ++ ys) ≡ map f xs ++ map f ys
map-append f [] ys = refl
map-append f (x ∷ xs) ys = ap (λ t. f x ∷ t) (map-append f xs ys)

failed_breaks :
    {C : Type 0} (o f : Option (Problem C)) → is_some f ≡ true → (check_or_count f o).1 ≡ true
failed_breaks o none h = h
failed_breaks o (some p) h = refl

break_failed :
    {C : Type 0} (o f : Option (Problem C)) → (check_or_count f o).1 ≡ true → is_some f ≡ true
break_failed o none h = h
break_failed o (some p) h = refl

module _ {C : Type 0} (lib : Library) (every : List (Assertion C)) where
  failing_at_more :
      (items more : List (Captured C)) (i : ℕ)
      → is_some (failing_at lib every (item_at items i)) ≡ true
      → is_some (failing_at lib every (item_at (items ++ more) i)) ≡ true
  unfolding failing_at item_at
  failing_at_more [] more i h = absurd (clash false h refl)
  failing_at_more (item ∷ items) more zero h = h
  failing_at_more (item ∷ items) more (suc i) h = failing_at_more items more i h

  option_or_more :
      (o o' r r' : Option (Problem C))
      → (is_some o ≡ true → is_some o' ≡ true)
      → (is_some r ≡ true → is_some r' ≡ true)
      → is_some (option_or o r) ≡ true
      → is_some (option_or o' r') ≡ true
  option_or_more o (some p) r r' h k e = refl
  option_or_more none none r r' h k e = k e
  option_or_more (some p) none r r' h k e = absurd (clash false (h refl) refl)

  failing_check_more :
      (items more : List (Captured C)) (claimed later : List ℕ)
      → is_some (failing_check lib every items claimed) ≡ true
      → is_some (failing_check lib every (items ++ more) (claimed ++ later)) ≡ true
  unfolding failing_check
  failing_check_more items more [] later h = absurd (clash false h refl)
  failing_check_more items more (i ∷ claimed) later h =
      option_or_more (failing_at lib every (item_at items i))
        (failing_at lib every (item_at (items ++ more) i)) (failing_check lib every items claimed)
        (failing_check lib every (items ++ more) (claimed ++ later)) (failing_at_more items more i)
        (failing_check_more items more claimed later) h

  -- What broke the group of some events breaks it when there are more of them.
  judge_more :
      (items more : List (Captured C)) (g : Expectation C) (e e' : GroupEvents)
      → Starts e.claimed e'.claimed
      → Starts e.matched e'.matched
      → (judge lib every items g e).1 ≡ true
      → (judge lib every (items ++ more) g e').1 ≡ true
  unfolding judge over_max
  judge_more items more g e e' (later, grown) matched h = elim (Bool-cases (is_nil g.unresolved)) [
    | inr unresolved ↦ absurd (clash false (rw unresolved at h) refl)
    | inl resolved ↦ elim (Bool-cases (exceeds (length e'.matched) g.max)) [
      | inl over ↦ rw (resolved, over) refl
      | inr within ↦ elim (Bool-cases (exceeds (length e.matched) g.max)) [
        | inl over ↦ absurd (
            clash (exceeds (length e'.matched) g.max)
              (exceeds_more (length e.matched) (length e'.matched) g.max
                (Starts-length e.matched e'.matched matched) over)
              within)
        | inr before ↦
            rw (resolved, within)
              (failed_breaks (count_problem g (length e'.claimed))
                (failing_check lib every (items ++ more) e'.claimed)
                (subst (λ ids. is_some (failing_check lib every (items ++ more) ids) ≡ true)
                  (sym grown)
                  (failing_check_more items more e.claimed later (
                    break_failed (count_problem g (length e.claimed))
                      (failing_check lib every items e.claimed) (rw (resolved, before) at h)))))
      ]
    ]
  ]

abbrev is_broken : Verdict → Bool
is_broken pending = false
is_broken met = false
is_broken broken = true

broken_from : (v : Verdict) → is_broken v ≡ true → v ≡ broken
broken_from pending h = absurd (clash false h refl)
broken_from met h = absurd (clash false h refl)
broken_from broken h = refl

module _ {C : Type 0} (g : Expectation C) where
  next_verdict_kept : (b p : Bool) → is_broken (next_verdict g b p broken) ≡ true
  unfolding next_verdict
  next_verdict_kept b p = ground arith

  next_verdict_source :
      (b p : Bool) (v : Verdict)
      → is_broken (next_verdict g b p v) ≡ true
      → (b ≡ true) ⊎ (is_broken v ≡ true)
  unfolding next_verdict
  next_verdict_source true p v h = inl refl
  next_verdict_source false p pending h = ground arith
  next_verdict_source false p met h = ground arith
  next_verdict_source false p broken h = inr refl

  next_verdict_more :
      (b b' p p' : Bool) (v v' : Verdict)
      → (b ≡ true → b' ≡ true)
      → (is_broken v ≡ true → is_broken v' ≡ true)
      → is_broken (next_verdict g b p v) ≡ true
      → is_broken (next_verdict g b' p' v') ≡ true
  unfolding next_verdict
  next_verdict_more b b' p p' v v' h k e = elim (next_verdict_source b p v e) [
    | inl new ↦ rw (h new) refl
    | inr old ↦ rw (broken_from v' (k old)) (next_verdict_kept b' p')
  ]

module _ {C : Type 0} (lib : Library) (every : List (Assertion C))
    (groups : List (Expectation C)) where
  evaluate_groups_more :
      (items more : List (Captured C)) (seen seen' : Text → ℕ) (a a' : Assigned)
      (gs : List (Expectation C)) (index : ℕ) (v v' : Verdict)
      → Grew a a'
      → (is_broken v ≡ true → is_broken v' ≡ true)
      → is_broken (evaluate_groups lib every items seen groups a gs index v).1 ≡ true
      → is_broken (evaluate_groups lib every (items ++ more) seen' groups a' gs index v').1 ≡ true
  unfolding evaluate_groups judge_expectation events_of
  evaluate_groups_more items more seen seen' a a' [] index v v' grew k h = k h
  evaluate_groups_more items more seen seen' a a' (g ∷ gs) index v v' grew k h =
      let e = events_of groups a index in
      let e' = events_of groups a' index in
      let j = judge_expectation lib every items seen g e in
      let j' = judge_expectation lib every (items ++ more) seen' g e' in
      evaluate_groups_more items more seen seen' a a' gs (suc index)
        (next_verdict g j.1 (j.0).passed v) (next_verdict g j'.1 (j'.0).passed v') grew
        (next_verdict_more g j.1 j'.1 (j.0).passed (j'.0).passed v v'
          (judge_more lib every items more g e e' (grew.claims index) (grew.matches index)) k)
        h

  -- When evaluateExpectations finds the wait broken, no later request repairs it: the verdict on the same
  -- requests with others after them, seen at whatever times, is broken too.
  pub evaluate_expectations-stays_broken :
      (items more : List (Captured C)) (seen seen' : Text → ℕ)
      → (evaluate_expectations lib groups every items seen).1 ≡ broken
      → (evaluate_expectations lib groups every (items ++ more) seen').1 ≡ broken
  unfolding evaluate_expectations
  evaluate_expectations-stays_broken items more seen seen' h =
      let context = λ (item : Captured C). item.context in
      let grew =
        subst
          (λ cs.
            Grew (assign_requests lib groups (map context items)) (assign_requests lib groups cs))
          (sym (map-append context items more))
          (assign_requests-Grew lib groups (map context items) (map context more)) in
      broken_from (evaluate_expectations lib groups every (items ++ more) seen').1 (
        evaluate_groups_more items more seen seen' (assign_requests lib groups (map context items))
          (assign_requests lib groups (map context (items ++ more))) groups 0 met met grew (λ e. e)
          (ap is_broken h))
