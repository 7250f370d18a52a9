-- ===== src/Webhook/Execute/Success.antt =====
-- What the success of executeExpectations in pkg/node/webhook_expectations.go says of its requests.
use echopoint_runner.Checks.Evaluate.{Assertion}
use echopoint_runner.Checks.{Library}
use echopoint_runner.Prelude.Text.{Text}
use echopoint_runner.Prelude.{
  ℕ, Bool, true, false, ◌&&◌, not, List, [], ◌∷◌, Option, none, some, is_some, ◌==◌, if◌then◌else◌,
  All, In, ◌⊎◌, ◌≡◌, refl, ap, ◌∙◌, subst, inl, inr, Bool-cases, clash,
}
use echopoint_runner.Webhook.Evaluate.{evaluate_expectations}
use echopoint_runner.Webhook.Execute.{
  Settings, validate_expectations, new_listener, ConfigError, report, outcomes_or_empty, report_end,
  unless_misconfigured, execute_expectations,
}
use echopoint_runner.Webhook.Judge.{ExpectationOutcome, Verdict, pending, met, broken, zero_if_none}
use echopoint_runner.Webhook.Listener.{
  Listener, Readings, note_seen, settled, requires_an_event, poll_verdict, observe, judged_or,
  final_outcomes, timed_out_outcomes, Poll, fetched, fetch_failed, Ended, observed, fatal,
  timed_out, after_poll, listen,
}
use echopoint_runner.Webhook.{Expectation, Captured}
use echopoint_runner.Webhook.Execute.Passed.{
  AllPassed, passed_before, AllSatisfied, satisfied_if_passed, for_every_check, is_success,
  report_success,
}

module _ {C : Type 0} (lib : Library) (groups : List (Expectation C))
    (From : List (Captured C) → Type 0) (nothing : From []) where
  -- The outcomes of a poll, if there are some.
  abbrev Polled : List (Assertion C) → Option (List (ExpectationOutcome C)) → Type 0
  Polled every none = Unit
  Polled every (some outs) =
      (items : List (Captured C)) × (seen : Text → ℕ) × From items
      × (outs ≡ (evaluate_expectations lib groups every items seen).0)

  record IsListening (every : List (Assertion C)) (l : Listener C) : Type 0 where
    same_groups : l.groups ≡ groups
    same_every : l.every_event ≡ every
    polled : Polled every l.outcomes

  settled-IsListening :
      (every : List (Assertion C)) (l : Listener C) (r : Readings) (v : Verdict)
      → IsListening every l
      → IsListening every (settled l r v).0
  unfolding settled
  settled-IsListening every l r broken h = h
  settled-IsListening every l r pending h = h
  settled-IsListening every l r met h =
      elim (Bool-cases ((l.settle == 0) && not (requires_an_event l.groups))) [
        | inl watch ↦ rw watch h
        | inr waits ↦
            rw waits
              (record { same_groups = h.same_groups; same_every = h.same_every; polled = h.polled })
      ]

  observe-IsListening :
      (every : List (Assertion C)) (l : Listener C) (r : Readings) (items : List (Captured C))
      → From items
      → IsListening every l
      → IsListening every (observe lib l r items).0
  unfolding observe poll_verdict
  observe-IsListening every l r items from h =
      let seen = note_seen (if l.polled_once then r.elapsed else 0) items l.first_seen in
      let judged = poll_verdict lib l seen items in
      let times = λ (id : Text). zero_if_none (seen id) in
      settled-IsListening every
        (record l { first_seen = seen; polled_once = true; outcomes = some judged.0 }) r judged.1
        (record {
          same_groups = h.same_groups;
          same_every = h.same_every;
          polled = (
            items,
            times,
            from,
            ap (λ gs. (evaluate_expectations lib gs l.every_event items times).0) h.same_groups
                ∙ ap (λ e. (evaluate_expectations lib groups e items times).0) h.same_every,
          );
        })

  final_outcomes-AllSatisfied :
      (every : List (Assertion C)) (l : Listener C)
      → IsListening every l
      → AllPassed (final_outcomes lib l)
      → (items : List (Captured C)) × From items × AllSatisfied lib groups every items
  unfolding final_outcomes
  final_outcomes-AllSatisfied every l h passed = judged l.outcomes h.polled passed
    where
      judged :
          (o : Option (List (ExpectationOutcome C)))
          → Polled every o
          → AllPassed (judged_or o (evaluate_expectations lib l.groups [] [] (λ id. 0)).0)
          → (items : List (Captured C)) × From items × AllSatisfied lib groups every items
      judged (some outs) (items, seen, from, e) all =
          (items, from, satisfied_if_passed lib groups every items seen (subst AllPassed e all))
      judged none unpolled all = (
        [],
        nothing,
        for_every_check lib groups every (
            satisfied_if_passed lib groups [] [] (λ id. 0)
              (subst (λ gs. AllPassed (evaluate_expectations lib gs [] [] (λ id. 0)).0)
                h.same_groups all)),
      )

  timed_out_outcomes-AllPassed :
      (l : Listener C) → AllPassed (timed_out_outcomes lib l) → AllPassed (final_outcomes lib l)
  unfolding timed_out_outcomes
  timed_out_outcomes-AllPassed l h = elim (Bool-cases (is_some l.settled_at)) [
    | inl opened ↦ passed_before l.settle (final_outcomes lib l) (rw opened at h)
    | inr waits ↦ rw waits at h
  ]

  settled_outcomes :
      (l : Listener C) (r : Readings) (v : Verdict) → ((settled l r v).0).outcomes ≡ l.outcomes
  unfolding settled
  settled_outcomes l r broken = refl
  settled_outcomes l r pending = refl
  settled_outcomes l r met =
      elim (Bool-cases ((l.settle == 0) && not (requires_an_event l.groups))) [
        | inl watch ↦ rw watch refl
        | inr waits ↦ rw waits refl
      ]

  observe_judges :
      (l : Listener C) (r : Readings) (items : List (Captured C))
      → is_some ((observe lib l r items).0).outcomes ≡ true
  unfolding observe
  observe_judges l r items =
      let seen = note_seen (if l.polled_once then r.elapsed else 0) items l.first_seen in
      let judged = poll_verdict lib l seen items in
      let next = record l { first_seen = seen; polled_once = true; outcomes = some judged.0 } in
      ap (λ (o : Option (List (ExpectationOutcome C))). is_some o)
        (settled_outcomes next r judged.1)

  -- The end of a wait, if all of its outcomes passed.
  abbrev IsEnd : List (Assertion C) → Ended C → Type 0
  IsEnd every (observed l) = IsListening every l × (is_some l.outcomes ≡ true)
  IsEnd every (timed_out outs) =
      AllPassed outs
      → (items : List (Captured C)) × From items × AllSatisfied lib groups every items
  IsEnd every (fatal outs) = Unit

  after_poll-IsEnd :
      (every : List (Assertion C)) (res : Listener C × Bool) (rest : Ended C)
      → IsListening every res.0
      → is_some (res.0).outcomes ≡ true
      → IsEnd every rest
      → IsEnd every (after_poll res rest)
  after_poll-IsEnd every (l, true) rest h judged end = (h, judged)
  after_poll-IsEnd every (l, false) rest h judged end = end

  -- A poll whose requests are among those meant.
  abbrev FromPoll : Poll C → Type 0
  FromPoll (fetched r items) = From items
  FromPoll (fetch_failed b) = Unit

  listen-IsEnd :
      (every : List (Assertion C)) (polls : List (Poll C)) (l : Listener C)
      → All FromPoll polls
      → IsListening every l
      → IsEnd every (listen lib polls l)
  unfolding listen
  listen-IsEnd every [] l from h =
      λ passed. final_outcomes-AllSatisfied every l h (timed_out_outcomes-AllPassed l passed)
  listen-IsEnd every (fetched r items ∷ polls) l (now, from) h =
      let polled = observe lib l r items in
      let kept = observe-IsListening every l r items now h in
      after_poll-IsEnd every polled (listen lib polls polled.0) kept (observe_judges l r items)
        (listen-IsEnd every polls polled.0 from kept)
  listen-IsEnd every (fetch_failed true ∷ polls) l from h = tt
  listen-IsEnd every (fetch_failed false ∷ polls) l from h = listen-IsEnd every polls l from.1 h

  report_end_success :
      (every : List (Assertion C)) (end : Ended C)
      → IsEnd every end
      → is_success (report_end end) ≡ true
      → (items : List (Captured C)) × From items × AllSatisfied lib groups every items
  unfolding report_end
  report_end_success every (observed l) (h, judged) success =
      from_poll l.outcomes h.polled judged success
    where
      from_poll :
          (o : Option (List (ExpectationOutcome C)))
          → Polled every o
          → is_some o ≡ true
          → is_success (report (outcomes_or_empty o)) ≡ true
          → (items : List (Captured C)) × From items × AllSatisfied lib groups every items
      from_poll none unpolled none_yet win = absurd (clash false none_yet refl)
      from_poll (some outs) (items, seen, from, e) some_yet win = (
        items,
        from,
        satisfied_if_passed lib groups every items seen
            (subst AllPassed e (report_success outs win)),
      )
  report_end_success every (timed_out outs) h success = h (report_success outs success)
  report_end_success every (fatal outs) h success = absurd (clash false success refl)

-- The requests are none, or those of a poll.
abbrev pub Fetched : {C : Type 0} → List (Poll C) → List (Captured C) → Type 0
Fetched {C} polls items = (items ≡ []) ⊎ ((r : Readings) × In (fetched r items) polls)

module _ {C : Type 0} (lib : Library) (groups : List (Expectation C)) where
  All-Fetched :
      (all polls : List (Poll C))
      → ((p : Poll C) → In p polls → In p all)
      → All (FromPoll lib groups (Fetched all) (inl refl)) polls
  All-Fetched all [] within = tt
  All-Fetched all (fetched r items ∷ polls) within = (
    inr (r, within (fetched r items) (inl refl)),
    All-Fetched all polls (λ p h. within p (inr h)),
  )
  All-Fetched all (fetch_failed b ∷ polls) within =
      (tt, All-Fetched all polls (λ p h. within p (inr h)))

  -- When executeExpectations succeeds, whatever the polls give and wherever the wait ends, then on the
  -- requests of one poll, or on none, every expected event was evaluated and satisfied: it claimed at least
  -- its minimum, no more than its maximum match it, and what it claimed passes the checks of every event.
  pub execute_expectations-AllSatisfied :
      (has_inputs : Bool) (s : Settings) (every : List (Assertion C)) (polls : List (Poll C))
      → is_success (execute_expectations lib has_inputs s groups every polls) ≡ true
      → (items : List (Captured C)) × Fetched polls items × AllSatisfied lib groups every items
  unfolding execute_expectations
  execute_expectations-AllSatisfied false s every polls success = absurd (clash false success refl)
  execute_expectations-AllSatisfied true s every polls success =
      valid (validate_expectations s groups) success
    where
      end : Ended C
      end = listen lib polls (new_listener s groups every)

      valid :
          (e : Option ConfigError)
          → is_success (unless_misconfigured e (report_end end)) ≡ true
          → (items : List (Captured C)) × Fetched polls items × AllSatisfied lib groups every items
      valid (some e) win = absurd (clash false win refl)
      valid none win =
          report_end_success lib groups (Fetched polls) (inl refl) every end
            (listen-IsEnd lib groups (Fetched polls) (inl refl) every polls
              (new_listener s groups every) (All-Fetched polls polls (λ i h. h))
              (record { same_groups = refl; same_every = refl; polled = tt }))
            win
