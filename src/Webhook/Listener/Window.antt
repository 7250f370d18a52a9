-- ===== src/Webhook/Listener/Window.antt =====
-- What a poll of listenForExpectations keeps and when it ends the wait, in
-- pkg/node/webhook_expectations.go.
use echopoint_runner.Checks.{Library}
use echopoint_runner.Prelude.Text.{Text, text_eq, eq_of_text_eq, text_eq_refl}
use echopoint_runner.Prelude.{
  ℕ, ◌+◌, ◌≤◌, Bool, true, false, ◌&&◌, not, List, [], ◌∷◌, map, Option, none, some, is_some, ltb,
  ◌==◌, if◌then◌else◌, All, ◌≡◌, refl, sym, ap, ◌∙◌, subst, ◌⊎◌, inl, inr, arith, Bool-cases, clash,
}
use echopoint_runner.Webhook.Judge.{ExpectationOutcome, Verdict, pending, met, broken}
use echopoint_runner.Webhook.Listener.{
  FirstSeen, Listener, Readings, seen_at, note_seen, requires_an_event, open_window, settled,
  poll_verdict, observe, final_outcomes, fail_passed, timed_out_outcomes, Poll, fetched,
  fetch_failed, Ended, observed, fatal, timed_out, listen, after_poll,
}
use echopoint_runner.Webhook.{Captured}

none_or_some : {A : Type 0} (o : Option A) → (is_some o ≡ false) ⊎ ((a : A) × (o ≡ some a))
none_or_some none = inl refl
none_or_some (some a) = inr (a, refl)

seen_at_keeps :
    (seen : FirstSeen) (id id' : Text) (time d : ℕ)
    → seen id' ≡ some d
    → (if is_some (seen id) then seen else seen_at seen id time) id' ≡ some d
seen_at_keeps seen id id' time d h = elim (none_or_some (seen id)) [
  | inr (e, known) ↦ rw known h
  | inl new ↦ rw new (elim (Bool-cases (text_eq id' id)) [
    | inr other ↦ rw other h
    | inl same ↦
        absurd (
          clash (is_some (seen id)) (ap is_some (ap seen (sym (eq_of_text_eq id' id same)) ∙ h))
            new)
  ])
]

seen_at_gains :
    (seen : FirstSeen) (id : Text) (time : ℕ)
    → (d : ℕ) × ((if is_some (seen id) then seen else seen_at seen id time) id ≡ some d)
seen_at_gains seen id time = elim (none_or_some (seen id)) [
  | inr (d, known) ↦ (d, rw known known)
  | inl new ↦ (time, rw new (rw (text_eq_refl id) refl))
]

not_before : (t n : ℕ) → not (ltb n t) ≡ true → t ≤ n
not_before t n h = ground arith

module _ {C : Type 0} where
  note_seen-keeps :
      (time : ℕ) (items : List (Captured C)) (seen : FirstSeen) (id : Text) (d : ℕ)
      → seen id ≡ some d
      → note_seen time items seen id ≡ some d
  unfolding note_seen
  note_seen-keeps time [] seen id d h = h
  note_seen-keeps time (item ∷ items) seen id d h =
      note_seen-keeps time items
        (if is_some (seen item.id) then seen else seen_at seen item.id time) id d
        (seen_at_keeps seen item.id id time d h)

  note_seen-gains :
      (time : ℕ) (items : List (Captured C)) (seen : FirstSeen)
      → All (λ item. (d : ℕ) × (note_seen time items seen item.id ≡ some d)) items
  unfolding note_seen
  note_seen-gains time [] seen = tt
  note_seen-gains time (item ∷ items) seen =
      let seen' = if is_some (seen item.id) then seen else seen_at seen item.id time in
      let (d, known) = seen_at_gains seen item.id time in
      ((d, note_seen-keeps time items seen' item.id d known), note_seen-gains time items seen')

  -- The verdict ends the wait: it is broken, or met with the window over.
  abbrev pub IsOver : Readings → Verdict → Listener C → Type 0
  IsOver r v l = (v ≡ broken) ⊎ ((v ≡ met) × (t : ℕ) × (l.settled_at ≡ some t) × t ≤ r.checked)

  record IsSettled (l : Listener C) (r : Readings) (v : Verdict) (res : Listener C × Bool)
      : Type 0 where
    same_seen : (res.0).first_seen ≡ l.first_seen
    same_window : (t : ℕ) → l.settled_at ≡ some t → (res.0).settled_at ≡ some t
    over : res.1 ≡ true → IsOver r v res.0

  settled-IsSettled :
      (l : Listener C) (r : Readings) (v : Verdict) → IsSettled l r v (settled l r v)
  unfolding settled
  settled-IsSettled l r broken = record {
    same_seen = refl;
    same_window = λ t h. h;
    over = λ e. inl refl;
  }
  settled-IsSettled l r pending = record {
    same_seen = refl;
    same_window = λ t h. h;
    over = λ e. absurd (clash false e refl);
  }
  settled-IsSettled l r met =
      elim (Bool-cases ((l.settle == 0) && not (requires_an_event l.groups))) [
        | inl watch ↦ rw watch (record {
          same_seen = refl;
          same_window = λ t h. h;
          over = λ e. absurd (clash false e refl);
        })
        | inr waits ↦
            let until = open_window l.settled_at (r.opened + l.settle) in
            rw waits (record {
              same_seen = refl;
              same_window = λ t h. ap (λ o. some (open_window o (r.opened + l.settle))) h;
              over = λ e. inr (refl, until, refl, not_before until r.checked e);
            })
      ]

  -- A poll of the wait, with its verdict.
  pub record IsObserved (l : Listener C) (r : Readings) (items : List (Captured C)) (v : Verdict)
      (res : Listener C × Bool) : Type 0 where
    pub keeps_seen : (id : Text) (d : ℕ) → l.first_seen id ≡ some d → (res.0).first_seen id ≡ some d
    pub gains_seen : All (λ item. (d : ℕ) × ((res.0).first_seen item.id ≡ some d)) items
    pub keeps_window : (t : ℕ) → l.settled_at ≡ some t → (res.0).settled_at ≡ some t
    pub ends : res.1 ≡ true → IsOver r v res.0

  abbrev pub verdict_of : Library → Listener C → Readings → List (Captured C) → Verdict
  unfolding note_seen
  verdict_of lib l r items =
      (poll_verdict lib l (note_seen (if l.polled_once then r.elapsed else 0) items l.first_seen)
        items).1

  -- In observe, a request keeps the time it was first seen at, every request of the poll has one, and a
  -- settle window that is open keeps its end. The poll ends the wait only if its verdict is broken, or
  -- met with a settle window that has ended by the last reading of the clock.
  pub observe-IsObserved :
      (lib : Library) (l : Listener C) (r : Readings) (items : List (Captured C))
      → IsObserved l r items (verdict_of lib l r items) (observe lib l r items)
  unfolding observe
  observe-IsObserved lib l r items =
      let time = if l.polled_once then r.elapsed else 0 in
      let seen = note_seen time items l.first_seen in
      let judged = poll_verdict lib l seen items in
      let next = record l { first_seen = seen; polled_once = true; outcomes = some judged.0 } in
      let s = settled-IsSettled next r judged.1 in
      record {
        keeps_seen =
            λ id d h. ap (λ f. f id) s.same_seen ∙ note_seen-keeps time items l.first_seen id d h;
        gains_seen =
            subst (λ f. All (λ item. (d : ℕ) × (f item.id ≡ some d)) items) (sym s.same_seen)
              (note_seen-gains time items l.first_seen);
        keeps_window = s.same_window;
        ends = s.over;
      }

  fail_passed-All :
      (settle : ℕ) (outs : List (ExpectationOutcome C))
      → All (λ o. o.passed ≡ false) (map (fail_passed settle) outs)
  fail_passed-All settle [] = tt
  fail_passed-All settle (o ∷ outs) = (
    elim (Bool-cases o.passed) [ inl p ↦ rw p refl | inr f ↦ rw f refl ],
    fail_passed-All settle outs,
  )

  -- No outcome passed, where the wait ended at its timeout.
  abbrev pub NonePasses : Ended C → Type 0
  NonePasses (timed_out outs) = All (λ o. o.passed ≡ false) outs
  NonePasses (observed l) = Unit
  NonePasses (fatal outs) = Unit

  after_poll-NonePasses :
      (res : Listener C × Bool) (rest : Ended C)
      → NonePasses rest
      → NonePasses (after_poll res rest)
  after_poll-NonePasses (l, true) rest h = tt
  after_poll-NonePasses (l, false) rest h = h

  -- Once listenForExpectations has opened the settle window, a wait that runs into its timeout, whatever
  -- polls it makes until then, passes none of the expected events.
  pub listen-NonePasses :
      (lib : Library) (polls : List (Poll C)) (l : Listener C) (t : ℕ)
      → l.settled_at ≡ some t
      → NonePasses (listen lib polls l)
  unfolding listen timed_out_outcomes
  listen-NonePasses lib [] l t open_at =
      subst
        (λ b.
          All (λ o. o.passed ≡ false)
            (if b then map (fail_passed l.settle) (final_outcomes lib l) else final_outcomes lib l))
        (sym (ap is_some open_at)) (fail_passed-All l.settle (final_outcomes lib l))
  listen-NonePasses lib (fetched r items ∷ polls) l t open_at =
      let polled = observe lib l r items in
      after_poll-NonePasses polled (listen lib polls polled.0) (
        listen-NonePasses lib polls polled.0 t
          ((observe-IsObserved lib l r items).keeps_window t open_at))
  listen-NonePasses lib (fetch_failed true ∷ polls) l t open_at = tt
  listen-NonePasses lib (fetch_failed false ∷ polls) l t open_at =
      listen-NonePasses lib polls l t open_at
