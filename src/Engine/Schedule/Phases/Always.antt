-- ===== src/Engine/Schedule/Phases/Always.antt =====
-- runAlwaysPhase of pkg/engine/execution.go on an acyclic flow.
use echopoint_runner.Prelude.{
  ℕ, zero, suc, ◌≤◌, ◌<◌, ◌≡◌, refl, sym, ap, ◌∙◌, subst, ◌⊎◌, inl, inr, Bool, true, false, List,
  [], ◌∷◌, ◌++◌, Option, none, clash, ◌==◌, ==_iff, some, In, All-In, count_by, Bool-cases, arith,
}
use mathlib.Core.List.{append-nil, append_assoc}
use echopoint_runner.Engine.Graph.{Node, FlowEngine, RunWhen, on_success, always}
use echopoint_runner.Engine.Graph.Edges.{WellFormed, Apart}
use echopoint_runner.Engine.State.{
  State, Flight, RunError, missing_inputs_error, validation_error, execution_error,
  not_executed_error, ready, is_ready, same_phase, start,
}
use echopoint_runner.Engine.Skip.{is_routed_away}
use echopoint_runner.Engine.Record.{
  Finished, Exec, record_skipped_node, record_always_result, settle_always_skip,
}
use echopoint_runner.Engine.Schedule.{
  receive, record_finished, always_step, start_ready, rounds, skip_routed_away, start_all,
  finish_or_resolve, after_skips, always_round, run_always_phase,
}
use echopoint_runner.Engine.Schedule.Counts.{Identified, pending}
use echopoint_runner.Engine.Schedule.Ready.{nodes_of, nodes_of-append, Good-middle}
use echopoint_runner.Engine.Schedule.Flights.{
  is_ready-parts, is_ready-intro, is_in_flight-nodes_of, has_ptr,
}
use echopoint_runner.Engine.Schedule.Steps.{
  Sched, Completes, pending_nodes, Completes-Sched, start-Sched, record_skipped_node-Completes,
  record_on_success_result-Completes, record_always_result-Completes,
}
use echopoint_runner.Engine.Schedule.Phases.{
  OnlyStarts, NoneReady, OnlyStarts-NoneReady, ready-Sched, start_ready-Sched,
}
use echopoint_runner.Engine.Schedule.Phases.Runs.{receive-Sched}
use echopoint_runner.Engine.Schedule.Phases.Stuck.{
  IsRanked, HasPhase, AllDone, stuck-AllDone, resolve_blocked-AllDone,
}

-- What a round of the loop leaves: the invariant, and fewer pending nodes, or none at the end.
abbrev pub Round : FlowEngine → State → State × Bool → Type 0
Round g s (s', more) =
    Sched g s' []
    × (((more ≡ true) × (pending_nodes g s' < pending_nodes g s)) ⊎ ((more ≡ false) × AllDone g s'))

pub settle-Completes :
    (g : FlowEngine) (f : Finished) (e : Option RunError) (s : State)
    → Completes g f.node s
        (record_always_result g (settle_always_skip g f e s).0 (settle_always_skip g f e s).1)
unfolding settle_always_skip
settle-Completes g f none s = record_always_result-Completes g f s
settle-Completes g f (some (missing_inputs_error e)) s =
    let c = record_always_result-Completes g _ _ in
    record { remaining = c.remaining; flights = c.flights; value = c.value; stored = c.stored }
settle-Completes g f (some (validation_error e)) s = record_always_result-Completes g f s
settle-Completes g f (some (execution_error e)) s = record_always_result-Completes g f s
settle-Completes g f (some (not_executed_error e)) s = record_always_result-Completes g f s

pub record_finished-Completes :
    (g : FlowEngine) (f : Finished) (s : State) → Completes g f.node s (record_finished g f s)
unfolding record_finished
record_finished-Completes g f s = elim (Bool-cases (same_phase f.node.run_when on_success)) [
  | inl main ↦ rw main (record_on_success_result-Completes g f s)
  | inr cleanup ↦ rw cleanup (settle-Completes g f f.err s)
]

module _ (g : FlowEngine) (exec : Exec) (w : WellFormed g) (ident : Identified g) where
  always_step-Sched :
      (k : ℕ) (f : Flight) (fs : List Flight) (s : State)
      → s.in_flight ≡ f ∷ fs
      → Sched g s []
      → Sched g (always_step g exec k f fs s) []
        × (pending_nodes g (always_step g exec k f fs s) < pending_nodes g s)
  unfolding always_step
  always_step-Sched k f fs s e h =
      let (finished, s') = receive exec k f fs s in
      let (held, same) = receive-Sched g exec k f fs s e h in
      let (kept, lt) =
        Completes-Sched g w ident finished.node s' (record_finished g finished s') []
          (record_finished-Completes g finished s') held in
      (kept, omega arith)

  -- The nodes that a skipping pass leaves alone are dropped from the list.
  pub Sched-drop : (n : Node) (s : State) (ns : List Node) → Sched g s (n ∷ ns) → Sched g s ns
  Sched-drop n s ns h = record {
    counts = h.counts;
    good = (Good-middle g s.remaining_inputs (nodes_of s.in_flight) ns n h.good).2;
    done = h.done;
  }

  abbrev pub Skips : State → State × Bool → Type 0
  Skips s (s', skipped) =
      Sched g s' []
      × (pending_nodes g s' ≤ pending_nodes g s)
      × (((skipped ≡ true) × (pending_nodes g s' < pending_nodes g s))
          ⊎ ((skipped ≡ false) × (s' ≡ s)))

  pub skip_routed_away-Skips :
      (ns : List Node) (s : State) → Sched g s ns → Skips s (skip_routed_away g ns s)
  unfolding skip_routed_away
  skip_routed_away-Skips [] s h = (h, omega arith, inr (refl, refl))
  skip_routed_away-Skips (n ∷ ns) s h = elim (Bool-cases (is_routed_away g n s)) [
    | inr stays ↦ rw stays (skip_routed_away-Skips ns s (Sched-drop n s ns h))
    | inl away ↦
        let (kept, lt) =
          Completes-Sched g w ident n s (record_skipped_node g n s) ns
            (record_skipped_node-Completes g n s) h in
        let (end, le, _) = skip_routed_away-Skips ns (record_skipped_node g n s) kept in
        rw away (end, omega arith, inl (refl, omega arith))
  ]

  pub start_all-OnlyStarts :
      (ns : List Node) (s : State)
      → Sched g s ns
      → Sched g (start_all ns s) [] × OnlyStarts s (start_all ns s) ns
  unfolding start_all start
  start_all-OnlyStarts [] s h =
      (h, record { remaining = refl; flights = sym (append-nil (nodes_of s.in_flight)) })
  start_all-OnlyStarts (n ∷ ns) s h =
      let (kept, starts) = start_all-OnlyStarts ns (start n s) (start-Sched g w ident n s ns h) in
      (
        kept,
        record {
          remaining = starts.remaining;
          flights =
              starts.flights
              ∙ ap (λ l. l ++ ns) (nodes_of-append s.in_flight _)
              ∙ append_assoc (nodes_of s.in_flight) (n ∷ []) ns;
        },
      )

append-nil_left : (xs ys : List Node) → xs ++ ys ≡ [] → xs ≡ []
append-nil_left [] ys h = refl
append-nil_left (x ∷ xs) ys h = cc

-- Readiness depends on the counts and on what is in flight alone.
NoneReady-same :
    (g : FlowEngine) (phase : RunWhen) (s s' : State)
    → s'.remaining_inputs ≡ s.remaining_inputs
    → nodes_of s'.in_flight ≡ nodes_of s.in_flight
    → NoneReady g phase s
    → NoneReady g phase s'
NoneReady-same g phase s s' rem flights h n i = elim (Bool-cases (is_ready phase s' n)) [
  | inr unready ↦ unready
  | inl still ↦
      let (none_open, of_phase, grounded) = is_ready-parts phase s' n still in
      let open_before = sym (ap (λ f. f n.ptr) rem) ∙ none_open in
      let grounded_before =
        is_in_flight-nodes_of s.in_flight n
        ∙ ap (λ l. has_ptr l n) (sym flights)
        ∙ sym (is_in_flight-nodes_of s'.in_flight n)
        ∙ grounded in
      absurd (clash _ (is_ready-intro phase s n open_before of_phase grounded_before) (h n i))
]

Apart-same :
    (ns : List Node) (n m : Node) → Apart ns → In n ns → In m ns → (n.ptr == m.ptr) ≡ true → n ≡ m
Apart-same [] n m a i j same = absurd i
Apart-same (k ∷ ns) n m a (inl e) (inl e') same = e ∙ sym e'
Apart-same (k ∷ ns) n m a (inl e) (inr j) same =
    let fresh = All-In (λ x. (k.ptr == x.ptr) ≡ false) ns m a.0 j in
    let head = ap (λ x. x.ptr) e in absurd (ground arith)
Apart-same (k ∷ ns) n m a (inr i) (inl e) same =
    let fresh = All-In (λ x. (k.ptr == x.ptr) ≡ false) ns n a.0 i in
    let head = ap (λ x. x.ptr) e in absurd (ground arith)
Apart-same (k ∷ ns) n m a (inr i) (inr j) same = Apart-same ns n m a.1 i j same

pub Apart-Identified : (g : FlowEngine) → Apart g.nodes → Identified g
Apart-Identified g a n m i j e = Apart-same g.nodes n m a i j ((==_iff n.ptr m.ptr).1 e)

-- What the theorems on a whole run assume of the flow: pointers tell its nodes apart, the edges
-- have no cycle, and every node is of one of the two phases.
pub record IsAcyclic (g : FlowEngine) (rank : ℕ → ℕ) : Type 0 where
  pub well_formed : WellFormed g
  pub apart : Apart g.nodes
  pub ranked : IsRanked g rank
  pub phased : (n : Node) → In n g.nodes → HasPhase n

module _ (g : FlowEngine) (exec : Exec) (rank : ℕ → ℕ) (a : IsAcyclic g rank) where
  Progress-mono :
      (s1 s : State) (r : State × Bool)
      → pending_nodes g s1 ≤ pending_nodes g s
      → ((r.1 ≡ true) × (pending_nodes g r.0 < pending_nodes g s1))
        ⊎ ((r.1 ≡ false) × AllDone g r.0)
      → ((r.1 ≡ true) × (pending_nodes g r.0 < pending_nodes g s)) ⊎ ((r.1 ≡ false) × AllDone g r.0)
  Progress-mono s1 s r le (inl (goes_on, lt)) = inl (goes_on, omega arith)
  Progress-mono s1 s r le (inr stops) = inr stops

  -- Where a round starts nothing and nothing is in flight, every node is done.
  pub idle-AllDone :
      (s s' : State)
      → s'.in_flight ≡ []
      → Sched g s' []
      → OnlyStarts s s' (ready g always s)
      → NoneReady g on_success s
      → AllDone g s'
  idle-AllDone s s' e h starts no_main =
      let idle = ap nodes_of e in
      let idle_before =
        append-nil_left (nodes_of s.in_flight) (ready g always s) (sym starts.flights ∙ idle) in
      let no_main' =
        NoneReady-same g on_success s s' starts.remaining (idle ∙ sym idle_before) no_main in
      let no_always = OnlyStarts-NoneReady g always s s' starts in
      stuck-AllDone g a.well_formed rank a.ranked a.phased s' h.counts idle no_main' no_always

  finish-Round :
      (k : ℕ) (fs : List Flight) (s s' : State)
      → s'.in_flight ≡ fs
      → Sched g s' []
      → OnlyStarts s s' (ready g always s)
      → NoneReady g on_success s
      → Round g s (finish_or_resolve g exec k fs s')
  unfolding finish_or_resolve
  finish-Round k (f ∷ fs) s s' e h starts no_main =
      let (kept, lt) =
        always_step-Sched g exec a.well_formed (Apart-Identified g a.apart) k f fs s' e h in
      let same = ap (λ r. count_by (pending r) g.nodes) starts.remaining in
      (kept, inl (refl, omega arith))
  finish-Round k [] s s' e h starts no_main =
      let done = idle-AllDone s s' e h starts no_main in
      rw (resolve_blocked-AllDone g s' done) (h, inr (refl, done))

  after_skips-Round :
      (k : ℕ) (s1 s : State) (r : State × Bool)
      → NoneReady g on_success s1
      → pending_nodes g s1 ≤ pending_nodes g s
      → Skips g exec a.well_formed (Apart-Identified g a.apart) s1 r
      → Round g s (after_skips g exec k r)
  unfolding after_skips
  after_skips-Round k s1 s (s2, true) no_main le (kept, less, inl (skipped, lt)) =
      (kept, inl (refl, omega arith))
  after_skips-Round k s1 s (s2, true) no_main le (kept, less, inr (no_skip, same)) =
      absurd (clash true refl no_skip)
  after_skips-Round k s1 s (s2, false) no_main le (kept, less, inl (skipped, lt)) =
      absurd (clash false skipped refl)
  after_skips-Round k s1 s (s2, false) no_main le (kept, less, inr (no_skip, same)) =
      let held = ready-Sched g a.well_formed (Apart-Identified g a.apart) a.apart always s2 kept in
      let (started, starts) =
        start_all-OnlyStarts g exec a.well_formed (Apart-Identified g a.apart) (ready g always s2)
          s2 held in
      let s3 = start_all (ready g always s2) s2 in
      let no_main' = subst (NoneReady g on_success) (sym same) no_main in
      let (end, why) = finish-Round k s3.in_flight s2 s3 refl started starts no_main' in
      (end, Progress-mono s2 s (finish_or_resolve g exec k s3.in_flight s3) (omega arith) why)

  pub always_round-Round :
      (k : ℕ) (s : State)
      → Sched g s []
      → pending_nodes g s < rounds g
      → Round g s (always_round g exec k s)
  unfolding always_round
  always_round-Round k s h few =
      let s1 = start_ready g (rounds g) s in
      let (kept, less, no_main) =
        start_ready-Sched g a.well_formed (Apart-Identified g a.apart) a.apart (rounds g) s h few in
      let held = ready-Sched g a.well_formed (Apart-Identified g a.apart) a.apart always s1 kept in
      after_skips-Round k s1 s (skip_routed_away g (ready g always s1) s1) no_main less (
        skip_routed_away-Skips g exec a.well_formed (Apart-Identified g a.apart) (ready g always s1)
          s1 held)

  -- With more rounds than pending nodes, runAlwaysPhase stops by its own test, and then every node
  -- of the flow is done.
  pub run_always_phase-AllDone :
      (pick : ℕ → ℕ) (fuel : ℕ) (s : State)
      → Sched g s []
      → pending_nodes g s < fuel
      → pending_nodes g s < rounds g
      → Sched g (run_always_phase g exec pick fuel s) []
        × AllDone g (run_always_phase g exec pick fuel s)
  unfolding run_always_phase
  run_always_phase-AllDone pick zero s h lt few = absurd (omega arith)
  run_always_phase-AllDone pick (suc fuel) s h lt few =
      let r = always_round g exec (pick fuel) s in
      let (kept, why) = always_round-Round (pick fuel) s h few in
      elim why [
        | inl (goes_on, falls) ↦
            rw goes_on (run_always_phase-AllDone pick fuel r.0 kept (omega arith) (omega arith))
        | inr (stops, done) ↦ rw stops (kept, done)
      ]
