-- ===== src/Engine/Schedule/Invariants.antt =====
-- What each write of the scheduler of pkg/engine/execution.go keeps, over both phases of a run.
use echopoint_runner.Prelude.{
  ℕ, zero, suc, ◌≡◌, refl, Bool, true, false, ◌&&◌, ◌||◌, not, List, [], ◌∷◌, Option, none, some,
  Bool-cases, inl, inr, filter_by,
}
use echopoint_runner.Prelude.Text.{Text}
use echopoint_runner.Engine.Graph.{Node, FlowEngine, on_success, always, update_text}
use echopoint_runner.Engine.State.{State, Flight, ready, start}
use echopoint_runner.Engine.Skip.{
  upstream_failure, is_fully_dead, inputs_reference_skipped_node, is_routed_away,
}
use echopoint_runner.Engine.Record.{Exec, record_skipped_node, record_on_success_result, run_node}
use echopoint_runner.Engine.Schedule.{
  consider, consider_blocked, consider_all, start_ready, start_all, take_flight, receive,
  on_success_step, run_on_success_phase, skip_routed_away, record_skipped_all, resolve_blocked,
  record_finished, always_step, finish_or_resolve, after_skips, always_round, run_always_phase,
  rounds, is_blocked, can_run, is_empty,
}
use echopoint_runner.Engine.Schedule.Phases.Runs.{with_flights_ind}

-- `P` is kept by each write: a skip, a skip below a failure, a start, a change of what is in
-- flight, and the result of a node that ran.
pub record Kept (g : FlowEngine) (exec : Exec) (P : State → Type 0) : Type 0 where
  pub skip : (n : Node) (s : State) → P s → P (record_skipped_node g n s)
  pub block :
      (n : Node) (s : State) (cause : Text)
      → upstream_failure g n s ≡ some cause
      → P s
      → P (
          record_skipped_node g n
            (record s { failure_cause = update_text s.failure_cause n.id (some cause) }))
  pub begin : (n : Node) (s : State) → P s → P (start n s)
  pub land : (fs : List Flight) (s : State) → P s → P (record s { in_flight = fs })
  pub main : (f : Flight) (s : State) → P s → P (record_on_success_result g (run_node exec f) s)
  pub cleanup : (f : Flight) (s : State) → P s → P (record_finished g (run_node exec f) s)

module _ (g : FlowEngine) (exec : Exec) (P : State → Type 0) (k : Kept g exec P) where
  consider_blocked-Kept :
      (n : Node) (s : State) (cause : Option Text)
      → upstream_failure g n s ≡ cause
      → P s
      → P (consider_blocked g n s cause).0
  unfolding consider_blocked
  consider_blocked-Kept n s (some cause) e p = k.block n s cause e p
  consider_blocked-Kept n s none e p =
      elim (Bool-cases (is_fully_dead g n s || inputs_reference_skipped_node n s)) [
        | inl dead ↦ rw dead (k.skip n s p)
        | inr live ↦ rw live (k.begin n s p)
      ]

  consider_all-Kept : (ns : List Node) (s : State) → P s → P (consider_all g ns s).0
  unfolding consider_all consider
  consider_all-Kept [] s p = p
  consider_all-Kept (n ∷ ns) s p =
      consider_all-Kept ns (consider g n s).0
        (consider_blocked-Kept n s (upstream_failure g n s) refl p)

  start_ready-Kept : (fuel : ℕ) (s : State) → P s → P (start_ready g fuel s)
  unfolding start_ready
  start_ready-Kept zero s p = p
  start_ready-Kept (suc fuel) s p =
      let r = consider_all g (ready g on_success s) s in
      let q = consider_all-Kept (ready g on_success s) s p in
      elim (Bool-cases r.1) [
        | inl skipped ↦ rw skipped (start_ready-Kept fuel r.0 q)
        | inr no_skip ↦ rw no_skip q
      ]

  start_all-Kept : (ns : List Node) (s : State) → P s → P (start_all ns s)
  unfolding start_all
  start_all-Kept [] s p = p
  start_all-Kept (n ∷ ns) s p = start_all-Kept ns (start n s) (k.begin n s p)

  pub run_on_success_phase-Kept :
      (pick : ℕ → ℕ) (fuel : ℕ) (s : State) → P s → P (run_on_success_phase g exec pick fuel s)
  unfolding run_on_success_phase on_success_step receive
  run_on_success_phase-Kept pick zero s p = p
  run_on_success_phase-Kept pick (suc fuel) s p =
      let s1 = start_ready g (rounds g) s in
      let q = start_ready-Kept (rounds g) s p in
      with_flights_ind P s1.in_flight s1
        (λ f fs. run_on_success_phase g exec pick fuel (on_success_step g exec (pick fuel) f fs s1))
        (λ e. q)
        λ f fs e.
          let (f', rest) = take_flight (pick fuel) f fs in
          run_on_success_phase-Kept pick fuel (on_success_step g exec (pick fuel) f fs s1)
            (k.main f' (record s1 { in_flight = rest }) (k.land rest s1 q))

  skip_routed_away-Kept : (ns : List Node) (s : State) → P s → P (skip_routed_away g ns s).0
  unfolding skip_routed_away
  skip_routed_away-Kept [] s p = p
  skip_routed_away-Kept (n ∷ ns) s p = elim (Bool-cases (is_routed_away g n s)) [
    | inl away ↦ rw away (skip_routed_away-Kept ns (record_skipped_node g n s) (k.skip n s p))
    | inr stays ↦ rw stays (skip_routed_away-Kept ns s p)
  ]

  record_skipped_all-Kept : (ns : List Node) (s : State) → P s → P (record_skipped_all g ns s)
  unfolding record_skipped_all
  record_skipped_all-Kept [] s p = p
  record_skipped_all-Kept (n ∷ ns) s p =
      record_skipped_all-Kept ns (record_skipped_node g n s) (k.skip n s p)

  resolve_blocked-Kept : (s : State) → P s → P (resolve_blocked g s).0
  unfolding resolve_blocked
  resolve_blocked-Kept s p =
      let to_run = filter_by (λ n. is_blocked g s n && can_run g s n) g.nodes in
      let to_skip = filter_by (λ n. is_blocked g s n && not (can_run g s n)) g.nodes in
      elim (Bool-cases (is_empty to_run && is_empty to_skip)) [
        | inl nothing ↦ rw nothing p
        | inr something ↦
            rw something (start_all-Kept to_run _ (record_skipped_all-Kept to_skip s p))
      ]

  finish_or_resolve-Kept :
      (n : ℕ) (fs : List Flight) (s : State) → P s → P (finish_or_resolve g exec n fs s).0
  unfolding finish_or_resolve always_step receive
  finish_or_resolve-Kept n [] s p = resolve_blocked-Kept s p
  finish_or_resolve-Kept n (f ∷ fs) s p =
      let (f', rest) = take_flight n f fs in
      k.cleanup f' (record s { in_flight = rest }) (k.land rest s p)

  after_skips-Kept : (n : ℕ) (r : State × Bool) → P r.0 → P (after_skips g exec n r).0
  unfolding after_skips
  after_skips-Kept n (s, true) p = p
  after_skips-Kept n (s, false) p =
      let s' = start_all (ready g always s) s in
      finish_or_resolve-Kept n s'.in_flight s' (start_all-Kept (ready g always s) s p)

  pub run_always_phase-Kept :
      (pick : ℕ → ℕ) (fuel : ℕ) (s : State) → P s → P (run_always_phase g exec pick fuel s)
  unfolding run_always_phase always_round
  run_always_phase-Kept pick zero s p = p
  run_always_phase-Kept pick (suc fuel) s p =
      let s1 = start_ready g (rounds g) s in
      let r = always_round g exec (pick fuel) s in
      let q =
        after_skips-Kept (pick fuel) (skip_routed_away g (ready g always s1) s1)
          (skip_routed_away-Kept (ready g always s1) s1 (start_ready-Kept (rounds g) s p)) in
      elim (Bool-cases r.1) [
        | inl goes_on ↦ rw goes_on (run_always_phase-Kept pick fuel r.0 q)
        | inr stops ↦ rw stops q
      ]
