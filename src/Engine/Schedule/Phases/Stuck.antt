-- ===== src/Engine/Schedule/Phases/Stuck.antt =====
-- The states of pkg/engine/execution.go where nothing is ready and nothing in flight, and
-- resolveBlockedAlwaysNodes in them.
use echopoint_runner.Prelude.{
  ℕ, zero, suc, ◌<◌, ◌≡◌, ap, ◌∙◌, ◌⊎◌, inl, inr, true, false, ◌&&◌, not, [], none, clash, some,
  is_some, All, In, All-In, count_by-zero, filter_by-nil, Option-cases, arith,
}
use echopoint_runner.Prelude.Int.{pos}
use echopoint_runner.Engine.Graph.{Node, FlowEngine, on_success, always}
use echopoint_runner.Engine.Graph.Edges.{WellFormed}
use echopoint_runner.Engine.State.{State, same_phase}
use echopoint_runner.Engine.Schedule.{resolve_blocked, is_blocked, can_run}
use echopoint_runner.Engine.Schedule.Counts.{CountInv, pending}
use echopoint_runner.Engine.Schedule.Ready.{nodes_of}
use echopoint_runner.Engine.Schedule.Flights.{is_ready-intro, is_in_flight-nodes_of, has_ptr}
use echopoint_runner.Engine.Schedule.Phases.{NoneReady}

-- Every edge leads to a node of a higher rank, so the flow has no cycle.
abbrev pub IsRanked : FlowEngine → (ℕ → ℕ) → Type 0
IsRanked g rank =
    (n : Node) → In n g.nodes → All (λ p. rank p.ptr < rank n.ptr) (g.node_edge_source n.ptr)

abbrev pub HasPhase : Node → Type 0
HasPhase n = (same_phase n.run_when on_success ≡ true) ⊎ (same_phase n.run_when always ≡ true)

-- No node is left over.
abbrev pub AllDone : FlowEngine → State → Type 0
AllDone g s = (n : Node) → In n g.nodes → s.remaining_inputs n.ptr ≡ none

module _ (g : FlowEngine) (w : WellFormed g) (rank : ℕ → ℕ) (ranked : IsRanked g rank)
    (phased : (n : Node) → In n g.nodes → HasPhase n) where
  -- Where nothing is in flight and nothing is ready, a node below every pending one would be ready.
  stuck-below :
      (s : State)
      → CountInv g s.remaining_inputs
      → nodes_of s.in_flight ≡ []
      → NoneReady g on_success s
      → NoneReady g always s
      → (bound : ℕ) (n : Node) → In n g.nodes
      → rank n.ptr < bound
      → s.remaining_inputs n.ptr ≡ none
  stuck-below s inv idle no_main no_always zero n i lt = absurd (omega arith)
  stuck-below s inv idle no_main no_always (suc bound) n i lt =
      elim (Option-cases (s.remaining_inputs n.ptr)) [
        | inl gone ↦ gone
        | inr (z, held) ↦
            let sources_done =
              count_by-zero (pending s.remaining_inputs) (g.node_edge_source n.ptr) λ p j.
                let below = All-In (λ q. rank q.ptr < rank n.ptr) _ p (ranked n i) j in
                let in_flow = All-In (λ q. In q g.nodes) _ p (w.sources n.ptr) j in
                ap is_some
                  (stuck-below s inv idle no_main no_always bound p in_flow (omega arith)) in
            let open_none =
              inv.counts n i (ap is_some held) ∙ ap (λ c. some (pos c)) sources_done in
            let grounded = is_in_flight-nodes_of s.in_flight n ∙ ap (λ l. has_ptr l n) idle in
            elim (phased n i) [
              | inl main ↦
                  absurd
                    (clash _ (is_ready-intro on_success s n open_none main grounded) (no_main n i))
              | inr cleanup ↦
                  absurd
                    (clash _ (is_ready-intro always s n open_none cleanup grounded) (no_always n i))
            ]
      ]

  pub stuck-AllDone :
      (s : State)
      → CountInv g s.remaining_inputs
      → nodes_of s.in_flight ≡ []
      → NoneReady g on_success s
      → NoneReady g always s
      → AllDone g s
  stuck-AllDone s inv idle no_main no_always n i =
      stuck-below s inv idle no_main no_always (suc (rank n.ptr)) n i (omega arith)

not_blocked :
    (g : FlowEngine) (s : State) (n : Node)
    → s.remaining_inputs n.ptr ≡ none
    → is_blocked g s n ≡ false
not_blocked g s n gone = rw gone (ground arith)

-- With no pending node, resolveBlockedAlwaysNodes changes nothing and reports no progress.
pub resolve_blocked-AllDone :
    (g : FlowEngine) (s : State) → AllDone g s → resolve_blocked g s ≡ (s, false)
unfolding resolve_blocked
resolve_blocked-AllDone g s done =
    let no_run =
      filter_by-nil (λ n. is_blocked g s n && can_run g s n) g.nodes
        (λ n i. let no_b = not_blocked g s n (done n i) in rw no_b) in
    let no_skip =
      filter_by-nil (λ n. is_blocked g s n && not (can_run g s n)) g.nodes
        (λ n i. let no_b = not_blocked g s n (done n i) in rw no_b) in
    rw (no_run, no_skip)
