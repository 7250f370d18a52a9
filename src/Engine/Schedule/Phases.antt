-- ===== src/Engine/Schedule/Phases.antt =====
-- startReadyOnSuccessNodes of pkg/engine/execution.go and the nodes it leaves ready.
pub mod Runs
pub mod Stuck
pub mod Always
pub mod Ends
use echopoint_runner.Prelude.{
  ℕ, zero, suc, ◌+◌, ◌≤◌, ◌<◌, ◌≡◌, refl, sym, ap, ◌∙◌, subst, ◌⊎◌, inl, inr, Bool, true, false,
  ◌==◌, ◌&&◌, ◌||◌, ==_iff, ==_refl, List, [], ◌∷◌, ◌++◌, Option, none, not, any, some, is_some,
  clash, All, In, All-In, All-of_In, In-append_left, In-append_right, length, count_by,
  count_by-le-length, Bool-cases, Option-cases, if◌then◌else◌, arith, filter_by, In-filter_by,
  filter_by-In, &&→×,
}
use mathlib.Core.List.{append-nil, append_assoc}
use echopoint_runner.Prelude.Text.{Text}
use echopoint_runner.Engine.Graph.{Node, FlowEngine, RunWhen, on_success, always, update_text}
use echopoint_runner.Engine.Graph.Edges.{WellFormed, Apart}
use echopoint_runner.Engine.State.{State, ready, is_ready, is_in_flight, same_phase, start}
use echopoint_runner.Engine.Skip.{upstream_failure, is_fully_dead, inputs_reference_skipped_node}
use echopoint_runner.Engine.Record.{record_skipped_node}
use echopoint_runner.Engine.Schedule.{consider, consider_blocked, consider_all, start_ready, rounds}
use echopoint_runner.Engine.Schedule.Counts.{Identified}
use echopoint_runner.Engine.Schedule.Ready.{nodes_of, nodes_of-append, Good}
use echopoint_runner.Engine.Schedule.Flights.{
  ready-Good, is_ready-parts, is_ready-intro, is_in_flight-nodes_of, has_ptr, has_ptr-In,
  has_ptr-append,
}
use echopoint_runner.Engine.Schedule.Steps.{
  Sched, pending_nodes, Completes-Sched, start-Sched, record_skipped_node-Completes,
}

-- Nothing was completed between `s` and `s'`, and exactly `started` were started.
pub record OnlyStarts (s s' : State) (started : List Node) : Type 0 where
  pub remaining : s'.remaining_inputs ≡ s.remaining_inputs
  pub flights : nodes_of s'.in_flight ≡ nodes_of s.in_flight ++ started

-- What a round over `ns` does: the invariant is kept, with `rest` still to consider, and either a
-- node was skipped or all of `ns` were started.
pub record Considered (g : FlowEngine) (s : State) (ns rest : List Node) (r : State × Bool)
    : Type 0 where
  pub sched : Sched g r.0 rest
  pub fewer : pending_nodes g r.0 ≤ pending_nodes g s
  pub progress :
      ((r.1 ≡ true) × (pending_nodes g r.0 < pending_nodes g s))
      ⊎ ((r.1 ≡ false) × OnlyStarts s r.0 ns)

module _ (g : FlowEngine) (w : WellFormed g) (ident : Identified g) where
  pub skip-Considered :
      (n : Node) (s : State) (rest ns : List Node)
      → Sched g s (n ∷ rest)
      → Considered g s ns rest (record_skipped_node g n s, true)
  skip-Considered n s rest ns h =
      let (kept, fewer) =
        Completes-Sched g w ident n s (record_skipped_node g n s) rest
          (record_skipped_node-Completes g n s) h in
      record { sched = kept; fewer = omega arith; progress = inl (refl, fewer) }

  start-Considered :
      (n : Node) (s : State) (rest : List Node)
      → Sched g s (n ∷ rest)
      → Considered g s (n ∷ []) rest (start n s, false)
  unfolding start
  start-Considered n s rest h = record {
    sched = start-Sched g w ident n s rest h;
    fewer = omega arith;
    progress = inr (refl, record { remaining = refl; flights = nodes_of-append s.in_flight _ });
  }

  consider_blocked-Considered :
      (n : Node) (s : State) (rest : List Node) (cause : Option Text)
      → Sched g s (n ∷ rest)
      → Considered g s (n ∷ []) rest (consider_blocked g n s cause)
  unfolding consider_blocked
  consider_blocked-Considered n s rest (some cause) h =
      let s1 = record s { failure_cause = update_text s.failure_cause n.id (some cause) } in
      let h1 : Sched g s1 (n ∷ rest) = record { counts = h.counts; good = h.good; done = h.done } in
      let (kept, fewer) =
        Completes-Sched g w ident n s1 (record_skipped_node g n s1) rest
          (record_skipped_node-Completes g n s1) h1 in
      record { sched = kept; fewer = omega arith; progress = inl (refl, fewer) }
  consider_blocked-Considered n s rest none h =
      elim (Bool-cases (is_fully_dead g n s || inputs_reference_skipped_node n s)) [
        | inl dead ↦ rw dead (skip-Considered n s rest (n ∷ []) h)
        | inr live ↦ rw live (start-Considered n s rest h)
      ]

  pub consider-Considered :
      (n : Node) (s : State) (rest : List Node)
      → Sched g s (n ∷ rest)
      → Considered g s (n ∷ []) rest (consider g n s)
  unfolding consider
  consider-Considered n s rest h = consider_blocked-Considered n s rest (upstream_failure g n s) h

  OnlyStarts-trans :
      (s s1 s2 : State) (ns ms : List Node)
      → OnlyStarts s s1 ns
      → OnlyStarts s1 s2 ms
      → OnlyStarts s s2 (ns ++ ms)
  OnlyStarts-trans s s1 s2 ns ms h k = record {
    remaining = k.remaining ∙ h.remaining;
    flights = k.flights ∙ ap (λ l. l ++ ms) h.flights ∙ append_assoc (nodes_of s.in_flight) ns ms;
  }

  -- Both rounds started all of their nodes, or one of them skipped a node.
  join-progress :
      (s : State) (n : Node) (ns : List Node) (r q : State × Bool)
      → Considered g s (n ∷ []) ns r
      → Considered g r.0 ns [] q
      → Considered g s (n ∷ ns) [] (q.0, r.1 || q.1)
  join-progress s n ns (s1, b) (s2, c) h k =
      let fewer = h.fewer in
      let fewer' = k.fewer in
      record {
        sched = k.sched;
        fewer = omega arith;
        progress = elim h.progress [
          | inl (skipped, lt) ↦ inl (rw skipped, omega arith)
          | inr (no_skip, starts) ↦ elim k.progress [
            | inl (skipped, lt) ↦ inl (rw (no_skip, skipped), omega arith)
            | inr (no_skip', starts') ↦
                inr (rw (no_skip, no_skip'), OnlyStarts-trans s s1 s2 (n ∷ []) ns starts starts')
          ]
        ];
      }

  pub consider_all-Considered :
      (ns : List Node) (s : State) → Sched g s ns → Considered g s ns [] (consider_all g ns s)
  unfolding consider_all
  consider_all-Considered [] s h = record {
    sched = h;
    fewer = omega arith;
    progress = inr (refl, record { remaining = refl; flights = sym (append-nil _) });
  }
  consider_all-Considered (n ∷ ns) s h =
      let r = consider g n s in
      let first = consider-Considered n s ns h in
      join-progress s n ns r (consider_all g ns r.0) first
        (consider_all-Considered ns r.0 first.sched)

-- No node of the phase is ready.
abbrev pub NoneReady : FlowEngine → RunWhen → State → Type 0
NoneReady g phase s = (n : Node) → In n g.nodes → is_ready phase s n ≡ false

pub OnlyStarts-NoneReady :
    (g : FlowEngine) (phase : RunWhen) (s s' : State)
    → OnlyStarts s s' (ready g phase s)
    → NoneReady g phase s'
unfolding ready
OnlyStarts-NoneReady g phase s s' starts n i = elim (Bool-cases (is_ready phase s' n)) [
  | inr unready ↦ unready
  | inl still ↦
      let (none_open, of_phase, grounded) = is_ready-parts phase s' n still in
      let open_before = sym (ap (λ f. f n.ptr) starts.remaining) ∙ none_open in
      let unlisted : has_ptr (nodes_of s.in_flight ++ ready g phase s) n ≡ false =
        ap (λ l. has_ptr l n) (sym starts.flights)
        ∙ sym (is_in_flight-nodes_of s'.in_flight n)
        ∙ grounded in
      let grounded_before : is_in_flight s.in_flight n ≡ false =
        is_in_flight-nodes_of s.in_flight n ∙ elim (Bool-cases (has_ptr (nodes_of s.in_flight) n)) [
          | inr differs ↦ differs
          | inl same ↦
              absurd
                (clash _ (has_ptr-append (nodes_of s.in_flight) (ready g phase s) n same) unlisted)
        ] in
      let was = is_ready-intro phase s n open_before of_phase grounded_before in
      let listed =
        In-append_right (nodes_of s.in_flight) (ready g phase s) n
          (filter_by-In (is_ready phase s) g.nodes n i was) in
      absurd (clash _ (has_ptr-In _ n listed) unlisted)
]

module _ (g : FlowEngine) (w : WellFormed g) (ident : Identified g) (apart : Apart g.nodes) where
  pub ready-Sched : (phase : RunWhen) (s : State) → Sched g s [] → Sched g s (ready g phase s)
  ready-Sched phase s h = record {
    counts = h.counts;
    good = ready-Good g apart phase s h.good;
    done = h.done;
  }

  -- startReadyOnSuccessNodes with enough fuel: the invariant is kept, and every ready on_success
  -- node is in flight.
  pub start_ready-Sched :
      (fuel : ℕ) (s : State)
      → Sched g s []
      → pending_nodes g s < fuel
      → Sched g (start_ready g fuel s) []
        × (pending_nodes g (start_ready g fuel s) ≤ pending_nodes g s)
        × NoneReady g on_success (start_ready g fuel s)
  unfolding start_ready
  start_ready-Sched zero s h lt = absurd (omega arith)
  start_ready-Sched (suc fuel) s h lt =
      let held = ready g on_success s in
      let c = consider_all-Considered g w ident held s (ready-Sched on_success s h) in
      let s' = (consider_all g held s).0 in
      let fewer = c.fewer in
      elim c.progress [
        | inl (skipped, falls) ↦
            let (kept, less, none_ready) = start_ready-Sched fuel s' c.sched (omega arith) in
            rw skipped (kept, omega arith, none_ready)
        | inr (no_skip, starts) ↦
            rw no_skip (c.sched, fewer, OnlyStarts-NoneReady g on_success s s' starts)
      ]
