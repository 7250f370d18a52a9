-- ===== src/Engine/Schedule/Steps.antt =====
-- The writes of the scheduler of pkg/engine/execution.go: a node that ends or is skipped, a node that
-- starts, a result that is received.
use echopoint_runner.Prelude.{
  ℕ, ◌<◌, ◌≡◌, refl, ap, ◌∙◌, subst, inl, inr, true, ◌==◌, ==_iff, List, [], ◌∷◌, ◌++◌, Option,
  none, some, is_some, In, count_by, Bool-cases, Option-cases, arith,
}
use mathlib.Core.List.{append_assoc}
use echopoint_runner.Prelude.Text.{Text, text_eq, text_eq_refl}
use echopoint_runner.Engine.Graph.{Node, FlowEngine, update_text}
use echopoint_runner.Engine.Graph.Edges.{WellFormed}
use echopoint_runner.Engine.State.{
  State, NodeResult, RunError, mark_node_complete, mark_node_failed, start,
}
use echopoint_runner.Engine.Record.{
  Finished, record_skipped_node, record_on_success_result, record_always_result, store_result,
  note_outcome, note_outputs, note_routing, record_routing_decision,
}
use echopoint_runner.Engine.Schedule.Counts.{
  Counts, CountInv, Free, Identified, complete, pending, pending-complete, complete-CountInv,
  complete-lt,
}
use echopoint_runner.Engine.Schedule.Ready.{
  nodes_of, nodes_of-append, Good, Good-middle, complete-Good,
}

-- `ns` are the nodes that the scheduler holds beside those in flight: the ready ones that it has
-- still to consider, or the one whose result it has received.
pub record Sched (g : FlowEngine) (s : State) (ns : List Node) : Type 0 where
  pub counts : CountInv g s.remaining_inputs
  pub good : Good g s.remaining_inputs (nodes_of s.in_flight ++ ns)
  pub done :
      (n : Node) → In n g.nodes → s.remaining_inputs n.ptr ≡ none → is_some (s.results n.id) ≡ true

-- The pending nodes of a state.
abbrev pub pending_nodes : FlowEngine → State → ℕ
pending_nodes g s = count_by (pending s.remaining_inputs) g.nodes

-- `s'` is `s` with `n` done and a result stored for it.
pub record Completes (g : FlowEngine) (n : Node) (s s' : State) : Type 0 where
  pub remaining : s'.remaining_inputs ≡ complete g n s.remaining_inputs
  pub flights : s'.in_flight ≡ s.in_flight
  pub value : Option NodeResult
  pub stored : s'.results ≡ update_text s.results n.id (some value)

update_text-is_some :
    {V : Type 0} (f : Text → Option V) (k j : Text) (v : V)
    → is_some (f j) ≡ true
    → is_some (update_text f k (some v) j) ≡ true
update_text-is_some f k j v h = elim (Bool-cases (text_eq k j)) [
  | inl same ↦ rw same
  | inr differs ↦ rw differs h
]

module _ (g : FlowEngine) (w : WellFormed g) (ident : Identified g) where
  done-complete :
      (n m : Node) (rem : Counts) (results : Text → Option (Option NodeResult))
      (value : Option NodeResult)
      → CountInv g rem
      → Free g rem n
      → In m g.nodes
      → (rem m.ptr ≡ none → is_some (results m.id) ≡ true)
      → complete g n rem m.ptr ≡ none
      → is_some (update_text results n.id (some value) m.id) ≡ true
  done-complete n m rem results value inv free i before no_m = elim (Bool-cases (n.ptr == m.ptr)) [
    | inl same ↦
        let e = ident n m free.0 i ((==_iff n.ptr m.ptr).0 same) in
        subst (λ k. is_some (update_text results n.id (some value) k.id) ≡ true) e
          (rw (text_eq_refl n.id))
    | inr differs ↦
        let after = pending-complete g w n rem inv free m i in
        elim (Option-cases (rem m.ptr)) [
          | inl absent ↦ update_text-is_some results n.id m.id value (before absent)
          | inr (z, e) ↦ absurd (ground arith)
        ]
  ]

  pub Completes-Sched :
      (n : Node) (s s' : State) (ns : List Node)
      → Completes g n s s'
      → Sched g s (n ∷ ns)
      → Sched g s' ns × (pending_nodes g s' < pending_nodes g s)
  Completes-Sched n s s' ns c h =
      let rem = s.remaining_inputs in
      let (free, fresh, good) = Good-middle g rem (nodes_of s.in_flight) ns n h.good in
      let kept = complete-Good g w n rem h.counts free (nodes_of s.in_flight ++ ns) fresh good in
      (
        record {
          counts = rw c.remaining (complete-CountInv g w n rem h.counts free);
          good = rw (c.remaining, c.flights) kept;
          done = λ m i no_m. rw c.stored (
              done-complete n m rem s.results c.value h.counts free i (h.done m i)
                (rw c.remaining at no_m));
        },
        rw c.remaining (complete-lt g w n rem h.counts free),
      )

  -- A node that starts goes from the nodes to consider to those in flight.
  pub start-Sched :
      (n : Node) (s : State) (ns : List Node) → Sched g s (n ∷ ns) → Sched g (start n s) ns
  unfolding start
  start-Sched n s ns h = record {
    counts = h.counts;
    good =
        rw (nodes_of-append s.in_flight (record { node = n; view = s.all_outputs } ∷ []))
          (rw (append_assoc (nodes_of s.in_flight) (n ∷ []) ns) h.good);
    done = h.done;
  }

-- `s'` differs from `s` in none of the fields that the invariant speaks of.
record Quiet (s s' : State) : Type 0 where
  remaining : s'.remaining_inputs ≡ s.remaining_inputs
  flights : s'.in_flight ≡ s.in_flight
  results : s'.results ≡ s.results

Quiet-trans : (s t u : State) → Quiet s t → Quiet t u → Quiet s u
Quiet-trans s t u h k = record {
  remaining = k.remaining ∙ h.remaining;
  flights = k.flights ∙ h.flights;
  results = k.results ∙ h.results;
}

abbrev quiet_refl : (s : State) → Quiet s s
quiet_refl s = record { remaining = refl; flights = refl; results = refl }

note_outcome-Quiet :
    (g : FlowEngine) (n : Node) (e : Option RunError) (s : State) → Quiet s (note_outcome g n e s)
unfolding note_outcome mark_node_failed
note_outcome-Quiet g n none s = record { remaining = refl; flights = refl; results = refl }
note_outcome-Quiet g n (some e) s = record { remaining = refl; flights = refl; results = refl }

note_outputs-Quiet : (n : Node) (r : Option NodeResult) (s : State) → Quiet s (note_outputs n r s)
unfolding note_outputs
note_outputs-Quiet n none s = quiet_refl s
note_outputs-Quiet n (some r) s = record { remaining = refl; flights = refl; results = refl }

record_routing-Quiet :
    (g : FlowEngine) (n : Node) (targets : Option (List Text)) (s : State)
    → Quiet s (record_routing_decision g n targets s)
unfolding record_routing_decision
record_routing-Quiet g n none s = quiet_refl s
record_routing-Quiet g n (some t) s = record { remaining = refl; flights = refl; results = refl }

note_routing-Quiet :
    (g : FlowEngine) (n : Node) (r : Option NodeResult) (e : Option RunError) (s : State)
    → Quiet s (note_routing g n r e s)
unfolding note_routing
note_routing-Quiet g n (some r) none s = record_routing-Quiet g n r.routed s
note_routing-Quiet g n none none s = quiet_refl s
note_routing-Quiet g n none (some e) s = quiet_refl s
note_routing-Quiet g n (some r) (some e) s = quiet_refl s

-- The state of a result's writes before its node is marked complete.
abbrev noted : FlowEngine → Finished → State → State
noted g f s =
    note_routing g f.node f.result f.err
      (note_outputs f.node f.result (note_outcome g f.node f.err (store_result f s)))

noted-Quiet : (g : FlowEngine) (f : Finished) (s : State) → Quiet (store_result f s) (noted g f s)
noted-Quiet g f s =
    let s1 = store_result f s in
    let s2 = note_outcome g f.node f.err s1 in
    let s3 = note_outputs f.node f.result s2 in
    Quiet-trans s1 s3 (noted g f s)
      (Quiet-trans s1 s2 s3 (note_outcome-Quiet g f.node f.err s1)
        (note_outputs-Quiet f.node f.result s2))
      (note_routing-Quiet g f.node f.result f.err s3)

module _ (g : FlowEngine) where
  pub record_skipped_node-Completes :
      (n : Node) (s : State) → Completes g n s (record_skipped_node g n s)
  unfolding record_skipped_node mark_node_complete
  record_skipped_node-Completes n s = record {
    remaining = refl;
    flights = refl;
    value = some _;
    stored = refl;
  }

  pub record_on_success_result-Completes :
      (f : Finished) (s : State) → Completes g f.node s (record_on_success_result g f s)
  unfolding record_on_success_result mark_node_complete store_result
  record_on_success_result-Completes f s =
      let q = noted-Quiet g f s in
      record {
        remaining = ap (complete g f.node) q.remaining;
        flights = q.flights;
        value = f.result;
        stored = q.results;
      }

  pub record_always_result-Completes :
      (f : Finished) (s : State) → Completes g f.node s (record_always_result g f s)
  unfolding record_always_result mark_node_complete store_result
  record_always_result-Completes f s =
      let q = noted-Quiet g f s in
      record {
        remaining = ap (complete g f.node) q.remaining;
        flights = q.flights;
        value = f.result;
        stored = q.results;
      }
