-- ===== src/Engine/Schedule/Failures.antt =====
-- Failed steps and untaken branches in the scheduler of pkg/engine/execution.go: which writes touch
-- failureCause and the marks of a predecessor.
pub mod Below
pub mod Passes
pub mod Cleanup
use echopoint_runner.Prelude.{
  ℕ, ◌≡◌, refl, sym, ap, ◌∙◌, subst, ◌⊎◌, inl, inr, Bool, true, false, ◌==◌, ==_iff, List, [], ◌∷◌,
  ◌++◌, Option, none, some, is_some, clash, All, In, All-In, In-append_left, zero-count_by,
  Bool-cases, Option-cases, if◌then◌else◌, arith,
}
use echopoint_runner.Prelude.Int.{pos}
use echopoint_runner.Prelude.Text.{Text, text_eq}
use echopoint_runner.Engine.Graph.{Node, FlowEngine, on_success, update_text}
use echopoint_runner.Engine.Graph.Edges.{WellFormed}
use echopoint_runner.Engine.State.{
  State, Flight, NodeResult, RunError, missing_inputs_error, validation_error, execution_error,
  not_executed_error, same_phase, start, mark_node_complete, mark_node_failed,
}
use echopoint_runner.Prelude.{◌||◌}
use echopoint_runner.Prelude.Strings.{contains}
use echopoint_runner.Engine.Record.{mark_dead}
use echopoint_runner.Engine.Skip.{is_fully_dead, first_cause, upstream_failure}
use echopoint_runner.Engine.Record.{
  Finished, record_skipped_node, record_on_success_result, record_always_result, settle_always_skip,
  store_result, note_outcome, note_outputs, note_routing, record_routing_decision,
  propagate_node_outputs,
}
use echopoint_runner.Engine.Schedule.Counts.{
  CountInv, Free, Identified, complete, pending, pending-complete, open_inputs,
}
use echopoint_runner.Engine.Schedule.Ready.{nodes_of, nodes_of-append, Good-middle}
use echopoint_runner.Engine.Schedule.Steps.{Sched, Completes, record_skipped_node-Completes}

-- Nodes are told apart by their ids.
abbrev pub DistinctIds : FlowEngine → Type 0
DistinctIds g =
    (n m : Node) → In n g.nodes → In m g.nodes → text_eq n.id m.id ≡ true → (n.ptr == m.ptr) ≡ true

abbrev pub is_main : Node → Bool
is_main n = same_phase n.run_when on_success

-- A node has no failure cause before it is done; an on_success node in flight has no predecessor with
-- one, and is not fully dead; a failed node has one.
pub record Safe (g : FlowEngine) (s : State) : Type 0 where
  pub quiet :
      (n : Node) → In n g.nodes → pending s.remaining_inputs n ≡ true → s.failure_cause n.id ≡ none
  pub clear :
      (n p : Node)
      → In n (nodes_of s.in_flight)
      → is_main n ≡ true
      → In p (g.node_edge_source n.ptr)
      → s.failure_cause p.id ≡ none
  pub caused : (id : Text) → s.failed_nodes id ≡ true → is_some (s.failure_cause id) ≡ true
  pub live :
      (n : Node) → In n (nodes_of s.in_flight) → is_main n ≡ true → is_fully_dead g n s ≡ false

-- Whether `id` cannot lead to `t`: isFullyDead's test of one predecessor.
abbrev pub killed : State → Text → Text → Bool
killed s id t = s.dead_edges id t || s.skipped_nodes id || s.failed_nodes id

-- Only the cause and the marks of `n` were written.
pub record Causes (n : Node) (s s' : State) : Type 0 where
  pub elsewhere : (id : Text) → text_eq n.id id ≡ false → s'.failure_cause id ≡ s.failure_cause id
  pub caused :
      ((id : Text) → s.failed_nodes id ≡ true → is_some (s.failure_cause id) ≡ true)
      → (id : Text) → s'.failed_nodes id ≡ true
      → is_some (s'.failure_cause id) ≡ true
  pub marks : (id t : Text) → text_eq n.id id ≡ false → killed s' id t ≡ killed s id t

Causes-trans : (n : Node) (s s1 s2 : State) → Causes n s s1 → Causes n s1 s2 → Causes n s s2
Causes-trans n s s1 s2 c d = record {
  elsewhere = λ id differs. d.elsewhere id differs ∙ c.elsewhere id differs;
  caused = λ h. d.caused (c.caused h);
  marks = λ id t differs. d.marks id t differs ∙ c.marks id t differs;
}

note_outcome-Causes :
    (g : FlowEngine) (n : Node) (e : Option RunError) (s : State)
    → Causes n s (note_outcome g n e s)
unfolding note_outcome mark_node_failed
note_outcome-Causes g n none s = record {
  elsewhere = λ id d. refl;
  caused = λ h. h;
  marks = λ id t d. refl;
}
note_outcome-Causes g n (some e) s = record {
  elsewhere = λ id differs. rw differs refl;
  caused = λ h id f. elim (Bool-cases (text_eq n.id id)) [
    | inl same ↦ rw same refl
    | inr differs ↦ rw differs (h id (rw differs at f))
  ];
  marks = λ id t differs. rw differs refl;
}

note_outputs-Causes :
    (n : Node) (r : Option NodeResult) (s : State) → Causes n s (note_outputs n r s)
unfolding note_outputs
note_outputs-Causes n none s = record {
  elsewhere = λ id d. refl;
  caused = λ h. h;
  marks = λ id t d. refl;
}
note_outputs-Causes n (some r) s = record {
  elsewhere = λ id d. refl;
  caused = λ h. h;
  marks = λ id t d. refl;
}

mark_dead-off :
    (n id t : Text) (taken : List Text) (ms : List Node) (dead : Text → Text → Bool)
    → text_eq n id ≡ false
    → mark_dead n taken ms dead id t ≡ dead id t
unfolding mark_dead
mark_dead-off n id t taken [] dead differs = refl
mark_dead-off n id t taken (m ∷ ms) dead differs = elim (Bool-cases (contains taken m.id)) [
  | inl chosen ↦ rw chosen (mark_dead-off n id t taken ms dead differs)
  | inr left_out ↦ rw left_out (
      mark_dead-off n id t taken ms (update_text dead n (update_text (dead n) m.id true)) differs
      ∙ rw differs refl)
]

record_routing-Causes :
    (g : FlowEngine) (n : Node) (targets : Option (List Text)) (s : State)
    → Causes n s (record_routing_decision g n targets s)
unfolding record_routing_decision
record_routing-Causes g n none s = record {
  elsewhere = λ id d. refl;
  caused = λ h. h;
  marks = λ id t d. refl;
}
record_routing-Causes g n (some targets) s = record {
  elsewhere = λ id d. refl;
  caused = λ h. h;
  marks = λ id t differs.
      ap (λ b. b || s.skipped_nodes id || s.failed_nodes id)
        (mark_dead-off n.id id t targets (g.node_edge_output n.ptr) s.dead_edges differs);
}

note_routing-Causes :
    (g : FlowEngine) (n : Node) (r : Option NodeResult) (e : Option RunError) (s : State)
    → Causes n s (note_routing g n r e s)
unfolding note_routing
note_routing-Causes g n (some r) none s = record_routing-Causes g n r.routed s
note_routing-Causes g n none none s = record {
  elsewhere = λ id d. refl;
  caused = λ h. h;
  marks = λ id t d. refl;
}
note_routing-Causes g n none (some e) s = record {
  elsewhere = λ id d. refl;
  caused = λ h. h;
  marks = λ id t d. refl;
}
note_routing-Causes g n (some r) (some e) s = record {
  elsewhere = λ id d. refl;
  caused = λ h. h;
  marks = λ id t d. refl;
}

noted-Causes :
    (g : FlowEngine) (f : Finished) (s : State)
    → Causes f.node s (
        note_routing g f.node f.result f.err
          (note_outputs f.node f.result (note_outcome g f.node f.err (store_result f s))))
unfolding store_result
noted-Causes g f s =
    let s1 = note_outcome g f.node f.err (store_result f s) in
    let s2 = note_outputs f.node f.result s1 in
    let first = note_outcome-Causes g f.node f.err (store_result f s) in
    let stored : Causes f.node s s1 = record {
      elsewhere = first.elsewhere;
      caused = first.caused;
      marks = first.marks;
    } in
    Causes-trans f.node s s2 _
      (Causes-trans f.node s s1 s2 stored (note_outputs-Causes f.node f.result s1))
      (note_routing-Causes g f.node f.result f.err s2)

pub skip-Causes : (g : FlowEngine) (n : Node) (s : State) → Causes n s (record_skipped_node g n s)
unfolding record_skipped_node mark_node_complete
skip-Causes g n s = record {
  elsewhere = λ id d. refl;
  caused = λ h. h;
  marks = λ id t d. rw d refl;
}

pub block-Causes :
    (g : FlowEngine) (n : Node) (s : State) (cause : Text)
    → Causes n s (
        record_skipped_node g n
          (record s { failure_cause = update_text s.failure_cause n.id (some cause) }))
unfolding record_skipped_node mark_node_complete
block-Causes g n s cause = record {
  elsewhere = λ id differs. rw differs refl;
  caused = λ h id f. elim (Bool-cases (text_eq n.id id)) [
    | inl same ↦ rw same refl
    | inr differs ↦ rw differs (h id f)
  ];
  marks = λ id t differs. rw differs refl;
}

pub main-Causes :
    (g : FlowEngine) (f : Finished) (s : State) → Causes f.node s (record_on_success_result g f s)
unfolding record_on_success_result mark_node_complete
main-Causes g f s =
    let c = noted-Causes g f s in
    record { elsewhere = c.elsewhere; caused = c.caused; marks = c.marks }

always-Causes :
    (g : FlowEngine) (f : Finished) (s : State) → Causes f.node s (record_always_result g f s)
unfolding record_always_result mark_node_complete
always-Causes g f s =
    let c = noted-Causes g f s in
    record { elsewhere = c.elsewhere; caused = c.caused; marks = c.marks }

pub settle-Causes :
    (g : FlowEngine) (f : Finished) (e : Option RunError) (s : State)
    → Causes f.node s
        (record_always_result g (settle_always_skip g f e s).0 (settle_always_skip g f e s).1)
unfolding settle_always_skip
settle-Causes g f (some (missing_inputs_error e)) s =
    let c = always-Causes g _ _ in
    record {
      elsewhere = c.elsewhere;
      caused = c.caused;
      marks = λ id t differs. c.marks id t differs ∙ rw differs refl;
    }
settle-Causes g f none s = always-Causes g f s
settle-Causes g f (some (validation_error e)) s = always-Causes g f s
settle-Causes g f (some (execution_error e)) s = always-Causes g f s
settle-Causes g f (some (not_executed_error e)) s = always-Causes g f s

pub first_cause-none :
    (ps : List Node) (causes : Text → Option Text) (p : Node)
    → first_cause ps causes ≡ none
    → In p ps
    → causes p.id ≡ none
unfolding first_cause
first_cause-none [] causes p h i = absurd i
first_cause-none (q ∷ ps) causes p h i = elim (Option-cases (causes q.id)) [
  | inr (c, e) ↦ absurd (not_none (rw (e, first_cause) at h))
  | inl none_here ↦ elim i [
    | inl e ↦ ap (λ k. causes k.id) e ∙ none_here
    | inr j ↦ first_cause-none ps causes p (rw (none_here, first_cause) at h) j
  ]
]
  where
    not_none : {c : Text} → some c ≡ none → ⊥
    not_none e = cc
