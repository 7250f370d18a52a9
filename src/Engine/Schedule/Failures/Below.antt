-- ===== src/Engine/Schedule/Failures/Below.antt =====
-- A node of pkg/engine/execution.go that is done or that starts, and the failed steps above it.
use echopoint_runner.Prelude.{
  ◌≡◌, refl, sym, ap, ◌∙◌, subst, ◌⊎◌, inl, inr, true, false, ◌==◌, ==_iff, List, [], ◌∷◌, ◌++◌,
  none, is_some, clash, In, All-In, In-append_left, zero-count_by, Bool-cases, arith,
}
use echopoint_runner.Prelude.Text.{text_eq}
use echopoint_runner.Engine.Graph.{Node, FlowEngine}
use echopoint_runner.Engine.Graph.Edges.{WellFormed}
use echopoint_runner.Engine.State.{State, start}
use echopoint_runner.Engine.Schedule.Counts.{
  CountInv, Free, complete, pending, pending-complete, open_inputs,
}
use echopoint_runner.Engine.Schedule.Ready.{nodes_of, nodes_of-append, Good-middle}
use echopoint_runner.Engine.Schedule.Steps.{Sched, Completes}
use echopoint_runner.Prelude.{all, Bool, ◌&&◌}
use echopoint_runner.Engine.Skip.{is_fully_dead, nonempty}
use echopoint_runner.Engine.Schedule.Failures.{killed}
use echopoint_runner.Engine.Schedule.Failures.{DistinctIds, is_main, Safe, Causes}

In-append-cases : (xs ys : List Node) (n : Node) → In n (xs ++ ys) → In n xs ⊎ In n ys
In-append-cases [] ys n i = inr i
In-append-cases (x ∷ xs) ys n (inl e) = inl (inl e)
In-append-cases (x ∷ xs) ys n (inr i) = elim (In-append-cases xs ys n i) [
  | inl j ↦ inl (inr j)
  | inr j ↦ inr j
]

module _ (g : FlowEngine) (w : WellFormed g) (distinct : DistinctIds g) where
  ids_apart :
      (n m : Node)
      → In n g.nodes
      → In m g.nodes
      → (n.ptr == m.ptr) ≡ false
      → text_eq n.id m.id ≡ false
  ids_apart n m i j differs = elim (Bool-cases (text_eq n.id m.id)) [
    | inl same ↦ absurd (clash _ (distinct n m i j same) differs)
    | inr apart ↦ apart
  ]

  all-cong :
      (q q' : Node → Bool) (ps : List Node)
      → ((p : Node) → In p ps → q p ≡ q' p)
      → all q ps ≡ all q' ps
  all-cong q q' [] h = refl
  all-cong q q' (p ∷ ps) h =
      let head = h p (inl refl) in let rest = all-cong q q' ps (λ r i. h r (inr i)) in ground arith

  -- A node is as dead as before where its predecessors are marked as before.
  pub is_fully_dead-cong :
      (n : Node) (s s' : State)
      → ((p : Node) → In p (g.node_edge_source n.ptr) → killed s' p.id n.id ≡ killed s p.id n.id)
      → is_fully_dead g n s' ≡ is_fully_dead g n s
  unfolding is_fully_dead
  is_fully_dead-cong n s s' h =
      ap (λ b. nonempty (g.node_edge_source n.ptr) && b)
        (all-cong (λ p. killed s' p.id n.id) (λ p. killed s p.id n.id) (g.node_edge_source n.ptr) h)

  -- The predecessors of a free node are done.
  Free-gone :
      (s : State) (n p : Node)
      → CountInv g s.remaining_inputs
      → Free g s.remaining_inputs n
      → In p (g.node_edge_source n.ptr)
      → pending s.remaining_inputs p ≡ false
  Free-gone s n p inv (i, zero_left) j =
      let e = sym (inv.counts n i (ap is_some zero_left)) ∙ zero_left in
      let none_open : open_inputs g s.remaining_inputs n ≡ 0 = ground arith in
      zero-count_by (pending s.remaining_inputs) (g.node_edge_source n.ptr) p none_open j

  done_elsewhere :
      (n p : Node) (s : State)
      → Free g s.remaining_inputs n
      → pending s.remaining_inputs p ≡ false
      → (n.ptr == p.ptr) ≡ false
  done_elsewhere n p s free gone = elim (Bool-cases (n.ptr == p.ptr)) [
    | inl same ↦
        let e = (==_iff n.ptr p.ptr).0 same in
        let held = subst (λ q. is_some (s.remaining_inputs q) ≡ true) e (ap is_some free.1) in
        absurd (clash _ held gone)
    | inr differs ↦ differs
  ]

  pub complete-Safe :
      (n : Node) (s s' : State) (ns : List Node)
      → Completes g n s s'
      → Causes n s s'
      → Sched g s (n ∷ ns)
      → Safe g s
      → Safe g s'
  complete-Safe n s s' ns c k h safe =
      let rem = s.remaining_inputs in
      let (free, fresh, good) = Good-middle g rem (nodes_of s.in_flight) ns n h.good in
      record {
        quiet = λ m i yes.
            let yes' : pending (complete g n rem) m ≡ true =
              subst (λ r. pending r m ≡ true) c.remaining yes in
            let after = pending-complete g w n rem h.counts free m i in
            elim (Bool-cases (n.ptr == m.ptr)) [
              | inl same ↦ absurd (clash _ yes' (after ∙ rw same refl))
              | inr differs ↦
                  let was : pending rem m ≡ true = rw differs at (sym after ∙ yes') in
                  k.elsewhere m.id (ids_apart n m free.0 i differs) ∙ safe.quiet m i was
            ];
        clear = λ f p i main j.
            let i' = subst (In f) (ap nodes_of c.flights) i in
            k.elsewhere p.id (not_above f p i' j) ∙ safe.clear f p i' main j;
        caused = k.caused safe.caused;
        live = λ f i main.
            let i' = subst (In f) (ap nodes_of c.flights) i in
            is_fully_dead-cong f s s' (λ p j. k.marks p.id f.id (not_above f p i' j))
            ∙ safe.live f i' main;
      }
    where
      not_above :
          (f p : Node)
          → In f (nodes_of s.in_flight)
          → In p (g.node_edge_source f.ptr)
          → text_eq n.id p.id ≡ false
      not_above f p i j =
          let rem = s.remaining_inputs in
          let (free, fresh, good) = Good-middle g rem (nodes_of s.in_flight) ns n h.good in
          let f_free =
            All-In (Free g rem) (nodes_of s.in_flight ++ n ∷ ns) f h.good.free
              (In-append_left (nodes_of s.in_flight) (n ∷ ns) f i) in
          let gone = Free-gone s f p h.counts f_free j in
          let p_in = All-In (λ q. In q g.nodes) (g.node_edge_source f.ptr) p (w.sources f.ptr) j in
          ids_apart n p free.0 p_in (done_elsewhere n p s free gone)

  pub start-Safe :
      (n : Node) (s : State)
      → (is_main n ≡ true
          → (p : Node) → In p (g.node_edge_source n.ptr)
          → s.failure_cause p.id ≡ none)
      → (is_main n ≡ true → is_fully_dead g n s ≡ false)
      → Safe g s
      → Safe g (start n s)
  unfolding start
  start-Safe n s ok alive safe = record {
    quiet = safe.quiet;
    clear = λ f p i main j.
        elim (In-append-cases (nodes_of s.in_flight) (n ∷ []) f
          (subst (In f) (nodes_of-append s.in_flight _) i)) [
            | inl old ↦ safe.clear f p old main j
            | inr (inl e) ↦
                ok (ap is_main (sym e) ∙ main) p (subst (λ k. In p (g.node_edge_source k.ptr)) e j)
            | inr (inr none_left) ↦ absurd none_left
          ];
    caused = safe.caused;
    live = λ f i main.
        is_fully_dead-cong f s (start n s) (λ p j. refl)
        ∙ elim (In-append-cases (nodes_of s.in_flight) (n ∷ []) f
            (subst (In f) (nodes_of-append s.in_flight _) i)) [
              | inl old ↦ safe.live f old main
              | inr (inl e) ↦
                  subst (λ k. is_fully_dead g k s ≡ false) (sym e)
                    (alive (ap is_main (sym e) ∙ main))
              | inr (inr none_left) ↦ absurd none_left
            ];
  }
