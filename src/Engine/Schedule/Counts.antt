-- ===== src/Engine/Schedule/Counts.antt =====
-- The input counts of the scheduler of pkg/engine/execution.go.
use echopoint_runner.Prelude.{
  ℕ, zero, suc, ◌+◌, ◌-◌, ◌≤◌, ◌<◌, ◌≡◌, refl, sym, ap, ◌∙◌, subst, inl, inr, Bool, true, false,
  ◌==◌, ==_iff, ==_refl, List, [], ◌∷◌, Option, none, some, is_some, In, All-In, count_by,
  count_by-le, count_by-lt, count_by-split, Bool-cases, Option-cases, if◌then◌else◌, arith,
}
use echopoint_runner.Prelude.Int.{ℤ, pos, pred_ℤ}
use echopoint_runner.Engine.Graph.{Node, FlowEngine, update, count_ptr}
use echopoint_runner.Engine.Graph.Edges.{WellFormed}
use echopoint_runner.Engine.State.{decrement, decrement_all}

abbrev pub Counts : Type 0
Counts = ℕ → Option ℤ

-- Whether a node is still pending under `rem`.
abbrev pub pending : Counts → Node → Bool
pending rem n = is_some (rem n.ptr)

-- The incoming edges of a node from pending nodes.
abbrev pub open_inputs : FlowEngine → Counts → Node → ℕ
open_inputs g rem n = count_by (pending rem) (g.node_edge_source n.ptr)

-- remainingInputs behind markNodeComplete
abbrev pub complete : FlowEngine → Node → Counts → Counts
complete g n rem = update (decrement_all (g.node_edge_output n.ptr) rem) n.ptr none

pub record CountInv (g : FlowEngine) (rem : Counts) : Type 0 where
  pub counts :
      (n : Node)
      → In n g.nodes
      → pending rem n ≡ true
      → rem n.ptr ≡ some (pos (open_inputs g rem n))
  pub closed : (n : Node) → In n g.nodes → rem n.ptr ≡ none → open_inputs g rem n ≡ 0

-- A node that no pending node leads to.
abbrev pub Free : FlowEngine → Counts → Node → Type 0
Free g rem n = In n g.nodes × (rem n.ptr ≡ some (pos 0))

-- Nodes are told apart by their pointers.
abbrev pub Identified : FlowEngine → Type 0
Identified g = (n m : Node) → In n g.nodes → In m g.nodes → n.ptr ≡ m.ptr → n ≡ m

pred_ℤ-pos : (c : ℕ) → 1 ≤ c → pred_ℤ (pos c) ≡ pos (c - 1)
unfolding pred_ℤ
pred_ℤ-pos zero h = absurd (omega arith)
pred_ℤ-pos (suc c) h = ap pos (omega arith)

decrement_all-pos :
    (ns : List Node) (f : Counts) (k c : ℕ)
    → f k ≡ some (pos c)
    → count_ptr k ns ≤ c
    → decrement_all ns f k ≡ some (pos (c - count_ptr k ns))
unfolding decrement_all decrement
decrement_all-pos [] f k c h le = h ∙ ap (λ d. some (pos d)) (omega arith)
decrement_all-pos (n ∷ ns) f k c h le = elim (Bool-cases (n.ptr == k)) [
  | inl same ↦
      let e = (==_iff n.ptr k).0 same in
      let here : decrement n.ptr f k ≡ some (pos (c - 1)) =
        rw (same, e, h) (ap some (pred_ℤ-pos c (ground arith))) in
      decrement_all-pos ns (decrement n.ptr f) k (c - 1) here (ground arith)
      ∙ ap (λ d. some (pos d)) (ground arith)
  | inr other ↦
      let here : decrement n.ptr f k ≡ some (pos c) = rw other h in
      decrement_all-pos ns (decrement n.ptr f) k c here (ground arith)
      ∙ ap (λ d. some (pos d)) (ground arith)
]

decrement_all-absent :
    (ns : List Node) (f : Counts) (k : ℕ) → count_ptr k ns ≡ 0 → decrement_all ns f k ≡ f k
unfolding decrement_all decrement
decrement_all-absent [] f k h = refl
decrement_all-absent (n ∷ ns) f k h = elim (Bool-cases (n.ptr == k)) [
  | inl same ↦ absurd (ground arith)
  | inr other ↦ decrement_all-absent ns (decrement n.ptr f) k (ground arith) ∙ rw other refl
]

module _ (g : FlowEngine) (w : WellFormed g) (n : Node) (rem : Counts) (inv : CountInv g rem)
    (free : Free g rem n) where
  source_In : (m p : Node) → In p (g.node_edge_source m.ptr) → In p g.nodes
  source_In m p i = All-In (λ q. In q g.nodes) (g.node_edge_source m.ptr) p (w.sources m.ptr) i

  same_pending : (p : Node) → (p.ptr == n.ptr) ≡ true → pending rem p ≡ true
  same_pending p same =
      let e = (==_iff p.ptr n.ptr).0 same in
      let r = free.1 in subst (λ k. is_some (rem k) ≡ true) (sym e) (ap is_some r)

  edges-le-open : (m : Node) → count_ptr m.ptr (g.node_edge_output n.ptr) ≤ open_inputs g rem m
  edges-le-open m = rw (w.balanced n.ptr m.ptr) (
      count_by-le (pending rem) (λ p. p.ptr == n.ptr) (g.node_edge_source m.ptr)
        (λ p _ same. same_pending p same))

  complete-some :
      (m : Node)
      → In m g.nodes
      → (n.ptr == m.ptr) ≡ false
      → pending rem m ≡ true
      → complete g n rem m.ptr
        ≡ some (pos (open_inputs g rem m - count_ptr m.ptr (g.node_edge_output n.ptr)))
  complete-some m i apart yes_m = rw apart (
      decrement_all-pos (g.node_edge_output n.ptr) rem m.ptr (open_inputs g rem m)
        (inv.counts m i yes_m) (edges-le-open m))

  complete-none :
      (m : Node)
      → In m g.nodes
      → (n.ptr == m.ptr) ≡ false
      → rem m.ptr ≡ none
      → complete g n rem m.ptr ≡ none
  complete-none m i apart no_m =
      let le = edges-le-open m in
      let zero_open = inv.closed m i no_m in
      rw apart (decrement_all-absent (g.node_edge_output n.ptr) rem m.ptr (omega arith) ∙ no_m)

  pub pending-complete :
      (m : Node)
      → In m g.nodes
      → pending (complete g n rem) m ≡ (if n.ptr == m.ptr then false else pending rem m)
  pending-complete m i = elim (Bool-cases (n.ptr == m.ptr)) [
    | inl same ↦ rw same
    | inr apart ↦ elim (Option-cases (rem m.ptr)) [
      | inl no_m ↦ ap is_some (complete-none m i apart no_m) ∙ rw (apart, no_m)
      | inr (z, e) ↦
          let yes_m : pending rem m ≡ true = ap is_some e in
          ap is_some (complete-some m i apart yes_m) ∙ rw apart (sym yes_m)
    ]
  ]

  open_inputs-complete :
      (m : Node)
      → open_inputs g rem m
        ≡ open_inputs g (complete g n rem) m + count_ptr m.ptr (g.node_edge_output n.ptr)
  open_inputs-complete m = rw (w.balanced n.ptr m.ptr) (
      count_by-split (pending rem) (pending (complete g n rem)) (λ p. p.ptr == n.ptr)
        (g.node_edge_source m.ptr)
        λ p i.
          let after = pending-complete p (source_In m p i) in
          let before = same_pending p in
          elim (Bool-cases (p.ptr == n.ptr)) [
            | inl same ↦ let yes_p = before same in ground arith
            | inr apart ↦ ground arith
          ])

  free-open_inputs : open_inputs g rem n ≡ 0
  free-open_inputs = let e = sym (inv.counts n free.0 (ap is_some free.1)) ∙ free.1 in ground arith

  -- Completing a node with no open input keeps every count right.
  pub complete-CountInv : CountInv g (complete g n rem)
  complete-CountInv = record {
    counts = λ m i yes_m.
        let after = pending-complete m i in
        let split = open_inputs-complete m in
        elim (Bool-cases (n.ptr == m.ptr)) [
          | inl same ↦
              let gone : pending (complete g n rem) m ≡ false = after ∙ rw same in
              absurd (ground arith)
          | inr apart ↦
              let was : pending rem m ≡ true = rw apart at (sym after ∙ yes_m) in
              complete-some m i apart was ∙ ap (λ d. some (pos d)) (omega arith)
        ];
    closed = λ m i no_m.
        let split = open_inputs-complete m in
        elim (Bool-cases (n.ptr == m.ptr)) [
          | inl same ↦
              let e = (==_iff n.ptr m.ptr).0 same in
              let none_open =
                subst (λ k. count_by (pending rem) (g.node_edge_source k) ≡ 0) e free-open_inputs in
              omega arith
          | inr apart ↦ elim (Option-cases (rem m.ptr)) [
            | inl was_none ↦ let none_open = inv.closed m i was_none in omega arith
            | inr (z, e) ↦
                let still = complete-some m i apart (ap is_some e) in absurd (ground arith)
          ]
        ];
  }

  -- Another free node stays free.
  pub complete-Free :
      (m : Node) → (n.ptr == m.ptr) ≡ false → Free g rem m → Free g (complete g n rem) m
  complete-Free m apart (i, zero_m) =
      let e = sym (inv.counts m i (ap is_some zero_m)) ∙ zero_m in
      let none_open : open_inputs g rem m ≡ 0 = ground arith in
      (i, complete-some m i apart (ap is_some zero_m) ∙ ap (λ d. some (pos d)) (omega arith))

  -- The number of pending nodes falls.
  pub complete-lt : count_by (pending (complete g n rem)) g.nodes < count_by (pending rem) g.nodes
  complete-lt =
      count_by-lt (pending rem) (pending (complete g n rem)) g.nodes n
        (λ m i yes_m. let after = pending-complete m i in ground arith) free.0 (ap is_some free.1)
        (pending-complete n free.0 ∙ rw (==_refl n.ptr))
