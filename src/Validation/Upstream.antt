-- ===== src/Validation/Upstream.antt =====
-- The graph that buildPredecessors of pkg/flow/validation.go makes of the edges, its paths, and the
-- stack of upstreamOutputs.
use echopoint_runner.Prelude.{
  ℕ, ◌+◌, ◌≤◌, ◌≡◌, refl, sym, ap, ◌∙◌, subst, ◌⊎◌, inl, inr, Bool, true, false, not, ◌||◌, List,
  [], ◌∷◌, ◌++◌, In, clash, length, count_by, Bool-cases, if◌then◌else◌, arith,
}
use mathlib.Core.List.{append-nil, append_assoc}
use echopoint_runner.Prelude.Text.{Text, text_eq, text_eq_iff, eq_of_text_eq}
use echopoint_runner.Prelude.Strings.{contains, is_blank, trim_space}
use echopoint_runner.Engine.Graph.{Edge, update_text}
use echopoint_runner.Validation.{add_predecessor, add_predecessors, push_each}

-- The edges that buildPredecessors keeps, as pairs of source and target.
abbrev pub links : List Edge → List (Text × Text)
links [] = []
links (e ∷ es) =
    let rest = links es in
    let s = trim_space e.source in
    let t = trim_space e.target in if is_blank s || is_blank t then rest else (s, t) ∷ rest

-- A path of one edge or more that ends in `b`, by where it starts.
pub data LeadsTo (ls : List (Text × Text)) (b : Text) : Text → Type 0 where
  by_edge : {a : Text} → In (a, b) ls → LeadsTo ls b a
  further : {a c : Text} → In (a, c) ls → LeadsTo ls b c → LeadsTo ls b a

abbrev pub sources_of : Text → List (Text × Text) → List Text
sources_of t [] = []
sources_of t (l ∷ ls) = let rest = sources_of t ls in if text_eq l.1 t then l.0 ∷ rest else rest

abbrev pub target_is : Text → Text × Text → Bool
target_is t l = text_eq l.1 t

pub length-sources_of :
    (t : Text) (ls : List (Text × Text)) → length (sources_of t ls) ≡ count_by (target_is t) ls
length-sources_of t [] = refl
length-sources_of t (l ∷ ls) = let rest = length-sources_of t ls in ground arith

pub In-sources_of : (t p : Text) (ls : List (Text × Text)) → In p (sources_of t ls) → In (p, t) ls
In-sources_of t p [] i = i
In-sources_of t p ((s, u) ∷ ls) i = elim (Bool-cases (text_eq u t)) [
  | inl same ↦
      let e = eq_of_text_eq u t same in
      elim (rw same at i) [
        | inl here ↦ inl (ap (λ q. (q, t)) here ∙ ap (λ v. (s, v)) (sym e))
        | inr later ↦ inr (In-sources_of t p ls later)
      ]
  | inr differs ↦ inr (In-sources_of t p ls (rw differs at i))
]

pub sources_of-In : (t p : Text) (ls : List (Text × Text)) → In (p, t) ls → In p (sources_of t ls)
sources_of-In t p [] i = i
sources_of-In t p ((s, u) ∷ ls) (inl e) =
    let same : text_eq u t ≡ true = (text_eq_iff u t).1 (sym (ap (λ l. l.1) e)) in
    rw same (inl (ap (λ l. l.0) e))
sources_of-In t p ((s, u) ∷ ls) (inr i) = elim (Bool-cases (text_eq u t)) [
  | inl same ↦ rw same (inr (sources_of-In t p ls i))
  | inr differs ↦ rw differs (sources_of-In t p ls i)
]

pub add_predecessors-links :
    (es : List Edge) (m : Text → List Text) (t : Text)
    → add_predecessors es m t ≡ m t ++ sources_of t (links es)
unfolding add_predecessors add_predecessor
add_predecessors-links [] m t = sym (append-nil (m t))
add_predecessors-links (e ∷ es) m t =
    let s = trim_space e.source in
    let u = trim_space e.target in
    elim (Bool-cases (is_blank s || is_blank u)) [
      | inl blank ↦ rw blank (add_predecessors-links es m t)
      | inr named ↦ elim (Bool-cases (text_eq u t)) [
        | inl same ↦
            let grown : update_text m u (m u ++ s ∷ []) t ≡ m t ++ s ∷ [] =
              rw same (ap (λ k. m k ++ s ∷ []) (eq_of_text_eq u t same)) in
            rw (named, same)
              (add_predecessors-links es (update_text m u (m u ++ s ∷ [])) t
                ∙ ap (λ l. l ++ sources_of t (links es)) grown
                ∙ append_assoc (m t) (s ∷ []) (sources_of t (links es)))
        | inr differs ↦
            let kept : update_text m u (m u ++ s ∷ []) t ≡ m t = rw differs refl in
            rw (named, differs)
              (add_predecessors-links es (update_text m u (m u ++ s ∷ [])) t
                ∙ ap (λ l. l ++ sources_of t (links es)) kept)
      ]
    ]

pub length-links : (es : List Edge) → length (links es) ≤ length es
length-links [] = omega arith
length-links (e ∷ es) = let rest = length-links es in ground arith

pub length-push_each :
    (ps stack : List Text) → length (push_each ps stack) ≡ length ps + length stack
unfolding push_each
length-push_each [] stack = omega arith
length-push_each (p ∷ ps) stack = length-push_each ps (p ∷ stack) ∙ omega arith

pub In-push_each :
    (ps stack : List Text) (a : Text) → In a (push_each ps stack) → In a ps ⊎ In a stack
unfolding push_each
In-push_each [] stack a i = inr i
In-push_each (p ∷ ps) stack a i = elim (In-push_each ps (p ∷ stack) a i) [
  | inl later ↦ inl (inr later)
  | inr (inl here) ↦ inl (inl here)
  | inr (inr below) ↦ inr below
]

pub push_each-below : (ps stack : List Text) (a : Text) → In a stack → In a (push_each ps stack)
unfolding push_each
push_each-below [] stack a i = i
push_each-below (p ∷ ps) stack a i = push_each-below ps (p ∷ stack) a (inr i)

pub push_each-In : (ps stack : List Text) (a : Text) → In a ps → In a (push_each ps stack)
unfolding push_each
push_each-In [] stack a i = absurd i
push_each-In (p ∷ ps) stack a (inl e) = push_each-below ps (p ∷ stack) a (inl e)
push_each-In (p ∷ ps) stack a (inr i) = push_each-In ps (p ∷ stack) a i

-- The edges into nodes that the search has not visited.
abbrev pub open_edges : List Text → List (Text × Text) → ℕ
open_edges visited = count_by (λ l. not (contains visited l.1))

pub open_edges-visit :
    (visited : List Text) (a : Text) (ls : List (Text × Text))
    → contains visited a ≡ false
    → open_edges visited ls ≡ open_edges (a ∷ visited) ls + count_by (target_is a) ls
unfolding contains
open_edges-visit visited a [] h = refl
open_edges-visit visited a ((s, t) ∷ ls) h = elim (Bool-cases (text_eq a t)) [
  | inl same ↦
      let e = eq_of_text_eq a t same in
      let back : text_eq t a ≡ true = (text_eq_iff t a).1 (sym e) in
      let fresh : contains visited t ≡ false = subst (λ k. contains visited k ≡ false) e h in
      let rest = open_edges-visit visited a ls h in rw (same, back, fresh) (omega arith)
  | inr differs ↦
      let back : text_eq t a ≡ false = text_eq_sym a t differs in
      let rest = open_edges-visit visited a ls h in rw (differs, back) (ground arith)
]
  where
    text_eq_sym : (a t : Text) → text_eq a t ≡ false → text_eq t a ≡ false
    text_eq_sym a t h = elim (Bool-cases (text_eq t a)) [
      | inl same ↦ absurd (clash _ ((text_eq_iff a t).1 (sym (eq_of_text_eq t a same))) h)
      | inr differs ↦ differs
    ]
