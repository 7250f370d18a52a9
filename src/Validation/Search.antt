-- ===== src/Validation/Search.antt =====
-- upstreamOutputs of pkg/flow/validation.go against the paths of the graph.
use echopoint_runner.Prelude.{
  ℕ, zero, suc, ◌+◌, ◌≤◌, ◌≡◌, refl, sym, ap, ◌∙◌, subst, ◌⊎◌, ◌↔◌, inl, inr, Bool, true, false,
  not, ◌||◌, List, [], ◌∷◌, Option, none, some, In, clash, length, count_by-le-length, Bool-cases,
  ||→⊎, ||→neither, arith,
}
use echopoint_runner.Prelude.Text.{Text, text_eq, text_eq_refl, eq_of_text_eq}
use echopoint_runner.Prelude.Strings.{contains}
use echopoint_runner.Engine.Graph.{Edge}
use echopoint_runner.Validation.{
  NodeOutputs, build_predecessors, push_each, store_known, search, upstream_outputs,
}
use echopoint_runner.Validation.Upstream.{
  links, LeadsTo, by_edge, further, sources_of, length-sources_of, In-sources_of, sources_of-In,
  add_predecessors-links, length-links, length-push_each, In-push_each, push_each-below,
  push_each-In, open_edges, open_edges-visit,
}

-- The nodes that upstreamOutputs is to report for `id`, with their outputs.
abbrev pub IsUpstream : List (Text × Text) → NodeOutputs → Text → Text → List Text → Type 0
IsUpstream ls outputs id a o = (outputs a ≡ some o) × LeadsTo ls id a × (text_eq a id ≡ false)

store_known-at :
    (up : NodeOutputs) (a b : Text) (o : Option (List Text))
    → text_eq a b ≡ true
    → up a ≡ none
    → store_known up a o b ≡ o
store_known-at up a b none same h = subst (λ k. up k ≡ none) (eq_of_text_eq a b same) h
store_known-at up a b (some o) same h = rw same

store_known-off :
    (up : NodeOutputs) (a b : Text) (o : Option (List Text))
    → text_eq a b ≡ false
    → store_known up a o b ≡ up b
store_known-off up a b none differs = refl
store_known-off up a b (some o) differs = rw differs

module _ (ls : List (Text × Text)) (outputs : NodeOutputs) (id : Text) where
  record Inv (stack visited : List Text) (up : NodeOutputs) : Type 0 where
    sound : (a : Text) (o : List Text) → up a ≡ some o → IsUpstream ls outputs id a o
    full : (a : Text) → contains visited a ≡ true → (text_eq a id ≡ true) ⊎ (up a ≡ outputs a)
    fresh : (a : Text) → contains visited a ≡ false → up a ≡ none
    self : contains visited id ≡ true
    leads : (a : Text) → In a stack → LeadsTo ls id a
    closed :
        (a p : Text)
        → contains visited a ≡ true
        → In (p, a) ls
        → (contains visited p ≡ true) ⊎ In p stack

  Inv-seen :
      (a : Text) (stack visited : List Text) (up : NodeOutputs)
      → contains visited a ≡ true
      → Inv (a ∷ stack) visited up
      → Inv stack visited up
  Inv-seen a stack visited up seen h = record {
    sound = h.sound;
    full = h.full;
    fresh = h.fresh;
    self = h.self;
    leads = λ b i. h.leads b (inr i);
    closed = λ b p v i. elim (h.closed b p v i) [
      | inl old ↦ inl old
      | inr (inl e) ↦ inl (subst (λ q. contains visited q ≡ true) (sym e) seen)
      | inr (inr below) ↦ inr below
    ];
  }

  end-exact :
      (visited : List Text) (up : NodeOutputs) (a : Text) (o : List Text)
      → Inv [] visited up
      → (up a ≡ some o) ↔ IsUpstream ls outputs id a o
  end-exact visited up a o h = (h.sound a o, complete)
    where
      leads-visited : (b : Text) → LeadsTo ls id b → contains visited b ≡ true
      leads-visited b (by_edge i) = elim (h.closed id b h.self i) [ inl v ↦ v | inr i ↦ absurd i ]
      leads-visited b (further {c = c} i p) = elim (h.closed c b (leads-visited c p) i) [
        | inl v ↦ v
        | inr i ↦ absurd i
      ]

      complete : IsUpstream ls outputs id a o → up a ≡ some o
      complete (known, path, apart) = elim (h.full a (leads-visited a path)) [
        | inl same ↦ absurd (clash _ same apart)
        | inr e ↦ e ∙ known
      ]

  Inv-taken :
      (preds : List Text) (a : Text) (stack visited : List Text) (up : NodeOutputs)
      → preds ≡ sources_of a ls
      → contains visited a ≡ false
      → Inv (a ∷ stack) visited up
      → Inv (push_each preds stack) (a ∷ visited) (store_known up a (outputs a))
  unfolding contains
  Inv-taken preds a stack visited up e unseen h = record {
    sound = λ b o got. elim (Bool-cases (text_eq a b)) [
      | inl same ↦
          let ab = eq_of_text_eq a b same in
          let known = sym (store_known-at up a b (outputs a) same (h.fresh a unseen)) ∙ got in
          subst (λ k. IsUpstream ls outputs id k o) ab (known, h.leads a (inl refl), not_self)
      | inr differs ↦ h.sound b o (sym (store_known-off up a b (outputs a) differs) ∙ got)
    ];
    full = λ b v. elim (Bool-cases (text_eq a b)) [
      | inl same ↦ inr (
          store_known-at up a b (outputs a) same (h.fresh a unseen)
          ∙ ap outputs (eq_of_text_eq a b same))
      | inr differs ↦
          let old : contains visited b ≡ true = rw differs at v in
          elim (h.full b old) [
            | inl self ↦ inl self
            | inr stays ↦ inr (store_known-off up a b (outputs a) differs ∙ stays)
          ]
    ];
    fresh = λ b v.
        let (differs, old) = ||→neither _ _ v in
        store_known-off up a b (outputs a) differs ∙ h.fresh b old;
    self = rw h.self (or_true (text_eq a id));
    leads = λ b i. elim (In-push_each preds stack b i) [
      | inl pred ↦ further (In-sources_of a b ls (subst (In b) e pred)) (h.leads a (inl refl))
      | inr below ↦ h.leads b (inr below)
    ];
    closed = λ b p v i. elim (Bool-cases (text_eq a b)) [
      | inl same ↦
          let ab = eq_of_text_eq a b same in
          let pred = sources_of-In a p ls (subst (λ k. In (p, k) ls) (sym ab) i) in
          inr (push_each-In preds stack p (subst (In p) (sym e) pred))
      | inr differs ↦
          let old : contains visited b ≡ true = rw differs at v in
          elim (h.closed b p old i) [
            | inl known ↦ inl (rw known (or_true (text_eq a p)))
            | inr (inl top) ↦ inl (rw (ap (text_eq a) top ∙ text_eq_refl a))
            | inr (inr below) ↦ inr (push_each-below preds stack p below)
          ]
    ];
  }
    where
      or_true : (b : Bool) → (b || true) ≡ true
      or_true b = ground arith

      not_self : text_eq a id ≡ false
      not_self = elim (Bool-cases (text_eq a id)) [
        | inl same ↦ absurd (
            clash _ (subst (λ k. contains visited k ≡ true) (sym (eq_of_text_eq a id same)) h.self)
              unseen)
        | inr differs ↦ differs
      ]

  abbrev Exact : Option NodeOutputs → Type 0
  Exact r =
      (up : NodeOutputs) × (r ≡ some up)
      × ((a : Text) (o : List Text) → (up a ≡ some o) ↔ IsUpstream ls outputs id a o)

  search-Exact :
      (preds : Text → List Text) (fuel : ℕ) (stack visited : List Text) (up : NodeOutputs)
      → ((a : Text) → preds a ≡ sources_of a ls)
      → Inv stack visited up
      → length stack + open_edges visited ls ≤ fuel
      → Exact (search preds outputs fuel stack visited up)
  unfolding search
  search-Exact preds fuel [] visited up e h le = (up, refl, λ a o. end-exact visited up a o h)
  search-Exact preds zero (a ∷ stack) visited up e h le = absurd (omega arith)
  search-Exact preds (suc fuel) (a ∷ stack) visited up e h le =
      elim (Bool-cases (contains visited a)) [
        | inl seen ↦ rw seen (
            search-Exact preds fuel stack visited up e (Inv-seen a stack visited up seen h)
              (omega arith))
        | inr unseen ↦
            let pushed = length-push_each (preds a) stack in
            let few = ap length (e a) ∙ length-sources_of a ls in
            let falls = open_edges-visit visited a ls unseen in
            rw unseen (
              search-Exact preds fuel (push_each (preds a) stack) (a ∷ visited)
                (store_known up a (outputs a)) e
                (Inv-taken (preds a) a stack visited up (e a) unseen h) (omega arith))
      ]

  begin-Inv :
      (preds : List Text)
      → preds ≡ sources_of id ls
      → Inv (push_each preds []) (id ∷ []) (λ _. none)
  unfolding contains
  begin-Inv preds e = record {
    sound = λ a o got. absurd (none_some o got);
    full = λ a v. elim (||→⊎ _ _ v) [
      | inl same ↦ inl (ap (λ k. text_eq k id) (sym (eq_of_text_eq id a same)) ∙ text_eq_refl id)
      | inr old ↦ absurd (clash _ old refl)
    ];
    fresh = λ a v. refl;
    self = rw (text_eq_refl id);
    leads = λ a i. elim (In-push_each preds [] a i) [
      | inl pred ↦ by_edge (In-sources_of id a ls (subst (In a) e pred))
      | inr below ↦ absurd below
    ];
    closed = λ a p v i. elim (||→⊎ _ _ v) [
      | inl same ↦
          let pred =
            sources_of-In id p ls (subst (λ k. In (p, k) ls) (sym (eq_of_text_eq id a same)) i) in
          inr (push_each-In preds [] p (subst (In p) (sym e) pred))
      | inr old ↦ absurd (clash _ old refl)
    ];
  }
    where
      none_some : (o : List Text) → none ≡ some o → ⊥
      none_some o h = cc

-- For any edges, upstreamOutputs ends within as many rounds as there are edges, and reports the
-- outputs of exactly those nodes that a path leads from to the node, the node itself left out.
pub upstream_outputs-IsUpstream :
    (es : List Edge) (outputs : NodeOutputs) (id : Text)
    → (up : NodeOutputs) × (upstream_outputs (length es) id (build_predecessors es) outputs
        ≡ some up)
      × ((a : Text) (o : List Text) → (up a ≡ some o) ↔ IsUpstream (links es) outputs id a o)
unfolding upstream_outputs build_predecessors contains
upstream_outputs-IsUpstream es outputs id =
    let e = add_predecessors-links es (λ _. []) in
    let pushed = length-push_each (build_predecessors es id) [] in
    let few = ap length (e id) ∙ length-sources_of id (links es) in
    let falls = open_edges-visit [] id (links es) refl in
    let bound = length-links es in
    let all = count_by-le-length (λ l. not (contains [] l.1)) (links es) in
    search-Exact (links es) outputs id (build_predecessors es) (length es)
      (push_each (build_predecessors es id) []) (id ∷ []) (λ _. none) e
      (begin-Inv (links es) outputs id (build_predecessors es id) (e id)) (omega arith)
