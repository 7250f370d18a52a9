-- ===== src/Modules/Depth.antt =====
-- How deep the walk of pkg/engine/module_cycle_validation.go goes.
use echopoint_runner.Prelude.{
  ℕ, zero, suc, ◌<◌, ◌≡◌, ◌≢◌, refl, sym, subst, inl, inr, false, not, ◌||◌, List, [], ◌∷◌, ◌++◌,
  Option, none, some, In, length, count_by, count_by-lt, count_by-le-length, Bool-cases, arith,
}
use echopoint_runner.Prelude.Text.{Text, text_eq, text_eq_refl}
use echopoint_runner.Prelude.Strings.{trim_space, is_blank, contains}
use echopoint_runner.Modules.{
  Module, Modules, Decoded, Target, ModuleError, Verdict, accepted, unfinished, refused,
  detect_module_cycle, check_decoded, input_keys, validate_module_graph,
}
use echopoint_runner.Modules.Cached.{
  PlainWalk, then_verdict, plain_target, plain_parsed, plain_checked, plain_enter, plain_visit,
  plain_each, plain_walk, validate_module_graph-plain_walk,
}

contains-snoc :
    (stack : List Text) (id x : Text)
    → contains (stack ++ id ∷ []) x ≡ (contains stack x || text_eq id x)
unfolding contains
contains-snoc [] id x = ground arith
contains-snoc (s ∷ stack) id x = let rest = contains-snoc stack id x in ground arith

abbrev outside : List Text → List Text → ℕ
outside stack = count_by (λ i. not (contains stack i))

outside-lt :
    (ids stack : List Text) (id : Text)
    → In id ids
    → contains stack id ≡ false
    → outside (stack ++ id ∷ []) ids < outside stack ids
outside-lt ids stack id i unseen =
    count_by-lt (λ k. not (contains stack k)) (λ k. not (contains (stack ++ id ∷ []) k)) ids id
      (λ k j out. let e = contains-snoc stack id k in ground arith) i (rw unseen refl)
      (rw (contains-snoc stack id id, text_eq_refl id) (ground arith))

then_verdict-finished :
    (v w : Verdict) → v ≢ unfinished → w ≢ unfinished → then_verdict v w ≢ unfinished
then_verdict-finished accepted w h k = k
then_verdict-finished unfinished w h k = h
then_verdict-finished (refused e) w h k = h

module _ {D : Type 0} (resolver : Text → Option (Target D)) (decode : D → Option Decoded)
    (ids : List Text) (known : (id : Text) (t : Target D) → resolver id ≡ some t → In id ids) where
  abbrev Finishes : PlainWalk → List Text → Type 0
  Finishes go stack = (ms : Modules) (inputs : List Text) → go ms stack inputs ≢ unfinished

  target-Finishes :
      (go : PlainWalk) (stack : List Text) (id : Text) (received : List Text)
      (t : Option (Target D))
      → resolver id ≡ t
      → (In id ids → Finishes go (stack ++ id ∷ []))
      → plain_enter go stack id (plain_target resolver decode id received t) ≢ unfinished
  target-Finishes go stack id received none e next = λ h. cc
  target-Finishes go stack id received (some t) e next =
      parsed-finishes (check_decoded (input_keys received t.overrides) (decode t.definition))
    where
      parsed-finishes :
          (o : Option Modules)
          → plain_enter go stack id (plain_parsed id (input_keys received t.overrides) o)
            ≢ unfinished
      parsed-finishes none = λ h. cc
      parsed-finishes (some ms) = next (known id t e) ms _

  checked-Finishes :
      (go : PlainWalk) (stack inputs : List Text) (m : Module) (e : Option ModuleError)
      → detect_module_cycle stack (trim_space m.flow_id) ≡ e
      → ((id : Text) → contains stack id ≡ false → In id ids → Finishes go (stack ++ id ∷ []))
      → plain_checked resolver decode go stack inputs m e ≢ unfinished
  unfolding detect_module_cycle
  checked-Finishes go stack inputs m (some e) d next = λ h. cc
  checked-Finishes go stack inputs m none d next =
      let id = trim_space m.flow_id in
      elim (Bool-cases (contains stack id)) [
        | inl seen ↦ absurd (ground arith)
        | inr unseen ↦
            target-Finishes go stack id (inputs ++ m.bindings) (resolver id) refl (next id unseen)
      ]

  visit-Finishes :
      (go : PlainWalk) (stack inputs : List Text) (m : Option Module)
      → ((id : Text) → contains stack id ≡ false → In id ids → Finishes go (stack ++ id ∷ []))
      → plain_visit resolver decode go stack inputs m ≢ unfinished
  visit-Finishes go stack inputs none next = λ h. cc
  visit-Finishes go stack inputs (some m) next =
      elim (Bool-cases (is_blank (trim_space m.flow_id))) [
        | inl blank ↦ rw blank (λ h. cc)
        | inr named ↦ rw named (checked-Finishes go stack inputs m _ refl next)
      ]

  each-Finishes :
      (go : PlainWalk) (ms : Modules) (stack inputs : List Text)
      → ((id : Text) → contains stack id ≡ false → In id ids → Finishes go (stack ++ id ∷ []))
      → plain_each resolver decode go ms stack inputs ≢ unfinished
  each-Finishes go [] stack inputs next = λ h. cc
  each-Finishes go (m ∷ ms) stack inputs next =
      then_verdict-finished _ _ (visit-Finishes go stack inputs m next)
        (each-Finishes go ms stack inputs next)

  plain_walk-Finishes :
      (fuel : ℕ) (stack : List Text)
      → outside stack ids < fuel
      → Finishes (plain_walk resolver decode fuel) stack
  unfolding plain_walk
  plain_walk-Finishes zero stack lt ms inputs = absurd (omega arith)
  plain_walk-Finishes (suc fuel) stack lt ms inputs =
      each-Finishes (plain_walk resolver decode fuel) ms stack inputs (λ id unseen i.
        let fewer = outside-lt ids stack id i unseen in
        plain_walk-Finishes fuel (stack ++ id ∷ []) (omega arith))

  -- Where the resolver knows only the listed flow ids, validateModuleGraph ends for every graph, with
  -- cycles or without: its recursion is not deeper than one more than their number.
  pub validate_module_graph_ends :
      (fuel : ℕ) (root : Modules) (stack inputs : List Text)
      → length ids < fuel
      → validate_module_graph resolver decode fuel root stack inputs ≢ unfinished
  validate_module_graph_ends fuel root stack inputs lt =
      let le = count_by-le-length (λ i. not (contains stack i)) ids in
      subst (λ v. v ≢ unfinished)
        (sym (validate_module_graph-plain_walk resolver decode fuel root stack inputs))
        (plain_walk-Finishes fuel stack (omega arith) root inputs)
