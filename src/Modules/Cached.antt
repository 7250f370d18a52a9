-- ===== src/Modules/Cached.antt =====
-- The walk of pkg/engine/module_cycle_validation.go with its cache and without it.
use echopoint_runner.Prelude.{
  ℕ, zero, suc, ◌≡◌, refl, sym, ap, subst, inl, inr, true, ◌&&◌, List, [], ◌∷◌, ◌++◌, Option, none,
  some, All, Bool-cases, &&→×, if◌then◌else◌, arith,
}
use echopoint_runner.Prelude.Text.{Text, text_eq, eq_of_text_eq}
use echopoint_runner.Prelude.Strings.{trim_space, is_blank}
use echopoint_runner.Modules.{
  Module, Modules, Decoded, Target, ModuleError, flow_not_found, parse_failed, Verdict, accepted,
  unfinished, refused, Resolution, found, failed, Cache, Walk, texts_eq, cached, input_keys,
  detect_module_cycle, check_decoded, store_parsed, enter, after_visit, read_or_parse,
  resolve_target, resolve_module_flow, visit_checked, visit_module, visit_each,
  validate_module_references, validate_module_graph,
}

abbrev pub PlainWalk : Type 0
PlainWalk = Modules → List Text → List Text → Verdict

abbrev pub plain_parsed : Text → List Text → Option Modules → Resolution
plain_parsed id keys none = failed (parse_failed id)
plain_parsed id keys (some ms) = found ms keys

abbrev pub then_verdict : Verdict → Verdict → Verdict
then_verdict accepted rest = rest
then_verdict unfinished rest = unfinished
then_verdict (refused e) rest = refused e

abbrev pub plain_enter : PlainWalk → List Text → Text → Resolution → Verdict
plain_enter go stack id (failed e) = refused e
plain_enter go stack id (found ms keys) = go ms (stack ++ id ∷ []) keys

eq_of_texts_eq : (ss ts : List Text) → texts_eq ss ts ≡ true → ss ≡ ts
unfolding texts_eq
eq_of_texts_eq [] [] h = refl
eq_of_texts_eq [] (t ∷ ts) h = absurd (ground arith)
eq_of_texts_eq (s ∷ ss) [] h = absurd (ground arith)
eq_of_texts_eq (s ∷ ss) (t ∷ ts) h =
    let (head, tail) = &&→× _ _ h in
    let e = eq_of_text_eq s t head in let es = eq_of_texts_eq ss ts tail in cc

some_inj : {a b : Modules} → some a ≡ some b → a ≡ b
some_inj h = cc

module _ {D : Type 0} (resolver : Text → Option (Target D)) (decode : D → Option Decoded) where
  abbrev pub plain_target : Text → List Text → Option (Target D) → Resolution
  plain_target id received none = failed (flow_not_found id)
  plain_target id received (some t) =
      let keys = input_keys received t.overrides in
      plain_parsed id keys (check_decoded keys (decode t.definition))

  -- What a reference leads to.
  abbrev pub plain_resolve : Text → List Text → Resolution
  plain_resolve id received = plain_target id received (resolver id)

  abbrev pub plain_checked :
      PlainWalk → List Text → List Text → Module → Option ModuleError → Verdict
  plain_checked go stack inputs m (some e) = refused e
  plain_checked go stack inputs m none =
      plain_enter go stack (trim_space m.flow_id)
        (plain_resolve (trim_space m.flow_id) (inputs ++ m.bindings))

  abbrev pub plain_visit : PlainWalk → List Text → List Text → Option Module → Verdict
  plain_visit go stack inputs none = accepted
  plain_visit go stack inputs (some m) =
      let visited =
        plain_checked go stack inputs m (detect_module_cycle stack (trim_space m.flow_id)) in
      if is_blank (trim_space m.flow_id) then accepted else visited

  abbrev pub plain_each : PlainWalk → PlainWalk
  plain_each go [] stack inputs = accepted
  plain_each go (m ∷ ms) stack inputs =
      then_verdict (plain_visit go stack inputs m) (plain_each go ms stack inputs)

  -- The walk that parses every flow anew.
  unfoldable pub plain_walk : ℕ → PlainWalk
  plain_walk zero ms stack inputs = unfinished
  plain_walk (suc fuel) ms stack inputs = plain_each (plain_walk fuel) ms stack inputs

  -- A cache entry is what the parser makes of the flow of that name.
  abbrev Entry : (Text × List Text) × Modules → Type 0
  Entry ((id, keys), ms) =
      (t : Target D) × (resolver id ≡ some t) × (check_decoded keys (decode t.definition) ≡ some ms)

  cached-Entry :
      (id : Text) (keys : List Text) (cache : Cache) (ms : Modules)
      → All Entry cache
      → cached id keys cache ≡ some ms
      → Entry ((id, keys), ms)
  unfolding cached
  cached-Entry id keys [] ms ok h = cc
  cached-Entry id keys (((id', keys'), ms') ∷ cache) ms ok h =
      elim (Bool-cases (text_eq id' id && texts_eq keys' keys)) [
        | inl same ↦
            let (i, k) = &&→× _ _ same in
            let here : some ms' ≡ some ms = rw same at h in
            let value : ms' ≡ ms = some_inj here in
            let at_id = subst (λ j. Entry ((j, keys'), ms')) (eq_of_text_eq id' id i) ok.0 in
            let at_keys = subst (λ j. Entry ((id, j), ms')) (eq_of_texts_eq keys' keys k) at_id in
            subst (λ v. Entry ((id, keys), v)) value at_keys
        | inr differs ↦ cached-Entry id keys cache ms ok.1 (rw differs at h)
      ]

  -- `r` is the outcome `p` and a cache of right entries.
  abbrev Agrees : {A : Type 0} → A × Cache → A → Type 0
  Agrees r p = (r.0 ≡ p) × All Entry r.1

  store_parsed-Agrees :
      (t : Target D) (id : Text) (keys : List Text) (cache : Cache) (o : Option Modules)
      → resolver id ≡ some t
      → check_decoded keys (decode t.definition) ≡ o
      → All Entry cache
      → Agrees (store_parsed id keys cache o) (plain_parsed id keys o)
  unfolding store_parsed
  store_parsed-Agrees t id keys cache none e p ok = (refl, ok)
  store_parsed-Agrees t id keys cache (some ms) e p ok = (refl, ((t, e, p), ok))

  read_or_parse-Agrees :
      (t : Target D) (id : Text) (keys : List Text) (cache : Cache) (o : Option Modules)
      → resolver id ≡ some t
      → cached id keys cache ≡ o
      → All Entry cache
      → Agrees
          (read_or_parse resolver decode id t.definition keys cache o)
          (plain_parsed id keys (check_decoded keys (decode t.definition)))
  unfolding read_or_parse
  read_or_parse-Agrees t id keys cache none e hit ok =
      store_parsed-Agrees t id keys cache _ e refl ok
  read_or_parse-Agrees t id keys cache (some ms) e hit ok =
      let (t', e', p) = cached-Entry id keys cache ms ok hit in
      let same : t' ≡ t = cc in
      let p' = subst (λ k. check_decoded keys (decode k.definition) ≡ some ms) same p in
      (ap (plain_parsed id keys) (sym p'), ok)

  resolve-Agrees :
      (id : Text) (received : List Text) (cache : Cache) (o : Option (Target D))
      → resolver id ≡ o
      → All Entry cache
      → Agrees (resolve_target resolver decode id received cache o) (plain_target id received o)
  unfolding resolve_target
  resolve-Agrees id received cache none e ok = (refl, ok)
  resolve-Agrees id received cache (some t) e ok =
      read_or_parse-Agrees t id (input_keys received t.overrides) cache _ e refl ok

  abbrev WalkAgrees : Walk → PlainWalk → Type 0
  WalkAgrees go plain =
      (ms : Modules) (stack inputs : List Text) (cache : Cache)
      → All Entry cache
      → Agrees (go ms stack inputs cache) (plain ms stack inputs)

  module _ (go : Walk) (plain : PlainWalk) (agree : WalkAgrees go plain) where
    enter-Agrees :
        (stack : List Text) (id : Text) (r : Resolution × Cache) (p : Resolution)
        → r.0 ≡ p
        → All Entry r.1
        → Agrees (enter go stack id r) (plain_enter plain stack id p)
    unfolding enter
    enter-Agrees stack id (failed e, cache) p h ok =
        subst (λ q. Agrees (refused e, cache) (plain_enter plain stack id q)) h (refl, ok)
    enter-Agrees stack id (found ms keys, cache) p h ok =
        subst (λ q. Agrees (go ms (stack ++ id ∷ []) keys cache) (plain_enter plain stack id q)) h
          (agree ms (stack ++ id ∷ []) keys cache ok)

    visit_checked-Agrees :
        (stack inputs : List Text) (m : Module) (cache : Cache) (e : Option ModuleError)
        → All Entry cache
        → Agrees
            (visit_checked resolver decode go stack inputs m cache e)
            (plain_checked plain stack inputs m e)
    unfolding visit_checked resolve_module_flow
    visit_checked-Agrees stack inputs m cache (some e) ok = (refl, ok)
    visit_checked-Agrees stack inputs m cache none ok =
        let id = trim_space m.flow_id in
        let (same, kept) = resolve-Agrees id (inputs ++ m.bindings) cache (resolver id) refl ok in
        enter-Agrees stack id _ _ same kept

    visit_module-Agrees :
        (stack inputs : List Text) (m : Option Module) (cache : Cache)
        → All Entry cache
        → Agrees
            (visit_module resolver decode go stack inputs m cache)
            (plain_visit plain stack inputs m)
    unfolding visit_module
    visit_module-Agrees stack inputs none cache ok = (refl, ok)
    visit_module-Agrees stack inputs (some m) cache ok =
        elim (Bool-cases (is_blank (trim_space m.flow_id))) [
          | inl blank ↦ rw blank (refl, ok)
          | inr named ↦ rw named (
              visit_checked-Agrees stack inputs m cache
                (detect_module_cycle stack (trim_space m.flow_id)) ok)
        ]

    after_visit-Agrees :
        (r : Verdict × Cache) (p q : Verdict) (rest : Cache → Verdict × Cache)
        → Agrees r p
        → ((c : Cache) → All Entry c → Agrees (rest c) q)
        → Agrees (after_visit r rest) (then_verdict p q)
    unfolding after_visit
    after_visit-Agrees (accepted, c) p q rest (h, ok) more =
        subst (λ v. Agrees (rest c) (then_verdict v q)) h (more c ok)
    after_visit-Agrees (unfinished, c) p q rest (h, ok) more =
        subst (λ v. Agrees (unfinished, c) (then_verdict v q)) h (refl, ok)
    after_visit-Agrees (refused e, c) p q rest (h, ok) more =
        subst (λ v. Agrees (refused e, c) (then_verdict v q)) h (refl, ok)

    visit_each-Agrees :
        (ms : Modules) (stack inputs : List Text) (cache : Cache)
        → All Entry cache
        → Agrees
            (visit_each resolver decode go ms stack inputs cache)
            (plain_each plain ms stack inputs)
    unfolding visit_each
    visit_each-Agrees [] stack inputs cache ok = (refl, ok)
    visit_each-Agrees (m ∷ ms) stack inputs cache ok =
        after_visit-Agrees (visit_module resolver decode go stack inputs m cache)
          (plain_visit plain stack inputs m) (plain_each plain ms stack inputs)
          (λ c. visit_each resolver decode go ms stack inputs c)
          (visit_module-Agrees stack inputs m cache ok)
          (λ c kept. visit_each-Agrees ms stack inputs c kept)

  references-Agrees :
      (fuel : ℕ) → WalkAgrees (validate_module_references resolver decode fuel) (plain_walk fuel)
  unfolding validate_module_references plain_walk
  references-Agrees zero ms stack inputs cache ok = (refl, ok)
  references-Agrees (suc fuel) ms stack inputs cache ok =
      visit_each-Agrees (validate_module_references resolver decode fuel) (plain_walk fuel)
        (references-Agrees fuel) ms stack inputs cache ok

  -- validateModuleGraph gives, for every graph of modules and depth, the verdict of the walk that
  -- has no cache and parses each flow anew, with the inputs that its module receives.
  pub validate_module_graph-plain_walk :
      (fuel : ℕ) (root : Modules) (stack inputs : List Text)
      → validate_module_graph resolver decode fuel root stack inputs
        ≡ plain_walk fuel root stack inputs
  unfolding validate_module_graph
  validate_module_graph-plain_walk fuel root stack inputs =
      (references-Agrees fuel root stack inputs [] tt).0
