-- ===== src/Modules.antt =====
-- pkg/engine/module_cycle_validation.go, the walk over the flows that module nodes refer to, and the
-- guards of ExecuteModule of pkg/engine/engine.go. The cache of parsed flows is passed along; its key
-- is the pair that the JSON key stands for. JSON decoding is a parameter.
pub mod Cached
pub mod Chains
pub mod Depth
mod Tests
use echopoint_runner.Prelude.{
  ℕ, zero, suc, Bool, true, false, ◌&&◌, ◌||◌, List, [], ◌∷◌, ◌++◌, Option, none, some,
  if◌then◌else◌,
}
use echopoint_runner.Prelude.Text.{Text, text_eq}
use echopoint_runner.Prelude.Strings.{trim_space, is_blank, contains}
use echopoint_runner.Engine.Skip.{sort_texts}
use echopoint_runner.Validation.{ParsedFlow, FlowError, validate_flow_references}

-- What the walk reads of a module node: its flow and the names of its input bindings.
pub record Module : Type 0 where
  pub flow_id : Text
  pub bindings : List Text

-- The nodes of a flow, as AsModuleNode sees them.
abbrev pub Modules : Type 0
Modules = List (Option Module)

-- A decoded flow.
pub record Decoded : Type 0 where
  pub flow : ParsedFlow
  pub modules : Modules

-- spi.ResolvedModuleFlow: a definition and the names of its input overrides.
pub record Target (D : Type 0) : Type 0 where
  pub definition : D
  pub overrides : List Text

pub data ModuleError : Type 0 where
  cycle_detected : List Text → ModuleError
  flow_not_found parse_failed : Text → ModuleError

-- nil, an error, or a walk that has not ended.
pub data Verdict : Type 0 where
  accepted unfinished : Verdict
  refused : ModuleError → Verdict

-- The results of resolveModuleFlow.
pub data Resolution : Type 0 where
  found : Modules → (keys : List Text) → Resolution
  failed : ModuleError → Resolution

abbrev pub Cache : Type 0
Cache = List ((Text × List Text) × Modules)

unfoldable pub texts_eq : List Text → List Text → Bool
texts_eq [] [] = true
texts_eq [] (t ∷ ts) = false
texts_eq (s ∷ ss) [] = false
texts_eq (s ∷ ss) (t ∷ ts) = text_eq s t && texts_eq ss ts

unfoldable pub cached : Text → List Text → Cache → Option Modules
unfolding texts_eq
cached id keys [] = none
cached id keys (((id', keys'), ms) ∷ cache) =
    let rest = cached id keys cache in
    if text_eq id' id && texts_eq keys' keys then some ms else rest

-- slices.Compact
unfoldable pub compact_from : Text → List Text → List Text
compact_from s [] = s ∷ []
compact_from s (t ∷ ts) = let rest = compact_from t ts in if text_eq s t then rest else s ∷ rest

unfoldable pub compact : List Text → List Text
unfolding compact_from
compact [] = []
compact (t ∷ ts) = compact_from t ts

abbrev pub input_keys : List Text → List Text → List Text
input_keys received overrides = compact (sort_texts (received ++ overrides))

-- detectModuleCycle
unfoldable pub detect_module_cycle : List Text → Text → Option ModuleError
detect_module_cycle stack id =
    if contains stack id then some (cycle_detected (stack ++ id ∷ [])) else none

abbrev no_error : Decoded → Option FlowError → Option Modules
no_error d none = some d.modules
no_error d (some e) = none

abbrev pub check_decoded : List Text → Option Decoded → Option Modules
check_decoded keys none = none
check_decoded keys (some d) = no_error d (
    validate_flow_references d.flow
      (record { allowed_initial_input_keys = keys; allow_unknown_initial_inputs = true }))

-- What resolveModuleFlow does with the outcome of the parser.
unfoldable pub store_parsed : Text → List Text → Cache → Option Modules → Resolution × Cache
store_parsed id keys cache none = (failed (parse_failed id), cache)
store_parsed id keys cache (some ms) = (found ms keys, ((id, keys), ms) ∷ cache)

-- The recursive call: the modules, the call stack, the inherited inputs, the cache.
abbrev pub Walk : Type 0
Walk = Modules → List Text → List Text → Cache → Verdict × Cache

unfoldable pub enter : Walk → List Text → Text → Resolution × Cache → Verdict × Cache
enter go stack id (failed e, cache) = (refused e, cache)
enter go stack id (found ms keys, cache) = go ms (stack ++ id ∷ []) keys cache

unfoldable pub after_visit : Verdict × Cache → (Cache → Verdict × Cache) → Verdict × Cache
after_visit (accepted, cache) rest = rest cache
after_visit (unfinished, cache) rest = (unfinished, cache)
after_visit (refused e, cache) rest = (refused e, cache)

module _ {D : Type 0} (resolver : Text → Option (Target D)) (decode : D → Option Decoded) where
  unfoldable pub read_or_parse : Text → D → List Text → Cache → Option Modules → Resolution × Cache
  unfolding store_parsed
  read_or_parse id d keys cache (some ms) = (found ms keys, cache)
  read_or_parse id d keys cache none = store_parsed id keys cache (check_decoded keys (decode d))

  unfoldable pub resolve_target : Text → List Text → Cache → Option (Target D) → Resolution × Cache
  unfolding read_or_parse cached
  resolve_target id received cache none = (failed (flow_not_found id), cache)
  resolve_target id received cache (some t) =
      let keys = input_keys received t.overrides in
      read_or_parse id t.definition keys cache (cached id keys cache)

  -- resolveModuleFlow
  unfoldable pub resolve_module_flow : Text → List Text → Cache → Resolution × Cache
  unfolding resolve_target
  resolve_module_flow id received cache = resolve_target id received cache (resolver id)

  unfoldable pub visit_checked :
      Walk → List Text → List Text → Module → Cache → Option ModuleError → Verdict × Cache
  unfolding enter resolve_module_flow
  visit_checked go stack inputs m cache (some e) = (refused e, cache)
  visit_checked go stack inputs m cache none =
      enter go stack (trim_space m.flow_id)
        (resolve_module_flow (trim_space m.flow_id) (inputs ++ m.bindings) cache)

  -- The body of the loop of validateModuleReferences.
  unfoldable pub visit_module :
      Walk → List Text → List Text → Option Module → Cache → Verdict × Cache
  unfolding visit_checked detect_module_cycle
  visit_module go stack inputs none cache = (accepted, cache)
  visit_module go stack inputs (some m) cache =
      let visited =
        visit_checked go stack inputs m cache (detect_module_cycle stack (trim_space m.flow_id)) in
      if is_blank (trim_space m.flow_id) then (accepted, cache) else visited

  unfoldable pub visit_each : Walk → Modules → List Text → List Text → Cache → Verdict × Cache
  unfolding visit_module after_visit
  visit_each go [] stack inputs cache = (accepted, cache)
  visit_each go (m ∷ ms) stack inputs cache =
      after_visit (visit_module go stack inputs m cache) (λ c. visit_each go ms stack inputs c)

  -- validateModuleReferences, with fuel for the depth of the recursion
  unfoldable pub validate_module_references : ℕ → Walk
  unfolding visit_each
  validate_module_references zero ms stack inputs cache = (unfinished, cache)
  validate_module_references (suc fuel) ms stack inputs cache =
      visit_each (validate_module_references fuel) ms stack inputs cache

  -- validateModuleGraph, with a resolver
  unfoldable pub validate_module_graph : ℕ → Modules → List Text → List Text → Verdict
  unfolding validate_module_references
  validate_module_graph fuel root stack inputs =
      (validate_module_references fuel root stack inputs []).0

-- The guards of ExecuteModule: its two errors, or the call stack that the child flow runs on.
pub data Admission : Type 0 where
  id_required : Admission
  cycle : List Text → Admission
  admitted : List Text → Admission

unfoldable pub admit_module : List Text → Text → Admission
admit_module stack flow_id =
    let id = trim_space flow_id in
    if is_blank id
    then id_required
    else if contains stack id
    then cycle (stack ++ id ∷ [])
    else admitted (stack ++ id ∷ [])
