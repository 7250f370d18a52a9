-- ===== src/Modules/Tests.antt =====
-- Small graphs of modules, and the theorems on the walk at them.
use echopoint_runner.Prelude.{
  ◌<◌, ◌≡◌, ◌≢◌, refl, sym, inl, inr, List, [], ◌∷◌, ◌++◌, Option, none, some, In, Bool-cases,
  if◌then◌else◌, length, arith,
}
use echopoint_runner.Prelude.Text.{Text, codes, text_eq, eq_of_text_eq}
use echopoint_runner.Prelude.Strings.{trim_space, contains}
use echopoint_runner.Engine.Skip.{sort_texts}
use echopoint_runner.Validation.{ParsedFlow, validate_flow_references}
use echopoint_runner.Modules.{
  Modules, Decoded, Target, cycle_detected, accepted, refused, unfinished, cached, compact,
  validate_module_graph, admitted,
}
use echopoint_runner.Modules.Cached.{plain_walk, validate_module_graph-plain_walk}
use echopoint_runner.Modules.Chains.{
  Chain, stop, follow, admit_all, trimmed, validate_module_graph-admitted,
}
use echopoint_runner.Modules.Depth.{validate_module_graph_ends}

abbrev no_nodes : ParsedFlow
no_nodes = record { nodes = []; edges = []; initial_inputs = [] }

abbrev calls : List Text → Modules
calls [] = []
calls (id ∷ ids) = some (record { flow_id = id; bindings = [] }) ∷ calls ids

abbrev target : List Text → Target Decoded
target ids = record { definition = record { flow = no_nodes; modules = calls ids }; overrides = [] }

-- `login` calls `token`, which calls the listed flows.
abbrev flows : List Text → Text → Option (Target Decoded)
flows last id =
    if text_eq (codes "login") id
    then some (target (codes "token" ∷ []))
    else if text_eq (codes "token") id
    then some (target last)
    else none

abbrev root : Modules
root = calls (codes "login" ∷ codes "login" ∷ [])

accepted_root : validate_module_graph (flows []) some 3 root [] [] ≡ accepted
unfolding validate_module_graph text_eq validate_flow_references sort_texts compact cached
    trim_space contains
accepted_root = refl

cyclic_root :
    validate_module_graph (flows (codes "login" ∷ [])) some 3 root [] []
    ≡ refused (cycle_detected (codes "login" ∷ codes "token" ∷ codes "login" ∷ []))
unfolding validate_module_graph text_eq validate_flow_references sort_texts compact cached
    trim_space contains
cyclic_root = refl

known :
    (id : Text) (t : Target Decoded)
    → flows (codes "login" ∷ []) id ≡ some t
    → In id (codes "login" ∷ codes "token" ∷ [])
known id t h = elim (Bool-cases (text_eq (codes "login") id)) [
  | inl login ↦ inl (sym (eq_of_text_eq (codes "login") id login))
  | inr other ↦ elim (Bool-cases (text_eq (codes "token") id)) [
    | inl token ↦ inr (inl (sym (eq_of_text_eq (codes "token") id token)))
    | inr unknown ↦ absurd (none_some (rw (other, unknown) at h))
  ]
]
  where
    none_some : none ≡ some t → ⊥
    none_some e = cc

validate_module_graph-plain_walk_example :
    validate_module_graph (flows []) some 3 root [] [] ≡ plain_walk (flows []) some 3 root [] []
validate_module_graph-plain_walk_example =
    validate_module_graph-plain_walk (flows []) some 3 root [] []

path : Chain (flows []) some root [] (codes "login" ∷ codes "token" ∷ [])
unfolding text_eq validate_flow_references sort_texts compact trim_space
path =
    follow (record { flow_id = codes "login"; bindings = [] }) (inl refl) refl refl
      (follow (record { flow_id = codes "token"; bindings = [] }) (inl refl) refl refl stop)

validate_module_graph-admitted_example :
    admit_all [] (codes "login" ∷ codes "token" ∷ [])
    ≡ admitted ([] ++ trimmed (codes "login" ∷ codes "token" ∷ []))
validate_module_graph-admitted_example =
    validate_module_graph-admitted (flows []) some 3 root [] [] (codes "login" ∷ codes "token" ∷ [])
      accepted_root path

two_three : length (codes "login" ∷ codes "token" ∷ []) < 3
two_three = omega arith

validate_module_graph_ends_example :
    validate_module_graph (flows (codes "login" ∷ [])) some 3 root [] [] ≢ unfinished
validate_module_graph_ends_example =
    validate_module_graph_ends (flows (codes "login" ∷ [])) some
      (codes "login" ∷ codes "token" ∷ []) known 3 root [] [] two_three
