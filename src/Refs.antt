-- ===== src/Refs.antt =====
-- Data references at run time: parseDataRef, resolveDataRef, lookupOutput, validateInputs and
-- assembleInputs of pkg/engine/engine.go, collectMissingInputs of pkg/engine/skipped.go, over the
-- output view of pkg/node/output_view.go. A view is a value, so the snapshots that NewOutputView
-- copies are the views themselves.
pub mod Inputs
mod Tests
use echopoint_runner.Prelude.{
  Bool, true, false, List, [], ◌∷◌, ◌++◌, Option, none, some, is_some, if◌then◌else◌,
}
use echopoint_runner.Prelude.Text.{Text, text_eq}
use echopoint_runner.Prelude.Strings.{dot, split_two, lookup, is_blank}
use echopoint_runner.Value.{Value, lookup_path, has_path_root}

-- A node's outputs, keys apart; the flow inputs are those of the node with the empty name.
abbrev pub Outputs : Type 0
Outputs = List (Text × Value)

abbrev pub OutputView : Type 0
OutputView = Text → Option Outputs

-- HasNode
abbrev pub has_node : OutputView → Text → Bool
has_node view id = is_some (view id)

abbrev pub get_in : Option Outputs → Text → Option Value
get_in none key = none
get_in (some outputs) key = lookup key outputs

-- Get
abbrev pub get : OutputView → Text → Text → Option Value
get view id key = get_in (view id) key

-- What parseDataRef makes of the parts of a reference; `none` is its error.
unfoldable pub parts_ref : List Text → Option (Text × Text)
parts_ref (source ∷ key ∷ []) = some (source, key)
parts_ref (key ∷ []) = some ([], key)
parts_ref _ = none

unfoldable pub parse_data_ref : Text → Option (Text × Text)
unfolding parts_ref split_two
parse_data_ref ref = parts_ref (split_two dot ref)

-- hasFlowInputRoot, for the flow inputs of the view
unfoldable pub has_flow_input_root : Text → OutputView → Bool
has_flow_input_root ref view = has_path_root ref (λ key. is_some (get view [] key))

unfoldable pub resolve_parsed : Text → OutputView → Option (Text × Text) → Option (Text × Text)
unfolding has_flow_input_root
resolve_parsed ref view none = none
resolve_parsed ref view (some (source, key)) =
    if is_blank source
    then some (source, key)
    else if has_node view source
    then some (source, key)
    else if has_flow_input_root ref view
    then some ([], ref)
    else some (source, key)

unfoldable pub resolve_data_ref : Text → OutputView → Option (Text × Text)
unfolding resolve_parsed parse_data_ref
resolve_data_ref ref view = resolve_parsed ref view (parse_data_ref ref)

unfoldable pub lookup_output : OutputView → Text → Text → Option Value
lookup_output view id key = lookup_path key (get view id)

-- The errors of validateInputs, without the node's name.
pub data InputError : Type 0 where
  invalid_reference : (ref : Text) → InputError
  not_executed : (source ref : Text) → InputError
  not_found : (key source : Text) → InputError

-- One round of the loop of validateInputs: its error, if the reference has one.
unfoldable pub check_source : OutputView → Text → Option (Text × Text) → Option InputError
check_source view ref none = some (invalid_reference ref)
check_source view ref (some (source, key)) =
    if has_node view source
    then if is_some (lookup_output view source key) then none else some (not_found key source)
    else some (not_executed source ref)

abbrev first_error : Option InputError → Option InputError → Option InputError
first_error none later = later
first_error (some e) later = some e

-- validateInputs over an InputSchema: `none` is nil.
unfoldable pub validate_inputs : List Text → OutputView → Option InputError
unfolding check_source resolve_data_ref lookup_output
validate_inputs [] view = none
validate_inputs (ref ∷ refs) view =
    let later = validate_inputs refs view in
    first_error (check_source view ref (resolve_data_ref ref view)) later

-- The value that assembleInputs stores under a reference: `none` is nil.
unfoldable pub input_value : OutputView → Option (Text × Text) → Option Value
unfolding lookup_output
input_value view none = lookup_output view [] []
input_value view (some (source, key)) = lookup_output view source key

-- assembleInputs, in the order of the InputSchema.
unfoldable pub assemble_inputs : List Text → OutputView → List (Text × Option Value)
unfolding input_value resolve_data_ref
assemble_inputs [] view = []
assemble_inputs (ref ∷ refs) view =
    (ref, input_value view (resolve_data_ref ref view)) ∷ assemble_inputs refs view

-- Whether a round of the loop of collectMissingInputs keeps the reference.
unfoldable pub is_missing : OutputView → Option (Text × Text) → Bool
unfolding lookup_output
is_missing view none = true
is_missing view (some (source, key)) =
    if has_node view source
    then if is_some (lookup_output view source key) then false else true
    else true

unfoldable pub collect_missing_inputs : List Text → OutputView → List Text
unfolding is_missing resolve_data_ref
collect_missing_inputs [] view = []
collect_missing_inputs (ref ∷ refs) view =
    let rest = collect_missing_inputs refs view in
    if is_missing view (resolve_data_ref ref view) then ref ∷ rest else rest
