-- ===== src/Refs/Inputs.antt =====
-- What validateInputs promises to assembleInputs and to the skip decisions.
use echopoint_runner.Prelude.{
  ℕ, ◌==◌, ◌≡◌, refl, sym, ap, ◌∙◌, subst, clash, In, ◌↔◌, ◌⊎◌, inl, inr, Bool, true, false, List,
  [], ◌∷◌, Option, none, some, is_some, Bool-cases, Option-cases, if◌then◌else◌, arith,
}
use echopoint_runner.Prelude.Text.{Text, text_eq, text_eq_refl, eq_of_text_eq}
use echopoint_runner.Prelude.Strings.{dot, split_two}
use echopoint_runner.Value.{Value}
use echopoint_runner.Refs.{
  OutputView, InputError, parse_data_ref, resolve_data_ref, lookup_output, first_error,
  check_source, validate_inputs, input_value, assemble_inputs, is_missing, collect_missing_inputs,
}

split_two_parts :
    (sep : ℕ) (s : Text)
    → ((a : Text) × (split_two sep s ≡ a ∷ []))
      ⊎ ((a : Text) × (b : Text) × (split_two sep s ≡ a ∷ b ∷ []))
unfolding split_two
split_two_parts sep [] = inl ([], refl)
split_two_parts sep (c ∷ s) = elim (Bool-cases (c == sep)) [
  | inl here ↦ inr ([], s, rw here)
  | inr later ↦ elim (split_two_parts sep s) [
    | inl (a, e) ↦ inl (c ∷ a, rw (later, e))
    | inr (a, b, e) ↦ inr (c ∷ a, b, rw (later, e))
  ]
]

-- The error return of parseDataRef is never taken.
pub parse_data_ref_total : (ref : Text) → (p : Text × Text) × (parse_data_ref ref ≡ some p)
unfolding parse_data_ref
parse_data_ref_total ref = elim (split_two_parts dot ref) [
  | inl (a, e) ↦ (([], a), rw e)
  | inr (a, b, e) ↦ ((a, b), rw e)
]

check_source-is_missing :
    (view : OutputView) (ref : Text) (r : Option (Text × Text))
    → is_some (check_source view ref r) ≡ is_missing view r
unfolding check_source is_missing
check_source-is_missing view ref none = refl
check_source-is_missing view ref (some (source, key)) = ground arith

-- One round of both loops.
both_rounds :
    (here later : Option InputError) (missing : Bool) (ref : Text) (rest : List Text)
    → is_some here ≡ missing
    → (later ≡ none) ↔ (rest ≡ [])
    → (first_error here later ≡ none) ↔ ((if missing then ref ∷ rest else rest) ≡ [])
both_rounds none later true ref rest h e = cc
both_rounds none later false ref rest h e = e
both_rounds (some x) later true ref rest h e = (λ p. cc, λ p. cc)
both_rounds (some x) later false ref rest h e = cc

-- validateInputs accepts exactly the references, on an output view, for which collectMissingInputs,
-- the test of the cleanup phase, finds nothing.
pub validate_inputs-collect_missing_inputs :
    (refs : List Text) (view : OutputView)
    → (validate_inputs refs view ≡ none) ↔ (collect_missing_inputs refs view ≡ [])
unfolding validate_inputs collect_missing_inputs
validate_inputs-collect_missing_inputs [] view = (λ _. refl, λ _. refl)
validate_inputs-collect_missing_inputs (ref ∷ refs) view =
    let r = resolve_data_ref ref view in
    both_rounds (check_source view ref r) (validate_inputs refs view) (is_missing view r) ref
      (collect_missing_inputs refs view) (check_source-is_missing view ref r)
      (validate_inputs-collect_missing_inputs refs view)

-- inputs[ref] in a map that was written pair by pair; the pairs of one key have one value.
abbrev pub stored : List (Text × Option Value) → Text → Option Value
stored [] ref = none
stored ((key, v) ∷ inputs) ref = if text_eq key ref then v else stored inputs ref

-- The map has a value under the reference: the one that the view holds for it.
abbrev pub IsPresent : OutputView → List (Text × Option Value) → Text → Type 0
IsPresent view inputs ref =
    (w : Value) × (stored inputs ref ≡ some w)
    × (input_value view (resolve_data_ref ref view) ≡ some w)

check_source-input_value :
    (view : OutputView) (ref : Text) (r : Option (Text × Text))
    → check_source view ref r ≡ none
    → (w : Value) × (input_value view r ≡ some w)
unfolding check_source input_value
check_source-input_value view ref none h = cc
check_source-input_value view ref (some (source, key)) h =
    elim (Option-cases (lookup_output view source key)) [
      | inl absent ↦ ground arith
      | inr (w, e) ↦ (w, e)
    ]

first_error-none :
    (here later : Option InputError)
    → first_error here later ≡ none
    → (here ≡ none) × (later ≡ none)
first_error-none none later h = (refl, h)
first_error-none (some e) later h = cc

stored-assemble_inputs :
    (refs : List Text) (view : OutputView) (ref : Text)
    → In ref refs
    → stored (assemble_inputs refs view) ref ≡ input_value view (resolve_data_ref ref view)
unfolding assemble_inputs
stored-assemble_inputs [] view ref i = absurd i
stored-assemble_inputs (r ∷ refs) view ref i = elim (Bool-cases (text_eq r ref)) [
  | inl same ↦
      rw same (ap (λ k. input_value view (resolve_data_ref k view)) (eq_of_text_eq r ref same))
  | inr other ↦ elim i [
    | inl e ↦ absurd (clash (text_eq r ref) (ap (text_eq r) e ∙ text_eq_refl r) other)
    | inr later ↦ rw other (stored-assemble_inputs refs view ref later)
  ]
]

accepted_value :
    (refs : List Text) (view : OutputView) (ref : Text)
    → validate_inputs refs view ≡ none
    → In ref refs
    → (w : Value) × (input_value view (resolve_data_ref ref view) ≡ some w)
unfolding validate_inputs
accepted_value [] view ref h i = absurd i
accepted_value (r ∷ refs) view ref h i =
    let (here, later) = first_error-none _ _ h in
    elim i [
      | inl e ↦
          subst (λ k. (w : Value) × (input_value view (resolve_data_ref k view) ≡ some w)) (sym e)
            (check_source-input_value view r (resolve_data_ref r view) here)
      | inr j ↦ accepted_value refs view ref later j
    ]

-- If validateInputs accepts a node's references, then assembleInputs stores under each of them the
-- value that the view holds for it: no input of a node that runs is a silent nil.
pub assemble_inputs-IsPresent :
    (refs : List Text) (view : OutputView) (ref : Text)
    → validate_inputs refs view ≡ none
    → In ref refs
    → IsPresent view (assemble_inputs refs view) ref
assemble_inputs-IsPresent refs view ref h i =
    let (w, e) = accepted_value refs view ref h i in
    (w, stored-assemble_inputs refs view ref i ∙ e, e)
