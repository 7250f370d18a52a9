-- ===== src/FlowDsl/Lines.antt =====
-- checkLine of pkg/flowdsl/decompile.go: the line that a check is written as.
use echopoint_runner.FlowDsl.{
  Conversions, ExtractorType, status_code, json_path, xml_path, header, query_param, body,
  unknown_extractor, CompositeAssertion, valueless_operators, status_word, status_number,
}
use echopoint_runner.Prelude.Int.{ℤ}
use echopoint_runner.Prelude.Strings.Decimal.{itoa}
use echopoint_runner.Prelude.Strings.Quoted.{quote}
use echopoint_runner.Prelude.Strings.{is_blank, contains}
use echopoint_runner.Prelude.Text.{Text, codes, text_eq}
use echopoint_runner.Prelude.{
  ℕ, Bool, true, false, ◌&&◌, ◌||◌, [], ◌∷◌, ◌++◌, Option, none, some, ◌==◌, any, if◌then◌else◌,
}
use echopoint_runner.Value.{Value, null, flag, num, int, str, arr, obj, nil, cons, Fields, field_at}

-- v, _ := config[key].(string)
abbrev string_or_empty : Option Value → Text
string_or_empty (some (str s)) = s
string_or_empty _ = []

abbrev pub string_field : Text → Fields → Text
string_field key config = string_or_empty (field_at key config)

abbrev pub prefixed : Text → Text → Option Text
prefixed prefix name = if is_blank name then none else some (prefix ++ name)

unfoldable pub target_text : ExtractorType → Fields → Option Text
unfolding field_at
target_text status_code config = some status_word
target_text json_path config = prefixed [] (string_field (codes "path") config)
target_text header config = prefixed (codes "header:") (string_field (codes "header_name") config)
target_text query_param config =
    prefixed (codes "query:") (string_field (codes "param_name") config)
target_text body config = some (codes "body")
target_text xml_path config = none
target_text (unknown_extractor t) config = none

-- checkTarget
abbrev pub check_target : CompositeAssertion → Option Text
check_target check = target_text check.extractor_type check.extractor_data

abbrev pub is_gap : ℕ → Bool
is_gap c = c == b' ' || c == b'\t' || c == b'\r' || c == b'\n'

-- quoteTarget
unfoldable pub quote_target : Conversions → Text → Text
unfolding quote
quote_target lib target = if any is_gap target then quote lib.wide target else target

abbrev int_text : Text → Option ℤ → Text
int_text text none = text
int_text text (some i) = itoa i

-- formatFloat
abbrev pub format_float : Conversions → Text → Text
format_float lib x = int_text x (lib.as_int64 x)

-- expectText
unfoldable pub expect_text : Conversions → Value → Option Text
unfolding itoa
expect_text lib (str s) = some s
expect_text lib (flag true) = some (codes "true")
expect_text lib (flag false) = some (codes "false")
expect_text lib (num x) = some (format_float lib x)
expect_text lib (int i) = some (itoa i)
expect_text lib null = none
expect_text lib (arr vs) = none
expect_text lib (obj fs) = none

abbrev pub is_bound_gap : ℕ → Bool
is_bound_gap c = c == b' ' || c == b'\t' || c == b'\n'

unfoldable pub bound_texts : Option Text → Option Text → Option (Text × Text)
bound_texts (some low) (some high) =
    if any is_bound_gap low || any is_bound_gap high then none else some (low, high)
bound_texts _ _ = none

-- betweenBounds
unfoldable pub between_bounds : Conversions → Option Value → Option (Text × Text)
unfolding bound_texts expect_text
between_bounds lib (some (arr (cons low (cons high nil)))) =
    bound_texts (expect_text lib low) (expect_text lib high)
between_bounds lib _ = none

abbrev pub between_line : Text → Option (Text × Text) → Option Text
between_line target none = none
between_line target (some (low, high)) =
    some (target ++ (codes " between " ++ (low ++ (b' ' ∷ high))))

unfoldable pub valued_line : Text → Text → Option Text → Option Text
unfolding status_number text_eq
valued_line target op none = none
valued_line target op (some text) =
    if text_eq op (codes "equals") && text_eq target status_word && status_number text
    then some (codes "status: " ++ text)
    else if is_blank text
    then some (target ++ (b' ' ∷ (op ++ (b' ' ∷ []))))
    else some (target ++ (b' ' ∷ (op ++ (b' ' ∷ text))))

abbrev text_of : Conversions → Option Value → Option Text
text_of lib none = none
text_of lib (some v) = expect_text lib v

-- checkLine behind its target
unfoldable pub operand_line : Conversions → Text → Text → Fields → Option Text
unfolding valued_line between_bounds expect_text contains text_eq field_at
operand_line lib target op config =
    if text_eq op (codes "between")
    then between_line target (between_bounds lib (field_at (codes "value") config))
    else if contains valueless_operators op
    then some (target ++ (b' ' ∷ op))
    else valued_line target op (text_of lib (field_at (codes "value") config))

abbrev pub line_of : Conversions → CompositeAssertion → Option Text → Option Text
line_of lib check none = none
line_of lib check (some target) =
    operand_line lib (quote_target lib target) check.operator_type check.operator_data

-- checkLine
unfoldable pub check_line : Conversions → CompositeAssertion → Option Text
unfolding operand_line target_text quote_target
check_line lib check = line_of lib check (check_target check)
