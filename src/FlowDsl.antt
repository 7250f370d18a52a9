-- ===== src/FlowDsl.antt =====
-- Checks as pkg/flowdsl reads and writes them: parseExpectLine of expect.go and checkLine of
-- decompile.go, over the wire types of pkg/flowdsl/wire. A line that either refuses is `none`.
mod Lines
mod Targets
mod Operands
mod Reading
mod Writing
pub mod RoundTrip
mod Tests
use echopoint_runner.Prelude.{
  ℕ, zero, suc, Bool, true, false, not, ◌&&◌, ◌||◌, List, [], ◌∷◌, ◌++◌, Option, none, some,
  is_some, ◌==◌, length, if◌then◌else◌,
}
use echopoint_runner.Prelude.Int.{ℤ}
use echopoint_runner.Prelude.Scan.{cut, cut_prefix, has_prefix, trim_left_by, trim_right_by, fields}
use echopoint_runner.Prelude.Strings.Quoted.{unquote_prefix}
use echopoint_runner.Prelude.Strings.{trim_space, is_blank, atoi, contains}
use echopoint_runner.Prelude.Text.{Text, codes, text_eq}
use echopoint_runner.Value.{
  Value, null, flag, num, int, str, arr, obj, Items, nil, cons, Fields, end, field, field_at,
}

-- What strconv and unicode tabulate: whether a character above 0xff is printable, the float that a
-- text denotes, and the int64 that a float is equal to. Floats are given by their texts.
pub record Conversions : Type 0 where
  pub wide : ℕ → Bool
  pub parse_float : Text → Option Text
  pub as_int64 : Text → Option ℤ

-- wire.ExtractorType; any text may stand on the wire.
pub data ExtractorType : Type 0 where
  status_code : ExtractorType
  json_path : ExtractorType
  xml_path : ExtractorType
  header : ExtractorType
  query_param : ExtractorType
  body : ExtractorType
  unknown_extractor : Text → ExtractorType

pub record CompositeAssertion : Type 0 where
  pub extractor_type : ExtractorType
  pub extractor_data : Fields
  pub operator_type : Text
  pub operator_data : Fields

abbrev pub expect_operators : List Text
expect_operators =
    codes "equals"
    ∷ codes "not_equals"
    ∷ codes "contains"
    ∷ codes "not_contains"
    ∷ codes "greater_than"
    ∷ codes "less_than"
    ∷ codes "greater_than_or_equal"
    ∷ codes "less_than_or_equal"
    ∷ codes "empty"
    ∷ codes "not_empty"
    ∷ codes "starts_with"
    ∷ codes "ends_with"
    ∷ codes "regex"
    ∷ codes "between"
    ∷ []

abbrev pub valueless_operators : List Text
valueless_operators = codes "empty" ∷ codes "not_empty" ∷ []

-- A map literal of one entry
abbrev pub single : Text → Value → Fields
single k v = field k v end

abbrev pub value_of : Value → Fields
value_of = single (codes "value")

-- The cutsets " \t" and "\r\n"
abbrev pub is_blank_char : ℕ → Bool
is_blank_char c = c == b' ' || c == b'\t'

abbrev pub is_line_end : ℕ → Bool
is_line_end c = c == b'\r' || c == b'\n'

abbrev pub status_word : Text
status_word = codes "status"

unfoldable pub status_number : Text → Bool
unfolding atoi
status_number text = is_some (atoi text)

abbrev pub status_equals : Text → CompositeAssertion
status_equals code = record {
  extractor_type = status_code;
  extractor_data = end;
  operator_type = codes "equals";
  operator_data = value_of (str code);
}

abbrev pub text_after : Text × Option Text → Text × Text
text_after (head, none) = (head, [])
text_after (head, some rest) = (head, rest)

abbrev pub trimmed_after : Option (Text × Text) → Option (Text × Text)
trimmed_after none = none
trimmed_after (some (target, rest)) = some (target, trim_left_by is_blank_char rest)

-- takeTarget: the target and the text behind it
unfoldable pub take_target : Text → Option (Text × Text)
unfolding cut_prefix unquote_prefix cut trim_left_by
take_target text =
    if has_prefix (codes "\"") text
    then trimmed_after (unquote_prefix text)
    else some (text_after (cut b' ' text))

pub record SplitCheck : Type 0 where
  pub target : Text
  pub operator : Text
  pub value : Option Text

abbrev split_operator : Text → Text × Option Text → SplitCheck
split_operator target (operator, none) = record {
  target = target;
  operator = operator;
  value = none;
}
split_operator target (operator, some value) =
    if is_blank (trim_space value) && contains valueless_operators operator
    then record { target = target; operator = operator; value = none }
    else record { target = target; operator = operator; value = some value }

unfoldable pub split_target : Option (Text × Text) → Option SplitCheck
unfolding cut trim_space contains
split_target none = none
split_target (some (target, text)) =
    if is_blank text
    then some (record { target = target; operator = []; value = none })
    else some (split_operator target (cut b' ' text))

-- splitCheck
unfoldable pub split_check : Text → Option SplitCheck
unfolding take_target split_target
split_check line = split_target (take_target (trim_left_by is_blank_char line))

abbrev named : ExtractorType → Text → Option Text → Option (ExtractorType × Fields)
named type key none = none
named type key (some []) = none
named type key (some (c ∷ name)) = some (type, single key (str (c ∷ name)))

-- The targets of parseCheck
unfoldable pub target_data : Text → Option (ExtractorType × Fields)
unfolding cut_prefix text_eq
target_data target =
    if has_prefix (codes "$") target
    then some (json_path, single (codes "path") (str target))
    else if is_some (named header (codes "header_name") (cut_prefix (codes "header:") target))
    then named header (codes "header_name") (cut_prefix (codes "header:") target)
    else if is_some (named query_param (codes "param_name") (cut_prefix (codes "query:") target))
    then named query_param (codes "param_name") (cut_prefix (codes "query:") target)
    else if text_eq target (codes "body")
    then some (body, end)
    else if text_eq target status_word
    then some (status_code, end)
    else none

abbrev float_or_text : Text → Option Text → Value
float_or_text text none = str text
float_or_text text (some x) = num x

abbrev int_or_else : Value → Option ℤ → Value
int_or_else other none = other
int_or_else other (some i) = int i

-- boundToken
unfoldable pub bound_token : Conversions → Text → Value
unfolding atoi
bound_token lib text = int_or_else (float_or_text text (lib.parse_float text)) (atoi text)

unfoldable pub bound_pair : Conversions → List Text → Option Fields
unfolding bound_token
bound_pair lib (low ∷ high ∷ []) =
    some (value_of (arr (cons (bound_token lib low) (cons (bound_token lib high) nil))))
bound_pair lib _ = none

-- finishBetween, the operator data
unfoldable pub finish_between : Conversions → Option Text → Option Fields
unfolding bound_pair fields
finish_between lib none = none
finish_between lib (some value) = bound_pair lib (fields value)

-- The operator data of the operators but between
unfoldable pub plain_data : Bool → Option Text → Option Fields
plain_data true (some value) = none
plain_data true none = some end
plain_data false none = none
plain_data false (some value) = some (value_of (str value))

unfoldable pub operand_data : Conversions → Text → Option Text → Option Fields
unfolding finish_between plain_data contains text_eq
operand_data lib operator value =
    if text_eq operator (codes "between")
    then finish_between lib value
    else plain_data (contains valueless_operators operator) value

abbrev pub assertion :
    Text → Option (ExtractorType × Fields) → Option Fields → Option CompositeAssertion
assertion operator (some (type, config)) (some operand) = some (record {
  extractor_type = type;
  extractor_data = config;
  operator_type = operator;
  operator_data = operand;
})
assertion operator _ _ = none

unfoldable pub split_assertion : Conversions → Option SplitCheck → Option CompositeAssertion
unfolding operand_data target_data contains
split_assertion lib none = none
split_assertion lib (some s) =
    if is_blank s.operator
    then none
    else if not (contains expect_operators s.operator)
    then none
    else assertion s.operator (target_data s.target) (operand_data lib s.operator s.value)

-- parseCheck
unfoldable pub parse_check : Conversions → Text → Option CompositeAssertion
unfolding split_assertion split_check
parse_check lib line = split_assertion lib (split_check line)

unfoldable pub parse_status : Conversions → Text → Option Text → Option CompositeAssertion
unfolding parse_check status_number trim_space
parse_status lib text none = parse_check lib text
parse_status lib text (some code) =
    if status_number (trim_space code) then some (status_equals (trim_space code)) else none

-- parseExpectLine
unfoldable pub parse_expect_line : Conversions → Text → Option CompositeAssertion
unfolding parse_status trim_space trim_left_by trim_right_by cut_prefix
parse_expect_line lib line =
    let text = trim_right_by is_line_end (trim_left_by is_blank_char line) in
    if is_blank (trim_space text)
    then none
    else parse_status lib text (cut_prefix (codes "status:") text)
