-- ===== src/FlowDsl/Tests.antt =====
-- Checks written and read back, on lines of the repository's own tests.
use echopoint_runner.FlowDsl.Lines.{check_line}
use echopoint_runner.FlowDsl.{
  Conversions, CompositeAssertion, json_path, status_code, single, value_of, status_equals,
  parse_expect_line,
}
use echopoint_runner.Prelude.Int.{pos}
use echopoint_runner.Prelude.Text.{Text, codes}
use echopoint_runner.Prelude.{false, none, some, ◌≡◌, refl}
use echopoint_runner.Value.{str, int, arr, cons, nil, end}

abbrev ascii : Conversions
ascii = record { wide = λ c. false; parse_float = λ t. none; as_int64 = λ t. none }

abbrev filtered : CompositeAssertion
filtered = record {
  extractor_type = json_path;
  extractor_data = single (codes "path") (str (codes "$.items[?(@.id == \"a\")].name"));
  operator_type = codes "starts_with";
  operator_data = value_of (str (codes "a b "));
}

filtered_line :
    check_line ascii filtered
    ≡ some (codes "\"$.items[?(@.id == \\\"a\\\")].name\" starts_with a b ")
unfolding check_line
filtered_line = refl

filtered_read :
    parse_expect_line ascii (codes "\"$.items[?(@.id == \\\"a\\\")].name\" starts_with a b ")
    ≡ some filtered
unfolding parse_expect_line
filtered_read = refl

abbrev ranged : CompositeAssertion
ranged = record {
  extractor_type = status_code;
  extractor_data = end;
  operator_type = codes "between";
  operator_data = value_of (arr (cons (int (pos 200)) (cons (int (pos 299)) nil)));
}

ranged_line : check_line ascii ranged ≡ some (codes "status between 200 299")
unfolding check_line
ranged_line = refl

ranged_read : parse_expect_line ascii (codes "  status between  200  299\n") ≡ some ranged
unfolding parse_expect_line
ranged_read = refl

status_read : parse_expect_line ascii (codes "status: 204 ") ≡ some (status_equals (codes "204"))
unfolding parse_expect_line
status_read = refl

abbrev multiline : CompositeAssertion
multiline = record filtered { operator_data = value_of (str (codes "a\n")) }

-- A value that ends in a line end is written out with it and read back without it.
line_end_lost :
    (check_line ascii multiline
      ≡ some (codes "\"$.items[?(@.id == \\\"a\\\")].name\" starts_with a\n"))
    × (parse_expect_line ascii (codes "\"$.items[?(@.id == \\\"a\\\")].name\" starts_with a\n")
        ≡ some (record filtered { operator_data = value_of (str (codes "a")) }))
unfolding check_line parse_expect_line
line_end_lost = (refl, refl)
