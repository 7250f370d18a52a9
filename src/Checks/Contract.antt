-- ===== src/Checks/Contract.antt =====
-- The coercion contract of pkg/operators/registry.go, and the range operator.
use echopoint_runner.Checks.{
  Library, CompareError, to_string, to_float, compare, comparators, compares_text, text_operators,
  is_known,
}
use echopoint_runner.FlowDsl.{
  Conversions, ExtractorType, CompositeAssertion, SplitCheck, expect_operators, assertion,
  split_assertion, parse_expect_line, parse_status, split_check, target_data, operand_data,
  status_number, status_equals, is_line_end, is_blank_char,
}
use echopoint_runner.Prelude.Result.{Result, ok, err, then_ok, value_if_ok}
use echopoint_runner.Prelude.Scan.Pieces.{contains-all, contains-All}
use echopoint_runner.Prelude.Scan.{trim_right_by, trim_left_by, cut_prefix}
use echopoint_runner.Prelude.Strings.{is_blank, trim_space, contains}
use echopoint_runner.Prelude.Text.{Text, codes, text_eq}
use echopoint_runner.Prelude.{
  Bool, true, false, ◌&&◌, not, if◌then◌else◌, Option, none, some, ◌≡◌, refl, sym, ap, ◌∙◌,
}
use echopoint_runner.Value.{Value, Fields, str, arr, nil, cons}

abbrev OnTexts : Library → Text → Type 0
OnTexts lib operator =
    (a e : Value)
    → compare (comparators lib) operator a e
      ≡ compare (comparators lib) operator (str (to_string lib a)) (str (to_string lib e))

-- An operator for which ComparesText holds compares the stringified forms and nothing else.
pub compare-compares_text :
    (lib : Library) (operator : Text) (a e : Value)
    → compares_text operator ≡ true
    → compare (comparators lib) operator a e
      ≡ compare (comparators lib) operator (str (to_string lib a)) (str (to_string lib e))
unfolding compares_text compare comparators
compare-compares_text lib operator a e h =
    contains-All (OnTexts lib) text_operators operator
      (
        λ a e. refl,
        (
          λ a e. refl,
          (λ a e. refl, (λ a e. refl, (λ a e. refl, (λ a e. refl, (λ a e. refl, tt))))),
        ),
      )
      h a e

abbrev pub both : Option Bool → Option Bool → Option Bool
both (some x) (some y) = some (x && y)
both _ _ = none

between-both :
    {F : Type 0} (low_test high_test : F → F → Bool) (a l h : Result CompareError F)
    → value_if_ok
        (then_ok a (λ v. then_ok l (λ x. then_ok h (λ y. ok (low_test v x && high_test v y)))))
      ≡ both
          (value_if_ok (then_ok a (λ v. then_ok l (λ x. ok (low_test v x)))))
          (value_if_ok (then_ok a (λ v. then_ok h (λ y. ok (high_test v y)))))
between-both p q (err e) l h = refl
between-both p q (ok a) (err e) h = refl
between-both p q (ok a) (ok l) (err e) = refl
between-both p q (ok a) (ok l) (ok h) = refl

abbrev pub holds : Library → Text → Value → Value → Option Bool
holds lib operator a e = value_if_ok (compare (comparators lib) operator a e)

-- `between` is greater_than_or_equal to the lower bound and less_than_or_equal to the upper one: it
-- has a result exactly when both have, and then it is true exactly when both are.
pub compare-between :
    (lib : Library) (a low high : Value)
    → holds lib (codes "between") a (arr (cons low (cons high nil)))
      ≡ both
          (holds lib (codes "greater_than_or_equal") a low)
          (holds lib (codes "less_than_or_equal") a high)
unfolding compare comparators
compare-between lib a low high =
    between-both (λ v x. lib.less_eq x v) lib.less_eq (to_float lib a) (to_float lib low)
      (to_float lib high)

expect_operators-is_known :
    (lib : Library) (operator : Text)
    → contains expect_operators operator ≡ true
    → is_known (comparators lib) operator ≡ true
unfolding is_known comparators
expect_operators-is_known lib operator h =
    contains-all (is_known (comparators lib)) expect_operators operator refl h

-- The operator of what was read, if anything was, is one of the list.
abbrev reads_known : Option CompositeAssertion → Bool
reads_known none = true
reads_known (some c) = contains expect_operators c.operator_type

guarded-known :
    (blank known : Bool) (operator : Text) (t : Option (ExtractorType × Fields)) (o : Option Fields)
    → contains expect_operators operator ≡ known
    → reads_known (if blank then none else if not known then none else assertion operator t o)
      ≡ true
guarded-known true known operator t o h = refl
guarded-known false false operator t o h = refl
guarded-known false true operator none o h = refl
guarded-known false true operator (some t) none h = refl
guarded-known false true operator (some t) (some o) h = h

split_assertion-known :
    (lib : Conversions) (split : Option SplitCheck) → reads_known (split_assertion lib split) ≡ true
unfolding split_assertion
split_assertion-known lib none = refl
split_assertion-known lib (some s) =
    guarded-known (is_blank s.operator) (contains expect_operators s.operator) s.operator
      (target_data s.target) (operand_data lib s.operator s.value) refl

if-known :
    (b : Bool) (x y : Option CompositeAssertion)
    → reads_known x ≡ true
    → reads_known y ≡ true
    → reads_known (if b then x else y) ≡ true
if-known true x y hx hy = hx
if-known false x y hx hy = hy

parse_status-known :
    (lib : Conversions) (text : Text) (code : Option Text)
    → reads_known (parse_status lib text code) ≡ true
unfolding parse_status
parse_status-known lib text none = split_assertion-known lib (split_check text)
parse_status-known lib text (some code) =
    if-known (status_number (trim_space code)) (some (status_equals (trim_space code))) none
      (unfold contains text_eq in refl) refl

parse_expect_line-known :
    (lib : Conversions) (line : Text) → reads_known (parse_expect_line lib line) ≡ true
unfolding parse_expect_line
parse_expect_line-known lib line =
    let text = trim_right_by is_line_end (trim_left_by is_blank_char line) in
    if-known (is_blank (trim_space text)) none
      (parse_status lib text (cut_prefix (codes "status:") text)) refl
      (parse_status-known lib text (cut_prefix (codes "status:") text))

-- The operator of every check that a flow file's line is read as is one that Compare knows.
pub parse_expect_line-is_known :
    (conversions : Conversions) (lib : Library) (line : Text) (c : CompositeAssertion)
    → parse_expect_line conversions line ≡ some c
    → is_known (comparators lib) c.operator_type ≡ true
parse_expect_line-is_known conversions lib line c h =
    expect_operators-is_known lib c.operator_type
      (sym (ap reads_known h) ∙ parse_expect_line-known conversions line)
