-- ===== src/Checks.antt =====
-- pkg/operators/registry.go: the comparison of an extracted value with an expected one.
mod Contract
pub mod Evaluate
pub mod Pass
pub mod Tests
use echopoint_runner.Prelude.Int.{ℤ}
use echopoint_runner.Prelude.Result.{Result, ok, err, then_ok, ok_or}
use echopoint_runner.Prelude.Scan.{has_prefix, index, cut_prefix}
use echopoint_runner.Prelude.Strings.Decimal.{itoa}
use echopoint_runner.Prelude.Strings.{is_blank, lookup, contains}
use echopoint_runner.Prelude.Text.{Text, codes, text_eq}
use echopoint_runner.Prelude.{
  ℕ, ◌-◌, Bool, true, false, not, ◌&&◌, List, [], ◌∷◌, Option, none, some, is_some, leb, length,
  drop, if◌then◌else◌,
}
use echopoint_runner.Value.{
  Value, null, flag, num, int, str, arr, obj, Items, nil, cons, Fields, end, field,
}

-- What fmt, regexp and floating point do: the text of a composite value under %v, whether a pattern
-- matches a text (none: no pattern), and the floats with their order and their conversions. A float
-- of the program is given by its text.
pub record Library : Type 1 where
  pub Float : Type 0
  pub of_int : ℤ → Float
  pub of_num : Text → Float
  pub parse_float : Text → Option Float
  pub less : Float → Float → Bool
  pub less_eq : Float → Float → Bool
  pub sprint : Value → Text
  pub matches : Text → Text → Option Bool

pub data CompareError : Type 0 where
  unknown_operator : Text → CompareError
  not_a_pair : Value → CompareError
  not_numeric : Value → CompareError
  bad_pattern : Text → CompareError

abbrev pub Comparator : Type 0
Comparator = Value → Value → Result CompareError Bool

-- toString
unfoldable pub to_string : Library → Value → Text
unfolding itoa
to_string lib null = []
to_string lib (str s) = s
to_string lib (num x) = x
to_string lib (int i) = itoa i
to_string lib (flag true) = codes "true"
to_string lib (flag false) = codes "false"
to_string lib (arr vs) = lib.sprint (arr vs)
to_string lib (obj fs) = lib.sprint (obj fs)

-- toFloat
unfoldable pub to_float : (lib : Library) → Value → Result CompareError (lib.Float)
to_float lib (num x) = ok (lib.of_num x)
to_float lib (int i) = ok (lib.of_int i)
to_float lib (str s) = ok_or (not_numeric (str s)) (lib.parse_float s)
to_float lib null = ok_or (not_numeric null) (lib.parse_float (lib.sprint null))
to_float lib (flag b) = ok_or (not_numeric (flag b)) (lib.parse_float (lib.sprint (flag b)))
to_float lib (arr vs) = ok_or (not_numeric (arr vs)) (lib.parse_float (lib.sprint (arr vs)))
to_float lib (obj fs) = ok_or (not_numeric (obj fs)) (lib.parse_float (lib.sprint (obj fs)))

-- isEmpty
unfoldable pub is_empty : Library → Value → Bool
unfolding to_string
is_empty lib null = true
is_empty lib (str s) = is_blank s
is_empty lib (arr nil) = true
is_empty lib (arr (cons v vs)) = false
is_empty lib (obj end) = true
is_empty lib (obj (field k v fs)) = false
is_empty lib (flag b) = is_blank (to_string lib (flag b))
is_empty lib (num x) = is_blank (to_string lib (num x))
is_empty lib (int i) = is_blank (to_string lib (int i))

-- compareNumeric
unfoldable pub compare_numeric : (lib : Library) → (lib.Float → lib.Float → Bool) → Comparator
unfolding to_float
compare_numeric lib cmp actual expected =
    then_ok (to_float lib actual) (λ a. then_ok (to_float lib expected) (λ b. ok (cmp a b)))

abbrev pub within : (lib : Library) → lib.Float → lib.Float → lib.Float → Bool
within lib value low high = lib.less_eq low value && lib.less_eq value high

-- between
unfoldable pub between : Library → Comparator
unfolding to_float
between lib actual (arr (cons low (cons high nil))) = then_ok (to_float lib actual) (λ value.
    then_ok (to_float lib low) (λ l. then_ok (to_float lib high) (λ h. ok (within lib value l h))))
between lib actual expected = err (not_a_pair expected)

-- strings.HasSuffix, the suffix first
unfoldable pub has_suffix : Text → Text → Bool
unfolding text_eq
has_suffix suffix s =
    leb (length suffix) (length s) && text_eq (drop (length s - length suffix) s) suffix

-- A comparator of the stringified forms, the expected text first.
abbrev pub textual : Library → (Text → Text → Bool) → Comparator
textual lib test actual expected = ok (test (to_string lib expected) (to_string lib actual))

-- strings.Contains, the substring first
abbrev pub has_substring : Text → Text → Bool
has_substring sub s = is_some (index sub s)

-- The built-in comparators, by operator; Register puts one in front.
unfoldable pub comparators : Library → List (Text × Comparator)
unfolding compare_numeric between is_empty has_suffix to_string text_eq index cut_prefix
comparators lib =
    (codes "equals", textual lib (λ e a. text_eq a e))
    ∷ (codes "not_equals", textual lib (λ e a. not (text_eq a e)))
    ∷ (codes "contains", textual lib has_substring)
    ∷ (codes "not_contains", textual lib (λ e a. not (has_substring e a)))
    ∷ (codes "starts_with", textual lib has_prefix)
    ∷ (codes "ends_with", textual lib has_suffix)
    ∷ (
      codes "regex",
      λ a e.
          ok_or (bad_pattern (to_string lib e)) (lib.matches (to_string lib e) (to_string lib a)),
    )
    ∷ (codes "greater_than", compare_numeric lib (λ x y. lib.less y x))
    ∷ (codes "less_than", compare_numeric lib lib.less)
    ∷ (codes "greater_than_or_equal", compare_numeric lib (λ x y. lib.less_eq y x))
    ∷ (codes "less_than_or_equal", compare_numeric lib lib.less_eq)
    ∷ (codes "between", between lib)
    ∷ (codes "empty", λ a e. ok (is_empty lib a))
    ∷ (codes "not_empty", λ a e. ok (not (is_empty lib a)))
    ∷ []

-- Register
abbrev pub register : Text → Comparator → List (Text × Comparator) → List (Text × Comparator)
register operator comparator registry = (operator, comparator) ∷ registry

abbrev pub apply_comparator : Text → Option Comparator → Comparator
apply_comparator operator none actual expected = err (unknown_operator operator)
apply_comparator operator (some comparator) actual expected = comparator actual expected

-- Compare, over a registry
unfoldable pub compare : List (Text × Comparator) → Text → Comparator
unfolding lookup
compare registry operator actual expected =
    apply_comparator operator (lookup operator registry) actual expected

-- IsKnown
unfoldable pub is_known : List (Text × Comparator) → Text → Bool
unfolding lookup
is_known registry operator = is_some (lookup operator registry)

abbrev pub text_operators : List Text
text_operators =
    codes "equals"
    ∷ codes "not_equals"
    ∷ codes "contains"
    ∷ codes "not_contains"
    ∷ codes "starts_with"
    ∷ codes "ends_with"
    ∷ codes "regex"
    ∷ []

-- ComparesText
unfoldable pub compares_text : Text → Bool
unfolding contains text_eq
compares_text operator = contains text_operators operator
