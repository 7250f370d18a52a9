-- ===== src/FlowDsl/Operands.antt =====
-- The operators of checks and their operands: the values that a flow file can hold.
use echopoint_runner.FlowDsl.Lines.{expect_text}
use echopoint_runner.FlowDsl.{
  Conversions, expect_operators, valueless_operators, value_of, is_blank_char, is_line_end,
  bound_token, float_or_text, int_or_else,
}
use echopoint_runner.Prelude.Int.{ℤ}
use echopoint_runner.Prelude.Scan.Numbers.{itoa-Free}
use echopoint_runner.Prelude.Scan.Pieces.{Free, Free-any, contains-all}
use echopoint_runner.Prelude.Scan.{trim_right_by}
use echopoint_runner.Prelude.Strings.Decimal.{itoa, IsInt64, atoi-itoa}
use echopoint_runner.Prelude.Strings.{is_space, is_blank, atoi, contains}
use echopoint_runner.Prelude.Text.{Text, codes, text_eq, eq_of_text_eq}
use echopoint_runner.Prelude.{
  ℕ, Bool, true, false, not, ◌||◌, [], ◌∷◌, none, some, is_some, ◌≡◌, refl, ap, arith, ◌==◌, any,
  ||→neither, clash,
}
use echopoint_runner.Value.{Value, num, int, str, arr, nil, cons, Fields, end}

-- The bounds of `between`: an int, a float that is no int64, and a text that is no number.
pub data IsBound (lib : Conversions) : Value → Type 0 where
  whole : {i : ℤ} → IsInt64 i → IsBound lib (int i)
  fraction :
      {x : Text}
      → Free is_space x
      → is_blank x ≡ false
      → lib.as_int64 x ≡ none
      → atoi x ≡ none
      → lib.parse_float x ≡ some x
      → IsBound lib (num x)
  word :
      {t : Text}
      → Free is_space t
      → is_blank t ≡ false
      → atoi t ≡ none
      → lib.parse_float t ≡ none
      → IsBound lib (str t)

-- The operands that a flow file can hold, with their operator data.
pub data IsOperand (lib : Conversions) : Text → Fields → Type 0 where
  valueless : {op : Text} → contains valueless_operators op ≡ true → IsOperand lib op end
  between :
      {low high : Value}
      → IsBound lib low
      → IsBound lib high
      → IsOperand lib (codes "between") (value_of (arr (cons low (cons high nil))))
  valued :
      {op v : Text}
      → contains expect_operators op ≡ true
      → contains valueless_operators op ≡ false
      → text_eq op (codes "between") ≡ false
      → trim_right_by is_line_end v ≡ v
      → IsOperand lib op (value_of (str v))

-- A bound is written as one word, and read back from it.
pub record IsBoundText (lib : Conversions) (v : Value) (t : Text) : Type 0 where
  pub written : expect_text lib v ≡ some t
  pub solid : Free is_space t
  pub nonempty : is_blank t ≡ false
  pub read : bound_token lib t ≡ v

read_nonempty : (t : Text) (i : ℤ) → atoi t ≡ some i → is_blank t ≡ false
unfolding atoi
read_nonempty [] i h = absurd (clash false (ap is_some h) refl)
read_nonempty (c ∷ t) i h = refl

itoa_nonempty : (i : ℤ) → IsInt64 i → is_blank (itoa i) ≡ false
itoa_nonempty i h = read_nonempty (itoa i) i (atoi-itoa i h)

pub IsBound-text :
    {v : Value} (lib : Conversions) → IsBound lib v → (t : Text) × IsBoundText lib v t
unfolding expect_text bound_token
IsBound-text lib (whole {i} h) = (
  itoa i,
  record {
    written = refl;
    solid = itoa-Free i;
    nonempty = itoa_nonempty i h;
    read = ap (int_or_else (float_or_text (itoa i) (lib.parse_float (itoa i)))) (atoi-itoa i h);
  },
)
IsBound-text lib (fraction {x} solid nonempty no_int no_atoi float) = (
  x,
  record {
    written = rw no_int refl;
    solid = solid;
    nonempty = nonempty;
    read = rw (no_atoi, float) refl;
  },
)
IsBound-text lib (word {t} solid nonempty no_atoi no_float) = (
  t,
  record { written = refl; solid = solid; nonempty = nonempty; read = rw (no_atoi, no_float) refl },
)

-- What the texts of the operators have in common.
abbrev is_operator_word : Text → Bool
is_operator_word [] = false
is_operator_word (c ∷ s) = not (is_blank_char c || any (λ d. d == b' ') (c ∷ s))

pub record IsOperatorWord (op : Text) : Type 0 where
  pub first : ℕ
  pub others : Text
  pub begins : op ≡ first ∷ others
  pub first_blank : is_blank_char first ≡ false
  pub solid : Free (λ c. c == b' ') op

is_operator_word-IsOperatorWord : (op : Text) → is_operator_word op ≡ true → IsOperatorWord op
is_operator_word-IsOperatorWord [] h = absurd (clash false h refl)
is_operator_word-IsOperatorWord (c ∷ s) h =
    let (blank, solid) =
      ||→neither (is_blank_char c) (any (λ d. d == b' ') (c ∷ s)) (ground arith) in
    record {
      first = c;
      others = s;
      begins = refl;
      first_blank = blank;
      solid = Free-any (λ d. d == b' ') (c ∷ s) solid;
    }

pub expect_operators-IsOperatorWord :
    (op : Text) → contains expect_operators op ≡ true → IsOperatorWord op
expect_operators-IsOperatorWord op h =
    is_operator_word-IsOperatorWord op (contains-all is_operator_word expect_operators op refl h)

pub valueless_operators-expect_operators :
    (op : Text) → contains valueless_operators op ≡ true → contains expect_operators op ≡ true
unfolding contains text_eq
valueless_operators-expect_operators op h =
    contains-all (contains expect_operators) valueless_operators op refl h

pub valueless_operators-trimmed :
    (op : Text) → contains valueless_operators op ≡ true → trim_right_by is_line_end op ≡ op
unfolding trim_right_by text_eq
valueless_operators-trimmed op h =
    eq_of_text_eq (trim_right_by is_line_end op) op
      (contains-all (λ k. text_eq (trim_right_by is_line_end k) k) valueless_operators op refl h)

pub valueless_operators-between :
    (op : Text) → contains valueless_operators op ≡ true → text_eq op (codes "between") ≡ false
unfolding text_eq
valueless_operators-between op h =
    let other =
      contains-all (λ k. not (text_eq k (codes "between"))) valueless_operators op refl h in
    ground arith
