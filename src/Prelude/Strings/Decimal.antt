-- ===== src/Prelude/Strings/Decimal.antt =====
-- strconv.Itoa, and what strconv.Atoi makes of its text.
use Prim.Native.Nat.{ℕ, zero, suc, ◌+◌, ◌*◌, ◌^◌, ◌/◌, ◌%◌, ◌<◌, ◌≤◌}
use mathlib.Core.Path.{◌≡◌, refl, ap, ◌∙◌}
use mathlib.Core.Bool.{false}
use mathlib.Core.List.{[], ◌∷◌}
use mathlib.Core.Option.{some}
use mathlib.Core.Logic.{inl, inr}
use native.Mathlib.Omega.{arith}
use echopoint_runner.Prelude.Int.{ℤ, pos, negsuc}
use echopoint_runner.Prelude.Tests.{ltb, if◌then◌else◌, Bool-cases, lt→ltb}
use echopoint_runner.Prelude.Text.{Text}
use echopoint_runner.Prelude.Strings.{digits_from, digits, in_range, digit, atoi}

-- The decimal digits of a number below 10 ^ f, in front of a text.
unfoldable pub decimal : ℕ → ℕ → Text → Text
decimal zero n rest = rest
decimal (suc f) n rest =
    let above = decimal f (n / 10) ((b'0' + n % 10) ∷ rest) in
    if ltb n 10 then (b'0' + n) ∷ rest else above

-- strconv.Itoa: an int has at most 19 digits.
unfoldable pub itoa : ℤ → Text
unfolding decimal
itoa (pos n) = decimal 20 n []
itoa (negsuc n) = b'-' ∷ decimal 20 (suc n) []

-- A Go int
abbrev pub IsInt64 : ℤ → Type 0
IsInt64 (pos n) = n < 2 ^ 63
IsInt64 (negsuc n) = n < 2 ^ 63

digit_lem : (d : ℕ) → d < 10 → digit (b'0' + d) ≡ some d
digit_lem d h = ground arith

digits_from_digit :
    (d : ℕ) (rest : Text) (acc n : ℕ)
    → d < 10
    → acc * 10 + d ≡ n
    → digits_from ((b'0' + d) ∷ rest) acc ≡ digits_from rest n
unfolding digits_from
digits_from_digit d rest acc n h e = rw (digit_lem d h) (ap (digits_from rest) e)

tenth : (f n : ℕ) → n < 10 ^ suc (suc f) → n / 10 < 10 ^ suc f
tenth f n h = omega arith

decimal_small : (f n : ℕ) (rest : Text) → n < 10 → decimal (suc f) n rest ≡ (b'0' + n) ∷ rest
unfolding decimal
decimal_small f n rest h = rw (lt→ltb n 10 h) refl

decimal_large :
    (f n : ℕ) (rest : Text)
    → ltb n 10 ≡ false
    → decimal (suc f) n rest ≡ decimal f (n / 10) ((b'0' + n % 10) ∷ rest)
unfolding decimal
decimal_large f n rest h = rw h refl

-- Reading the digits of a number in front of a text is entering the text with the number.
pub digits_from-decimal :
    (f n : ℕ) (rest : Text)
    → n < 10 ^ suc f
    → digits_from (decimal (suc f) n rest) 0 ≡ digits_from rest n
digits_from-decimal zero n rest h =
    rw (decimal_small 0 n rest (omega arith))
      (digits_from_digit n rest 0 n (omega arith) (omega arith))
digits_from-decimal (suc f) n rest h = elim (Bool-cases (ltb n 10)) [
  | inl small ↦
      rw (decimal_small (suc f) n rest (ground arith))
        (digits_from_digit n rest 0 n (ground arith) (omega arith))
  | inr large ↦ rw (decimal_large (suc f) n rest large) (
      digits_from-decimal f (n / 10) ((b'0' + n % 10) ∷ rest) (tenth f n h)
      ∙ digits_from_digit (n % 10) rest (n / 10) n (omega arith) (omega arith))
]

-- The text of a number begins with a digit.
decimal_head :
    (f n : ℕ) (rest : Text)
    → n < 10 ^ suc f
    → (c : ℕ) × (s : Text) × (decimal (suc f) n rest ≡ c ∷ s) × (b'0' ≤ c) × (c ≤ b'9')
decimal_head zero n rest h =
    (b'0' + n, rest, decimal_small 0 n rest (omega arith), omega arith, omega arith)
decimal_head (suc f) n rest h = elim (Bool-cases (ltb n 10)) [
  | inl small ↦
      (b'0' + n, rest, decimal_small (suc f) n rest (ground arith), omega arith, ground arith)
  | inr large ↦
      let (c, s, e, low, high) = decimal_head f (n / 10) ((b'0' + n % 10) ∷ rest) (tenth f n h) in
      (c, s, decimal_large (suc f) n rest large ∙ e, low, high)
]

digits-decimal : (n : ℕ) → n < 10 ^ 20 → digits (decimal 20 n []) ≡ some n
unfolding digits digits_from
digits-decimal n h =
    let (c, s, e, low, high) = decimal_head 19 n [] h in
    rw e (rw e at (digits_from-decimal 19 n [] h))

pub atoi_unsigned : (c : ℕ) (s : Text) → b'0' ≤ c → atoi (c ∷ s) ≡ in_range false (digits (c ∷ s))
unfolding atoi
atoi_unsigned c s h = ground arith

atoi-decimal : (n : ℕ) → n < 10 ^ 20 → atoi (decimal 20 n []) ≡ in_range false (some n)
atoi-decimal n h =
    let (c, s, e, low, high) = decimal_head 19 n [] h in
    rw e (atoi_unsigned c s low) ∙ ap (in_range false) (digits-decimal n h)

-- strconv.Atoi reads back what strconv.Itoa wrote.
pub atoi-itoa : (i : ℤ) → IsInt64 i → atoi (itoa i) ≡ some i
unfolding atoi itoa
atoi-itoa (pos n) h = atoi-decimal n (omega arith) ∙ rw (lt→ltb n (2 ^ 63) h) refl
atoi-itoa (negsuc n) h = rw (digits-decimal (suc n) (omega arith)) (rw (lt→ltb n (2 ^ 63) h) refl)
