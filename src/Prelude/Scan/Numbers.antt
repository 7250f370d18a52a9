-- ===== src/Prelude/Scan/Numbers.antt =====
-- The texts of numbers hold no white space: those of strconv.Itoa and those that strconv.Atoi reads.
use Prim.Native.Nat.{ℕ, zero, suc, ◌+◌, ◌*◌, ◌/◌, ◌%◌, ◌≤◌}
use mathlib.Core.Bool.{Bool, true, false}
use mathlib.Core.List.{[], ◌∷◌}
use mathlib.Core.Logic.{inl, inr}
use mathlib.Core.Option.{Option, none, some}
use mathlib.Core.Path.{◌≡◌, refl, ap}
use native.Mathlib.Omega.{arith}
use echopoint_runner.Prelude.Int.{ℤ, pos, negsuc}
use echopoint_runner.Prelude.Scan.Pieces.{Free}
use echopoint_runner.Prelude.Strings.Decimal.{decimal, itoa}
use echopoint_runner.Prelude.Strings.{
  is_space, digit, then_digits, digits_from, digits, in_range, atoi,
}
use echopoint_runner.Prelude.Tests.{◌==◌, ltb, Bool-cases, is_some, clash}
use echopoint_runner.Prelude.Text.{Text}

is_space_digit : (c : ℕ) → b'0' ≤ c → c ≤ b'9' → is_space c ≡ false
unfolding is_space
is_space_digit c low high = ground arith

decimal-Free : (f n : ℕ) (rest : Text) → Free is_space rest → Free is_space (decimal f n rest)
unfolding decimal
decimal-Free zero n rest h = h
decimal-Free (suc f) n rest h = elim (Bool-cases (ltb n 10)) [
  | inl small ↦ rw small (is_space_digit (b'0' + n) (omega arith) (ground arith), h)
  | inr large ↦ rw large (
      decimal-Free f (n / 10) ((b'0' + n % 10) ∷ rest)
        (is_space_digit (b'0' + n % 10) (omega arith) (omega arith), h))
]

pub itoa-Free : (i : ℤ) → Free is_space (itoa i)
unfolding itoa
itoa-Free (pos n) = decimal-Free 20 n [] tt
itoa-Free (negsuc n) = ((unfold is_space in refl), decimal-Free 20 (suc n) [] tt)

digit_space : (c d : ℕ) → digit c ≡ some d → is_space c ≡ false
digit_space c d h = is_space_digit c (ground arith) (ground arith)

then_digits-some :
    (go : ℕ → Option ℕ) (o : Option ℕ) (acc n : ℕ)
    → then_digits go o acc ≡ some n
    → (d : ℕ) × (o ≡ some d) × (go (acc * 10 + d) ≡ some n)
then_digits-some go none acc n h = absurd (clash false (ap is_some h) refl)
then_digits-some go (some d) acc n h = (d, refl, h)

digits_from-Free : (s : Text) (acc n : ℕ) → digits_from s acc ≡ some n → Free is_space s
unfolding digits_from
digits_from-Free [] acc n h = tt
digits_from-Free (c ∷ s) acc n h =
    let (d, read, rest) = then_digits-some (λ a. digits_from s a) (digit c) acc n h in
    (digit_space c d read, digits_from-Free s (acc * 10 + d) n rest)

digits-Free : (s : Text) (n : ℕ) → digits s ≡ some n → Free is_space s
unfolding digits
digits-Free [] n h = tt
digits-Free (c ∷ s) n h = digits_from-Free (c ∷ s) 0 n h

in_range-some :
    (minus : Bool) (o : Option ℕ) (i : ℤ) → in_range minus o ≡ some i → (n : ℕ) × (o ≡ some n)
in_range-some minus none i h = absurd (clash false (ap is_some h) refl)
in_range-some minus (some n) i h = (n, refl)

signed-Free :
    (minus : Bool) (s : Text) (i : ℤ) → in_range minus (digits s) ≡ some i → Free is_space s
signed-Free minus s i h = let (n, read) = in_range-some minus (digits s) i h in digits-Free s n read

pub atoi-Free : (s : Text) (i : ℤ) → atoi s ≡ some i → Free is_space s
unfolding atoi
atoi-Free [] i h = tt
atoi-Free (c ∷ s) i h = elim (Bool-cases (c == b'-')) [
  | inl minus ↦ ((unfold is_space in ground arith), signed-Free true s i (rw minus at h))
  | inr no_minus ↦ elim (Bool-cases (c == b'+')) [
    | inl plus ↦
        ((unfold is_space in ground arith), signed-Free false s i (rw (no_minus, plus) at h))
    | inr no_plus ↦ signed-Free false (c ∷ s) i (rw (no_minus, no_plus) at h)
  ]
]
