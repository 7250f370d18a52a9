-- ===== src/Prelude/Strings.antt =====
-- Go's `strings` and `strconv` functions that the program calls, over code points.
pub mod Decimal
pub mod Quoted
use Prim.Native.Nat.{ℕ, zero, suc, ◌+◌, ◌-◌, ◌*◌, ◌^◌}
use mathlib.Core.Bool.{Bool, true, false, ◌&&◌, ◌||◌}
use mathlib.Core.List.{List, [], ◌∷◌, reverse}
use mathlib.Core.Option.{Option, none, some}
use echopoint_runner.Prelude.Tests.{◌==◌, leb, ltb, if◌then◌else◌}
use echopoint_runner.Prelude.Int.{ℤ, pos, negsuc}
use echopoint_runner.Prelude.Text.{Text, text_eq}

abbrev pub dot : ℕ
dot = b'.'

-- s[i]
abbrev pub char_at : Text → ℕ → Option ℕ
char_at [] i = none
char_at (c ∷ s) zero = some c
char_at (c ∷ s) (suc i) = char_at s i

abbrev is_char : ℕ → Option ℕ → Bool
is_char c none = false
is_char c (some d) = d == c

-- Whether s[i] is a dot.
abbrev pub is_dot_at : Text → ℕ → Bool
is_dot_at s i = is_char dot (char_at s i)

abbrev onto_head : ℕ → List Text → List Text
onto_head c [] = (c ∷ []) ∷ []
onto_head c (part ∷ parts) = (c ∷ part) ∷ parts

-- strings.Split(s, sep) at one character
unfoldable pub split : ℕ → Text → List Text
split sep [] = [] ∷ []
split sep (c ∷ s) = let rest = split sep s in if c == sep then [] ∷ rest else onto_head c rest

-- strings.SplitN(s, sep, 2)
unfoldable pub split_two : ℕ → Text → List Text
split_two sep [] = [] ∷ []
split_two sep (c ∷ s) =
    let rest = split_two sep s in if c == sep then [] ∷ s ∷ [] else onto_head c rest

-- unicode.IsSpace
unfoldable pub is_space : ℕ → Bool
is_space c =
    (leb 9 c && leb c 13)
    || c == 32
    || c == 0x85
    || c == 0xa0
    || c == 0x1680
    || (leb 0x2000 c && leb c 0x200a)
    || c == 0x2028
    || c == 0x2029
    || c == 0x202f
    || c == 0x205f
    || c == 0x3000

unfoldable pub trim_left : Text → Text
unfolding is_space
trim_left [] = []
trim_left (c ∷ s) = let rest = trim_left s in if is_space c then rest else c ∷ s

-- strings.TrimSpace
unfoldable pub trim_space : Text → Text
unfolding trim_left
trim_space s = reverse (trim_left (reverse (trim_left s)))

-- s == ""
abbrev pub is_blank : Text → Bool
is_blank [] = true
is_blank (c ∷ s) = false

abbrev pub digit : ℕ → Option ℕ
digit c = if leb b'0' c && leb c b'9' then some (c - b'0') else none

abbrev pub then_digits : (ℕ → Option ℕ) → Option ℕ → ℕ → Option ℕ
then_digits go none acc = none
then_digits go (some d) acc = go (acc * 10 + d)

unfoldable pub digits_from : Text → ℕ → Option ℕ
digits_from [] acc = some acc
digits_from (c ∷ s) acc = then_digits (λ a. digits_from s a) (digit c) acc

unfoldable pub digits : Text → Option ℕ
unfolding digits_from
digits [] = none
digits (c ∷ s) = digits_from (c ∷ s) 0

abbrev pub in_range : Bool → Option ℕ → Option ℤ
in_range minus none = none
in_range false (some n) = if ltb n (2 ^ 63) then some (pos n) else none
in_range true (some zero) = some (pos 0)
in_range true (some (suc n)) = if ltb n (2 ^ 63) then some (negsuc n) else none

-- strconv.Atoi: an optional sign and decimal digits, within 64 bits.
unfoldable pub atoi : Text → Option ℤ
unfolding digits
atoi [] = none
atoi (c ∷ s) =
    if c == b'-'
    then in_range true (digits s)
    else if c == b'+'
    then in_range false (digits s)
    else in_range false (digits (c ∷ s))

-- The value at a key, or none where a Go map reports `!ok`.
module _ {ℓ} {V : Type ℓ} where
  unfoldable pub lookup : Text → List (Text × V) → Option V
  lookup k [] = none
  lookup k ((j, v) ∷ m) = let rest = lookup k m in if text_eq j k then some v else rest

unfoldable pub contains : List Text → Text → Bool
contains [] k = false
contains (j ∷ js) k = text_eq j k || contains js k
