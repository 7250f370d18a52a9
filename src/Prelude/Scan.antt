-- ===== src/Prelude/Scan.antt =====
-- More of Go's `strings` package: prefixes, cuts, trims, fields and searches, over code points.
pub mod Pieces
pub mod Numbers
use echopoint_runner.Prelude.Strings.{is_space, is_blank}
use echopoint_runner.Prelude.Tests.{◌==◌, if◌then◌else◌, is_some}
use echopoint_runner.Prelude.Text.{Text}
use Prim.Native.Nat.{ℕ, ◌+◌}
use mathlib.Core.Bool.{Bool, true, false, ◌&&◌, ◌||◌}
use mathlib.Core.List.{List, [], ◌∷◌, ◌++◌}
use mathlib.Core.Option.{Option, none, some, map}

-- strings.CutPrefix: what follows the prefix
unfoldable pub cut_prefix : Text → Text → Option Text
cut_prefix [] s = some s
cut_prefix (p ∷ ps) [] = none
cut_prefix (p ∷ ps) (c ∷ s) = let rest = cut_prefix ps s in if p == c then rest else none

-- strings.HasPrefix, the prefix first
abbrev pub has_prefix : Text → Text → Bool
has_prefix p s = is_some (cut_prefix p s)

abbrev pub before_cut : ℕ → Text × Option Text → Text × Option Text
before_cut c (before, after) = (c ∷ before, after)

-- strings.Cut at one character: what stands before it and, if it is there, what follows it
unfoldable pub cut : ℕ → Text → Text × Option Text
cut sep [] = ([], none)
cut sep (c ∷ s) = let rest = cut sep s in if c == sep then ([], some s) else before_cut c rest

-- strings.TrimLeft and strings.TrimRight, for the characters that pass a test
unfoldable pub trim_left_by : (ℕ → Bool) → Text → Text
trim_left_by p [] = []
trim_left_by p (c ∷ s) = let rest = trim_left_by p s in if p c then rest else c ∷ s

unfoldable pub trim_right_by : (ℕ → Bool) → Text → Text
trim_right_by p [] = []
trim_right_by p (c ∷ s) =
    let rest = trim_right_by p s in if is_blank rest && p c then [] else c ∷ rest

abbrev pub joined_word : Text → List Text → List Text
joined_word [] words = words
joined_word (c ∷ w) words = (c ∷ w) ∷ words

abbrev pub next_field : Bool → ℕ → Text × List Text → Text × List Text
next_field true c (word, words) = ([], joined_word word words)
next_field false c (word, words) = (c ∷ word, words)

-- The word that a text begins with, and the words after it.
unfoldable pub open_fields : Text → Text × List Text
unfolding is_space
open_fields [] = ([], [])
open_fields (c ∷ s) = next_field (is_space c) c (open_fields s)

abbrev pub all_fields : Text × List Text → List Text
all_fields (word, words) = joined_word word words

-- strings.Fields
unfoldable pub fields : Text → List Text
unfolding open_fields
fields s = all_fields (open_fields s)

-- strings.Index: the position of the first occurrence
unfoldable pub index : Text → Text → Option ℕ
unfolding cut_prefix
index sub [] = if is_blank sub then some 0 else none
index sub (c ∷ s) =
    let rest = map (◌+◌ 1) (index sub s) in if has_prefix sub (c ∷ s) then some 0 else rest
