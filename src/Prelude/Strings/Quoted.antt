-- ===== src/Prelude/Strings/Quoted.antt =====
-- strconv.Quote, and strconv.QuotedPrefix with the Unquote of what it finds, for texts in double
-- quotes. Whether a character above 0xff is printable is a table of the library, the parameter
-- `wide`. Text holds code points, so an escape that names a byte above 0x7f alone has no result.
pub mod Reading
use Prim.Native.Nat.{ℕ, zero, suc, ◌+◌, ◌-◌, ◌*◌, ◌/◌, ◌%◌}
use mathlib.Core.Bool.{Bool, true, false, not, ◌&&◌, ◌||◌}
use mathlib.Core.List.{List, [], ◌∷◌, ◌++◌}
use mathlib.Core.Option.{Option, none, some}
use echopoint_runner.Prelude.Lists.{length}
use echopoint_runner.Prelude.Tests.{◌==◌, leb, ltb, if◌then◌else◌}
use echopoint_runner.Prelude.Text.{Text}

abbrev pub hex_digit : ℕ → ℕ
hex_digit n = if ltb n 10 then b'0' + n else b'a' + n - 10

-- The last k hexadecimal digits of a number, in front of a text.
unfoldable pub hexadecimal : ℕ → ℕ → Text → Text
hexadecimal zero n rest = rest
hexadecimal (suc k) n rest = hexadecimal k (n / 16) (hex_digit (n % 16) ∷ rest)

-- utf8.ValidRune
unfoldable pub valid_rune : ℕ → Bool
valid_rune c = ltb c 0xd800 || (leb 0xe000 c && leb c 0x10ffff)

-- strconv.IsPrint
unfoldable pub is_print : (ℕ → Bool) → ℕ → Bool
is_print wide c =
    if leb c 0xff then (leb 0x20 c && ltb c 0x7f) || (leb 0xa1 c && not (c == 0xad)) else wide c

-- The letter of an escape such as \n
unfoldable pub escape_letter : ℕ → Option ℕ
escape_letter c =
    if c == 7
    then some b'a'
    else if c == 8
    then some b'b'
    else if c == 12
    then some b'f'
    else if c == 10
    then some b'n'
    else if c == 13
    then some b'r'
    else if c == 9
    then some b't'
    else if c == 11
    then some b'v'
    else none

unfoldable pub numbered_escape : ℕ → Text
unfolding hexadecimal valid_rune
numbered_escape c =
    if ltb c 0x20 || c == 0x7f
    then b'\\' ∷ b'x' ∷ hexadecimal 2 c []
    else if not (valid_rune c)
    then b'\\' ∷ b'u' ∷ hexadecimal 4 0xfffd []
    else if ltb c 0x10000
    then b'\\' ∷ b'u' ∷ hexadecimal 4 c []
    else b'\\' ∷ b'U' ∷ hexadecimal 8 c []

abbrev pub lettered_escape : Text → Option ℕ → Text
lettered_escape numbered none = numbered
lettered_escape numbered (some l) = b'\\' ∷ l ∷ []

unfoldable pub escaped_rune : (ℕ → Bool) → ℕ → Text
unfolding is_print escape_letter numbered_escape
escaped_rune wide c =
    if c == b'"' || c == b'\\'
    then b'\\' ∷ c ∷ []
    else if is_print wide c
    then c ∷ []
    else lettered_escape (numbered_escape c) (escape_letter c)

abbrev pub quoted_rest : (ℕ → Bool) → Text → Text
quoted_rest wide [] = b'"' ∷ []
quoted_rest wide (c ∷ s) = escaped_rune wide c ++ quoted_rest wide s

-- strconv.Quote
unfoldable pub quote : (ℕ → Bool) → Text → Text
unfolding escaped_rune
quote wide s = b'"' ∷ quoted_rest wide s

abbrev pub unhex : ℕ → Option ℕ
unhex c =
    if leb b'0' c && leb c b'9'
    then some (c - b'0')
    else if leb b'a' c && leb c b'f'
    then some (c - b'a' + 10)
    else if leb b'A' c && leb c b'F'
    then some (c - b'A' + 10)
    else none

abbrev pub unoctal : ℕ → Option ℕ
unoctal c = if leb b'0' c && leb c b'7' then some (c - b'0') else none

abbrev pub then_digit : (ℕ → Option (ℕ × Text)) → Option ℕ → Option (ℕ × Text)
then_digit go none = none
then_digit go (some d) = go d

-- The number that the next k digits write in a base, after a number
unfoldable pub numeral : ℕ → (ℕ → Option ℕ) → ℕ → ℕ → Text → Option (ℕ × Text)
numeral base digit zero n s = some (n, s)
numeral base digit (suc k) n [] = none
numeral base digit (suc k) n (c ∷ s) =
    then_digit (λ d. numeral base digit k (n * base + d) s) (digit c)

abbrev pub kept_if : (ℕ → Bool) → Option (ℕ × Text) → Option (ℕ × Text)
kept_if ok none = none
kept_if ok (some (n, s)) = if ok n then some (n, s) else none

-- strconv.UnquoteChar after a backslash
unfoldable pub unescape : Text → Option (ℕ × Text)
unfolding numeral valid_rune
unescape [] = none
unescape (d ∷ s) =
    if d == b'a'
    then some (7, s)
    else if d == b'b'
    then some (8, s)
    else if d == b'f'
    then some (12, s)
    else if d == b'n'
    then some (10, s)
    else if d == b'r'
    then some (13, s)
    else if d == b't'
    then some (9, s)
    else if d == b'v'
    then some (11, s)
    else if d == b'x'
    then kept_if (λ n. ltb n 0x80) (numeral 16 unhex 2 0 s)
    else if d == b'u'
    then kept_if valid_rune (numeral 16 unhex 4 0 s)
    else if d == b'U'
    then kept_if valid_rune (numeral 16 unhex 8 0 s)
    else if leb b'0' d && leb d b'7'
    then kept_if (λ n. ltb n 0x80) (numeral 8 unoctal 2 (d - b'0') s)
    else if d == b'\\' || d == b'"'
    then some (d, s)
    else none

-- strconv.UnquoteChar
unfoldable pub unquote_char : Text → Option (ℕ × Text)
unfolding unescape
unquote_char [] = none
unquote_char (c ∷ s) = if c == b'"' then none else if c == b'\\' then unescape s else some (c, s)

abbrev pub with_char : ℕ → Option (Text × Text) → Option (Text × Text)
with_char c none = none
with_char c (some (t, rest)) = some (c ∷ t, rest)

abbrev pub then_unquote : (Text → Option (Text × Text)) → Option (ℕ × Text) → Option (Text × Text)
then_unquote go none = none
then_unquote go (some (c, s)) = with_char c (go s)

-- The loop of unquote: the text up to the closing quote, and what follows it.
unfoldable pub unquote_from : ℕ → Text → Option (Text × Text)
unfolding unquote_char
unquote_from zero s = none
unquote_from (suc f) [] = none
unquote_from (suc f) (c ∷ s) =
    if c == b'"'
    then some ([], s)
    else if c == b'\n'
    then none
    else then_unquote (λ rest. unquote_from f rest) (unquote_char (c ∷ s))

unfoldable pub unquote_prefix : Text → Option (Text × Text)
unfolding unquote_from
unquote_prefix [] = none
unquote_prefix (c ∷ s) = if c == b'"' then unquote_from (length s) s else none
