-- ===== src/Prelude/Strings/Quoted/Reading.antt =====
-- strconv.Unquote of what strconv.Quote wrote.
use Prim.Native.Nat.{ℕ, zero, suc, ◌+◌, ◌*◌, ◌^◌, ◌/◌, ◌%◌, ◌≤◌, ◌<◌}
use mathlib.Core.Path.{◌≡◌, refl, sym, ap, ◌∙◌}
use mathlib.Core.Bool.{Bool, true, false, not, ◌||◌}
use mathlib.Core.List.{[], ◌∷◌, ◌++◌, append_assoc}
use mathlib.Core.Logic.{inl, inr}
use mathlib.Core.Option.{Option, none, some}
use native.Mathlib.Omega.{arith}
use echopoint_runner.Prelude.Lists.{length, All, length-append}
use echopoint_runner.Prelude.Strings.Quoted.{
  hex_digit, hexadecimal, valid_rune, is_print, escape_letter, numbered_escape, escaped_rune,
  quoted_rest, quote, unhex, numeral, unescape, unquote_char, unquote_from, unquote_prefix,
  lettered_escape, then_unquote, with_char,
}
use echopoint_runner.Prelude.Tests.{◌==◌, ltb, Bool-cases}
use echopoint_runner.Prelude.Text.{Text}

unhex-hex_digit : (n : ℕ) → n < 16 → unhex (hex_digit n) ≡ some n
unhex-hex_digit n h = ground arith

numeral_digit :
    (k n d : ℕ) (s : Text)
    → d < 16
    → numeral 16 unhex (suc k) n (hex_digit d ∷ s) ≡ numeral 16 unhex k (n * 16 + d) s
unfolding numeral
numeral_digit k n d s h = rw (unhex-hex_digit d h) refl

numeral-hexadecimal :
    (k j m n : ℕ) (s : Text)
    → n < 16 ^ k
    → m ≡ k + j
    → numeral 16 unhex m 0 (hexadecimal k n s) ≡ numeral 16 unhex j n s
unfolding hexadecimal
numeral-hexadecimal zero j m n s h e =
    let none_left : n ≡ 0 = omega arith in
    let same : m ≡ j = omega arith in rw (same, none_left) refl
numeral-hexadecimal (suc k) j m n s h e =
    numeral-hexadecimal k (suc j) m (n / 16) (hex_digit (n % 16) ∷ s) (omega arith) (omega arith)
    ∙ numeral_digit j (n / 16) (n % 16) s (omega arith)
    ∙ ap (λ v. numeral 16 unhex j v s) (omega arith)

hexadecimal-append : (k n : ℕ) (s t : Text) → hexadecimal k n s ++ t ≡ hexadecimal k n (s ++ t)
unfolding hexadecimal
hexadecimal-append zero n s t = refl
hexadecimal-append (suc k) n s t = hexadecimal-append k (n / 16) (hex_digit (n % 16) ∷ s) t

numeral-hexadecimal_whole :
    (k n : ℕ) (t : Text) → n < 16 ^ k → numeral 16 unhex k 0 (hexadecimal k n [] ++ t) ≡ some (n, t)
numeral-hexadecimal_whole k n t h =
    ap (numeral 16 unhex k 0) (hexadecimal-append k n [] t)
    ∙ numeral-hexadecimal k 0 k n t h (omega arith)
    ∙ unfold numeral in refl

unescape_x : (c : ℕ) (t : Text) → c < 0x80 → unescape (b'x' ∷ hexadecimal 2 c [] ++ t) ≡ some (c, t)
unfolding unescape
unescape_x c t h = rw (numeral-hexadecimal_whole 2 c t (omega arith)) (ground arith)

unescape_u :
    (c : ℕ) (t : Text)
    → c < 0x10000
    → valid_rune c ≡ true
    → unescape (b'u' ∷ hexadecimal 4 c [] ++ t) ≡ some (c, t)
unfolding unescape
unescape_u c t h ok = rw (numeral-hexadecimal_whole 4 c t (omega arith)) (rw ok refl)

unescape_long :
    (c : ℕ) (t : Text)
    → valid_rune c ≡ true
    → unescape (b'U' ∷ hexadecimal 8 c [] ++ t) ≡ some (c, t)
unfolding unescape
unescape_long c t ok =
    let bound : c ≤ 0x10ffff = unfold valid_rune in ground arith in
    rw (numeral-hexadecimal_whole 8 c t (omega arith)) (rw ok refl)

unquote_char-numbered_escape :
    (c : ℕ) (t : Text) → valid_rune c ≡ true → unquote_char (numbered_escape c ++ t) ≡ some (c, t)
unfolding numbered_escape unquote_char
unquote_char-numbered_escape c t ok = elim (Bool-cases (ltb c 0x20 || c == 0x7f)) [
  | inl control ↦ rw control (unescape_x c t (ground arith))
  | inr wide ↦ elim (Bool-cases (ltb c 0x10000)) [
    | inl short ↦ rw (wide, ok, short) (unescape_u c t (ground arith) ok)
    | inr long ↦ rw (wide, ok, long) (unescape_long c t ok)
  ]
]

unquote_char-letter :
    (c l : ℕ) (t : Text) → escape_letter c ≡ some l → unquote_char (b'\\' ∷ l ∷ t) ≡ some (c, t)
unfolding escape_letter unquote_char unescape
unquote_char-letter c l t h = ground arith

unquote_char-unprinted :
    (c : ℕ) (t : Text) (o : Option ℕ)
    → escape_letter c ≡ o
    → valid_rune c ≡ true
    → unquote_char (lettered_escape (numbered_escape c) o ++ t) ≡ some (c, t)
unquote_char-unprinted c t none h ok = unquote_char-numbered_escape c t ok
unquote_char-unprinted c t (some l) h ok = unquote_char-letter c l t h

unquote_char-escaped_rune :
    (wide : ℕ → Bool) (c : ℕ) (t : Text)
    → valid_rune c ≡ true
    → unquote_char (escaped_rune wide c ++ t) ≡ some (c, t)
unfolding escaped_rune
unquote_char-escaped_rune wide c t ok = elim (Bool-cases (c == b'"' || c == b'\\')) [
  | inl special ↦ rw special (unfold unquote_char unescape in ground arith)
  | inr plain ↦ elim (Bool-cases (is_print wide c)) [
    | inl shown ↦ rw (plain, shown) (unfold unquote_char in ground arith)
    | inr hidden ↦ rw (plain, hidden) (unquote_char-unprinted c t (escape_letter c) refl ok)
  ]
]

numbered_escape_head : (c : ℕ) → (s : Text) × (numbered_escape c ≡ b'\\' ∷ s)
unfolding numbered_escape
numbered_escape_head c = elim (Bool-cases (ltb c 0x20 || c == 0x7f)) [
  | inl control ↦ (b'x' ∷ hexadecimal 2 c [], rw control refl)
  | inr wide ↦ elim (Bool-cases (not (valid_rune c))) [
    | inl invalid ↦ (b'u' ∷ hexadecimal 4 0xfffd [], rw (wide, invalid) refl)
    | inr valid ↦ elim (Bool-cases (ltb c 0x10000)) [
      | inl short ↦ (b'u' ∷ hexadecimal 4 c [], rw (wide, valid, short) refl)
      | inr long ↦ (b'U' ∷ hexadecimal 8 c [], rw (wide, valid, long) refl)
    ]
  ]
]

lettered_escape_head :
    (c : ℕ) (o : Option ℕ) → (s : Text) × (lettered_escape (numbered_escape c) o ≡ b'\\' ∷ s)
lettered_escape_head c none = numbered_escape_head c
lettered_escape_head c (some l) = (_, refl)

-- The text of a character begins with neither a quote nor a newline.
escaped_rune_head :
    (wide : ℕ → Bool) (c : ℕ)
    → (d : ℕ) × (s : Text) × (escaped_rune wide c ≡ d ∷ s)
      × ((d == b'"') ≡ false)
      × ((d == b'\n') ≡ false)
unfolding escaped_rune
escaped_rune_head wide c = elim (Bool-cases (c == b'"' || c == b'\\')) [
  | inl special ↦ (b'\\', c ∷ [], rw special refl, refl, refl)
  | inr plain ↦ elim (Bool-cases (is_print wide c)) [
    | inl shown ↦ (c, [], rw (plain, shown) refl, ground arith, unfold is_print in ground arith)
    | inr hidden ↦
        let (s, e) = lettered_escape_head c (escape_letter c) in
        (b'\\', s, rw (plain, hidden) e, refl, refl)
  ]
]

unquote_from_step :
    (f d : ℕ) (s : Text)
    → (d == b'"') ≡ false
    → (d == b'\n') ≡ false
    → unquote_from (suc f) (d ∷ s)
      ≡ then_unquote (λ rest. unquote_from f rest) (unquote_char (d ∷ s))
unfolding unquote_from
unquote_from_step f d s no_quote no_line = rw (no_quote, no_line) refl

unquote_from_char :
    (f : ℕ) (u t : Text) (c d : ℕ) (s : Text)
    → u ≡ d ∷ s
    → (d == b'"') ≡ false
    → (d == b'\n') ≡ false
    → unquote_char u ≡ some (c, t)
    → unquote_from (suc f) u ≡ with_char c (unquote_from f t)
unquote_from_char f u t c d s e no_quote no_line read =
    ap (unquote_from (suc f)) e
    ∙ unquote_from_step f d s no_quote no_line
    ∙ ap (then_unquote (λ rest. unquote_from f rest)) (ap unquote_char (sym e) ∙ read)

unquote_from-quoted_rest :
    (wide : ℕ → Bool) (s t : Text) (f : ℕ)
    → All (λ c. valid_rune c ≡ true) s
    → length s < f
    → unquote_from f (quoted_rest wide s ++ t) ≡ some (s, t)
unquote_from-quoted_rest wide s t zero h fuel = absurd (omega arith)
unquote_from-quoted_rest wide [] t (suc f) h fuel = unfold unquote_from in refl
unquote_from-quoted_rest wide (c ∷ s) t (suc f) h fuel =
    let rest = quoted_rest wide s ++ t in
    let (d, u, e, no_quote, no_line) = escaped_rune_head wide c in
    rw append_assoc (
      unquote_from_char f (escaped_rune wide c ++ rest) rest c d (u ++ rest) (ap (λ v. v ++ rest) e)
        no_quote no_line (unquote_char-escaped_rune wide c rest h.0)
      ∙ rw (unquote_from-quoted_rest wide s t f h.1 (omega arith)) refl)

length-quoted_rest : (wide : ℕ → Bool) (s t : Text) → length s < length (quoted_rest wide s ++ t)
length-quoted_rest wide [] t = omega arith
length-quoted_rest wide (c ∷ s) t =
    let (d, u, e, _, _) = escaped_rune_head wide c in
    let size = ap length e in
    rw append_assoc (
      let split = length-append (escaped_rune wide c) (quoted_rest wide s ++ t) in
      let rest = length-quoted_rest wide s t in omega arith)

-- Every text of valid characters is read back from its quoted form, with what follows it.
pub unquote_prefix-quote :
    (wide : ℕ → Bool) (s t : Text)
    → All (λ c. valid_rune c ≡ true) s
    → unquote_prefix (quote wide s ++ t) ≡ some (s, t)
unfolding unquote_prefix quote
unquote_prefix-quote wide s t h =
    unquote_from-quoted_rest wide s t (length (quoted_rest wide s ++ t)) h
      (length-quoted_rest wide s t)
