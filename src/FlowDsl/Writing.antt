-- ===== src/FlowDsl/Writing.antt =====
-- What checkLine of pkg/flowdsl/decompile.go writes behind a target.
use mathlib.Core.Path.{ap₂}
use echopoint_runner.FlowDsl.Lines.{
  is_bound_gap, bound_texts, between_line, operand_line, valued_line,
}
use echopoint_runner.FlowDsl.Operands.{IsBoundText, valueless_operators-between}
use echopoint_runner.FlowDsl.{
  Conversions, valueless_operators, value_of, is_line_end, status_word, status_number,
}
use echopoint_runner.Prelude.Scan.Pieces.{Free}
use echopoint_runner.Prelude.Strings.{is_space, contains}
use echopoint_runner.Prelude.Text.{Text, codes, text_eq}
use echopoint_runner.Prelude.{
  ℕ, true, false, ◌&&◌, [], ◌∷◌, ◌++◌, some, ◌≡◌, refl, ap, ◌∙◌, arith, any,
}
use echopoint_runner.Value.{Value, str, arr, cons, nil, end}

pub operand_line_bare :
    (lib : Conversions) (written op : Text)
    → contains valueless_operators op ≡ true
    → operand_line lib written op end ≡ some (written ++ b' ' ∷ op)
unfolding operand_line
operand_line_bare lib written op bare = rw (valueless_operators-between op bare, bare) refl

pub operand_line_valued :
    (lib : Conversions) (written op v : Text)
    → text_eq op (codes "between") ≡ false
    → contains valueless_operators op ≡ false
    → operand_line lib written op (value_of (str v)) ≡ valued_line written op (some v)
unfolding operand_line
operand_line_valued lib written op v other takes_value = rw (other, takes_value) refl

pub valued_line_plain :
    (written op v : Text)
    → (text_eq op (codes "equals") && text_eq written status_word && status_number v) ≡ false
    → valued_line written op (some v) ≡ some (written ++ b' ' ∷ (op ++ b' ' ∷ v))
unfolding valued_line
valued_line_plain written op [] plain = rw plain refl
valued_line_plain written op (c ∷ v) plain = rw plain refl

pub valued_line_status :
    (written op v : Text)
    → (text_eq op (codes "equals") && text_eq written status_word && status_number v) ≡ true
    → valued_line written op (some v) ≡ some (codes "status: " ++ v)
unfolding valued_line
valued_line_status written op v status = rw status refl

pub space-line_end : (c : ℕ) → is_space c ≡ false → is_line_end c ≡ false
unfolding is_space
space-line_end c h = ground arith

pub space-bound_gap : (c : ℕ) → is_space c ≡ false → is_bound_gap c ≡ false
unfolding is_space
space-bound_gap c h = ground arith

pub Free-bound_gap : (t : Text) → Free is_space t → any is_bound_gap t ≡ false
Free-bound_gap [] h = refl
Free-bound_gap (c ∷ t) h = rw (space-bound_gap c h.0) (Free-bound_gap t h.1)

pub bound_texts-Free :
    (l h : Text) → Free is_space l → Free is_space h → bound_texts (some l) (some h) ≡ some (l, h)
unfolding bound_texts
bound_texts-Free l h low high = rw (Free-bound_gap l low, Free-bound_gap h high) refl

pub Free-line_end : (t : Text) → Free is_space t → Free is_line_end t
Free-line_end [] h = tt
Free-line_end (c ∷ t) h = (space-line_end c h.0, Free-line_end t h.1)

pub operand_line_between :
    (lib : Conversions) (written : Text) (low high : Value) (l h : Text)
    → IsBoundText lib low l
    → IsBoundText lib high h
    → operand_line lib written (codes "between") (value_of (arr (cons low (cons high nil))))
      ≡ some (written ++ b' ' ∷ (codes "between" ++ b' ' ∷ (l ++ b' ' ∷ h)))
unfolding operand_line
operand_line_between lib written low high l h low_text high_text =
    ap₂ (λ a b. between_line written (bound_texts a b)) low_text.written high_text.written
    ∙ ap (between_line written) (bound_texts-Free l h low_text.solid high_text.solid)
