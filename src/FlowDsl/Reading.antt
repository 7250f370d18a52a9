-- ===== src/FlowDsl/Reading.antt =====
-- What parseExpectLine of pkg/flowdsl/expect.go makes of the parts of a line.
use mathlib.Core.Path.{ap₂}
use echopoint_runner.FlowDsl.Operands.{
  IsBoundText, IsOperatorWord, expect_operators-IsOperatorWord, valueless_operators-between,
}
use echopoint_runner.FlowDsl.Targets.{IsReadable}
use echopoint_runner.FlowDsl.{
  Conversions, ExtractorType, CompositeAssertion, SplitCheck, expect_operators, valueless_operators,
  value_of, is_blank_char, is_line_end, status_number, status_equals, take_target, split_target,
  split_operator, target_data, bound_pair, plain_data, operand_data, assertion, split_assertion,
  parse_check, parse_status, parse_expect_line,
}
use echopoint_runner.Prelude.Scan.Numbers.{atoi-Free}
use echopoint_runner.Prelude.Scan.Pieces.{
  Free, cut-append, cut_whole, trim_left_by_head, trim_right_by-append, is_blank-append,
  trim_space_head, trim_space_space, trim_space-Free, fields_pair,
}
use echopoint_runner.Prelude.Scan.{cut_prefix, trim_left_by, trim_right_by}
use echopoint_runner.Prelude.Strings.{is_space, is_blank, trim_space, atoi, contains}
use echopoint_runner.Prelude.Text.{Text, codes, text_eq}
use echopoint_runner.Prelude.{
  ℕ, Bool, true, false, not, ◌∷◌, ◌++◌, Option, none, some, is_some, ◌≡◌, refl, sym, ap, ◌∙◌, inl,
  inr, arith, if◌then◌else◌, Option-cases, clash,
}
use echopoint_runner.Value.{Value, str, arr, cons, nil, Fields, end}

-- A line that trimming leaves alone and that is no status line is read as a check.
pub parse_expect_line-parse_check :
    (lib : Conversions) (line : Text)
    → trim_right_by is_line_end (trim_left_by is_blank_char line) ≡ line
    → is_blank (trim_space line) ≡ false
    → cut_prefix (codes "status:") line ≡ none
    → parse_expect_line lib line ≡ parse_check lib line
unfolding parse_expect_line
parse_expect_line-parse_check lib line trimmed nonempty other =
    let read = λ (t : Text). parse_status lib t (cut_prefix (codes "status:") t) in
    ap (λ t. if is_blank (trim_space t) then none else read t) trimmed
    ∙ ap (λ b. if b then none else read line) nonempty
    ∙ ap (parse_status lib line) other

pub trim_right_space :
    (t : Text) → trim_right_by is_line_end t ≡ t → trim_right_by is_line_end (b' ' ∷ t) ≡ b' ' ∷ t
unfolding trim_right_by
trim_right_space t h = rw h (ground arith)

pub parse_check-take_target :
    (lib : Conversions) (line target rest : Text)
    → trim_left_by is_blank_char line ≡ line
    → take_target line ≡ some (target, rest)
    → parse_check lib line ≡ split_assertion lib (split_target (some (target, rest)))
unfolding parse_check
parse_check-take_target lib line target rest trimmed took =
    ap (λ t. split_assertion lib (split_target (take_target t))) trimmed
    ∙ ap (λ o. split_assertion lib (split_target o)) took

module _ {type : ExtractorType} {config : Fields} (lib : Conversions) (written : Text)
    (w : IsReadable written type config) where
  pub trim-written :
      (t : Text)
      → trim_right_by is_line_end t ≡ t
      → trim_right_by is_line_end (trim_left_by is_blank_char (written ++ b' ' ∷ t))
        ≡ written ++ b' ' ∷ t
  trim-written t fixed =
      let line = written ++ b' ' ∷ t in
      let head : line ≡ w.first ∷ (w.others ++ b' ' ∷ t) = ap (λ u. u ++ b' ' ∷ t) w.begins in
      ap (λ u. trim_right_by is_line_end (trim_left_by is_blank_char u)) head
      ∙ ap (trim_right_by is_line_end)
          (trim_left_by_head is_blank_char w.first (w.others ++ b' ' ∷ t) w.first_blank ∙ sym head)
      ∙ trim_right_by-append is_line_end written (b' ' ∷ t) (trim_right_space t fixed) refl

  -- Reading a line that begins with a written target is reading what follows it.
  pub parse-written :
      (c : ℕ) (t : Text)
      → is_blank_char c ≡ false
      → trim_right_by is_line_end (c ∷ t) ≡ c ∷ t
      → (target : Text) × (parse_expect_line lib (written ++ b' ' ∷ c ∷ t)
          ≡ split_assertion lib (split_target (some (target, c ∷ t))))
        × (target_data target ≡ some (type, config))
  parse-written c t mark fixed =
      let line = written ++ b' ' ∷ c ∷ t in
      let rest = w.others ++ b' ' ∷ c ∷ t in
      let head : line ≡ w.first ∷ rest = ap (λ u. u ++ b' ' ∷ c ∷ t) w.begins in
      let (target, took, reads) = w.takes c t mark in
      (
        target,
        parse_expect_line-parse_check lib line (trim-written (c ∷ t) fixed)
              (ap (λ u. is_blank (trim_space u)) head ∙ trim_space_head w.first rest w.first_space)
              (w.no_status (c ∷ t))
            ∙ parse_check-take_target lib line target (c ∷ t)
                (ap (trim_left_by is_blank_char) head
                  ∙ trim_left_by_head is_blank_char w.first rest w.first_blank
                  ∙ sym head)
                took,
        reads,
      )

abbrev pub checked : ExtractorType → Fields → Text → Fields → CompositeAssertion
checked type config op operand = record {
  extractor_type = type;
  extractor_data = config;
  operator_type = op;
  operator_data = operand;
}

abbrev pub split_into : Text → Text → Option Text → SplitCheck
split_into target op value = record { target = target; operator = op; value = value }

pub split_target_bare :
    (target op : Text)
    → IsOperatorWord op
    → split_target (some (target, op)) ≡ some (split_into target op none)
unfolding split_target
split_target_bare target op o =
    rw (ap is_blank o.begins) (ap some (ap (split_operator target) (cut_whole b' ' op o.solid)))

pub split_operator_valued :
    (target op v : Text)
    → contains valueless_operators op ≡ false
    → split_operator target (op, some v) ≡ split_into target op (some v)
split_operator_valued target op v h = rw h (ground arith)

pub split_target_valued :
    (target op v : Text)
    → IsOperatorWord op
    → contains valueless_operators op ≡ false
    → split_target (some (target, op ++ b' ' ∷ v)) ≡ some (split_into target op (some v))
unfolding split_target
split_target_valued target op v o h = rw (is_blank-append op (b' ' ∷ v) refl) (
    ap some (
      ap (split_operator target) (cut-append b' ' op v o.solid)
      ∙ split_operator_valued target op v h))

pub split_assertion-checked :
    {type : ExtractorType} {config : Fields} {operand : Fields} (lib : Conversions)
    (target op : Text) (value : Option Text)
    → contains expect_operators op ≡ true
    → target_data target ≡ some (type, config)
    → operand_data lib op value ≡ some operand
    → split_assertion lib (some (split_into target op value))
      ≡ some (checked type config op operand)
unfolding split_assertion
split_assertion-checked {type} {config} {operand} lib target op value known reads holds =
    let read = λ (b : Bool).
      if not b then none else assertion op (target_data target) (operand_data lib op value) in
    ap (λ b. if b then none else read (contains expect_operators op))
      (ap is_blank (expect_operators-IsOperatorWord op known).begins)
    ∙ ap read known
    ∙ ap (λ t. assertion op t (operand_data lib op value)) reads
    ∙ ap (assertion op (some (type, config))) holds

pub operand_data_bare :
    (lib : Conversions) (op : Text)
    → contains valueless_operators op ≡ true
    → operand_data lib op none ≡ some end
unfolding operand_data
operand_data_bare lib op bare =
    rw (valueless_operators-between op bare) (ap (λ b. plain_data b none) bare)

pub operand_data_valued :
    (lib : Conversions) (op v : Text)
    → text_eq op (codes "between") ≡ false
    → contains valueless_operators op ≡ false
    → operand_data lib op (some v) ≡ some (value_of (str v))
unfolding operand_data
operand_data_valued lib op v other takes_value =
    rw other (ap (λ b. plain_data b (some v)) takes_value)

pub operand_data_between :
    (lib : Conversions) (low high : Value) (l h : Text)
    → IsBoundText lib low l
    → IsBoundText lib high h
    → operand_data lib (codes "between") (some (l ++ b' ' ∷ h))
      ≡ some (value_of (arr (cons low (cons high nil))))
unfolding operand_data
operand_data_between lib low high l h low_text high_text =
    ap (bound_pair lib)
      (fields_pair l h low_text.solid high_text.solid low_text.nonempty high_text.nonempty)
    ∙ ap₂ (λ a b. some (value_of (arr (cons a (cons b nil))))) low_text.read high_text.read

pub status_number-Free : (v : Text) → status_number v ≡ true → Free is_space v
unfolding status_number
status_number-Free v number = elim (Option-cases (atoi v)) [
  | inl bad ↦ absurd (clash (is_some (atoi v)) number (ap is_some bad))
  | inr (i, good) ↦ atoi-Free v i good
]

pub parse_status-number :
    (lib : Conversions) (line v : Text)
    → status_number v ≡ true
    → parse_status lib line (some (b' ' ∷ v)) ≡ some (status_equals v)
unfolding parse_status
parse_status-number lib line v number =
    ap (λ t. if status_number t then some (status_equals t) else none)
      (trim_space_space v ∙ trim_space-Free v (status_number-Free v number))
    ∙ ap (λ b. if b then some (status_equals v) else none) number

pub parse_status-status_equals :
    (lib : Conversions) (v : Text)
    → status_number v ≡ true
    → trim_right_by is_line_end v ≡ v
    → parse_expect_line lib (codes "status: " ++ v) ≡ some (status_equals v)
unfolding parse_expect_line
parse_status-status_equals lib v number fixed =
    let line = codes "status: " ++ v in
    let read = λ (t : Text). parse_status lib t (cut_prefix (codes "status:") t) in
    ap (λ t. if is_blank (trim_space t) then none else read t)
      (trim_right_by-append is_line_end (codes "status:") (b' ' ∷ v) (trim_right_space v fixed)
        refl)
    ∙ ap (λ b. if b then none else read line)
        (trim_space_head b's' (codes "tatus: " ++ v) (unfold is_space in refl))
    ∙ parse_status-number lib line v number
