-- ===== src/FlowDsl/Targets.antt =====
-- The targets of checks: what quoteTarget writes is what takeTarget takes off a line.
use echopoint_runner.FlowDsl.Lines.{target_text, is_gap, quote_target}
use echopoint_runner.FlowDsl.{
  Conversions, ExtractorType, status_code, json_path, header, query_param, body, single,
  is_blank_char, text_after, trimmed_after, status_word, take_target, target_data,
}
use echopoint_runner.Prelude.Scan.Pieces.{Free, cut-append, trim_left_by_head}
use echopoint_runner.Prelude.Scan.{cut_prefix}
use echopoint_runner.Prelude.Strings.Quoted.Reading.{unquote_prefix-quote}
use echopoint_runner.Prelude.Strings.Quoted.{valid_rune, quote, quoted_rest, unquote_prefix}
use echopoint_runner.Prelude.Strings.{is_space}
use echopoint_runner.Prelude.Text.{Text, codes, text_eq}
use echopoint_runner.Prelude.{
  ℕ, true, false, [], ◌∷◌, ◌++◌, none, some, ◌≡◌, refl, ap, ◌∙◌, inl, inr, arith, ◌==◌, any, all,
  All, &&→×, Bool-cases, ||→neither, clash,
}
use echopoint_runner.Value.{str, Fields, end}

abbrev pub IsRunes : Text → Type 0
IsRunes = All (λ c. valid_rune c ≡ true)

-- The targets that a flow file can name, with the extractor data that parseCheck gives them.
pub data IsTarget : ExtractorType → Fields → Type 0 where
  of_status : IsTarget status_code end
  of_body : IsTarget body end
  of_path : {p : Text} → IsRunes p → IsTarget json_path (single (codes "path") (str (b'$' ∷ p)))
  of_header :
      {c : ℕ} {name : Text}
      → IsRunes (c ∷ name)
      → IsTarget header (single (codes "header_name") (str (c ∷ name)))
  of_query :
      {c : ℕ} {name : Text}
      → IsRunes (c ∷ name)
      → IsTarget query_param (single (codes "param_name") (str (c ∷ name)))

-- What the reader of a line needs of the text that stands for a target.
pub record IsReadable (written : Text) (type : ExtractorType) (config : Fields) : Type 0 where
  pub first : ℕ
  pub others : Text
  pub begins : written ≡ first ∷ others
  pub first_blank : is_blank_char first ≡ false
  pub first_space : is_space first ≡ false
  pub no_status : (rest : Text) → cut_prefix (codes "status:") (written ++ b' ' ∷ rest) ≡ none
  pub takes :
      (c : ℕ) (rest : Text)
      → is_blank_char c ≡ false
      → (target : Text) × (take_target (written ++ b' ' ∷ c ∷ rest) ≡ some (target, c ∷ rest))
        × (target_data target ≡ some (type, config))
  pub status_only : text_eq written status_word ≡ true → (type ≡ status_code) × (config ≡ end)

Free-gap : (t : Text) → any is_gap t ≡ false → Free (λ c. c == b' ') t
Free-gap [] h = tt
Free-gap (c ∷ t) h =
    let (head, rest) = ||→neither (is_gap c) (any is_gap t) h in (ground arith, Free-gap t rest)

take_target_plain :
    (d : ℕ) (s rest : Text)
    → (b'"' == d) ≡ false
    → any is_gap (d ∷ s) ≡ false
    → take_target ((d ∷ s) ++ b' ' ∷ rest) ≡ some (d ∷ s, rest)
unfolding take_target
take_target_plain d s rest bare solid =
    rw bare (ap some (ap text_after (cut-append b' ' (d ∷ s) rest (Free-gap (d ∷ s) solid))))

take_target_read :
    (u t : Text) (c : ℕ) (rest : Text)
    → unquote_prefix (b'"' ∷ u) ≡ some (t, b' ' ∷ c ∷ rest)
    → is_blank_char c ≡ false
    → take_target (b'"' ∷ u) ≡ some (t, c ∷ rest)
unfolding take_target
take_target_read u t c rest read mark =
    ap trimmed_after read ∙ ap (λ r. some (t, r)) (trim_left_by_head is_blank_char c rest mark)

take_target_quoted :
    (lib : Conversions) (t : Text) (c : ℕ) (rest : Text)
    → IsRunes t
    → is_blank_char c ≡ false
    → take_target (quote lib.wide t ++ b' ' ∷ c ∷ rest) ≡ some (t, c ∷ rest)
unfolding quote
take_target_quoted lib t c rest runes mark =
    take_target_read (quoted_rest lib.wide t ++ b' ' ∷ c ∷ rest) t c rest
      (unquote_prefix-quote lib.wide t (b' ' ∷ c ∷ rest) runes) mark

quoted-IsReadable :
    {type : ExtractorType} {config : Fields} (lib : Conversions) (t : Text)
    → IsRunes t
    → target_data t ≡ some (type, config)
    → IsReadable (quote lib.wide t) type config
unfolding quote
quoted-IsReadable lib t runes reads = record {
  first = b'"';
  others = quoted_rest lib.wide t;
  begins = refl;
  first_blank = refl;
  first_space = unfold is_space in refl;
  no_status = λ rest. unfold cut_prefix in refl;
  takes = λ c rest mark. (t, take_target_quoted lib t c rest runes mark, reads);
  status_only = λ same. absurd (unfold text_eq in clash false same refl);
}

-- A character other than those that "status", a quoted text and white space begin with.
abbrev IsMarked : ℕ → Type 0
IsMarked d =
    ((b'"' == d) ≡ false) × ((b's' == d) ≡ false) × (is_blank_char d ≡ false) × (is_space d ≡ false)

not_status : (d : ℕ) (s : Text) → (b's' == d) ≡ false → text_eq (d ∷ s) status_word ≡ true → ⊥
unfolding text_eq
not_status d s h same = ground arith

written-IsReadable :
    {type : ExtractorType} {config : Fields} (lib : Conversions) (d : ℕ) (s : Text)
    → IsRunes (d ∷ s)
    → IsMarked d
    → target_data (d ∷ s) ≡ some (type, config)
    → IsReadable (quote_target lib (d ∷ s)) type config
unfolding quote_target
written-IsReadable lib d s runes m reads = elim (Bool-cases (any is_gap (d ∷ s))) [
  | inl gap ↦ rw gap (quoted-IsReadable lib (d ∷ s) runes reads)
  | inr solid ↦ rw solid (record {
    first = d;
    others = s;
    begins = refl;
    first_blank = m.2;
    first_space = m.3;
    no_status = λ rest. unfold cut_prefix in rw m.1 refl;
    takes = λ c rest mark. (d ∷ s, take_target_plain d s (c ∷ rest) m.0 solid, reads);
    status_only = λ same. absurd (not_status d s m.1 same);
  })
]

status-IsReadable : (lib : Conversions) → IsReadable (quote_target lib status_word) status_code end
unfolding quote_target
status-IsReadable lib = record {
  first = b's';
  others = codes "tatus";
  begins = refl;
  first_blank = refl;
  first_space = unfold is_space in refl;
  no_status = λ rest. unfold cut_prefix in refl;
  takes = λ c rest mark. (status_word, unfold take_target in refl, unfold target_data in refl);
  status_only = λ same. (refl, refl);
}

abbrev Readable : Conversions → ExtractorType → Fields → Type 0
Readable lib type config =
    (target : Text) × (target_text type config ≡ some target)
    × IsReadable (quote_target lib target) type config

pub IsRunes-append : (s t : Text) → all valid_rune s ≡ true → IsRunes t → IsRunes (s ++ t)
IsRunes-append [] t h runes = runes
IsRunes-append (c ∷ s) t h runes =
    let (head, rest) = &&→× (valid_rune c) (all valid_rune s) h in
    (head, IsRunes-append s t rest runes)

-- Every target has a text that stands for it on a line.
pub IsTarget-Readable :
    {type : ExtractorType} {config : Fields} (lib : Conversions)
    → IsTarget type config
    → Readable lib type config
unfolding target_text target_data valid_rune is_space
IsTarget-Readable lib of_status = (status_word, refl, status-IsReadable lib)
IsTarget-Readable lib of_body = (
  codes "body",
  refl,
  written-IsReadable lib b'b' (codes "ody") (IsRunes-append (codes "body") [] refl tt)
      (refl, refl, refl, refl) refl,
)
IsTarget-Readable lib (of_path {p} runes) =
    (b'$' ∷ p, refl, written-IsReadable lib b'$' p (refl, runes) (refl, refl, refl, refl) refl)
IsTarget-Readable lib (of_header {c} {name} runes) = (
  codes "header:" ++ c ∷ name,
  refl,
  written-IsReadable lib b'h' (codes "eader:" ++ c ∷ name)
      (IsRunes-append (codes "header:") (c ∷ name) refl runes) (refl, refl, refl, refl) refl,
)
IsTarget-Readable lib (of_query {c} {name} runes) = (
  codes "query:" ++ c ∷ name,
  refl,
  written-IsReadable lib b'q' (codes "uery:" ++ c ∷ name)
      (IsRunes-append (codes "query:") (c ∷ name) refl runes) (refl, refl, refl, refl) refl,
)
