-- ===== src/Calls/Template.antt =====
-- pkg/httpcall/template.go: the path of an unresolved URL template.
pub mod Rendered
pub mod Url
use echopoint_runner.Prelude.Scan.{cut_prefix, has_prefix, index, trim_left_by}
use echopoint_runner.Prelude.Strings.{trim_space, is_blank}
use echopoint_runner.Prelude.Text.{Text, codes}
use echopoint_runner.Prelude.{
  ℕ, zero, suc, ◌+◌, ◌-◌, Bool, true, false, ◌&&◌, ◌||◌, List, [], ◌∷◌, ◌++◌, Option, none, some,
  ltb, ◌==◌, length, take, drop, if◌then◌else◌,
}

-- What a character and the next one are to cutOutsideTemplates.
pub data Mark : Type 0 where
  opening : Mark
  closing : Mark
  separator : Mark
  plain : Mark

unfoldable pub mark_at : ℕ → ℕ → ℕ → ℕ → Mark
mark_at sep depth c d =
    if c == b'{' && d == b'{'
    then opening
    else if c == b'}' && d == b'}' && ltb 0 depth
    then closing
    else if c == sep && depth == 0
    then separator
    else plain

-- cutOutsideTemplates, from a depth on
unfoldable pub cut_outside : ℕ → ℕ → Text → Text
unfolding mark_at
cut_outside sep depth [] = []
cut_outside sep depth (c ∷ []) = if c == sep && depth == 0 then [] else c ∷ []
cut_outside sep depth (c ∷ d ∷ s) = elim (mark_at sep depth c d) [
  | opening ↦ c ∷ d ∷ cut_outside sep (depth + 1) s
  | closing ↦ c ∷ d ∷ cut_outside sep (depth - 1) s
  | separator ↦ []
  | plain ↦ c ∷ cut_outside sep depth (d ∷ s)
]

-- cutOutsideTemplates
abbrev pub cut_outside_templates : Text → ℕ → Text
cut_outside_templates value sep = cut_outside sep 0 value

abbrev pub from_slash : Text → Option ℕ → Text
from_slash value none = []
from_slash value (some slash) = drop slash value

-- authorityPath
unfoldable pub authority_path : Text → Text
unfolding index
authority_path value = from_slash value (index (codes "/") value)

abbrev pub replaced : (Text → Text) → Text → Option ℕ → Option ℕ → Text
replaced go path none end = path
replaced go path (some start) none = path
replaced go path (some start) (some end) =
    take start path
    ++ (b'{'
        ∷ (trim_space (take (end - 2) (drop (start + 2) path))
            ++ (b'}' ∷ go (drop (start + end + 2) path))))

abbrev pub expression_end : Text → Option ℕ → Option ℕ
expression_end path none = none
expression_end path (some start) = index (codes "}}") (drop start path)

-- The loop of normalizeExpressions
unfoldable pub normalize_from : ℕ → Text → Text
unfolding index trim_space
normalize_from zero path = path
normalize_from (suc f) path =
    let start = index (codes "{{") path in
    replaced (normalize_from f) path start (expression_end path start)

-- normalizeExpressions: each round drops an expression of four characters or more.
unfoldable pub normalize_expressions : Text → Text
unfolding normalize_from
normalize_expressions path = normalize_from (length path) path

abbrev pub precedes : ℕ → Option ℕ → Bool
precedes scheme none = true
precedes scheme (some slash) = ltb scheme slash

abbrev pub leads : Option ℕ → Option ℕ → Bool
leads none slash = false
leads (some scheme) slash = precedes scheme slash

abbrev pub after_scheme : Text → Option ℕ → Text
after_scheme path none = path
after_scheme path (some scheme) = drop (scheme + 3) path

abbrev pub after_variable : Text → Option ℕ → Text
after_variable path none = path
after_variable path (some end) = trim_left_by (λ c. c == b'}') (drop (end + 2) path)

-- The switch of PathTemplate
unfoldable pub without_authority : Text → Text
unfolding index authority_path cut_prefix trim_left_by
without_authority path =
    let scheme = index (codes "://") path in
    if leads scheme (index (codes "/") path)
    then authority_path (after_scheme path scheme)
    else if has_prefix (codes "//") path
    then authority_path (drop 2 path)
    else if has_prefix (codes "{{") path
    then after_variable path (index (codes "}}") path)
    else path

abbrev pub or_root : Text → Text
or_root [] = b'/' ∷ []
or_root (c ∷ path) = c ∷ path

-- PathTemplate
unfoldable pub path_template : Text → Text
unfolding cut_outside without_authority normalize_expressions trim_space
path_template template =
    let trimmed = trim_space template in
    let path = cut_outside_templates (cut_outside_templates trimmed b'?') b'#' in
    normalize_expressions (or_root (without_authority path))
