-- ===== src/Calls/Template/Rendered.antt =====
-- PathTemplate of pkg/httpcall/template.go on URLs written from their parts.
use mathlib.Core.Path.{ap₂}
use echopoint_runner.Calls.Template.{replaced, expression_end, normalize_from}
use echopoint_runner.Prelude.Scan.Pieces.{
  Free, index-append, index-Free, drop-append, drop-append_more, take-append,
}
use echopoint_runner.Prelude.Scan.{index}
use echopoint_runner.Prelude.Strings.{trim_space}
use echopoint_runner.Prelude.Text.{Text, codes}
use echopoint_runner.Prelude.{
  ℕ, zero, suc, ◌+◌, ◌-◌, ◌≤◌, Bool, false, ◌||◌, List, [], ◌∷◌, ◌++◌, some, ◌==◌, length, take,
  drop, All, ◌≡◌, refl, ap, ◌∙◌, arith, length-append,
}

-- A path with expressions: pairs of a text and an expression behind it, and a last text.
abbrev pub Parts : Type 0
Parts = List (Text × Text)

-- The path as a node's URL template holds it.
abbrev pub written : Parts → Text → Text
written [] last = last
written ((lit, expr) ∷ parts) last =
    lit ++ (b'{' ∷ b'{' ∷ (expr ++ (b'}' ∷ b'}' ∷ written parts last)))

-- The path as the calls are grouped by.
abbrev pub shown : Parts → Text → Text
shown [] last = last
shown ((lit, expr) ∷ parts) last = lit ++ (b'{' ∷ (trim_space expr ++ (b'}' ∷ shown parts last)))

abbrev pub is_brace : ℕ → Bool
is_brace c = b'{' == c || b'}' == c

abbrev pub is_mark : ℕ → Bool
is_mark c = is_brace c || b'?' == c || b'#' == c

-- The texts hold no brace, `?` or `#`, and the expressions no brace.
abbrev pub IsPath : Parts → Text → Type 0
IsPath parts last = All (λ p. Free is_mark p.0 × Free is_brace p.1) parts × Free is_mark last

pub Free-weaken :
    (p q : ℕ → Bool) (s : Text) → ((c : ℕ) → p c ≡ false → q c ≡ false) → Free p s → Free q s
Free-weaken p q [] w h = tt
Free-weaken p q (c ∷ s) w h = (w c h.0, Free-weaken p q s w h.1)

Free-open : (s : Text) → Free is_mark s → Free (λ c. b'{' == c) s
Free-open s = Free-weaken is_mark (λ c. b'{' == c) s (λ c h. ground arith)

Free-close : (s : Text) → Free is_brace s → Free (λ c. b'}' == c) s
Free-close s = Free-weaken is_brace (λ c. b'}' == c) s (λ c h. ground arith)

-- The parts that normalizeExpressions cuts a path into at its first expression.
module _ (lit expr rest : Text) where
  abbrev path : Text
  path = lit ++ (b'{' ∷ b'{' ∷ (expr ++ (b'}' ∷ b'}' ∷ rest)))

  abbrev end : ℕ
  end = suc (suc (length expr))

  first_expression : Free is_mark lit → index (codes "{{") path ≡ some (length lit)
  first_expression h =
      index-append b'{' (codes "{") lit (expr ++ (b'}' ∷ b'}' ∷ rest)) (Free-open lit h)

  end_of_expression : Free is_brace expr → index (codes "}}") (drop (length lit) path) ≡ some end
  end_of_expression h =
      ap (index (codes "}}")) (drop-append lit (b'{' ∷ b'{' ∷ (expr ++ (b'}' ∷ b'}' ∷ rest))))
      ∙ index-append b'}' (codes "}") (b'{' ∷ b'{' ∷ expr) rest (refl, (refl, Free-close expr h))

  inside : take (end - 2) (drop (length lit + 2) path) ≡ expr
  inside =
      ap₂ take (omega arith) (
        drop-append_more lit (b'{' ∷ b'{' ∷ (expr ++ (b'}' ∷ b'}' ∷ rest))) 2 (length lit + 2) refl)
      ∙ take-append expr (b'}' ∷ b'}' ∷ rest)

  behind : drop (length lit + end + 2) path ≡ rest
  behind =
      drop-append_more lit (b'{' ∷ b'{' ∷ (expr ++ (b'}' ∷ b'}' ∷ rest))) (end + 2)
        (length lit + end + 2) (omega arith)
      ∙ drop-append_more (b'{' ∷ b'{' ∷ expr) (b'}' ∷ b'}' ∷ rest) 2 (end + 2) refl

  replaced_first :
      (go : Text → Text)
      → replaced go path (some (length lit)) (some end)
        ≡ lit ++ (b'{' ∷ (trim_space expr ++ (b'}' ∷ go rest)))
  replaced_first go =
      ap₂ ◌++◌ (take-append lit (b'{' ∷ b'{' ∷ (expr ++ (b'}' ∷ b'}' ∷ rest))))
        (ap₂ (λ e r. b'{' ∷ (trim_space e ++ (b'}' ∷ go r))) inside behind)

normalize_from_part :
    (f : ℕ) (lit expr rest : Text)
    → Free is_mark lit
    → Free is_brace expr
    → normalize_from (suc f) (path lit expr rest)
      ≡ lit ++ (b'{' ∷ (trim_space expr ++ (b'}' ∷ normalize_from f rest)))
unfolding normalize_from
normalize_from_part f lit expr rest hl he =
    let p = path lit expr rest in
    ap (λ o. replaced (normalize_from f) p o (expression_end p o))
      (first_expression lit expr rest hl)
    ∙ ap (replaced (normalize_from f) p (some (length lit))) (end_of_expression lit expr rest he)
    ∙ replaced_first lit expr rest (normalize_from f)

normalize_from_last : (f : ℕ) (last : Text) → Free is_mark last → normalize_from (suc f) last ≡ last
unfolding normalize_from
normalize_from_last f last h =
    ap (λ o. replaced (normalize_from f) last o (expression_end last o))
      (index-Free b'{' (codes "{") last (Free-open last h))

length-path :
    (lit expr rest : Text)
    → length (path lit expr rest) ≡ length lit + (4 + length expr + length rest)
length-path lit expr rest =
    let outer = length-append lit (b'{' ∷ b'{' ∷ (expr ++ (b'}' ∷ b'}' ∷ rest))) in
    let inner = length-append expr (b'}' ∷ b'}' ∷ rest) in omega arith

-- Every expression of a path is written in single braces, without the white space around it.
pub normalize_from-shown :
    (f : ℕ) (parts : Parts) (last : Text)
    → IsPath parts last
    → length (written parts last) ≤ f
    → normalize_from f (written parts last) ≡ shown parts last
normalize_from-shown zero [] [] h fuel = unfold normalize_from in refl
normalize_from-shown zero [] (c ∷ last) h fuel = absurd (omega arith)
normalize_from-shown (suc f) [] last h fuel = normalize_from_last f last h.1
normalize_from-shown zero ((lit, expr) ∷ parts) last h fuel =
    absurd (let size = length-path lit expr (written parts last) in omega arith)
normalize_from-shown (suc f) ((lit, expr) ∷ parts) last h fuel =
    let size = length-path lit expr (written parts last) in
    let (here, there) = h.0 in
    normalize_from_part f lit expr (written parts last) here.0 here.1
    ∙ ap (λ r. lit ++ (b'{' ∷ (trim_space expr ++ (b'}' ∷ r))))
        (normalize_from-shown f parts last (there, h.1) (omega arith))
