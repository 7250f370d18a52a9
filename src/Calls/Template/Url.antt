-- ===== src/Calls/Template/Url.antt =====
-- PathTemplate of pkg/httpcall/template.go on a whole URL: the scheme, the host and the query drop out.
use mathlib.Core.Path.{ap₂}
use mathlib.Core.List.{append_assoc, append-nil}
use echopoint_runner.Calls.Template.Rendered.{
  Parts, written, shown, is_brace, is_mark, IsPath, Free-weaken, normalize_from-shown,
}
use echopoint_runner.Calls.Template.{
  cut_outside, from_slash, authority_path, normalize_expressions, leads, after_scheme,
  without_authority, or_root, path_template,
}
use echopoint_runner.Prelude.Scan.Pieces.{Free, index-append, drop-append, drop-append_more}
use echopoint_runner.Prelude.Scan.{index}
use echopoint_runner.Prelude.Strings.{trim_space}
use echopoint_runner.Prelude.Text.{Text, codes}
use echopoint_runner.Prelude.{
  ℕ, ◌+◌, true, false, ◌&&◌, ◌||◌, [], ◌∷◌, ◌++◌, some, lt→ltb, ◌==◌, ==_refl, ||→neither, length,
  All-append, length-append, ◌≡◌, refl, sym, ap, ◌∙◌, arith,
}

cut_outside_char :
    (sep depth c : ℕ) (s : Text)
    → is_brace c ≡ false
    → (c == sep && depth == 0) ≡ false
    → cut_outside sep depth (c ∷ s) ≡ c ∷ cut_outside sep depth s
unfolding cut_outside
cut_outside_char sep depth c [] brace here = rw here refl
cut_outside_char sep depth c (d ∷ s) brace here = ground arith

cut_outside-append :
    (sep depth : ℕ) (s t : Text)
    → Free (λ c. is_brace c || (c == sep && depth == 0)) s
    → cut_outside sep depth (s ++ t) ≡ s ++ cut_outside sep depth t
cut_outside-append sep depth [] t h = refl
cut_outside-append sep depth (c ∷ s) t h =
    let (brace, here) = ||→neither (is_brace c) (c == sep && depth == 0) h.0 in
    cut_outside_char sep depth c (s ++ t) brace here
    ∙ ap (◌∷◌ c) (cut_outside-append sep depth s t h.1)

cut_outside_open :
    (sep depth : ℕ) (s : Text)
    → cut_outside sep depth (b'{' ∷ b'{' ∷ s) ≡ b'{' ∷ b'{' ∷ cut_outside sep (depth + 1) s
unfolding cut_outside
cut_outside_open sep depth s = refl

cut_outside_close :
    (sep : ℕ) (s : Text) → cut_outside sep 1 (b'}' ∷ b'}' ∷ s) ≡ b'}' ∷ b'}' ∷ cut_outside sep 0 s
unfolding cut_outside
cut_outside_close sep s = refl

cut_outside_here : (sep : ℕ) (s : Text) → is_brace sep ≡ false → cut_outside sep 0 (sep ∷ s) ≡ []
unfolding cut_outside
cut_outside_here sep [] brace = rw (==_refl sep) refl
cut_outside_here sep (d ∷ s) brace = ground arith

-- A separator outside the expressions and the braces.
abbrev IsSeparator : ℕ → Type 0
IsSeparator sep = (is_brace sep ≡ false) × ((c : ℕ) → is_mark c ≡ false → (c == sep) ≡ false)

module _ (sep : ℕ) (is_sep : IsSeparator sep) where
  Free-lit : (s : Text) → Free is_mark s → Free (λ c. is_brace c || (c == sep && true)) s
  Free-lit s =
      Free-weaken is_mark (λ c. is_brace c || (c == sep && true)) s
        (λ c h. let other = is_sep.1 c h in ground arith)

  Free-expr : (s : Text) → Free is_brace s → Free (λ c. is_brace c || (c == sep && false)) s
  Free-expr s =
      Free-weaken is_brace (λ c. is_brace c || (c == sep && false)) s (λ c h. ground arith)

  cut_outside-written :
      (parts : Parts) (last t : Text)
      → IsPath parts last
      → cut_outside sep 0 t ≡ []
      → cut_outside sep 0 (written parts (last ++ t)) ≡ written parts last
  cut_outside-written [] last t h stops =
      cut_outside-append sep 0 last t (Free-lit last h.1) ∙ ap (◌++◌ last) stops ∙ append-nil last
  cut_outside-written ((lit, expr) ∷ parts) last t h stops =
      let (here, there) = h.0 in
      let rest = written parts (last ++ t) in
      cut_outside-append sep 0 lit (b'{' ∷ b'{' ∷ (expr ++ (b'}' ∷ b'}' ∷ rest)))
        (Free-lit lit here.0)
      ∙ ap (◌++◌ lit) (
          cut_outside_open sep 0 (expr ++ (b'}' ∷ b'}' ∷ rest))
          ∙ ap (λ u. b'{' ∷ b'{' ∷ u)
              (cut_outside-append sep 1 expr (b'}' ∷ b'}' ∷ rest) (Free-expr expr here.1)
                ∙ ap (◌++◌ expr) (
                    cut_outside_close sep rest
                    ∙ ap (λ u. b'}' ∷ b'}' ∷ u)
                        (cut_outside-written parts last t (there, h.1) stops))))

  -- What stands in front of a separator outside the expressions is kept.
  cut_outside-url :
      (s : Text) (parts : Parts) (last t : Text)
      → Free is_mark s
      → IsPath parts last
      → cut_outside sep 0 t ≡ []
      → cut_outside sep 0 (s ++ written parts (last ++ t)) ≡ s ++ written parts last
  cut_outside-url s parts last t hs h stops =
      cut_outside-append sep 0 s (written parts (last ++ t)) (Free-lit s hs)
      ∙ ap (◌++◌ s) (cut_outside-written parts last t h stops)

question : IsSeparator b'?'
question = (refl, λ c h. ground arith)

hash : IsSeparator b'#'
hash = (refl, λ c h. ground arith)

-- The scheme and the host of a URL, with the slash behind them.
abbrev pub origin : Text → Text → Text
origin scheme host = scheme ++ (b':' ∷ b'/' ∷ b'/' ∷ (host ++ (b'/' ∷ [])))

abbrev pub IsOrigin : Text → Text → Type 0
IsOrigin scheme host =
    Free is_mark scheme
    × Free (λ c. b':' == c) scheme
    × Free (λ c. b'/' == c) scheme
    × Free is_mark host
    × Free (λ c. b'/' == c) host

Free-origin : (scheme host : Text) → IsOrigin scheme host → Free is_mark (origin scheme host)
Free-origin scheme host h =
    All-append (λ c. is_mark c ≡ false) scheme (b':' ∷ b'/' ∷ b'/' ∷ (host ++ (b'/' ∷ []))) h.0
      (refl, (refl, (refl, All-append (λ c. is_mark c ≡ false) host (b'/' ∷ []) h.3 (refl, tt))))

origin-append :
    (scheme host t : Text)
    → origin scheme host ++ t ≡ scheme ++ (b':' ∷ b'/' ∷ b'/' ∷ (host ++ (b'/' ∷ t)))
origin-append scheme host t =
    append_assoc scheme (b':' ∷ b'/' ∷ b'/' ∷ (host ++ (b'/' ∷ []))) t
    ∙ ap (λ u. scheme ++ (b':' ∷ b'/' ∷ b'/' ∷ u)) (append_assoc host (b'/' ∷ []) t)

authority_path-host :
    (host t : Text) → Free (λ c. b'/' == c) host → authority_path (host ++ (b'/' ∷ t)) ≡ b'/' ∷ t
unfolding authority_path
authority_path-host host t h =
    ap (from_slash (host ++ (b'/' ∷ t))) (index-append b'/' [] host t h)
    ∙ drop-append host (b'/' ∷ t)

without_authority-leads :
    (path : Text)
    → leads (index (codes "://") path) (index (codes "/") path) ≡ true
    → without_authority path ≡ authority_path (after_scheme path (index (codes "://") path))
unfolding without_authority
without_authority-leads path h = rw h refl

module _ (scheme host t : Text) (h : IsOrigin scheme host) where
  abbrev url : Text
  url = scheme ++ (b':' ∷ b'/' ∷ b'/' ∷ (host ++ (b'/' ∷ t)))

  scheme_end : index (codes "://") url ≡ some (length scheme)
  scheme_end = index-append b':' (codes "//") scheme (host ++ (b'/' ∷ t)) h.1

  first_slash : index (codes "/") url ≡ some (length (scheme ++ (b':' ∷ [])))
  first_slash =
      ap (index (codes "/"))
        (sym (append_assoc scheme (b':' ∷ []) (b'/' ∷ b'/' ∷ (host ++ (b'/' ∷ t)))))
      ∙ index-append b'/' [] (scheme ++ (b':' ∷ [])) (b'/' ∷ (host ++ (b'/' ∷ t)))
          (All-append (λ c. (b'/' == c) ≡ false) scheme (b':' ∷ []) h.2 (refl, tt))

  scheme_leads : leads (index (codes "://") url) (index (codes "/") url) ≡ true
  scheme_leads =
      let size = length-append scheme (b':' ∷ []) in
      ap₂ leads scheme_end first_slash
      ∙ lt→ltb (length scheme) (length (scheme ++ (b':' ∷ []))) (omega arith)

  without_authority-url : without_authority url ≡ b'/' ∷ t
  without_authority-url =
      without_authority-leads url scheme_leads
      ∙ ap (λ o. authority_path (after_scheme url o)) scheme_end
      ∙ ap authority_path (
          drop-append_more scheme (b':' ∷ b'/' ∷ b'/' ∷ (host ++ (b'/' ∷ t))) 3 (length scheme + 3)
            refl)
      ∙ authority_path-host host t h.4

normalize_expressions-shown :
    (parts : Parts) (last : Text)
    → IsPath parts last
    → normalize_expressions (b'/' ∷ written parts last) ≡ b'/' ∷ shown parts last
unfolding normalize_expressions
normalize_expressions-shown [] last h =
    normalize_from-shown (length (b'/' ∷ last)) [] (b'/' ∷ last) (tt, (refl, h.1)) (omega arith)
normalize_expressions-shown ((lit, expr) ∷ parts) last h =
    let (here, there) = h.0 in
    let path = b'/' ∷ written ((lit, expr) ∷ parts) last in
    normalize_from-shown (length path) ((b'/' ∷ lit, expr) ∷ parts) last
      ((((refl, here.0), here.1), there), h.1) (omega arith)

-- PathTemplate of a URL with a scheme, a host, a path with expressions and a query is the path, each
-- expression in single braces and without the white space around it, where no part but the query
-- holds a brace, `?` or `#` outside the expressions.
pub path_template-shown :
    (scheme host query : Text) (parts : Parts) (last : Text)
    → IsOrigin scheme host
    → IsPath parts last
    → trim_space (origin scheme host ++ written parts (last ++ (b'?' ∷ query)))
      ≡ origin scheme host ++ written parts (last ++ (b'?' ∷ query))
    → path_template (origin scheme host ++ written parts (last ++ (b'?' ∷ query)))
      ≡ b'/' ∷ shown parts last
unfolding path_template
path_template-shown scheme host query parts last h path trimmed =
    let o = origin scheme host in
    let marks = Free-origin scheme host h in
    let finish = λ (t : Text). normalize_expressions (or_root (without_authority t)) in
    ap (λ t. finish (cut_outside b'#' 0 (cut_outside b'?' 0 t))) trimmed
    ∙ ap (λ t. finish (cut_outside b'#' 0 t))
        (cut_outside-url b'?' question o parts last (b'?' ∷ query) marks path
          (cut_outside_here b'?' query refl))
    ∙ ap (λ t. finish (cut_outside b'#' 0 (o ++ written parts t))) (sym (append-nil last))
    ∙ ap finish (cut_outside-url b'#' hash o parts last [] marks path (unfold cut_outside in refl))
    ∙ ap finish (origin-append scheme host (written parts last))
    ∙ ap (λ t. normalize_expressions (or_root t))
        (without_authority-url scheme host (written parts last) h)
    ∙ normalize_expressions-shown parts last path
