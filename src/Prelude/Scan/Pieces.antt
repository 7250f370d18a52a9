-- ===== src/Prelude/Scan/Pieces.antt =====
-- Texts taken apart where a separator stands, or trimmed where there is nothing to trim.
use Prim.Native.Nat.{ℕ, suc, ◌+◌}
use mathlib.Core.Bool.{Bool, true, false}
use mathlib.Core.List.{List, [], ◌∷◌, ◌++◌, reverse, reverse-cons, reverse-reverse}
use mathlib.Core.Logic.{inl, inr}
use mathlib.Core.Option.{none, some}
use mathlib.Core.Path.{◌≡◌, refl, sym, ap, subst, ◌∙◌}
use native.Mathlib.Omega.{arith}
use echopoint_runner.Prelude.Lists.{All, All-append, all, any, length, take, drop}
use echopoint_runner.Prelude.Scan.{
  index, cut_prefix, cut, trim_left_by, trim_right_by, open_fields, fields, all_fields, joined_word,
}
use echopoint_runner.Prelude.Strings.{is_space, trim_left, trim_space, is_blank, contains}
use echopoint_runner.Prelude.Tests.{◌==◌, ==_refl, Bool-cases, clash, &&→×, ||→⊎, ||→neither}
use echopoint_runner.Prelude.Text.{Text, text_eq, eq_of_text_eq}

-- No character passes the test.
abbrev pub Free : (ℕ → Bool) → Text → Type 0
Free p = All (λ c. p c ≡ false)

pub Free-any : (p : ℕ → Bool) (s : Text) → any p s ≡ false → Free p s
Free-any p [] h = tt
Free-any p (c ∷ s) h = let (head, rest) = ||→neither (p c) (any p s) h in (head, Free-any p s rest)

pub cut-append :
    (sep : ℕ) (s t : Text) → Free (λ c. c == sep) s → cut sep (s ++ sep ∷ t) ≡ (s, some t)
unfolding cut
cut-append sep [] t h = rw (==_refl sep) refl
cut-append sep (c ∷ s) t h = rw (h.0, cut-append sep s t h.1) refl

pub cut_whole : (sep : ℕ) (s : Text) → Free (λ c. c == sep) s → cut sep s ≡ (s, none)
unfolding cut
cut_whole sep [] h = refl
cut_whole sep (c ∷ s) h = rw (h.0, cut_whole sep s h.1) refl

pub trim_left_by_head :
    (p : ℕ → Bool) (c : ℕ) (s : Text) → p c ≡ false → trim_left_by p (c ∷ s) ≡ c ∷ s
unfolding trim_left_by
trim_left_by_head p c s h = rw h refl

pub is_blank-append : (s t : Text) → is_blank t ≡ false → is_blank (s ++ t) ≡ false
is_blank-append [] t h = h
is_blank-append (c ∷ s) t h = refl

pub trim_right_by-append :
    (p : ℕ → Bool) (s t : Text)
    → trim_right_by p t ≡ t
    → is_blank t ≡ false
    → trim_right_by p (s ++ t) ≡ s ++ t
unfolding trim_right_by
trim_right_by-append p [] t fixed h = fixed
trim_right_by-append p (c ∷ s) t fixed h =
    rw (trim_right_by-append p s t fixed h) (rw (is_blank-append s t h) refl)

pub trim_right_by-Free : (p : ℕ → Bool) (s : Text) → Free p s → trim_right_by p s ≡ s
unfolding trim_right_by
trim_right_by-Free p [] h = refl
trim_right_by-Free p (c ∷ s) h = rw (trim_right_by-Free p s h.1, h.0) (ground arith)

trim_left_head : (c : ℕ) (s : Text) → is_space c ≡ false → trim_left (c ∷ s) ≡ c ∷ s
unfolding trim_left
trim_left_head c s h = rw h refl

trim_left-Free : (s : Text) → Free is_space s → trim_left s ≡ s
trim_left-Free [] h = unfold trim_left in refl
trim_left-Free (c ∷ s) h = trim_left_head c s h.0

trim_left_end : (s : Text) (c : ℕ) → is_space c ≡ false → is_blank (trim_left (s ++ c ∷ [])) ≡ false
unfolding trim_left
trim_left_end [] c h = rw h refl
trim_left_end (d ∷ s) c h = elim (Bool-cases (is_space d)) [
  | inl space ↦ rw space (trim_left_end s c h)
  | inr mark ↦ rw mark refl
]

is_blank-reverse : (s : Text) → is_blank s ≡ false → is_blank (reverse s) ≡ false
is_blank-reverse [] h = h
is_blank-reverse (c ∷ s) h =
    ap is_blank (reverse-cons c s) ∙ is_blank-append (reverse s) (c ∷ []) refl

Free-reverse : (p : ℕ → Bool) (s : Text) → Free p s → Free p (reverse s)
Free-reverse p [] h = tt
Free-reverse p (c ∷ s) h =
    subst (Free p) (sym (reverse-cons c s))
      (All-append (λ d. p d ≡ false) (reverse s) (c ∷ []) (Free-reverse p s h.1) (h.0, tt))

trim_space-reverse : (s : Text) → trim_space s ≡ reverse (trim_left (reverse (trim_left s)))
unfolding trim_space
trim_space-reverse s = refl

-- A text that begins with a mark is more than white space.
pub trim_space_head :
    (c : ℕ) (s : Text) → is_space c ≡ false → is_blank (trim_space (c ∷ s)) ≡ false
trim_space_head c s h =
    ap is_blank (
      trim_space-reverse (c ∷ s)
      ∙ ap (λ t. reverse (trim_left (reverse t))) (trim_left_head c s h)
      ∙ ap (λ t. reverse (trim_left t)) (reverse-cons c s))
    ∙ is_blank-reverse (trim_left (reverse s ++ c ∷ [])) (trim_left_end (reverse s) c h)

pub trim_space-Free : (s : Text) → Free is_space s → trim_space s ≡ s
trim_space-Free s h =
    trim_space-reverse s
    ∙ ap (λ t. reverse (trim_left (reverse t))) (trim_left-Free s h)
    ∙ ap reverse (trim_left-Free (reverse s) (Free-reverse is_space s h))
    ∙ reverse-reverse s

-- White space in front is trimmed.
pub trim_space_space : (s : Text) → trim_space (b' ' ∷ s) ≡ trim_space s
unfolding trim_space
trim_space_space s = refl

open_fields_word : (s : Text) → Free is_space s → open_fields s ≡ (s, [])
unfolding open_fields
open_fields_word [] h = refl
open_fields_word (c ∷ s) h = rw (h.0, open_fields_word s h.1) refl

joined_word_lem : (s : Text) (ws : List Text) → is_blank s ≡ false → joined_word s ws ≡ s ∷ ws
joined_word_lem [] ws h = absurd (clash true refl h)
joined_word_lem (c ∷ s) ws h = refl

open_fields_pair :
    (s t : Text)
    → Free is_space s
    → Free is_space t
    → is_blank t ≡ false
    → open_fields (s ++ b' ' ∷ t) ≡ (s, t ∷ [])
unfolding open_fields
open_fields_pair [] t hs ht t_blank =
    rw (open_fields_word t ht) (ap (λ ws. ([], ws)) (joined_word_lem t [] t_blank))
open_fields_pair (c ∷ s) t hs ht t_blank = rw (hs.0, open_fields_pair s t hs.1 ht t_blank) refl

-- Two words with a space between them are two fields.
pub fields_pair :
    (s t : Text)
    → Free is_space s
    → Free is_space t
    → is_blank s ≡ false
    → is_blank t ≡ false
    → fields (s ++ b' ' ∷ t) ≡ s ∷ t ∷ []
unfolding fields
fields_pair s t hs ht s_blank t_blank =
    ap all_fields (open_fields_pair s t hs ht t_blank) ∙ joined_word_lem s (t ∷ []) s_blank

-- What holds of each listed text holds of a text that the list contains.
pub contains-all :
    (p : Text → Bool) (ks : List Text) (k : Text)
    → all p ks ≡ true
    → contains ks k ≡ true
    → p k ≡ true
unfolding contains
contains-all p [] k h found = absurd (clash false found refl)
contains-all p (j ∷ js) k h found =
    let (head, rest) = &&→× (p j) (all p js) h in
    elim (||→⊎ (text_eq j k) (contains js k) found) [
      | inl same ↦ sym (ap p (eq_of_text_eq j k same)) ∙ head
      | inr later ↦ contains-all p js k rest later
    ]

pub contains-All {κ} :
    (P : Text → Type κ) (ks : List Text) (k : Text) → All P ks → contains ks k ≡ true → P k
unfolding contains
contains-All P [] k h found = absurd (clash false found refl)
contains-All P (j ∷ js) k h found = elim (||→⊎ (text_eq j k) (contains js k) found) [
  | inl same ↦ subst P (eq_of_text_eq j k same) h.0
  | inr later ↦ contains-All P js k h.1 later
]

pub cut_prefix-append : (s t : Text) → cut_prefix s (s ++ t) ≡ some t
unfolding cut_prefix
cut_prefix-append [] t = refl
cut_prefix-append (c ∷ s) t = rw (==_refl c) (cut_prefix-append s t)

-- The first character of what is searched for is in front of no earlier character.
pub index-append :
    (c : ℕ) (sub s t : Text)
    → Free (λ d. c == d) s
    → index (c ∷ sub) (s ++ c ∷ (sub ++ t)) ≡ some (length s)
unfolding index
index-append c sub [] t h = rw (==_refl c, cut_prefix-append sub t) refl
index-append c sub (d ∷ s) t h = rw (h.0, index-append c sub s t h.1) (ap some (omega arith))

pub index-Free : (c : ℕ) (sub s : Text) → Free (λ d. c == d) s → index (c ∷ sub) s ≡ none
unfolding index
index-Free c sub [] h = refl
index-Free c sub (d ∷ s) h = rw (h.0, index-Free c sub s h.1) refl

pub drop-append : (s t : Text) → drop (length s) (s ++ t) ≡ t
drop-append [] t = refl
drop-append (c ∷ s) t = drop-append s t

suc_plus : (m k : ℕ) → suc m + k ≡ suc (m + k)
suc_plus m k = omega arith

pub drop-append_more : (s t : Text) (k n : ℕ) → n ≡ length s + k → drop n (s ++ t) ≡ drop k t
drop-append_more [] t k n e = ap (λ m. drop m t) (omega (arith, e))
drop-append_more (c ∷ s) t k n e =
    ap (λ m. drop m (c ∷ (s ++ t))) e
    ∙ ap (λ m. drop m (c ∷ (s ++ t))) (suc_plus (length s) k)
    ∙ drop-append_more s t k (length s + k) refl

pub take-append : (s t : Text) → take (length s) (s ++ t) ≡ s
take-append [] t = refl
take-append (c ∷ s) t = ap (◌∷◌ c) (take-append s t)
