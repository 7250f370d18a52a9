-- ===== src/Prelude/Lists.antt =====
-- Lists measured, filtered and searched with native numbers and Boolean tests.
use Prim.Native.Nat.{ℕ, zero, suc, ◌+◌, ◌≤◌, ◌<◌}
use mathlib.Core.Path.{◌≡◌, refl, ap, sym, subst, ◌∙◌}
use mathlib.Core.Bool.{Bool, true, false, ◌&&◌, ◌||◌}
use mathlib.Core.List.{List, [], ◌∷◌, ◌++◌}
use mathlib.Core.Option.{Option, none, some}
use native.Mathlib.Omega.{arith}
use mathlib.Core.Logic.{◌⊎◌, inl, inr}
use echopoint_runner.Prelude.Tests.{if◌then◌else◌, Bool-cases}

module _ {ℓ} {A : Type ℓ} where
  abbrev pub length : List A → ℕ
  length [] = 0
  length (x ∷ xs) = suc (length xs)

  pub length-append : (xs ys : List A) → length (xs ++ ys) ≡ length xs + length ys
  length-append [] ys = omega arith
  length-append (x ∷ xs) ys = omega (arith, length-append xs ys)

  abbrev pub take : ℕ → List A → List A
  take zero xs = []
  take (suc n) [] = []
  take (suc n) (x ∷ xs) = x ∷ take n xs

  abbrev pub drop : ℕ → List A → List A
  drop zero xs = xs
  drop (suc n) [] = []
  drop (suc n) (x ∷ xs) = drop n xs

  pub take-append-drop : (n : ℕ) (xs : List A) → take n xs ++ drop n xs ≡ xs
  take-append-drop zero xs = refl
  take-append-drop (suc n) [] = refl
  take-append-drop (suc n) (x ∷ xs) = ap (◌∷◌ x) (take-append-drop n xs)

  -- The elements that pass a test, in order.
  abbrev pub filter_by : (A → Bool) → List A → List A
  filter_by p [] = []
  filter_by p (x ∷ xs) = let rest = filter_by p xs in if p x then x ∷ rest else rest

  abbrev pub count_by : (A → Bool) → List A → ℕ
  count_by p [] = 0
  count_by p (x ∷ xs) = (if p x then 1 else 0) + count_by p xs

  abbrev pub any : (A → Bool) → List A → Bool
  any p [] = false
  any p (x ∷ xs) = p x || any p xs

  abbrev pub all : (A → Bool) → List A → Bool
  all p [] = true
  all p (x ∷ xs) = p x && all p xs

  abbrev pub find_by : (A → Bool) → List A → Option A
  find_by p [] = none
  find_by p (x ∷ xs) = if p x then some x else find_by p xs

  -- A predicate of every element.
  abbrev pub All {κ} : (A → Type κ) → List A → Type κ
  All P [] = Unit
  All P (x ∷ xs) = P x × All P xs

  pub All-append {κ} : (P : A → Type κ) (xs ys : List A) → All P xs → All P ys → All P (xs ++ ys)
  All-append P [] ys hx hy = hy
  All-append P (x ∷ xs) ys hx hy = (hx.0, All-append P xs ys hx.1 hy)

-- Membership with the place kept.
abbrev pub In : {A : Type 0} → A → List A → Type 0
In a [] = ⊥
In a (x ∷ xs) = (a ≡ x) ⊎ In a xs

module _ {A : Type 0} where
  pub All-In {κ} : (P : A → Type κ) (xs : List A) (a : A) → All P xs → In a xs → P a
  All-In P [] a h i = absurd i
  All-In P (x ∷ xs) a h (inl e) = subst P (sym e) h.0
  All-In P (x ∷ xs) a h (inr i) = All-In P xs a h.1 i

  pub All-of_In {κ} : (P : A → Type κ) (xs : List A) → ((a : A) → In a xs → P a) → All P xs
  All-of_In P [] h = tt
  All-of_In P (x ∷ xs) h = (h x (inl refl), All-of_In P xs (λ a i. h a (inr i)))

  pub In-append_left : (xs ys : List A) (a : A) → In a xs → In a (xs ++ ys)
  In-append_left [] ys a i = absurd i
  In-append_left (x ∷ xs) ys a (inl e) = inl e
  In-append_left (x ∷ xs) ys a (inr i) = inr (In-append_left xs ys a i)

  pub In-append_right : (xs ys : List A) (a : A) → In a ys → In a (xs ++ ys)
  In-append_right [] ys a i = i
  In-append_right (x ∷ xs) ys a i = inr (In-append_right xs ys a i)

  -- Counting by a test that holds less often.
  pub count_by-le :
      (p q : A → Bool) (xs : List A)
      → ((a : A) → In a xs → q a ≡ true → p a ≡ true)
      → count_by q xs ≤ count_by p xs
  count_by-le p q [] h = omega arith
  count_by-le p q (x ∷ xs) h =
      let head = h x (inl refl) in
      let rest = count_by-le p q xs (λ a i. h a (inr i)) in ground arith

  pub count_by-lt :
      (p q : A → Bool) (xs : List A) (n : A)
      → ((a : A) → In a xs → q a ≡ true → p a ≡ true)
      → In n xs
      → p n ≡ true
      → q n ≡ false
      → count_by q xs < count_by p xs
  count_by-lt p q [] n h i yes_p no_q = absurd i
  count_by-lt p q (x ∷ xs) n h (inl e) yes_p no_q =
      let rest = count_by-le p q xs (λ a i. h a (inr i)) in
      let yes_x = ap p e in let no_x = ap q e in ground arith
  count_by-lt p q (x ∷ xs) n h (inr i) yes_p no_q =
      let head = h x (inl refl) in
      let rest = count_by-lt p q xs n (λ a j. h a (inr j)) i yes_p no_q in ground arith

  pub count_by-zero :
      (p : A → Bool) (xs : List A) → ((a : A) → In a xs → p a ≡ false) → count_by p xs ≡ 0
  count_by-zero p [] h = refl
  count_by-zero p (x ∷ xs) h =
      let head = h x (inl refl) in
      let rest = count_by-zero p xs (λ a i. h a (inr i)) in ground arith

  pub zero-count_by :
      (p : A → Bool) (xs : List A) (a : A) → count_by p xs ≡ 0 → In a xs → p a ≡ false
  zero-count_by p [] a h i = absurd i
  zero-count_by p (x ∷ xs) a h (inl e) = let same = ap p e in ground arith
  zero-count_by p (x ∷ xs) a h (inr i) = zero-count_by p xs a (ground arith) i

  pub count_by-le-length : (p : A → Bool) (xs : List A) → count_by p xs ≤ length xs
  count_by-le-length p [] = omega arith
  count_by-le-length p (x ∷ xs) = let rest = count_by-le-length p xs in ground arith

  -- A test that is split in two.
  pub count_by-split :
      (p q r : A → Bool) (xs : List A)
      → ((a : A)
          → In a xs
          → (if p a then 1 else 0) ≡ (if q a then 1 else 0) + (if r a then 1 else 0))
      → count_by p xs ≡ count_by q xs + count_by r xs
  count_by-split p q r [] h = omega arith
  count_by-split p q r (x ∷ xs) h =
      let head = h x (inl refl) in
      let rest = count_by-split p q r xs (λ a i. h a (inr i)) in omega arith

  pub In-filter_by :
      (p : A → Bool) (xs : List A) (a : A) → In a (filter_by p xs) → In a xs × (p a ≡ true)
  In-filter_by p [] a i = absurd i
  In-filter_by p (x ∷ xs) a i = elim (Bool-cases (p x)) [
    | inl kept ↦
        let i' : In a (x ∷ filter_by p xs) = rw kept at i in
        elim i' [
          | inl e ↦ (inl e, ap p e ∙ kept)
          | inr j ↦ let (k, q) = In-filter_by p xs a j in (inr k, q)
        ]
    | inr dropped ↦
        let i' : In a (filter_by p xs) = rw dropped at i in
        let (k, q) = In-filter_by p xs a i' in (inr k, q)
  ]

  pub filter_by-In :
      (p : A → Bool) (xs : List A) (a : A) → In a xs → p a ≡ true → In a (filter_by p xs)
  filter_by-In p [] a i h = i
  filter_by-In p (x ∷ xs) a (inl e) h = rw (sym (ap p e) ∙ h) (inl e)
  filter_by-In p (x ∷ xs) a (inr i) h = elim (Bool-cases (p x)) [
    | inl kept ↦ rw kept (inr (filter_by-In p xs a i h))
    | inr dropped ↦ rw dropped (filter_by-In p xs a i h)
  ]

  pub filter_by-nil :
      (p : A → Bool) (xs : List A) → ((a : A) → In a xs → p a ≡ false) → filter_by p xs ≡ []
  filter_by-nil p [] h = refl
  filter_by-nil p (x ∷ xs) h =
      let head = h x (inl refl) in
      let rest = filter_by-nil p xs (λ a i. h a (inr i)) in ground arith

  pub count_by-all :
      (p : A → Bool) (xs : List A) → ((a : A) → In a xs → p a ≡ true) → count_by p xs ≡ length xs
  count_by-all p [] h = refl
  count_by-all p (x ∷ xs) h =
      let head = h x (inl refl) in let rest = count_by-all p xs (λ a i. h a (inr i)) in ground arith
