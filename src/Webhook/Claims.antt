-- ===== src/Webhook/Claims.antt =====
-- assignRequests of pkg/node/webhook_expectations.go: who claims a request, and whom it matches.
pub mod Owners
use echopoint_runner.Checks.{Library}
use echopoint_runner.Webhook.{
  Expectation, minimum, below, Rows, append_row, Assigned, Choice, satisfies, choose, match_groups,
  owned_by, claim, nothing_chosen, nothing_assigned, assign_one, assign_from, assign_requests,
}
use echopoint_runner.Prelude.{
  ℕ, zero, suc, ◌≤◌, ◌<◌, Bool, true, false, length, List, [], ◌∷◌, ◌++◌, Option, none, some,
  is_some, ◌==◌, if◌then◌else◌, In, In-append_left, In-append_right, ◌≡◌, refl, sym, ap, ◌∙◌, subst,
  ◌⊎◌, inl, inr, arith, Bool-cases, clash, ==_iff, ==_refl,
}

-- An element and its place, counted from a start.
abbrev pub At : {A : Type 0} → List A → ℕ → ℕ → A → Type 0
At [] start i a = ⊥
At (x ∷ xs) start i a = ((i ≡ start) × (a ≡ x)) ⊎ At xs (suc start) i a

At-le : {A : Type 0} (xs : List A) (start i : ℕ) (a : A) → At xs start i a → start ≤ i
At-le [] start i a h = absurd h
At-le (x ∷ xs) start i a (inl h) = let e = h.0 in omega arith
At-le (x ∷ xs) start i a (inr h) = let later = At-le xs (suc start) i a h in omega arith

In-append : {A : Type 0} (xs : List A) (y a : A) → In a (xs ++ y ∷ []) → In a xs ⊎ (a ≡ y)
In-append [] y a (inl e) = inr e
In-append [] y a (inr h) = absurd h
In-append (x ∷ xs) y a (inl e) = inl (inl e)
In-append (x ∷ xs) y a (inr h) = elim (In-append xs y a h) [ inl i ↦ inl (inr i) | inr e ↦ inr e ]

-- A row that something was appended to.
In-append_row :
    (rows : Rows) (g item h i : ℕ)
    → In i (append_row rows g item h)
    → In i (rows h) ⊎ ((i ≡ item) × (h ≡ g))
In-append_row rows g item h i found = elim (Bool-cases (h == g)) [
  | inl same ↦ elim (In-append (rows h) item i (rw same at found)) [
    | inl old ↦ inl old
    | inr new ↦ inr (new, (==_iff h g).0 same)
  ]
  | inr other ↦ inl (rw other at found)
]

append_row-keeps : (rows : Rows) (g item h i : ℕ) → In i (rows h) → In i (append_row rows g item h)
append_row-keeps rows g item h i found = elim (Bool-cases (h == g)) [
  | inl same ↦ rw same (In-append_left (rows h) (item ∷ []) i found)
  | inr other ↦ rw other found
]

append_row-own : (rows : Rows) (g item : ℕ) → In item (append_row rows g item g)
append_row-own rows g item = rw (==_refl g) (In-append_right (rows g) (item ∷ []) item (inl refl))

module _ {C : Type 0} (lib : Library) (rc : C) where
  -- A group, by its place, that the request satisfies.
  abbrev pub Fits : List (Expectation C) → ℕ → ℕ → Type 0
  Fits groups start g = (e : Expectation C) × At groups start g e × (satisfies lib e rc ≡ true)

  Fits-later :
      (g : Expectation C) (gs : List (Expectation C)) (index h : ℕ)
      → Fits gs (suc index) h
      → Fits (g ∷ gs) index h
  Fits-later g gs index h (e, place, holds) = (e, inr place, holds)

  Fits-split :
      (g : Expectation C) (gs : List (Expectation C)) (index h : ℕ)
      → Fits (g ∷ gs) index h
      → ((h ≡ index) × (satisfies lib g rc ≡ true)) ⊎ Fits gs (suc index) h
  Fits-split g gs index h (e, inl (place, same), holds) =
      inl (place, subst (λ x. satisfies lib x rc ≡ true) same holds)
  Fits-split g gs index h (e, inr place, holds) = inr (e, place, holds)

  Fits-only_later :
      (g : Expectation C) (gs : List (Expectation C)) (index h : ℕ)
      → satisfies lib g rc ≡ false
      → Fits (g ∷ gs) index h
      → Fits gs (suc index) h
  Fits-only_later g gs index h other fits = elim (Fits-split g gs index h fits) [
    | inl (place, holds) ↦ absurd (clash (satisfies lib g rc) holds other)
    | inr later ↦ later
  ]

or_else_by : {A B D : Type 0} → A ⊎ B → (B → D) → A ⊎ D
or_else_by (inl a) f = inl a
or_else_by (inr b) f = inr (f b)

abbrev IsReady : Choice → Type 0
IsReady c = c.needed ≡ true → is_some c.chosen ≡ true

-- The switch of the inner loop has a choice behind it: the one before, or this group.
record IsChosen (index : ℕ) (c c' : Choice) : Type 0 where
  some_group : is_some c'.chosen ≡ true
  origin : (h : ℕ) → c'.chosen ≡ some h → (c.chosen ≡ some h) ⊎ (h ≡ index)

some_index : (index h : ℕ) → some index ≡ some h → h ≡ index
some_index index h e = cc

choose-IsChosen :
    {C : Type 0} (g : Expectation C) (index : ℕ) (claims : Rows) (c : Choice)
    → IsReady c
    → IsChosen index c (choose g index claims c)
unfolding choose
choose-IsChosen g index claims c ready = elim (Bool-cases c.needed) [
  | inl needed ↦ rw needed (record { some_group = ready needed; origin = λ h e. inl e })
  | inr free ↦ elim (Bool-cases (below (length (claims index)) (minimum g))) [
    | inl short ↦
        rw (free, short) (record { some_group = refl; origin = λ h e. inr (some_index index h e) })
    | inr full ↦ elim (Bool-cases (is_some c.chosen)) [
      | inl taken ↦ rw (free, full, taken) (record { some_group = taken; origin = λ h e. inl e })
      | inr none_yet ↦
          rw (free, full, none_yet)
            (record { some_group = refl; origin = λ h e. inr (some_index index h e) })
    ]
  ]
]

-- What the inner loop, from a group on, makes of a choice and of the rows of matches.
record IsMatched {C : Type 0} (lib : Library) (rc : C) (gs : List (Expectation C)) (index item : ℕ)
    (c : Choice) (matches : Rows) (res : Choice × Rows) : Type 0 where
  origin : (h : ℕ) → (res.0).chosen ≡ some h → (c.chosen ≡ some h) ⊎ Fits lib rc gs index h
  keeps_choice : is_some c.chosen ≡ true → is_some (res.0).chosen ≡ true
  chooses : (h : ℕ) → Fits lib rc gs index h → is_some (res.0).chosen ≡ true
  rows_from : (h i : ℕ) → In i (res.1 h) → In i (matches h) ⊎ ((i ≡ item) × Fits lib rc gs index h)
  rows_keep : (h i : ℕ) → In i (matches h) → In i (res.1 h)
  rows_gain : (h : ℕ) → Fits lib rc gs index h → In item (res.1 h)

module _ {C : Type 0} (lib : Library) (rc : C) (item : ℕ) (claims : Rows) where
  match_groups-IsMatched :
      (gs : List (Expectation C)) (index : ℕ) (c : Choice) (matches : Rows)
      → IsReady c
      → IsMatched lib rc gs index item c matches
          (match_groups lib rc item claims gs index c matches)
  unfolding match_groups
  match_groups-IsMatched [] index c matches ready = record {
    origin = λ h e. inl e;
    keeps_choice = λ e. e;
    chooses = λ h fits. absurd fits.1;
    rows_from = λ h i found. inl found;
    rows_keep = λ h i found. found;
    rows_gain = λ h fits. absurd fits.1;
  }
  match_groups-IsMatched (g ∷ gs) index c matches ready = elim (Bool-cases (satisfies lib g rc)) [
    | inl matched ↦ rw matched (
        let chosen = choose-IsChosen g index claims c ready in
        let here : Fits lib rc (g ∷ gs) index index = (g, inl (refl, refl), matched) in
        let rest =
          match_groups-IsMatched gs (suc index) (choose g index claims c)
            (append_row matches index item) (λ e. chosen.some_group) in
        record {
          origin = λ h e. elim (rest.origin h e) [
            | inl before ↦
                or_else_by (chosen.origin h before)
                  (λ same. subst (Fits lib rc (g ∷ gs) index) (sym same) here)
            | inr fits ↦ inr (Fits-later lib rc g gs index h fits)
          ];
          keeps_choice = λ e. rest.keeps_choice chosen.some_group;
          chooses = λ h fits. rest.keeps_choice chosen.some_group;
          rows_from = λ h i found. elim (rest.rows_from h i found) [
            | inl before ↦
                or_else_by (In-append_row matches index item h i before)
                  (λ (new, same). (new, subst (Fits lib rc (g ∷ gs) index) (sym same) here))
            | inr (new, fits) ↦ inr (new, Fits-later lib rc g gs index h fits)
          ];
          rows_keep =
              λ h i found. rest.rows_keep h i (append_row-keeps matches index item h i found);
          rows_gain = λ h fits. elim (Fits-split lib rc g gs index h fits) [
            | inl (place, holds) ↦ rest.rows_keep h item (
                subst (λ k. In item (append_row matches index item k)) (sym place)
                  (append_row-own matches index item))
            | inr later ↦ rest.rows_gain h later
          ];
        })
    | inr other ↦ rw other (
        let rest = match_groups-IsMatched gs (suc index) c matches ready in
        record {
          origin = λ h e. or_else_by (rest.origin h e) (Fits-later lib rc g gs index h);
          keeps_choice = rest.keeps_choice;
          chooses = λ h fits. rest.chooses h (Fits-only_later lib rc g gs index h other fits);
          rows_from = λ h i found.
              or_else_by (rest.rows_from h i found)
                (λ (new, fits). (new, Fits-later lib rc g gs index h fits));
          rows_keep = rest.rows_keep;
          rows_gain = λ h fits. rest.rows_gain h (Fits-only_later lib rc g gs index h other fits);
        })
  ]
