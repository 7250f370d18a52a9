-- ===== src/Webhook/Broken/Growth.antt =====
-- assignRequests of pkg/node/webhook_expectations.go only ever appends to a group's rows.
use mathlib.Core.List.{append-nil, append_assoc}
use echopoint_runner.Checks.{Library}
use echopoint_runner.Webhook.{
  Expectation, Rows, append_row, Assigned, Choice, satisfies, choose, match_groups, claim,
  nothing_chosen, nothing_assigned, assign_one, assign_from, assign_requests,
}
use echopoint_runner.Prelude.{
  ℕ, suc, ◌+◌, ◌≤◌, List, [], ◌∷◌, ◌++◌, Option, none, some, length, length-append, ◌==◌, inl, inr,
  ◌≡◌, refl, sym, ap, ◌∙◌, subst, arith, Bool-cases,
}

-- One list starts with the other.
abbrev pub Starts : {A : Type 0} → List A → List A → Type 0
Starts {A} xs ys = (more : List A) × (ys ≡ xs ++ more)

Starts-refl : {A : Type 0} (xs : List A) → Starts xs xs
Starts-refl xs = ([], sym (append-nil xs))

Starts-trans : {A : Type 0} (xs ys zs : List A) → Starts xs ys → Starts ys zs → Starts xs zs
Starts-trans xs ys zs (m, e) (n, f) = (m ++ n, f ∙ ap (λ t. t ++ n) e ∙ append_assoc xs m n)

pub Starts-length : {A : Type 0} (xs ys : List A) → Starts xs ys → length xs ≤ length ys
Starts-length xs ys (m, e) = let size = ap length e ∙ length-append xs m in omega arith

-- Row by row.
abbrev pub Grown : Rows → Rows → Type 0
Grown rows rows' = (g : ℕ) → Starts (rows g) (rows' g)

Grown-trans : (r s t : Rows) → Grown r s → Grown s t → Grown r t
Grown-trans r s t h k g = Starts-trans (r g) (s g) (t g) (h g) (k g)

append_row-Grown : (rows : Rows) (g item : ℕ) → Grown rows (append_row rows g item)
append_row-Grown rows g item h = elim (Bool-cases (h == g)) [
  | inl same ↦ rw same (item ∷ [], refl)
  | inr other ↦ rw other (Starts-refl (rows h))
]

pub record Grew (a a' : Assigned) : Type 0 where
  pub claims : Grown a.claims a'.claims
  pub matches : Grown a.matches a'.matches

claim-Grew :
    (item : ℕ) (a : Assigned) (m : Choice × Rows) (o : Option ℕ)
    → Grown a.matches m.1
    → Grew a (claim item a m o)
unfolding claim
claim-Grew item a m none h = record { claims = λ g. Starts-refl (a.claims g); matches = h }
claim-Grew item a m (some g) h = record { claims = append_row-Grown a.claims g item; matches = h }

module _ {C : Type 0} (lib : Library) where
  match_groups-Grown :
      (rc : C) (item : ℕ) (claims : Rows) (gs : List (Expectation C)) (index : ℕ) (c : Choice)
      (matches : Rows)
      → Grown matches (match_groups lib rc item claims gs index c matches).1
  unfolding match_groups
  match_groups-Grown rc item claims [] index c matches = λ g. Starts-refl (matches g)
  match_groups-Grown rc item claims (g ∷ gs) index c matches =
      elim (Bool-cases (satisfies lib g rc)) [
        | inl matched ↦
            rw (match_groups, matched)
              (let added = append_row matches index item in
                let c' = choose g index claims c in
                Grown-trans matches added
                  (match_groups lib rc item claims gs (suc index) c' added).1
                  (append_row-Grown matches index item)
                  (match_groups-Grown rc item claims gs (suc index) c' added))
        | inr other ↦
            rw (match_groups, other) (match_groups-Grown rc item claims gs (suc index) c matches)
      ]

  assign_from-Grew :
      (groups : List (Expectation C)) (item : ℕ) (rcs : List C) (a : Assigned)
      → Grew a (assign_from lib groups item rcs a)
  unfolding assign_from assign_one
  assign_from-Grew groups item [] a = record {
    claims = λ g. Starts-refl (a.claims g);
    matches = λ g. Starts-refl (a.matches g);
  }
  assign_from-Grew groups item (rc ∷ rcs) a =
      let m = match_groups lib rc item a.claims groups 0 nothing_chosen a.matches in
      let now =
        claim-Grew item a m (m.0).chosen
          (match_groups-Grown rc item a.claims groups 0 nothing_chosen a.matches) in
      let one = assign_one lib groups item rc a in
      let rest = assign_from lib groups (suc item) rcs one in
      let later = assign_from-Grew groups (suc item) rcs one in
      record {
        claims = Grown-trans a.claims one.claims rest.claims now.claims later.claims;
        matches = Grown-trans a.matches one.matches rest.matches now.matches later.matches;
      }

  assign_from-append :
      (groups : List (Expectation C)) (item : ℕ) (xs ys : List C) (a : Assigned)
      → assign_from lib groups item (xs ++ ys) a
        ≡ assign_from lib groups (item + length xs) ys (assign_from lib groups item xs a)
  unfolding assign_from
  assign_from-append groups item [] ys a = ap (λ k. assign_from lib groups k ys a) (omega arith)
  assign_from-append groups item (x ∷ xs) ys a =
      assign_from-append groups (suc item) xs ys (assign_one lib groups item x a)
      ∙ ap
          (λ k.
            assign_from lib groups k ys
              (assign_from lib groups (suc item) xs (assign_one lib groups item x a)))
          (omega arith)

  pub assign_requests-Grew :
      (groups : List (Expectation C)) (xs ys : List C)
      → Grew (assign_requests lib groups xs) (assign_requests lib groups (xs ++ ys))
  unfolding assign_requests
  assign_requests-Grew groups xs ys =
      subst (Grew (assign_from lib groups 0 xs nothing_assigned))
        (sym (assign_from-append groups 0 xs ys nothing_assigned))
        (assign_from-Grew groups (0 + length xs) ys (assign_from lib groups 0 xs nothing_assigned))
