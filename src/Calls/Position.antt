-- ===== src/Calls/Position.antt =====
-- Where Groups of pkg/httpcall/recorder.go keeps the group of a key.
use echopoint_runner.Prelude.{
  ℕ, zero, suc, ◌≡◌, refl, sym, ap, ◌∙◌, subst, inl, inr, Bool, true, false, List, [], ◌∷◌, ◌++◌,
  Option, none, some, filter_by, length, Bool-cases, if◌then◌else◌, arith,
}
use echopoint_runner.Calls.{GroupKey, key_eq, Call, HttpCallGroup, append_call, append_at}
use echopoint_runner.Calls.Gathered.{eq_of_key_eq, groups_with, append_first}

-- Where the group of a key stands.
abbrev later : Option ℕ → Option ℕ
later none = none
later (some i) = some (suc i)

abbrev pub position : GroupKey → List HttpCallGroup → Option ℕ
position k [] = none
position k (g ∷ gs) = let rest = position k gs in if key_eq g.key k then some 0 else later rest

pub no_position : {i : ℕ} → some i ≡ none → ⊥
no_position h = cc

later-none : (o : Option ℕ) → later o ≡ none → o ≡ none
later-none none h = refl
later-none (some i) h = cc

-- The position in the rest, where the head has another key.
later-some : (o : Option ℕ) (i : ℕ) → later o ≡ some i → (p : ℕ) × (o ≡ some p) × (i ≡ suc p)
later-some none i h = cc
later-some (some p) i h = (p, refl, sym (some_inj h))
  where
    some_inj : some (suc p) ≡ some i → suc p ≡ i
    some_inj e = cc

zero_of : (i : ℕ) → some 0 ≡ some i → i ≡ 0
zero_of i h = sym (cc)

pub position-none :
    (k : GroupKey) (gs : List HttpCallGroup) → position k gs ≡ none → groups_with k gs ≡ []
position-none k [] h = refl
position-none k (g ∷ gs) h = elim (Bool-cases (key_eq g.key k)) [
  | inl same ↦ absurd (no_position (rw same at h))
  | inr differs ↦ rw differs (position-none k gs (later-none _ (rw differs at h)))
]

pub position-some :
    (k : GroupKey) (gs : List HttpCallGroup) (i : ℕ)
    → position k gs ≡ some i
    → groups_with k gs ≡ []
    → ⊥
position-some k [] i h e = cc
position-some k (g ∷ gs) i h e = elim (Bool-cases (key_eq g.key k)) [
  | inl same ↦ not_nil (rw same at e)
  | inr differs ↦
      let (p, found, _) = later-some _ i (rw differs at h) in
      position-some k gs p found (rw differs at e)
]
  where
    not_nil : g ∷ groups_with k gs ≡ [] → ⊥
    not_nil x = cc

pub append_at-same :
    (k : GroupKey) (c : Call) (gs : List HttpCallGroup) (i : ℕ)
    → position k gs ≡ some i
    → groups_with k (append_at i c gs) ≡ append_first c (groups_with k gs)
unfolding append_at append_call
append_at-same k c [] i h = cc
append_at-same k c (g ∷ gs) i h = elim (Bool-cases (key_eq g.key k)) [
  | inl same ↦ rw (zero_of i (rw same at h), same) refl
  | inr differs ↦
      let (p, found, e) = later-some _ i (rw differs at h) in
      rw (e, differs) (append_at-same k c gs p found)
]

pub append_at-other :
    (k j : GroupKey) (c : Call) (gs : List HttpCallGroup) (i : ℕ)
    → position k gs ≡ some i
    → key_eq k j ≡ false
    → groups_with j (append_at i c gs) ≡ groups_with j gs
unfolding append_at append_call
append_at-other k j c [] i h apart = cc
append_at-other k j c (g ∷ gs) i h apart = elim (Bool-cases (key_eq g.key k)) [
  | inl same ↦
      let e = eq_of_key_eq g.key k same in
      let off : key_eq g.key j ≡ false = subst (λ l. key_eq l j ≡ false) (sym e) apart in
      rw (zero_of i (rw same at h), off) refl
  | inr differs ↦
      let (p, found, e) = later-some _ i (rw differs at h) in
      let rest = append_at-other k j c gs p found apart in
      elim (Bool-cases (key_eq g.key j)) [
        | inl here ↦ rw (e, here) (ap (◌∷◌ g) rest)
        | inr off ↦ rw (e, off) rest
      ]
]

pub position-append_at :
    (j : GroupKey) (c : Call) (gs : List HttpCallGroup) (i : ℕ)
    → position j (append_at i c gs) ≡ position j gs
unfolding append_at append_call
position-append_at j c [] i = refl
position-append_at j c (g ∷ gs) zero = refl
position-append_at j c (g ∷ gs) (suc i) = elim (Bool-cases (key_eq g.key j)) [
  | inl here ↦ rw here refl
  | inr off ↦ rw off (ap later (position-append_at j c gs i))
]

abbrev pub or_last : Option ℕ → Bool → ℕ → Option ℕ
or_last (some i) b n = some i
or_last none b n = if b then some n else none

later-or_last :
    (o : Option ℕ) (b : Bool) (n : ℕ) → later (or_last o b n) ≡ or_last (later o) b (suc n)
later-or_last (some i) b n = refl
later-or_last none true n = refl
later-or_last none false n = refl

pub position-append :
    (j : GroupKey) (gs : List HttpCallGroup) (g : HttpCallGroup)
    → position j (gs ++ g ∷ []) ≡ or_last (position j gs) (key_eq g.key j) (length gs)
position-append j [] g = elim (Bool-cases (key_eq g.key j)) [
  | inl here ↦ rw here refl
  | inr off ↦ rw off refl
]
position-append j (h ∷ gs) g = elim (Bool-cases (key_eq h.key j)) [
  | inl here ↦ rw here refl
  | inr off ↦ rw off (
      ap later (position-append j gs g)
      ∙ later-or_last (position j gs) (key_eq g.key j) (length gs)
      ∙ ap (or_last (later (position j gs)) (key_eq g.key j)) (omega arith))
]

pub filter_by-append {ℓ} :
    {A : Type ℓ} (p : A → Bool) (xs ys : List A)
    → filter_by p (xs ++ ys) ≡ filter_by p xs ++ filter_by p ys
filter_by-append p [] ys = refl
filter_by-append p (x ∷ xs) ys = elim (Bool-cases (p x)) [
  | inl kept ↦ rw kept (ap (◌∷◌ x) (filter_by-append p xs ys))
  | inr dropped ↦ rw dropped (filter_by-append p xs ys)
]
