-- ===== src/Webhook/Claims/Owners.antt =====
-- The outer loop of assignRequests in pkg/node/webhook_expectations.go: every request has its owner.
use echopoint_runner.Checks.{Library}
use echopoint_runner.Webhook.Claims.{
  At, Fits, In-append_row, append_row-keeps, append_row-own, IsMatched, match_groups-IsMatched,
  some_index,
}
use echopoint_runner.Webhook.{
  Expectation, Rows, append_row, Assigned, Choice, match_groups, owned_by, claim, nothing_chosen,
  nothing_assigned, assign_one, assign_from, assign_requests,
}
use echopoint_runner.Prelude.{
  ℕ, suc, ◌<◌, true, false, List, [], ◌∷◌, Option, none, some, is_some, ◌==◌, In, ◌≡◌, refl, sym,
  ap, ◌∙◌, subst, ◌⊎◌, inl, inr, arith, Bool-cases, clash, ==_iff, ==_refl,
}

owned_by-other :
    (owner : ℕ → Option ℕ) (item g i : ℕ) → i < item → owned_by owner item g i ≡ owner i
owned_by-other owner item g i lt = ground arith

owned_by-own : (owner : ℕ → Option ℕ) (item g i : ℕ) → i ≡ item → owned_by owner item g i ≡ some g
owned_by-own owner item g i e = rw e (rw (==_refl item) refl)

owned_by-split :
    (owner : ℕ → Option ℕ) (item g i h : ℕ)
    → owned_by owner item g i ≡ some h
    → ((i ≡ item) × (h ≡ g)) ⊎ (owner i ≡ some h)
owned_by-split owner item g i h e = elim (Bool-cases (i == item)) [
  | inl same ↦ inl ((==_iff i item).0 same, some_index g h (rw same at e))
  | inr other ↦ inr (rw other at e)
]

module _ {C : Type 0} (lib : Library) (groups : List (Expectation C)) where
  -- The request, by its context, satisfies the group at a place.
  abbrev pub Meets : C → ℕ → Type 0
  Meets rc g = Fits lib rc groups 0 g

  -- The claims and matches of the requests that `Done` tells, with their places.
  pub record IsAssigned (Done : ℕ → C → Type 0) (a : Assigned) : Type 0 where
    pub claimed : (g i : ℕ) → In i (a.claims g) → a.claimed_by i ≡ some g
    pub claims : (g i : ℕ) → a.claimed_by i ≡ some g → In i (a.claims g)
    pub claim_meets : (g i : ℕ) → a.claimed_by i ≡ some g → (rc : C) × Done i rc × Meets rc g
    pub match_meets : (g i : ℕ) → In i (a.matches g) → (rc : C) × Done i rc × Meets rc g
    pub meets_match : (g i : ℕ) (rc : C) → Done i rc → Meets rc g → In i (a.matches g)
    pub meets_claim : (g i : ℕ) (rc : C) → Done i rc → Meets rc g → is_some (a.claimed_by i) ≡ true

  abbrev Now : (ℕ → C → Type 0) → ℕ → C → ℕ → C → Type 0
  Now Done item rc i rc' = Done i rc' ⊎ ((i ≡ item) × (rc' ≡ rc))

  abbrev IsFresh : (ℕ → C → Type 0) → ℕ → Type 0
  IsFresh Done item = (i : ℕ) (rc : C) → Done i rc → i < item

  match-Now :
      (Done : ℕ → C → Type 0) (item : ℕ) (rc : C) (a : Assigned) (m : Choice × Rows)
      → IsMatched lib rc groups 0 item nothing_chosen a.matches m
      → IsAssigned Done a
      → ((g i : ℕ) → In i (m.1 g) → (rc' : C) × Now Done item rc i rc' × Meets rc' g)
        × ((g i : ℕ) (rc' : C) → Now Done item rc i rc' → Meets rc' g → In i (m.1 g))
  match-Now Done item rc a m s h = (before_or_now, still)
    where
      before_or_now : (g i : ℕ) → In i (m.1 g) → (rc' : C) × Now Done item rc i rc' × Meets rc' g
      before_or_now g i found = elim (s.rows_from g i found) [
        | inl old ↦ let (rc', done, meets) = h.match_meets g i old in (rc', inl done, meets)
        | inr (new, fits) ↦ (rc, inr (new, refl), fits)
      ]

      still : (g i : ℕ) (rc' : C) → Now Done item rc i rc' → Meets rc' g → In i (m.1 g)
      still g i rc' (inl done) meets = s.rows_keep g i (h.meets_match g i rc' done meets)
      still g i rc' (inr (new, same)) meets =
          subst (λ k. In k (m.1 g)) (sym new) (s.rows_gain g (subst (λ x. Meets x g) same meets))

  claim-IsAssigned :
      (Done : ℕ → C → Type 0) (item : ℕ) (rc : C) (a : Assigned) (m : Choice × Rows) (o : Option ℕ)
      → (m.0).chosen ≡ o
      → IsMatched lib rc groups 0 item nothing_chosen a.matches m
      → IsFresh Done item
      → IsAssigned Done a
      → IsAssigned (Now Done item rc) (claim item a m o)
  unfolding claim
  claim-IsAssigned Done item rc a m none e s fresh h =
      let (match_meets, meets_match) = match-Now Done item rc a m s h in
      record {
        claimed = h.claimed;
        claims = h.claims;
        claim_meets =
            λ g i owner. let (rc', done, meets) = h.claim_meets g i owner in (rc', inl done, meets);
        match_meets = match_meets;
        meets_match = meets_match;
        meets_claim = λ g i rc' now meets. elim now [
          | inl done ↦ h.meets_claim g i rc' done meets
          | inr (new, same) ↦ absurd (
              clash (is_some (m.0).chosen) (s.chooses g (subst (λ x. Meets x g) same meets))
                (ap is_some e))
        ];
      }
  claim-IsAssigned Done item rc a m (some g) e s fresh h =
      let (match_meets, meets_match) = match-Now Done item rc a m s h in
      record {
        claimed = λ g' i found. elim (In-append_row a.claims g item g' i found) [
          | inl old ↦
              let owner = h.claimed g' i old in
              let (rc', done, meets) = h.claim_meets g' i owner in
              owned_by-other a.claimed_by item g i (fresh i rc' done) ∙ owner
          | inr (new, same) ↦ owned_by-own a.claimed_by item g i new ∙ ap some (sym same)
        ];
        claims = λ g' i owner. elim (owned_by-split a.claimed_by item g i g' owner) [
          | inl (new, same) ↦
              subst (λ k. In i (append_row a.claims g item k)) (sym same)
                (subst (λ k. In k (append_row a.claims g item g)) (sym new)
                  (append_row-own a.claims g item))
          | inr old ↦ append_row-keeps a.claims g item g' i (h.claims g' i old)
        ];
        claim_meets = λ g' i owner. elim (owned_by-split a.claimed_by item g i g' owner) [
          | inl (new, same) ↦ elim (s.origin g e) [
            | inl never ↦ absurd (clash true refl (sym (ap is_some never)))
            | inr fits ↦ (rc, inr (new, refl), subst (Meets rc) (sym same) fits)
          ]
          | inr old ↦ let (rc', done, meets) = h.claim_meets g' i old in (rc', inl done, meets)
        ];
        match_meets = match_meets;
        meets_match = meets_match;
        meets_claim = λ g' i rc' now meets. elim now [
          | inl done ↦
              ap is_some (owned_by-other a.claimed_by item g i (fresh i rc' done))
              ∙ h.meets_claim g' i rc' done meets
          | inr (new, same) ↦ ap is_some (owned_by-own a.claimed_by item g i new)
        ];
      }

  same_requests :
      (Done Done' : ℕ → C → Type 0) (a : Assigned)
      → ((i : ℕ) (rc : C) → Done i rc → Done' i rc)
      → ((i : ℕ) (rc : C) → Done' i rc → Done i rc)
      → IsAssigned Done a
      → IsAssigned Done' a
  same_requests Done Done' a to from h = record {
    claimed = h.claimed;
    claims = h.claims;
    claim_meets =
        λ g i owner. let (rc, done, meets) = h.claim_meets g i owner in (rc, to i rc done, meets);
    match_meets =
        λ g i found. let (rc, done, meets) = h.match_meets g i found in (rc, to i rc done, meets);
    meets_match = λ g i rc done. h.meets_match g i rc (from i rc done);
    meets_claim = λ g i rc done. h.meets_claim g i rc (from i rc done);
  }

  assign_one-IsAssigned :
      (Done : ℕ → C → Type 0) (item : ℕ) (rc : C) (a : Assigned)
      → IsFresh Done item
      → IsAssigned Done a
      → IsAssigned (Now Done item rc) (assign_one lib groups item rc a)
  unfolding assign_one
  assign_one-IsAssigned Done item rc a fresh h =
      let m = match_groups lib rc item a.claims groups 0 nothing_chosen a.matches in
      claim-IsAssigned Done item rc a m (m.0).chosen refl
        (match_groups-IsMatched lib rc item a.claims groups 0 nothing_chosen a.matches
          (λ e. absurd (clash false e refl)))
        fresh h

  Now-IsFresh :
      (Done : ℕ → C → Type 0) (item : ℕ) (rc : C)
      → IsFresh Done item
      → IsFresh (Now Done item rc) (suc item)
  Now-IsFresh Done item rc fresh i rc' (inl done) = let before = fresh i rc' done in omega arith
  Now-IsFresh Done item rc fresh i rc' (inr (new, same)) = omega arith

  assign_from-IsAssigned :
      (Done : ℕ → C → Type 0) (item : ℕ) (rcs : List C) (a : Assigned)
      → IsFresh Done item
      → IsAssigned Done a
      → IsAssigned (λ i rc. Done i rc ⊎ At rcs item i rc) (assign_from lib groups item rcs a)
  unfolding assign_from
  assign_from-IsAssigned Done item [] a fresh h =
      same_requests Done (λ i rc. Done i rc ⊎ At [] item i rc) a (λ i rc. inl)
        (λ i rc d. elim d [ inl done ↦ done | inr never ↦ absurd never ]) h
  assign_from-IsAssigned Done item (rc ∷ rcs) a fresh h =
      same_requests (λ i rc'. Now Done item rc i rc' ⊎ At rcs (suc item) i rc')
        (λ i rc'. Done i rc' ⊎ At (rc ∷ rcs) item i rc')
        (assign_from lib groups (suc item) rcs (assign_one lib groups item rc a))
        (λ i rc' d. elim d [
          | inl now ↦ elim now [ inl done ↦ inl done | inr new ↦ inr (inl new) ]
          | inr later ↦ inr (inr later)
        ])
        (λ i rc' d. elim d [
          | inl done ↦ inl (inl done)
          | inr place ↦ elim place [ inl new ↦ inl (inr new) | inr later ↦ inr later ]
        ])
        (assign_from-IsAssigned (Now Done item rc) (suc item) rcs (assign_one lib groups item rc a)
          (Now-IsFresh Done item rc fresh) (assign_one-IsAssigned Done item rc a fresh h))

  -- In assignRequests, each request belongs to at most one expected event: a group's claims are just the
  -- requests that the map names it the owner of, and the owner is a group that the request satisfies. A
  -- group's matches are just the requests that satisfy it, and whatever satisfies some group has an owner.
  pub assign_requests-IsAssigned :
      (contexts : List C) → IsAssigned (At contexts 0) (assign_requests lib groups contexts)
  unfolding assign_requests
  assign_requests-IsAssigned contexts =
      same_requests (λ i rc. ⊥ ⊎ At contexts 0 i rc) (At contexts 0)
        (assign_from lib groups 0 contexts nothing_assigned)
        (λ i rc d. elim d [ inl never ↦ absurd never | inr at_place ↦ at_place ]) (λ i rc. inr)
        (assign_from-IsAssigned (λ i rc. ⊥) 0 contexts nothing_assigned (λ i rc never. absurd never)
          (record {
            claimed = λ g i never. absurd never;
            claims = λ g i e. absurd (clash false (ap is_some e) refl);
            claim_meets = λ g i e. absurd (clash false (ap is_some e) refl);
            match_meets = λ g i never. absurd never;
            meets_match = λ g i rc never. absurd never;
            meets_claim = λ g i rc never. absurd never;
          }))
