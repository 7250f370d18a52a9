-- ===== src/Value/Owner.antt =====
-- Which key a dotted reference is read through: LookupPath of pkg/node/template_resolver.go.
use echopoint_runner.Prelude.{
  ℕ, zero, suc, ◌≤◌, ◌<◌, ◌≡◌, refl, sym, ◌⊎◌, inl, inr, true, false, Option, none, some, take,
  drop, length, is_some, Bool-cases, Option-cases, ◌==◌, ==_iff, subst, arith,
}
use echopoint_runner.Prelude.Text.{Text}
use echopoint_runner.Prelude.Strings.{dot, is_dot_at, split}
use echopoint_runner.Value.{
  Value, walk_path, lookup_dotted, lookup_path, has_dotted_root, has_path_root,
}

-- `v` is found below the value that `get` holds for the prefix of `ref` that ends at the dot `at`,
-- and no longer prefix up to the position `top` is a key.
pub record Owner (ref : Text) (get : Text → Option Value) (top : ℕ) (v : Value) : Type 0 where
  pub at : ℕ
  pub root : Value
  pub inside : 0 < at
  pub dotted : is_dot_at ref at ≡ true
  pub found : get (take at ref) ≡ some root
  pub walked : walk_path root (split dot (drop (suc at) ref)) ≡ some v
  pub longest : (q : ℕ) → at < q → q ≤ top → is_dot_at ref q ≡ true → get (take q ref) ≡ none

module _ (ref : Text) (get : Text → Option Value) (v : Value) where
  Owner-suc :
      (top : ℕ)
      → (is_dot_at ref (suc top) ≡ true → get (take (suc top) ref) ≡ none)
      → Owner ref get top v
      → Owner ref get (suc top) v
  Owner-suc top free o = record {
    at = o.at;
    root = o.root;
    inside = o.inside;
    dotted = o.dotted;
    found = o.found;
    walked = o.walked;
    longest = λ q lt le d. elim (Bool-cases (q == suc top)) [
      | inl same ↦
          let e : q ≡ suc top = (==_iff q (suc top)).0 same in
          subst (λ j. get (take j ref) ≡ none) (sym e)
            (free (subst (λ j. is_dot_at ref j ≡ true) e d))
      | inr other ↦ o.longest q lt (ground arith) d
    ];
  }

  lookup_dotted-Owner : (top : ℕ) → lookup_dotted ref get top ≡ some v → Owner ref get top v
  unfolding lookup_dotted
  lookup_dotted-Owner zero h = cc
  lookup_dotted-Owner (suc p) h = elim (Bool-cases (is_dot_at ref (suc p))) [
    | inr plain ↦ Owner-suc p (λ d. cc) (lookup_dotted-Owner p (ground arith))
    | inl d ↦ elim (Option-cases (get (take (suc p) ref))) [
      | inl unknown ↦ Owner-suc p (λ _. unknown) (lookup_dotted-Owner p (ground arith))
      | inr (root, known) ↦ record {
        at = suc p;
        root = root;
        inside = omega arith;
        dotted = d;
        found = known;
        walked = ground arith;
        longest = λ q lt le. absurd (omega arith);
      }
    ]
  ]

  -- A value that LookupPath finds stands at the reference itself as a key, or below the longest
  -- dotted prefix of it that is a key, reached by the remaining segments.
  pub lookup_path-Owner :
      lookup_path ref get ≡ some v
      → (get ref ≡ some v) ⊎ ((get ref ≡ none) × Owner ref get (length ref) v)
  unfolding lookup_path
  lookup_path-Owner h = elim (Option-cases (get ref)) [
    | inl absent ↦ inr (absent, lookup_dotted-Owner (length ref) (ground arith))
    | inr (w, exact) ↦ inl (ground arith)
  ]

module _ (ref : Text) (get : Text → Option Value) where
  has_dotted_root-lookup :
      (top : ℕ)
      → has_dotted_root ref (λ k. is_some (get k)) top ≡ false
      → lookup_dotted ref get top ≡ none
  unfolding lookup_dotted has_dotted_root
  has_dotted_root-lookup zero h = refl
  has_dotted_root-lookup (suc p) h = ground (arith, has_dotted_root-lookup p)

  -- A reference that has no root among the keys finds no value: the root test of hasFlowInputRoot
  -- and hasPathRoot never rules out a reference that LookupPath can read.
  pub has_path_root-lookup_path :
      has_path_root ref (λ k. is_some (get k)) ≡ false → lookup_path ref get ≡ none
  unfolding lookup_path has_path_root
  has_path_root-lookup_path h = ground (arith, has_dotted_root-lookup (length ref))
