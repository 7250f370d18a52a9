-- ===== src/Calls/Groups.antt =====
-- Groups of pkg/httpcall/recorder.go against a description key by key.
use echopoint_runner.Prelude.{
  ℕ, ◌≡◌, refl, sym, ap, ◌∙◌, subst, inl, inr, Bool, true, false, List, [], ◌∷◌, ◌++◌, Option, none,
  some, length, Bool-cases, if◌then◌else◌,
}
use mathlib.Core.List.{append-nil, append_assoc}
use echopoint_runner.Calls.{
  GroupKey, key_eq, Call, HttpCallGroup, append_call, new_group, sort_calls, append_at, Index,
  enter_key, place_call, group_calls, groups_of,
}
use echopoint_runner.Calls.Gathered.{
  eq_of_key_eq, of_call, of_group, calls_with, groups_with, append_all, gathered, append_first,
  gathered-snoc,
}
use echopoint_runner.Calls.Ordered.{
  IsStableOrder, sort_calls-IsStableOrder, described, gathered-described,
}
use echopoint_runner.Calls.Position.{
  position, or_last, position-none, position-some, append_at-same, append_at-other,
  position-append_at, position-append, filter_by-append,
}

-- The loop's variables after the calls `seen`.
record Placed (index : Index) (gs : List HttpCallGroup) (seen : List Call) : Type 0 where
  at : (j : GroupKey) → index j ≡ position j gs
  has : (j : GroupKey) → groups_with j gs ≡ gathered (calls_with j seen)

-- The calls of a key, with one more call behind them.
calls_with-snoc :
    (j : GroupKey) (seen : List Call) (c : Call) (b : Bool)
    → key_eq c.key j ≡ b
    → calls_with j (seen ++ c ∷ []) ≡ (if b then calls_with j seen ++ c ∷ [] else calls_with j seen)
calls_with-snoc j seen c true e = filter_by-append (of_call j) seen (c ∷ []) ∙ rw e refl
calls_with-snoc j seen c false e =
    filter_by-append (of_call j) seen (c ∷ []) ∙ rw e (append-nil (calls_with j seen))

gathered-nil : (cs : List Call) → gathered cs ≡ [] → cs ≡ []
gathered-nil [] h = refl
gathered-nil (c ∷ cs) h = absurd (cons_nil h)
  where
    cons_nil : append_all (new_group c) (c ∷ cs) ∷ [] ≡ [] → ⊥
    cons_nil e = cc

module _ (index : Index) (gs : List HttpCallGroup) (seen : List Call) (c : Call)
    (h : Placed index gs seen) where
  new-Placed :
      index c.key ≡ none
      → Placed
          (enter_key index c.key (length gs))
          (gs ++ append_call (new_group c) c ∷ [])
          (seen ++ c ∷ [])
  unfolding append_call
  new-Placed e = record {
    at = λ j.
        let last = position-append j gs (append_call (new_group c) c) in
        elim (Bool-cases (key_eq c.key j)) [
          | inl same ↦
              let jk = eq_of_key_eq c.key j same in
              let gone : position j gs ≡ none =
                subst (λ k. position k gs ≡ none) jk (sym (h.at c.key) ∙ e) in
              rw same (sym (last ∙ rw (gone, same) refl))
          | inr differs ↦
              rw differs
                (h.at j ∙ sym (last ∙ rw differs (or_last_false (position j gs) (length gs))))
        ];
    has = λ j.
        let split = filter_by-append (of_group j) gs (append_call (new_group c) c ∷ []) in
        elim (Bool-cases (key_eq c.key j)) [
          | inl same ↦
              let jk = eq_of_key_eq c.key j same in
              let gone =
                position-none j gs (subst (λ k. position k gs ≡ none) jk (sym (h.at c.key) ∙ e)) in
              let none_seen = gathered-nil (calls_with j seen) (sym (h.has j) ∙ gone) in
              split
              ∙ rw (gone, same) refl
              ∙ ap gathered
                  (sym (calls_with-snoc j seen c true same ∙ ap (λ l. l ++ c ∷ []) none_seen))
          | inr differs ↦
              split
              ∙ rw differs (append-nil (groups_with j gs))
              ∙ h.has j
              ∙ ap gathered (sym (calls_with-snoc j seen c false differs))
        ];
  }
    where
      or_last_false : (o : Option ℕ) (n : ℕ) → or_last o false n ≡ o
      or_last_false none n = refl
      or_last_false (some i) n = refl

  old-Placed : (i : ℕ) → index c.key ≡ some i → Placed index (append_at i c gs) (seen ++ c ∷ [])
  old-Placed i e = record {
    at = λ j. h.at j ∙ sym (position-append_at j c gs i);
    has = λ j. elim (Bool-cases (key_eq c.key j)) [
      | inl same ↦
          let found =
            subst (λ k. position k gs ≡ some i) (eq_of_key_eq c.key j same)
              (sym (h.at c.key) ∙ e) in
          elim (gathered-snoc (calls_with j seen) c) [
            | inl none_seen ↦ absurd (position-some j gs i found (h.has j ∙ ap gathered none_seen))
            | inr grown ↦
                append_at-same j c gs i found
                ∙ ap (append_first c) (h.has j)
                ∙ grown
                ∙ ap gathered (sym (calls_with-snoc j seen c true same))
          ]
      | inr differs ↦
          append_at-other c.key j c gs i (sym (h.at c.key) ∙ e) differs
          ∙ h.has j
          ∙ ap gathered (sym (calls_with-snoc j seen c false differs))
    ];
  }

  place_call-Placed :
      (o : Option ℕ)
      → index c.key ≡ o
      → Placed (place_call c o index gs).0 (place_call c o index gs).1 (seen ++ c ∷ [])
  unfolding place_call
  place_call-Placed none e = new-Placed e
  place_call-Placed (some i) e = old-Placed i e

group_calls-Placed :
    (cs : List Call) (index : Index) (gs : List HttpCallGroup) (seen : List Call) (j : GroupKey)
    → Placed index gs seen
    → groups_with j (group_calls cs index gs) ≡ gathered (calls_with j (seen ++ cs))
unfolding group_calls
group_calls-Placed [] index gs seen j h =
    h.has j ∙ ap (λ l. gathered (calls_with j l)) (sym (append-nil seen))
group_calls-Placed (c ∷ cs) index gs seen j h =
    let next = place_call-Placed index gs seen c h (index c.key) refl in
    group_calls-Placed cs _ _ (seen ++ c ∷ []) j next
    ∙ ap (λ l. gathered (calls_with j l)) (append_assoc seen (c ∷ []) cs)

-- Groups has no group for a node, method, host and path without a call, and for any other exactly
-- one, which has the start of its first call and, call by call, the offsets, durations, status codes,
-- transport errors and sizes of all of its calls, ordered by start, where calls of one start stay in the
-- order in which they were recorded.
pub groups_of-described :
    (calls : List Call)
    → (ordered : List Call) × IsStableOrder calls ordered
      × ((j : GroupKey) → groups_with j (groups_of calls) ≡ described (calls_with j ordered))
unfolding groups_of
groups_of-described calls = (
  sort_calls calls,
  sort_calls-IsStableOrder calls,
  λ j.
      group_calls-Placed (sort_calls calls) (λ _. none) [] [] j
        (record { at = λ k. refl; has = λ k. refl })
      ∙ gathered-described (calls_with j (sort_calls calls)),
)
