-- ===== src/Calls/Gathered.antt =====
-- The calls of a key, and what Groups of pkg/httpcall/recorder.go is to make of them.
use echopoint_runner.Prelude.{
  ◌≡◌, refl, sym, ap, ◌⊎◌, inl, inr, Bool, true, List, [], ◌∷◌, ◌++◌, filter_by, &&→×,
}
use echopoint_runner.Prelude.Text.{text_eq_refl, eq_of_text_eq}
use echopoint_runner.Calls.{GroupKey, key_eq, Call, HttpCallGroup, append_call, new_group}

pub key_eq_refl : (k : GroupKey) → key_eq k k ≡ true
unfolding key_eq
key_eq_refl k = rw (
  text_eq_refl k.node_id,
  text_eq_refl k.method,
  text_eq_refl k.host,
  text_eq_refl k.path_template,
)

pub eq_of_key_eq : (j k : GroupKey) → key_eq j k ≡ true → j ≡ k
unfolding key_eq
eq_of_key_eq j k h =
    let (front, path) = &&→× _ _ h in
    let (middle, host) = &&→× _ _ front in
    let (node, method) = &&→× _ _ middle in
    same (eq_of_text_eq _ _ node) (eq_of_text_eq _ _ method) (eq_of_text_eq _ _ host)
      (eq_of_text_eq _ _ path)
  where
    same :
        j.node_id ≡ k.node_id
        → j.method ≡ k.method
        → j.host ≡ k.host
        → j.path_template ≡ k.path_template
        → j ≡ k
    same a b c d = λ i. record { node_id = a i; method = b i; host = c i; path_template = d i }

abbrev pub of_call : GroupKey → Call → Bool
of_call k c = key_eq c.key k

abbrev pub of_group : GroupKey → HttpCallGroup → Bool
of_group k g = key_eq g.key k

-- The calls and the groups of one key.
abbrev pub calls_with : GroupKey → List Call → List Call
calls_with k = filter_by (of_call k)

abbrev pub groups_with : GroupKey → List HttpCallGroup → List HttpCallGroup
groups_with k = filter_by (of_group k)

abbrev pub append_all : HttpCallGroup → List Call → HttpCallGroup
append_all g [] = g
append_all g (c ∷ cs) = append_all (append_call g c) cs

-- The one group of calls of a key, or none for no call.
abbrev pub gathered : List Call → List HttpCallGroup
gathered [] = []
gathered (c ∷ cs) = append_all (new_group c) (c ∷ cs) ∷ []

abbrev pub append_first : Call → List HttpCallGroup → List HttpCallGroup
append_first c [] = []
append_first c (g ∷ gs) = append_call g c ∷ gs

pub append_all-snoc :
    (g : HttpCallGroup) (cs : List Call) (c : Call)
    → append_all g (cs ++ c ∷ []) ≡ append_call (append_all g cs) c
append_all-snoc g [] c = refl
append_all-snoc g (d ∷ cs) c = append_all-snoc (append_call g d) cs c

pub gathered-snoc :
    (cs : List Call) (c : Call)
    → (cs ≡ []) ⊎ (append_first c (gathered cs) ≡ gathered (cs ++ c ∷ []))
gathered-snoc [] c = inl refl
gathered-snoc (d ∷ cs) c = inr (ap (λ g. g ∷ []) (sym (append_all-snoc (new_group d) (d ∷ cs) c)))
