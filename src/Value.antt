-- ===== src/Value.antt =====
-- Go's `any` as the nodes pass it on, and the dotted paths of pkg/node/template_resolver.go that
-- walk into it. A float64 is represented by its text under strconv.FormatFloat(x, 'f', -1, 64),
-- which tells two of them apart. A typed slice or string-keyed map is an `arr` or `obj`: walkTyped
-- steps into those by the same rules.
pub mod Owner
use echopoint_runner.Prelude.{
  ℕ, zero, suc, Bool, true, false, List, [], ◌∷◌, Option, none, some, take, drop, length, ltb,
  if◌then◌else◌,
}
use echopoint_runner.Prelude.Int.{ℤ, pos, negsuc}
use echopoint_runner.Prelude.Text.{Text, text_eq}
use echopoint_runner.Prelude.Strings.{dot, is_dot_at, split, atoi}

mutual
  pub data Value : Type 0 where
    null : Value
    flag : Bool → Value
    num : Text → Value
    int : ℤ → Value
    str : Text → Value
    arr : Items → Value
    obj : Fields → Value

  pub data Items : Type 0 where
    nil : Items
    cons : Value → Items → Items

  pub data Fields : Type 0 where
    end : Fields
    field : Text → Value → Fields → Fields

-- container[segment]
unfoldable pub field_at : Text → Fields → Option Value
field_at k end = none
field_at k (field j v fs) = let rest = field_at k fs in if text_eq j k then some v else rest

-- container[index], with the bounds test of sliceIndex
unfoldable pub item_at : ℕ → Items → Option Value
item_at i nil = none
item_at zero (cons v vs) = some v
item_at (suc i) (cons v vs) = item_at i vs

-- sliceIndex: an index is a decimal number from 0 to below the length.
pub slice_index : Option ℤ → Items → Option Value
slice_index none items = none
slice_index (some (pos i)) items = item_at i items
slice_index (some (negsuc i)) items = none

-- One step of walkPath.
pub step_into : Text → Value → Option Value
unfolding field_at item_at slice_index atoi
step_into segment (obj fields) = field_at segment fields
step_into segment (arr items) = slice_index (atoi segment) items
step_into segment null = none
step_into segment (flag b) = none
step_into segment (num x) = none
step_into segment (int i) = none
step_into segment (str s) = none

abbrev then_walk : (Value → Option Value) → Option Value → Option Value
then_walk go none = none
then_walk go (some v) = go v

unfoldable pub walk_path : Value → List Text → Option Value
unfolding step_into
walk_path v [] = some v
walk_path v (segment ∷ segments) = then_walk (λ w. walk_path w segments) (step_into segment v)

-- The loop of LookupPath over the positions `end` of a dot, from the last one down; it stops at 0.
unfoldable pub lookup_dotted : Text → (Text → Option Value) → ℕ → Option Value
unfolding walk_path split
lookup_dotted ref get zero = none
lookup_dotted ref get (suc p) =
    let rest = lookup_dotted ref get p in
    if is_dot_at ref (suc p)
    then elim (get (take (suc p) ref)) [
      | some root ↦ walk_path root (split dot (drop (suc (suc p)) ref))
      | none ↦ rest
    ]
    else rest

abbrev or_else : Option Value → Option Value → Option Value
or_else none other = other
or_else (some v) other = some v

-- LookupPath
unfoldable pub lookup_path : Text → (Text → Option Value) → Option Value
unfolding lookup_dotted
lookup_path ref get = let dotted = lookup_dotted ref get (length ref) in or_else (get ref) dotted

-- The loop of hasFlowInputRoot and of hasPathRoot below the whole reference.
unfoldable pub has_dotted_root : Text → (Text → Bool) → ℕ → Bool
has_dotted_root ref known zero = false
has_dotted_root ref known (suc p) =
    let rest = has_dotted_root ref known p in
    if is_dot_at ref (suc p) then if known (take (suc p) ref) then true else rest else rest

-- Whether the reference, or a dotted prefix of it, is known.
unfoldable pub has_path_root : Text → (Text → Bool) → Bool
unfolding has_dotted_root
has_path_root ref known =
    let dotted = has_dotted_root ref known (length ref) in if known ref then true else dotted
