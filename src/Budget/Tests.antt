-- ===== src/Budget/Tests.antt =====
-- The budget at small sizes.
use echopoint_runner.Prelude.{◌≡◌, ◌≤◌, ◌<◌, refl, ◌*◌, [], ◌∷◌, some, length, arith}
use echopoint_runner.Budget.{
  ResponseBudget, granted, waiting, body_weight, min, held_at, grow_to, give_up,
  reserve_response_bytes, new_response_budget, Steps, stay, then_step, reserved, grew,
}
use echopoint_runner.Budget.Bounds.{IsBounded, Steps-IsBounded, grow_to-granted}

abbrev fresh : ResponseBudget
fresh = record { size = 10; in_use = 0; held = []; queue = [] }

abbrev one : ResponseBudget
one = record { size = 10; in_use = 6; held = 6 ∷ 0 ∷ []; queue = [] }

is_new : new_response_budget 10 ≡ some fresh
unfolding new_response_budget
is_new = refl

second_waits : (grow_to one 1 3).1 ≡ waiting
unfolding grow_to
second_waits = refl

large_body : (grow_to one 0 900).0.held ≡ 10 ∷ 0 ∷ []
unfolding grow_to
large_body = refl

-- A body that holds bytes waits behind a call that waits for it, although what it lacks is free.
behind_the_queue : (grow_to (grow_to one 1 3).0 0 4).1 ≡ waiting
unfolding grow_to
behind_the_queue = refl

-- The queue is served when the timeout of the first call ends its wait.
served_next : (give_up (grow_to (grow_to one 1 3).0 0 4).0 1).held ≡ 8 ∷ 0 ∷ []
unfolding grow_to give_up
served_next = refl

reserve_two : Steps fresh (grow_to (reserve_response_bytes fresh 3).0 0 4).0
unfolding reserve_response_bytes
reserve_two = then_step (then_step stay (reserved 3)) (grew 0 4 listed refl)
  where
    listed : 0 < length (reserve_response_bytes fresh 3).0.held
    listed = omega arith

Steps-IsBounded_example : IsBounded (grow_to (reserve_response_bytes fresh 3).0 0 4).0
Steps-IsBounded_example = Steps-IsBounded fresh _ reserve_two refl refl refl

one-IsBounded : IsBounded one
one-IsBounded = record { balanced = refl; within = omega arith; listed = tt }

zero_two : 0 < length one.held
zero_two = omega arith

grow_to-granted_example :
    ((grow_to one 0 900).1 ≡ granted)
    × (min (900 * body_weight) one.size ≤ held_at 0 (grow_to one 0 900).0.held)
grow_to-granted_example = grow_to-granted one 0 900 zero_two one-IsBounded refl refl
