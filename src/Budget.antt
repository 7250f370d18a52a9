-- ===== src/Budget.antt =====
-- pkg/node/response_budget.go: the memory that response bodies may hold at once. A budget with its
-- reservations is one state; its locks make each operation one step. The weighted semaphore of
-- golang.org/x/sync is as its package describes it: the calls that wait are served in the order in
-- which they came, and a call waits behind them even if it fits what is left.
pub mod Bounds
mod Tests
use echopoint_runner.Prelude.{
  ℕ, zero, suc, ◌+◌, ◌-◌, ◌*◌, ◌<◌, Bool, true, false, List, [], ◌∷◌, ◌++◌, Option, none, some, leb,
  length, any, filter_by, not, ◌&&◌, ◌==◌, ◌≡◌, if◌then◌else◌,
}

-- A call of growTo that waits: the reservation, and the bytes that it lacks.
pub record Waiter : Type 0 where
  pub reservation : ℕ
  pub need : ℕ

-- ResponseBudget, with the `held` field of every bodyReservation on it and the semaphore's waiters.
pub record ResponseBudget : Type 0 where
  pub size : ℕ
  pub in_use : ℕ
  pub held : List ℕ
  pub queue : List Waiter

-- NewResponseBudget; `none` is nil, no bound.
unfoldable pub new_response_budget : ℕ → Option ResponseBudget
new_response_budget zero = none
new_response_budget (suc n) = some (record { size = suc n; in_use = 0; held = []; queue = [] })

abbrev pub body_weight : ℕ
body_weight = 2

abbrev pub min : ℕ → ℕ → ℕ
min a b = if leb a b then a else b

abbrev pub held_at : ℕ → List ℕ → ℕ
held_at i [] = 0
held_at zero (h ∷ hs) = h
held_at (suc i) (h ∷ hs) = held_at i hs

abbrev pub set_held : ℕ → ℕ → List ℕ → List ℕ
set_held i n [] = []
set_held zero n (h ∷ hs) = n ∷ hs
set_held (suc i) n (h ∷ hs) = h ∷ set_held i n hs

-- How a call ends: it returns, or it still waits for the semaphore.
pub data Wait : Type 0 where
  granted waiting : Wait

-- A waiter that gets its bytes.
abbrev pub grant : Waiter → ResponseBudget → ResponseBudget
grant w b = record b {
  in_use = b.in_use + w.need;
  held = set_held w.reservation (held_at w.reservation b.held + w.need) b.held;
}

abbrev pub fits : Waiter → ResponseBudget → Bool
fits w b = leb (b.in_use + w.need) b.size

-- The waiters that fit, from the front of the queue on, up to the first one that does not.
unfoldable pub notify : List Waiter → ResponseBudget → ResponseBudget
notify [] b = record b { queue = [] }
notify (w ∷ ws) b =
    let rest = notify ws (grant w b) in if fits w b then rest else record b { queue = w ∷ ws }

abbrev pub no_waiters : List Waiter → Bool
no_waiters [] = true
no_waiters (w ∷ ws) = false

-- acquire, for a reservation
unfoldable pub acquire : ResponseBudget → Waiter → ResponseBudget × Wait
acquire b w =
    if no_waiters b.queue && fits w b
    then (grant w b, granted)
    else (record b { queue = b.queue ++ w ∷ [] }, waiting)

-- release of the budget
unfoldable pub release_bytes : ResponseBudget → ℕ → ResponseBudget
unfolding notify
release_bytes b n = notify b.queue (record b { in_use = b.in_use - n })

-- growTo of the reservation at a position
unfoldable pub grow_to : ResponseBudget → (i n : ℕ) → ResponseBudget × Wait
unfolding acquire
grow_to b i n =
    let target = min (n * body_weight) b.size in
    if leb target (held_at i b.held)
    then (b, granted)
    else acquire b (record { reservation = i; need = target - held_at i b.held })

-- shrinkTo of the reservation at a position; what it holds is written before others are served, which
-- do not read it.
unfoldable pub shrink_to : ResponseBudget → (i n : ℕ) → ResponseBudget
unfolding release_bytes
shrink_to b i n =
    let target = n * body_weight in
    if leb (held_at i b.held) target
    then b
    else release_bytes (record b { held = set_held i target b.held }) (held_at i b.held - target)

-- release of the reservation at a position
unfoldable pub release : ResponseBudget → ℕ → ResponseBudget
unfolding shrink_to
release b i = shrink_to b i 0

-- A call that waits for a reservation.
abbrev pub waits_for : ℕ → Waiter → Bool
waits_for i w = w.reservation == i

-- The timeout of a request ends its wait; the semaphore then serves the others as far as they fit.
unfoldable pub give_up : ResponseBudget → ℕ → ResponseBudget
unfolding notify
give_up b i = notify (filter_by (λ w. not (waits_for i w)) b.queue) b

-- reserveResponseBytes: a new reservation, at the end of the list.
unfoldable pub reserve_response_bytes : ResponseBudget → ℕ → ResponseBudget × Wait
unfolding grow_to
reserve_response_bytes b n = grow_to (record b { held = b.held ++ 0 ∷ [] }) (length b.held) n

-- What the request nodes do with a budget. The lock of a reservation keeps every other call on it out
-- while one waits.
pub data Step : ResponseBudget → ResponseBudget → Type 0 where
  reserved : {b : ResponseBudget} (n : ℕ) → Step b (reserve_response_bytes b n).0
  grew :
      {b : ResponseBudget} (i n : ℕ)
      → i < length b.held
      → any (waits_for i) b.queue ≡ false
      → Step b (grow_to b i n).0
  shrank :
      {b : ResponseBudget} (i n : ℕ) → any (waits_for i) b.queue ≡ false → Step b (shrink_to b i n)
  released : {b : ResponseBudget} (i : ℕ) → any (waits_for i) b.queue ≡ false → Step b (release b i)
  gave_up : {b : ResponseBudget} (i : ℕ) → Step b (give_up b i)

pub data Steps : ResponseBudget → ResponseBudget → Type 0 where
  stay : {b : ResponseBudget} → Steps b b
  then_step : {a b c : ResponseBudget} → Steps a b → Step b c → Steps a c
