-- ===== src/Budget/Bounds.antt =====
-- What the reservations of pkg/node/response_budget.go hold, and which calls wait.
use echopoint_runner.Prelude.{
  ℕ, zero, suc, ◌+◌, ◌-◌, ◌*◌, ◌≤◌, ◌<◌, ◌≡◌, refl, sym, ap, ◌∙◌, subst, inl, inr, Bool, true, not,
  ◌&&◌, List, [], ◌∷◌, ◌++◌, leb, length, length-append, filter_by, All, All-append, &&→×,
  Bool-cases, arith,
}
use echopoint_runner.Budget.{
  Waiter, ResponseBudget, min, held_at, set_held, granted, body_weight, grant, fits, notify,
  no_waiters, acquire, release_bytes, grow_to, shrink_to, release, waits_for, give_up,
  reserve_response_bytes, Step, reserved, grew, shrank, released, gave_up, Steps, stay, then_step,
}

abbrev pub sum : List ℕ → ℕ
sum [] = 0
sum (h ∷ hs) = h + sum hs

-- The counter is what the reservations hold together, and fits; waiters are for listed reservations.
pub record IsBounded (b : ResponseBudget) : Type 0 where
  pub balanced : b.in_use ≡ sum b.held
  pub within : b.in_use ≤ b.size
  pub listed : All (λ w. w.reservation < length b.held) b.queue

held_at-le-sum : (i : ℕ) (hs : List ℕ) → held_at i hs ≤ sum hs
held_at-le-sum i [] = omega arith
held_at-le-sum zero (h ∷ hs) = omega arith
held_at-le-sum (suc i) (h ∷ hs) = let rest = held_at-le-sum i hs in omega arith

-- A write past the end changes nothing, so the position is to be one of the list.
sum-set_held :
    (i n : ℕ) (hs : List ℕ) → i < length hs → sum (set_held i n hs) + held_at i hs ≡ sum hs + n
sum-set_held i n [] lt = absurd (omega arith)
sum-set_held zero n (h ∷ hs) lt = omega arith
sum-set_held (suc i) n (h ∷ hs) lt = let rest = sum-set_held i n hs (omega arith) in omega arith

held_at-inside : (i : ℕ) (hs : List ℕ) → 0 < held_at i hs → i < length hs
held_at-inside i [] h = absurd (omega arith)
held_at-inside zero (x ∷ hs) h = omega arith
held_at-inside (suc i) (x ∷ hs) h = let rest = held_at-inside i hs h in omega arith

sum-append : (hs ks : List ℕ) → sum (hs ++ ks) ≡ sum hs + sum ks
sum-append [] ks = omega arith
sum-append (h ∷ hs) ks = let rest = sum-append hs ks in omega arith

Listed-mono :
    (m n : ℕ) (ws : List Waiter)
    → m ≤ n
    → All (λ w. w.reservation < m) ws
    → All (λ w. w.reservation < n) ws
Listed-mono m n [] le h = tt
Listed-mono m n (w ∷ ws) le (now, later) = (omega arith, Listed-mono m n ws le later)

All-filter_by :
    (p : Waiter → Bool) (n : ℕ) (ws : List Waiter)
    → All (λ w. w.reservation < n) ws
    → All (λ w. w.reservation < n) (filter_by p ws)
All-filter_by p n [] h = tt
All-filter_by p n (w ∷ ws) (now, later) = elim (Bool-cases (p w)) [
  | inl kept ↦ rw kept (now, All-filter_by p n ws later)
  | inr left ↦ rw left (All-filter_by p n ws later)
]

length-set_held : (i n : ℕ) (hs : List ℕ) → length (set_held i n hs) ≡ length hs
length-set_held i n [] = refl
length-set_held zero n (h ∷ hs) = refl
length-set_held (suc i) n (h ∷ hs) = ap suc (length-set_held i n hs)

-- Every waiter of a list is for a reservation among so many.
abbrev Listed : ℕ → List Waiter → Type 0
Listed size = All (λ w. w.reservation < size)

-- The bound without the budget's own queue.
abbrev Bounded : ResponseBudget → List Waiter → Type 0
Bounded b ws = (b.in_use ≡ sum b.held) × (b.in_use ≤ b.size) × Listed (length b.held) ws

grant-Bounded :
    (b : ResponseBudget) (w : Waiter) (ws : List Waiter)
    → fits w b ≡ true
    → w.reservation < length b.held
    → Bounded b ws
    → Bounded (grant w b) ws
grant-Bounded b w ws fit inside (balanced, within, listed) =
    let moved = sum-set_held w.reservation (held_at w.reservation b.held + w.need) b.held inside in
    (
      omega arith,
      ground arith,
      subst (λ n. Listed n ws) (sym (length-set_held w.reservation _ b.held)) listed,
    )

notify-IsBounded : (ws : List Waiter) (b : ResponseBudget) → Bounded b ws → IsBounded (notify ws b)
unfolding notify
notify-IsBounded [] b (balanced, within, listed) = record {
  balanced = balanced;
  within = within;
  listed = tt;
}
notify-IsBounded (w ∷ ws) b (balanced, within, (inside, listed)) = elim (Bool-cases (fits w b)) [
  | inl fit ↦
      rw fit (
        notify-IsBounded ws (grant w b)
          (grant-Bounded b w ws fit inside (balanced, within, listed)))
  | inr full ↦ rw full (record { balanced = balanced; within = within; listed = (inside, listed) })
]

acquire-IsBounded :
    (b : ResponseBudget) (w : Waiter)
    → w.reservation < length b.held
    → IsBounded b
    → IsBounded (acquire b w).0
unfolding acquire
acquire-IsBounded b w inside h = elim (Bool-cases (no_waiters b.queue && fits w b)) [
  | inl served ↦
      let (balanced, within, listed) =
        grant-Bounded b w b.queue (&&→× _ _ served).1 inside (h.balanced, h.within, h.listed) in
      rw served (record { balanced = balanced; within = within; listed = listed })
  | inr waits ↦ rw waits (record {
    balanced = h.balanced;
    within = h.within;
    listed = All-append (λ v. v.reservation < length b.held) b.queue (w ∷ []) h.listed (inside, tt);
  })
]

grow_to-IsBounded :
    (b : ResponseBudget) (i n : ℕ) → i < length b.held → IsBounded b → IsBounded (grow_to b i n).0
unfolding grow_to
grow_to-IsBounded b i n lt h =
    let target = min (n * body_weight) b.size in
    elim (Bool-cases (leb target (held_at i b.held))) [
      | inl covered ↦ rw covered h
      | inr short ↦
          rw short (
            acquire-IsBounded b (record { reservation = i; need = target - held_at i b.held }) lt h)
    ]

shrink_to-IsBounded : (b : ResponseBudget) (i n : ℕ) → IsBounded b → IsBounded (shrink_to b i n)
unfolding shrink_to release_bytes
shrink_to-IsBounded b i n h =
    let target = n * body_weight in
    elim (Bool-cases (leb (held_at i b.held) target)) [
      | inl covered ↦ rw covered h
      | inr more ↦
          let inside : i < length b.held = held_at-inside i b.held (ground arith) in
          let moved = sum-set_held i target b.held inside in
          let below = held_at-le-sum i b.held in
          let balanced = h.balanced in
          let within = h.within in
          let over : target < held_at i b.held = ground arith in
          rw more (
            notify-IsBounded b.queue _ (
              omega arith,
              omega arith,
              subst (λ k. Listed k b.queue) (sym (length-set_held i target b.held)) h.listed,
            ))
    ]

reserve-IsBounded :
    (b : ResponseBudget) (n : ℕ) → IsBounded b → IsBounded (reserve_response_bytes b n).0
unfolding reserve_response_bytes
reserve-IsBounded b n h =
    let longer = length-append b.held (0 ∷ []) in
    let same = sum-append b.held (0 ∷ []) in
    let balanced = h.balanced in
    grow_to-IsBounded (record b { held = b.held ++ 0 ∷ [] }) (length b.held) n (omega arith)
      (record {
        balanced = omega arith;
        within = h.within;
        listed =
            Listed-mono (length b.held) (length (b.held ++ 0 ∷ [])) b.queue (omega arith) h.listed;
      })

give_up-IsBounded : (b : ResponseBudget) (i : ℕ) → IsBounded b → IsBounded (give_up b i)
unfolding give_up
give_up-IsBounded b i h = notify-IsBounded (filter_by (λ w. not (waits_for i w)) b.queue) b (
  h.balanced,
  h.within,
  All-filter_by (λ w. not (waits_for i w)) (length b.held) b.queue h.listed,
)

Step-IsBounded : (b c : ResponseBudget) → Step b c → IsBounded b → IsBounded c
unfolding release
Step-IsBounded b c (reserved n) h = reserve-IsBounded b n h
Step-IsBounded b c (grew i n lt free) h = grow_to-IsBounded b i n lt h
Step-IsBounded b c (shrank i n free) h = shrink_to-IsBounded b i n h
Step-IsBounded b c (released i free) h = shrink_to-IsBounded b i 0 h
Step-IsBounded b c (gave_up i) h = give_up-IsBounded b i h

-- Whatever the request nodes do, in whatever order, a budget that starts with nothing reserved and no
-- call waiting always counts the bytes that the reservations hold together, and never more than its
-- size.
pub Steps-IsBounded :
    (a b : ResponseBudget) → Steps a b → a.in_use ≡ 0 → sum a.held ≡ 0 → a.queue ≡ [] → IsBounded b
Steps-IsBounded a b stay z s q = record {
  balanced = z ∙ sym s;
  within = omega arith;
  listed = subst (Listed (length a.held)) (sym q) tt;
}
Steps-IsBounded a b (then_step {b = m} before step) z s q =
    Step-IsBounded m b step (Steps-IsBounded a m before z s q)

held_at-set_held : (i n : ℕ) (hs : List ℕ) → i < length hs → held_at i (set_held i n hs) ≡ n
held_at-set_held i n [] lt = absurd (omega arith)
held_at-set_held zero n (h ∷ hs) lt = refl
held_at-set_held (suc i) n (h ∷ hs) lt = held_at-set_held i n hs (omega arith)

-- Where no other reservation holds a byte and no call waits, growTo returns at once with the bytes
-- that the body costs, or with the whole budget if it costs more: a body too large for the budget is
-- read alone.
pub grow_to-granted :
    (b : ResponseBudget) (i n : ℕ)
    → i < length b.held
    → IsBounded b
    → sum b.held ≡ held_at i b.held
    → b.queue ≡ []
    → ((grow_to b i n).1 ≡ granted)
      × (min (n * body_weight) b.size ≤ held_at i (grow_to b i n).0.held)
unfolding grow_to acquire
grow_to-granted b i n lt h alone none_waits =
    let target = min (n * body_weight) b.size in
    let balanced = h.balanced in
    elim (Bool-cases (leb target (held_at i b.held))) [
      | inl covered ↦ rw covered (refl, ground arith)
      | inr short ↦
          let fit : leb (b.in_use + (target - held_at i b.held)) b.size ≡ true = ground arith in
          let over : held_at i b.held ≤ target = ground arith in
          let got = held_at-set_held i (held_at i b.held + (target - held_at i b.held)) b.held lt in
          rw (short, none_waits, fit) (refl, omega arith)
    ]
