-- ===== src/Calls/Limit.antt =====
-- The limit of pkg/httpcall/recorder.go over the calls of an execution.
use echopoint_runner.Prelude.{
  ℕ, zero, suc, ◌+◌, ◌≤◌, ◌<◌, ◌≡◌, ap, ◌∙◌, inl, inr, true, false, Option, none, some, leb, ltb,
  lt→ltb, ◌-◌, ◌⊎◌, Bool-cases, if◌then◌else◌, arith,
}
use echopoint_runner.Prelude.Int.{pos, negsuc}
use echopoint_runner.Calls.{Limiter, refuses, reserve}

abbrev one_if_some : Option Limiter → ℕ
one_if_some none = 0
one_if_some (some l) = 1

abbrev kept : Limiter → Option Limiter → Limiter
kept l none = l
kept l (some l') = l'

-- The calls that are let through among `attempts`, and the limiter behind them.
abbrev pub start_calls : ℕ → Limiter → ℕ × Limiter
start_calls zero l = (0, l)
start_calls (suc attempts) l =
    let (n, l') = start_calls attempts (kept l (reserve l)) in (one_if_some (reserve l) + n, l')

abbrev pub smaller : ℕ → ℕ → ℕ
smaller a b = if leb a b then a else b

pub reserve_full :
    (l : Limiter) (limit : ℕ)
    → l.limit ≡ pos limit
    → 1 ≤ limit
    → limit ≤ l.started
    → reserve l ≡ none
unfolding reserve refuses
reserve_full l limit e one full =
    let positive : ltb 0 limit ≡ true = lt→ltb 0 limit one in
    let reached : leb limit l.started ≡ true = ground arith in rw (e, positive, reached)

pub reserve_left :
    (l : Limiter) (limit : ℕ)
    → l.limit ≡ pos limit
    → l.started < limit
    → reserve l ≡ some (record l { started = l.started + 1 })
unfolding reserve refuses
reserve_left l limit e left =
    let positive : ltb 0 limit ≡ true = lt→ltb 0 limit (omega arith) in
    let short : leb limit l.started ≡ false = ground arith in rw (e, positive, short)

abbrev let_through : ℕ → Limiter → Option Limiter → ℕ
let_through attempts l r = one_if_some r + (start_calls attempts (kept l r)).0

-- With a limit of one or more of which a part is used, of any number of calls that are started
-- exactly the first ones up to the limit are let through, and every later one is refused.
pub start_calls_within :
    (attempts : ℕ) (l : Limiter) (limit : ℕ)
    → l.limit ≡ pos limit
    → 1 ≤ limit
    → l.started ≤ limit
    → (start_calls attempts l).0 ≡ smaller attempts (limit - l.started)
start_calls_within zero l limit e one le = ground arith
start_calls_within (suc attempts) l limit e one le = elim (Bool-cases (leb limit l.started)) [
  | inl reached ↦
      let r = reserve_full l limit e one (ground arith) in
      let rest = start_calls_within attempts l limit e one le in
      ap (let_through attempts l) r ∙ ground arith
  | inr short ↦
      let next = record l { started = l.started + 1 } in
      let r = reserve_left l limit e (ground arith) in
      let rest = start_calls_within attempts next limit e one (ground arith) in
      ap (let_through attempts l) r ∙ ground arith
]

-- A limit of zero or less refuses no call.
pub reserve_unlimited :
    (l : Limiter)
    → (l.limit ≡ pos 0) ⊎ ((n : ℕ) × (l.limit ≡ negsuc n))
    → reserve l ≡ some (record l { started = l.started + 1 })
unfolding reserve refuses
reserve_unlimited l (inl e) = rw e
reserve_unlimited l (inr (n, e)) = rw e
