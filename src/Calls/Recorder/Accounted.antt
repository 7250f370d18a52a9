-- ===== src/Calls/Recorder/Accounted.antt =====
-- The calls that pkg/httpcall/recorder.go records against the limit of an execution.
use echopoint_runner.Calls.Recorder.{
  Net, StartedCall, CallTarget, CallOutcome, Execution, CallEvent, starts, finishes, as_limiter,
  reserve_in, start, started_if, finish, or_connect, entered, remove_at, kept_before, left,
  call_step, call_steps,
}
use echopoint_runner.Calls.Limit.{reserve_full, reserve_left}
use echopoint_runner.Prelude.Text.{Text}
use echopoint_runner.Calls.{Limiter, reserve, Call}
use echopoint_runner.Prelude.Int.{pos}
use echopoint_runner.Prelude.Strings.{is_blank}
use echopoint_runner.Prelude.{
  ℕ, zero, suc, ◌+◌, ◌≤◌, true, false, List, [], ◌∷◌, Option, none, some, leb, length,
  length-append, All, All-append, ◌≡◌, refl, sym, ap, ◌∙◌, subst, inl, inr, arith, Bool-cases,
  ==_iff,
}

-- A call without a response says why.
abbrev pub IsExplained : Call → Type 0
IsExplained c = c.status_code ≡ 0 → is_blank c.transport_error ≡ false

-- The limiter counts the open and the recorded calls, and is within its limit.
pub record IsAccounted (limit : ℕ) (x : Execution) : Type 0 where
  pub limiter : Limiter
  pub carried : x.limiter ≡ some limiter
  pub limited : limiter.limit ≡ pos limit
  pub within : limiter.started ≤ limit
  pub counted : length x.open_calls + length x.calls ≡ limiter.started
  pub collected : All (λ c. c.collected ≡ true) x.open_calls
  pub explained : All IsExplained x.calls

start-carried :
    (net : Net) (limiter : Option Limiter) (target : CallTarget) (now : ℕ) (l : Limiter)
    (r : Option Limiter)
    → limiter ≡ some l
    → reserve l ≡ r
    → start net limiter true target now ≡ started_if net true target now (as_limiter r)
unfolding start reserve_in
start-carried net limiter target now l r carried reserved =
    ap (λ o. started_if net true target now (reserve_in o)) carried
    ∙ ap (λ o. started_if net true target now (as_limiter o)) reserved

entered-IsAccounted :
    {limit : ℕ} (net : Net) (x : Execution) (target : CallTarget) (now : ℕ)
    → 1 ≤ limit
    → IsAccounted limit x
    → IsAccounted limit (entered x (start net x.limiter true target now))
entered-IsAccounted {limit} net x target now one a =
    let l = a.limiter in
    elim (Bool-cases (leb limit l.started)) [
      | inl reached ↦
          let e =
            start-carried net x.limiter target now l none a.carried
              (reserve_full l limit a.limited one (ground arith)) in
          subst (λ o. IsAccounted limit (entered x o)) (sym e) a
      | inr short ↦
          let l' = record l { started = l.started + 1 } in
          let e =
            start-carried net x.limiter target now l (some l') a.carried
              (reserve_left l limit a.limited (ground arith)) in
          let counted = a.counted in
          subst (λ o. IsAccounted limit (entered x o)) (sym e)
            (record {
              limiter = l';
              carried = refl;
              limited = a.limited;
              within = ground arith;
              counted = omega arith;
              collected = (refl, a.collected);
              explained = a.explained;
            })
    ]

-- What taking a call out leaves.
abbrev Removed : List StartedCall → Option (StartedCall × List StartedCall) → Type 0
Removed cs none = Unit
Removed cs (some (c, others)) =
    (length cs ≡ suc (length others)) × (c.collected ≡ true) × All (λ d. d.collected ≡ true) others

kept_before-Removed :
    (c : StartedCall) (cs : List StartedCall) (o : Option (StartedCall × List StartedCall))
    → c.collected ≡ true
    → Removed cs o
    → Removed (c ∷ cs) (kept_before c o)
kept_before-Removed c cs none h r = tt
kept_before-Removed c cs (some (d, others)) h r = (ap suc r.0, r.1, (h, r.2))

remove_at-Removed :
    (i : ℕ) (cs : List StartedCall) → All (λ c. c.collected ≡ true) cs → Removed cs (remove_at i cs)
remove_at-Removed i [] h = tt
remove_at-Removed zero (c ∷ cs) h = (refl, h.0, h.1)
remove_at-Removed (suc i) (c ∷ cs) h =
    kept_before-Removed c cs (remove_at i cs) h.0 (remove_at-Removed i cs h.1)

or_connect_nonblank : (e : Text) → is_blank (or_connect e) ≡ false
or_connect_nonblank [] = refl
or_connect_nonblank (c ∷ e) = refl

-- Finish adds a call that says why it has no response, if it has none.
finish-IsExplained :
    (c : StartedCall) (outcome : CallOutcome) (now : ℕ) (calls : List Call)
    → c.collected ≡ true
    → All IsExplained calls
    → All IsExplained (finish c outcome now calls)
      × (length (finish c outcome now calls) ≡ length calls + 1)
unfolding finish
finish-IsExplained c outcome now calls collected h = rw collected (
  All-append IsExplained calls _ h (
    (λ silent.
        rw ((==_iff outcome.status_code 0).1 silent) (or_connect_nonblank outcome.transport_error)),
    tt,
  ),
  length-append calls _,
)

left-IsAccounted :
    {limit : ℕ} (x : Execution) (outcome : CallOutcome) (now : ℕ)
    (o : Option (StartedCall × List StartedCall))
    → IsAccounted limit x
    → Removed x.open_calls o
    → IsAccounted limit (left x outcome now o)
left-IsAccounted x outcome now none a r = a
left-IsAccounted x outcome now (some (c, others)) a r =
    let (explained, size) = finish-IsExplained c outcome now x.calls r.1 a.explained in
    let counted = a.counted in
    let taken = r.0 in
    record {
      limiter = a.limiter;
      carried = a.carried;
      limited = a.limited;
      within = a.within;
      counted = omega arith;
      collected = r.2;
      explained = explained;
    }

call_step-IsAccounted :
    {limit : ℕ} (net : Net) (x : Execution) (e : CallEvent)
    → 1 ≤ limit
    → IsAccounted limit x
    → IsAccounted limit (call_step net x e)
unfolding call_step
call_step-IsAccounted net x (starts target now) one a = entered-IsAccounted net x target now one a
call_step-IsAccounted net x (finishes i outcome now) one a =
    left-IsAccounted x outcome now (remove_at i x.open_calls) a
      (remove_at-Removed i x.open_calls a.collected)

-- Whatever calls the nodes start and finish, in whatever order, an execution that begins with a limit
-- of one or more counts the calls that are open or recorded against it and never passes it, and every
-- recorded call that got no response says why.
pub call_steps-IsAccounted :
    {limit : ℕ} (net : Net) (x : Execution) (events : List CallEvent)
    → 1 ≤ limit
    → IsAccounted limit x
    → IsAccounted limit (call_steps net x events)
unfolding call_steps
call_steps-IsAccounted net x [] one a = a
call_steps-IsAccounted net x (e ∷ events) one a =
    call_steps-IsAccounted net (call_step net x e) events one (call_step-IsAccounted net x e one a)
