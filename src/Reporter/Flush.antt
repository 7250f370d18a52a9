-- ===== src/Reporter/Flush.antt =====
-- Flush and FlushWithRetry of internal/runtime/event_reporter.go.
use echopoint_runner.Prelude.{
  ℕ, ◌≤◌, ◌<◌, ◌≡◌, refl, sym, ap, subst, ◌∙◌, ◌⊎◌, inl, inr, List, [], ◌∷◌, ◌++◌, length, arith,
  leb, Bool-cases, length-append, Option, none, some, All, In,
}
use echopoint_runner.Reporter.Batch.{drain_pending-append, drain_pending_progress}
use echopoint_runner.Reporter.Order.{
  Consecutive, Consecutive-split, Consecutive-le, last_sequence-Consecutive,
  next_sequence-drain_pending,
}
use echopoint_runner.Reporter.{
  Event, Reporter, Round, Attempt, Flushed, returned, accepted, sent, stopped, Step, settle,
  flush_drained, flush_batch, flush, after_batch, drain_pending, last_sequence, push_all,
}

module _ {P : Type 0} (size : Event P → ℕ) where
  -- A postcondition of a call that may still be waiting.
  abbrev pub OnReturn : (Reporter P → Flushed → Type 0) → Option (Reporter P × Flushed) → Type 0
  OnReturn Q none = Unit
  OnReturn Q (some (r, f)) = Q r f

module _ {P : Type 0} (size : Event P → ℕ) (Told : ℕ → Type 0) where
  -- How far a backlog that began behind n may have moved: up to a number that was told accepted.
  abbrev pub Covered : ℕ → ℕ → Type 0
  Covered n k = (k ≡ n) ⊎ ((last : ℕ) × Told last × k ≤ last)

  abbrev pub Ordered : ℕ → Reporter P → Type 0
  Ordered n r = (k : ℕ) × (n ≤ k) × Covered n k × Consecutive k r.pending r.next_sequence

  -- What the replies of an exchange accept is told.
  abbrev pub IsTold : Round P → Type 0
  IsTold round = (last : ℕ) → round.reply ≡ accepted last → Told last

-- The control plane accepted all numbers up to `last` in one of the exchanges.
abbrev pub AcceptedIn : {P : Type 0} → List (Attempt P) → ℕ → Type 0
AcceptedIn {P} attempts last =
    (attempt : Attempt P) × In attempt attempts
    × (round : Round P) × In round attempt.rounds
    × (round.reply ≡ accepted last)

module _ {P : Type 0} (size : Event P → ℕ) where
  -- A control plane that accepts all numbers up to `last`, while nothing is appended.
  abbrev pub Accepts : ℕ → Round P → Type 0
  Accepts last round = (round.meanwhile ≡ []) × (round.reply ≡ accepted last)

  settle-sent :
      (r : Reporter P) (e : Event P) (es : List (Event P)) (bytes last : ℕ)
      → last_sequence e es ≤ last
      → settle size r e es bytes (accepted last) ≡ (r, sent)
  unfolding settle
  settle-sent r e es bytes last h = elim (Bool-cases (leb (last_sequence e es) last)) [
    | inl every ↦ rw every
    | inr some_left ↦ absurd (ground arith)
  ]

  flush_drained-sent :
      (r : Reporter P) (e : Event P) (es : List (Event P)) (bytes last : ℕ) (round : Round P)
      → last_sequence e es ≤ last
      → Accepts last round
      → flush_drained size (e ∷ es) bytes r round ≡ (r, sent)
  unfolding flush_drained push_all
  flush_drained-sent r e es bytes last round le (quiet, yes_to) =
      rw (quiet, yes_to) (settle-sent r e es bytes last le)

  -- An accepted batch leaves the backlog for good, and it has an event at least.
  Shrinks : Reporter P → Reporter P × Step → Type 0
  Shrinks r (r', step) =
      (step ≡ sent)
      × (length r'.pending < length r.pending)
      × (n : ℕ) × Consecutive n r'.pending r'.next_sequence
      × (r'.next_sequence ≡ r.next_sequence)

  drained-Shrinks :
      (r : Reporter P) (batch : List (Event P)) (bytes : ℕ) (r' : Reporter P) (n last : ℕ)
      (round : Round P)
      → batch ++ r'.pending ≡ r.pending
      → 1 ≤ length batch
      → r'.next_sequence ≡ r.next_sequence
      → Consecutive n r.pending r.next_sequence
      → r.next_sequence ≤ last
      → Accepts last round
      → Shrinks r (flush_drained size batch bytes r' round)
  unfolding Shrinks
  drained-Shrinks r [] bytes r' n last round cut some_sent next run le acc = absurd (omega arith)
  drained-Shrinks r (e ∷ es) bytes r' n last round cut some_sent next run le acc =
      let run' = subst (λ l. Consecutive n l r.next_sequence) (sym cut) run in
      let (k, front, back) = Consecutive-split n r.next_sequence (e ∷ es) r'.pending run' in
      let top = last_sequence-Consecutive n k e es front in
      let up = Consecutive-le k r.next_sequence r'.pending back in
      let lens = ap length cut in
      let sum = length-append (e ∷ es) r'.pending in
      rw (flush_drained-sent r' e es bytes last round (omega arith) acc)
        (refl, omega arith, k, subst (Consecutive k r'.pending) (sym next) back, next)

  flush_batch-Shrinks :
      (r : Reporter P) (e : Event P) (es : List (Event P)) (n last : ℕ) (round : Round P)
      → r.pending ≡ e ∷ es
      → Consecutive n r.pending r.next_sequence
      → r.next_sequence ≤ last
      → Accepts last round
      → Shrinks r (flush_batch size r round)
  unfolding flush_batch
  flush_batch-Shrinks r e es n last round full run le acc =
      let (batch, bytes, r') = drain_pending size r in
      drained-Shrinks r batch bytes r' n last round (drain_pending-append size r)
        (drain_pending_progress size r e es full) (next_sequence-drain_pending size r) run le acc

  append-nil→nil : (xs ys : List (Event P)) → xs ++ ys ≡ [] → (xs ≡ []) × (ys ≡ [])
  append-nil→nil [] ys h = (refl, h)
  append-nil→nil (x ∷ xs) ys h = cc

  flush_drained-nil :
      (batch : List (Event P)) (bytes : ℕ) (r : Reporter P) (round : Round P)
      → batch ≡ []
      → flush_drained size batch bytes r round ≡ (r, stopped)
  unfolding flush_drained
  flush_drained-nil batch bytes r round h = rw h

  abbrev pub Emptied : Option (Reporter P × Flushed) → Type 0
  Emptied o = (r : Reporter P) × (o ≡ some (r, returned)) × (r.pending ≡ [])

  flush-nil :
      (r : Reporter P) (rounds : List (Round P)) → r.pending ≡ [] → Emptied (flush size r rounds)
  unfolding flush flush_batch
  flush-nil r [] h = (r, rw h, h)
  flush-nil r (round ∷ rounds) h =
      let (batch, bytes, r') = drain_pending size r in
      let (b, p) = append-nil→nil batch r'.pending (drain_pending-append size r ∙ h) in
      (r', rw (flush_drained-nil batch bytes r' round b), p)

  Nil-cases :
      (es : List (Event P)) → (es ≡ []) ⊎ ((e : Event P) × (l : List (Event P)) × (es ≡ e ∷ l))
  Nil-cases [] = inl refl
  Nil-cases (e ∷ es) = inr (e, es, refl)

  -- If the backlog is a run of numbers up to the newest, the control plane accepts every number up
  -- to `last`, which is not below the newest, and nothing is appended meanwhile, then a Flush that
  -- may exchange as many batches as there are pending events returns without error, and nothing is
  -- pending then.
  pub flush-Emptied :
      (rounds : List (Round P)) (r : Reporter P) (n last : ℕ)
      → Consecutive n r.pending r.next_sequence
      → r.next_sequence ≤ last
      → All (Accepts last) rounds
      → length r.pending ≤ length rounds
      → Emptied (flush size r rounds)
  unfolding flush Shrinks after_batch
  flush-Emptied [] r n last run le acc enough = elim (Nil-cases r.pending) [
    | inl none_left ↦ flush-nil r [] none_left
    | inr (e, es, full) ↦ let lens = ap length full in absurd (omega arith)
  ]
  flush-Emptied (round ∷ rounds) r n last run le acc enough = elim (Nil-cases r.pending) [
    | inl none_left ↦ flush-nil r (round ∷ rounds) none_left
    | inr (e, es, full) ↦
        let (is_sent, shorter, k, run', next) =
          flush_batch-Shrinks r e es n last round full run le acc.0 in
        let (r', step) = flush_batch size r round in
        let (end, eq, empty) =
          flush-Emptied rounds r' k last run' (omega arith) acc.1 (omega arith) in
        (end, rw (is_sent, after_batch) eq, empty)
  ]
