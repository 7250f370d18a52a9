-- ===== src/Reporter/Order.antt =====
-- The order of the pending events of internal/runtime/event_reporter.go.
use echopoint_runner.Prelude.{
  ℕ, ◌+◌, ◌≤◌, ◌≡◌, refl, sym, subst, ◌⊎◌, inl, inr, List, [], ◌∷◌, ◌++◌, arith, leb, Bool-cases,
}
use echopoint_runner.Prelude.Text.{Text}
use echopoint_runner.Reporter.Batch.{
  drain_pending-append, drain_pending-IsCounted, push_all-IsCounted, prepend_pending-IsCounted,
  bytes-drain_pending, IsCounted,
}
use echopoint_runner.Reporter.{
  Event, Reporter, Round, Reply, failed, accepted, push, push_all, drain_pending, prepend_pending,
  unaccepted, last_sequence, settle, flush_drained, flush_batch, total, next_event,
}

module _ {P : Type 0} where
  -- The events carry the numbers n + 1, n + 2, … , m.
  abbrev pub Consecutive : ℕ → List (Event P) → ℕ → Type 0
  Consecutive n [] m = n ≡ m
  Consecutive n (e ∷ es) m = (e.sequence ≡ n + 1) × Consecutive (n + 1) es m

  Consecutive-append :
      (n k m : ℕ) (xs ys : List (Event P))
      → Consecutive n xs k
      → Consecutive k ys m
      → Consecutive n (xs ++ ys) m
  Consecutive-append n k m [] ys h g = subst (λ j. Consecutive j ys m) (sym h) g
  Consecutive-append n k m (x ∷ xs) ys h g = (h.0, Consecutive-append (n + 1) k m xs ys h.1 g)

  pub Consecutive-split :
      (n m : ℕ) (xs ys : List (Event P))
      → Consecutive n (xs ++ ys) m
      → (k : ℕ) × Consecutive n xs k × Consecutive k ys m
  Consecutive-split n m [] ys h = (n, refl, h)
  Consecutive-split n m (x ∷ xs) ys h =
      let (k, a, b) = Consecutive-split (n + 1) m xs ys h.1 in (k, (h.0, a), b)

  pub Consecutive-le : (n m : ℕ) (es : List (Event P)) → Consecutive n es m → n ≤ m
  Consecutive-le n m [] h = omega arith
  Consecutive-le n m (e ∷ es) h = omega (arith, Consecutive-le (n + 1) m es h.1)

  pub last_sequence-Consecutive :
      (n m : ℕ) (e : Event P) (es : List (Event P))
      → Consecutive n (e ∷ es) m
      → last_sequence e es ≡ m
  last_sequence-Consecutive n m e [] h = omega arith
  last_sequence-Consecutive n m e (f ∷ es) h = last_sequence-Consecutive (n + 1) m f es h.1

  -- Dropping what was accepted leaves a run that starts no later than what was accepted.
  unaccepted-Consecutive :
      (last n m : ℕ) (es : List (Event P))
      → Consecutive n es m
      → (k : ℕ) × (n ≤ k) × ((k ≡ n) ⊎ (k ≤ last)) × Consecutive k (unaccepted last es) m
  unaccepted-Consecutive last n m [] h = (n, omega arith, inl refl, h)
  unaccepted-Consecutive last n m (e ∷ es) h =
      let (k, ge, why, run) = unaccepted-Consecutive last (n + 1) m es h.1 in
      elim (Bool-cases (leb e.sequence last)) [
        | inl old ↦ rw old (k, omega arith, ground arith, run)
        | inr fresh ↦
            let same : k ≡ n + 1 = ground arith in
            rw fresh (
              n,
              omega arith,
              inl refl,
              (h.0, subst (λ j. Consecutive j (unaccepted last es) m) same run),
            )
      ]

module _ {P : Type 0} (size : Event P → ℕ) where
  push-Consecutive :
      (n : ℕ) (r : Reporter P) (kind : Text) (payload : P)
      → Consecutive n r.pending r.next_sequence
      → Consecutive n (push size r kind payload).pending (push size r kind payload).next_sequence
  unfolding push
  push-Consecutive n r kind payload h =
      Consecutive-append n r.next_sequence _ r.pending (next_event size r kind payload ∷ []) h
        (refl, refl)

  pub push_all-Consecutive :
      (n : ℕ) (r : Reporter P) (more : List (Text × P))
      → Consecutive n r.pending r.next_sequence
      → Consecutive n (push_all size r more).pending (push_all size r more).next_sequence
  unfolding push_all
  push_all-Consecutive n r [] h = h
  push_all-Consecutive n r ((kind, payload) ∷ more) h =
      push_all-Consecutive n (push size r kind payload) more (push-Consecutive n r kind payload h)

  prepend_pending-Consecutive :
      (n k : ℕ) (r : Reporter P) (es : List (Event P)) (bytes : ℕ)
      → Consecutive n es k
      → Consecutive k r.pending r.next_sequence
      → Consecutive n
          (prepend_pending size r es bytes).pending
          (prepend_pending size r es bytes).next_sequence
  unfolding prepend_pending
  prepend_pending-Consecutive n k r [] bytes h g =
      subst (λ j. Consecutive j r.pending r.next_sequence) (sym h) g
  prepend_pending-Consecutive n k r (e ∷ es) bytes h g =
      Consecutive-append n k r.next_sequence (e ∷ es) r.pending h g

  -- Whether the answer lets the events up to `k` go, when those up to `n` had gone before.
  abbrev pub Released : Reply → ℕ → ℕ → Type 0
  Released failed n k = k ≡ n
  Released (accepted last) n k = (k ≡ n) ⊎ (k ≤ last)

  abbrev pub Settled : Reporter P → Reply → ℕ → Type 0
  Settled r reply n =
      (k : ℕ) × (n ≤ k) × Released reply n k × Consecutive k r.pending r.next_sequence

  Released-refl : (reply : Reply) (n : ℕ) → Released reply n n
  Released-refl failed n = refl
  Released-refl (accepted last) n = inl refl

  settle-Settled :
      (n k : ℕ) (r : Reporter P) (e : Event P) (es : List (Event P)) (bytes : ℕ) (reply : Reply)
      → Consecutive n (e ∷ es) k
      → Consecutive k r.pending r.next_sequence
      → Settled (settle size r e es bytes reply).0 reply n
  unfolding settle
  settle-Settled n k r e es bytes failed h g =
      (n, omega arith, refl, prepend_pending-Consecutive n k r (e ∷ es) bytes h g)
  settle-Settled n k r e es bytes (accepted last) h g =
      elim (Bool-cases (leb (last_sequence e es) last)) [
        | inl every ↦
            let top = last_sequence-Consecutive n k e es h in
            rw every (k, Consecutive-le n k (e ∷ es) h, inr (ground arith), g)
        | inr some_left ↦
            let (j, ge, why, run) = unaccepted-Consecutive last n k (e ∷ es) h in
            rw some_left
              (j, ge, why, prepend_pending-Consecutive j k r (unaccepted last (e ∷ es)) _ run g)
      ]

  flush_drained-Settled :
      (n k : ℕ) (batch : List (Event P)) (bytes : ℕ) (r : Reporter P) (round : Round P)
      → Consecutive n batch k
      → Consecutive k r.pending r.next_sequence
      → Settled (flush_drained size batch bytes r round).0 round.reply n
  unfolding flush_drained
  flush_drained-Settled n k [] bytes r round h g = (
    n,
    omega arith,
    Released-refl round.reply n,
    subst (λ j. Consecutive j r.pending r.next_sequence) (sym h) g,
  )
  flush_drained-Settled n k (e ∷ es) bytes r round h g =
      settle-Settled n k (push_all size r round.meanwhile) e es bytes round.reply h
        (push_all-Consecutive k r round.meanwhile g)

  pub next_sequence-drain_pending :
      (r : Reporter P) → (drain_pending size r).2.next_sequence ≡ r.next_sequence
  unfolding drain_pending
  next_sequence-drain_pending r = refl

  -- If the backlog runs from n + 1 to the newest number, then after one flushBatch, whatever is
  -- appended meanwhile and whatever the control plane answers, it still runs from some k + 1 to the
  -- newest number; k is n after a failed request, and past n only up to what was accepted.
  pub flush_batch-Settled :
      (n : ℕ) (r : Reporter P) (round : Round P)
      → Consecutive n r.pending r.next_sequence
      → Settled (flush_batch size r round).0 round.reply n
  unfolding flush_batch
  flush_batch-Settled n r round h =
      let (batch, bytes, r') = drain_pending size r in
      let h' = subst (λ l. Consecutive n l r.next_sequence) (sym (drain_pending-append size r)) h in
      let (k, front, back) = Consecutive-split n r.next_sequence batch r'.pending h' in
      flush_drained-Settled n k batch bytes r' round front
        (subst (Consecutive k r'.pending) (sym (next_sequence-drain_pending r)) back)

  settle-IsCounted :
      (r : Reporter P) (e : Event P) (es : List (Event P)) (bytes : ℕ) (reply : Reply)
      → bytes ≡ total size (e ∷ es)
      → IsCounted size r
      → IsCounted size (settle size r e es bytes reply).0
  unfolding settle
  settle-IsCounted r e es bytes failed b h = prepend_pending-IsCounted size r (e ∷ es) bytes b h
  settle-IsCounted r e es bytes (accepted last) b h =
      elim (Bool-cases (leb (last_sequence e es) last)) [
        | inl every ↦ rw every h
        | inr some_left ↦
            rw some_left (prepend_pending-IsCounted size r (unaccepted last (e ∷ es)) _ refl h)
      ]

  flush_drained-IsCounted :
      (batch : List (Event P)) (bytes : ℕ) (r : Reporter P) (round : Round P)
      → bytes ≡ total size batch
      → IsCounted size r
      → IsCounted size (flush_drained size batch bytes r round).0
  unfolding flush_drained
  flush_drained-IsCounted [] bytes r round b h = h
  flush_drained-IsCounted (e ∷ es) bytes r round b h =
      settle-IsCounted (push_all size r round.meanwhile) e es bytes round.reply b
        (push_all-IsCounted size r round.meanwhile h)

  -- If `pendingBytes` is the sum of the sizes of the pending events, then it is so again after one
  -- flushBatch, on every answer.
  pub flush_batch-IsCounted :
      (r : Reporter P) (round : Round P)
      → IsCounted size r
      → IsCounted size (flush_batch size r round).0
  unfolding flush_batch
  flush_batch-IsCounted r round h =
      let (batch, bytes, r') = drain_pending size r in
      flush_drained-IsCounted batch bytes r' round (bytes-drain_pending size r)
        (drain_pending-IsCounted size r h).1
