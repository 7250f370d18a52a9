-- ===== src/Reporter/Batch.antt =====
-- drainPending of internal/runtime/event_reporter.go: the batch it takes, and the byte account.
use echopoint_runner.Prelude.{
  ℕ, suc, ◌+◌, ◌≤◌, ◌≡◌, refl, sym, subst, ap, ◌⊎◌, inl, inr, ◌&&◌, List, [], ◌∷◌, ◌++◌, length,
  take, drop, take-append-drop, arith, ltb, Bool-cases,
}
use echopoint_runner.Prelude.Text.{Text}
use echopoint_runner.Reporter.{
  Event, Reporter, total, next_event, left_bytes, push_all, push, scan, drain_pending,
  prepend_pending, max_batch_events, max_batch_bytes,
}

module _ {P : Type 0} (size : Event P → ℕ) where
  pub total-append :
      (xs ys : List (Event P)) → total size (xs ++ ys) ≡ total size xs + total size ys
  total-append [] ys = omega arith
  total-append (x ∷ xs) ys = omega (arith, total-append xs ys)

  -- What `scan` adds to the count is a prefix of what it reads, with its bytes.
  scan_prefix :
      (es : List (Event P)) (count bytes : ℕ)
      → (n : ℕ) × ((scan size es count bytes).0 ≡ count + n)
        × ((scan size es count bytes).1 ≡ bytes + total size (take n es))
        × (length (take n es) ≡ n)
  unfolding scan
  scan_prefix [] count bytes = (0, omega arith, omega arith, refl)
  scan_prefix (e ∷ es) count bytes = elim (Bool-cases (ltb count max_batch_events)) [
    | inr full ↦ rw full (0, omega arith, omega arith, refl)
    | inl room ↦ elim (Bool-cases (ltb 0 count && ltb max_batch_bytes (bytes + size e))) [
      | inl heavy ↦ rw (room, heavy) (0, omega arith, omega arith, refl)
      | inr light ↦
          let (n, c, b, l) = scan_prefix es (count + 1) (bytes + size e) in
          rw (room, light) (suc n, omega arith, omega arith, ap suc l)
    ]
  ]

  scan_limits :
      (es : List (Event P)) (count bytes : ℕ)
      → count ≤ max_batch_events
      → (bytes ≤ max_batch_bytes) ⊎ (count ≤ 1)
      → ((scan size es count bytes).0 ≤ max_batch_events)
        × (((scan size es count bytes).1 ≤ max_batch_bytes) ⊎ ((scan size es count bytes).0 ≤ 1))
  unfolding scan
  scan_limits [] count bytes h k = (h, k)
  scan_limits (e ∷ es) count bytes h k = elim (Bool-cases (ltb count max_batch_events)) [
    | inr full ↦ rw full (h, k)
    | inl room ↦ elim (Bool-cases (ltb 0 count && ltb max_batch_bytes (bytes + size e))) [
      | inl heavy ↦ rw (room, heavy) (h, k)
      | inr light ↦
          rw (room, light)
            (scan_limits es (count + 1) (bytes + size e) (ground arith) (ground arith))
    ]
  ]

  -- The first event always fits.
  scan_first : (e : Event P) (es : List (Event P)) → 1 ≤ (scan size (e ∷ es) 0 0).0
  unfolding scan
  scan_first e es = let (n, c, b, l) = scan_prefix es 1 (0 + size e) in omega arith

  scan_takes :
      (es : List (Event P))
      → ((scan size es 0 0).1 ≡ total size (take (scan size es 0 0).0 es))
        × (length (take (scan size es 0 0).0 es) ≡ (scan size es 0 0).0)
  scan_takes es =
      let (n, c, b, l) = scan_prefix es 0 0 in
      let e : (scan size es 0 0).0 ≡ n = omega arith in rw e (omega arith, l)

  module _ (r : Reporter P) where
    -- The batch and what is kept are `pending`, cut in two.
    pub drain_pending-append :
        (drain_pending size r).0 ++ (drain_pending size r).2.pending ≡ r.pending
    unfolding drain_pending
    drain_pending-append = take-append-drop _ r.pending

    pub bytes-drain_pending : (drain_pending size r).1 ≡ total size (drain_pending size r).0
    unfolding drain_pending
    bytes-drain_pending = (scan_takes r.pending).0

    pub drain_pending_limits :
        (length (drain_pending size r).0 ≤ max_batch_events)
        × ((total size (drain_pending size r).0 ≤ max_batch_bytes)
            ⊎ (length (drain_pending size r).0 ≤ 1))
    unfolding drain_pending
    drain_pending_limits =
        let (b, l) = scan_takes r.pending in
        let (c, k) = scan_limits r.pending 0 0 (omega arith) (omega arith) in
        (omega arith, omega arith)

    pub drain_pending_progress :
        (e : Event P) (es : List (Event P))
        → r.pending ≡ e ∷ es
        → 1 ≤ length (drain_pending size r).0
    unfolding drain_pending
    drain_pending_progress e es h =
        let (b, l) = scan_takes r.pending in
        let first = subst (λ l. 1 ≤ (scan size l 0 0).0) (sym h) (scan_first e es) in omega arith

  pending_or_progress :
      (r : Reporter P) (es : List (Event P))
      → r.pending ≡ es
      → (r.pending ≡ []) ⊎ (1 ≤ length (drain_pending size r).0)
  pending_or_progress r [] h = inl h
  pending_or_progress r (e ∷ es) h = inr (drain_pending_progress r e es h)

  -- drainPending cuts the backlog in two without changing an event or the order: the batch has at
  -- most 16 events, and at most 32 KiB unless it is a single event, it is empty only if the
  -- backlog is, and its byte count is the size of its events.
  pub drain_pending-batch :
      (r : Reporter P)
      → ((drain_pending size r).0 ++ (drain_pending size r).2.pending ≡ r.pending)
        × (length (drain_pending size r).0 ≤ max_batch_events)
        × ((total size (drain_pending size r).0 ≤ max_batch_bytes)
            ⊎ (length (drain_pending size r).0 ≤ 1))
        × ((r.pending ≡ []) ⊎ (1 ≤ length (drain_pending size r).0))
        × ((drain_pending size r).1 ≡ total size (drain_pending size r).0)
  drain_pending-batch r =
      let (few, light) = drain_pending_limits r in
      (
        drain_pending-append r,
        few,
        light,
        pending_or_progress r r.pending refl,
        bytes-drain_pending r,
      )

  -- `pendingBytes` is the size of what is pending.
  abbrev pub IsCounted : Reporter P → Type 0
  IsCounted r = r.pending_bytes ≡ total size r.pending

  pub push-IsCounted :
      (r : Reporter P) (kind : Text) (payload : P)
      → IsCounted r
      → IsCounted (push size r kind payload)
  unfolding push
  push-IsCounted r kind payload h =
      omega (arith, total-append r.pending (next_event size r kind payload ∷ []))

  pub push_all-IsCounted :
      (r : Reporter P) (more : List (Text × P)) → IsCounted r → IsCounted (push_all size r more)
  unfolding push_all
  push_all-IsCounted r [] h = h
  push_all-IsCounted r ((kind, payload) ∷ more) h =
      push_all-IsCounted (push size r kind payload) more (push-IsCounted r kind payload h)

  pub prepend_pending-IsCounted :
      (r : Reporter P) (es : List (Event P)) (bytes : ℕ)
      → bytes ≡ total size es
      → IsCounted r
      → IsCounted (prepend_pending size r es bytes)
  unfolding prepend_pending
  prepend_pending-IsCounted r [] bytes e h = h
  prepend_pending-IsCounted r (x ∷ xs) bytes e h = omega (arith, total-append (x ∷ xs) r.pending)

  left_bytes_lem :
      (es : List (Event P)) (bytes : ℕ)
      → bytes ≡ total size es
      → left_bytes size es bytes ≡ total size es
  left_bytes_lem [] bytes h = refl
  left_bytes_lem (e ∷ es) bytes h = h

  -- The bytes taken off never pass the account, so the truncated difference is the true one.
  pub drain_pending-IsCounted :
      (r : Reporter P)
      → IsCounted r
      → (drain_pending size r).1 ≤ r.pending_bytes × IsCounted (drain_pending size r).2
  unfolding drain_pending
  drain_pending-IsCounted r h =
      let n = (scan size r.pending 0 0).0 in
      let (b, l) = scan_takes r.pending in
      let cut = ap (total size) (take-append-drop n r.pending) in
      let sum = total-append (take n r.pending) (drop n r.pending) in
      (omega arith, left_bytes_lem (drop n r.pending) _ (omega arith))
