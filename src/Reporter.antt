-- ===== src/Reporter.antt =====
-- internal/runtime/event_reporter.go: the progress-event reporter of one job. The mutex `mu` makes
-- each of its critical sections one step here; `flushMu` keeps flushes apart, so what the other
-- goroutines can do while a batch is on the wire is append events (`meanwhile`).
pub mod Batch
pub mod Order
pub mod Flush
mod Tests
use echopoint_runner.Prelude.{
  ℕ, zero, suc, ◌+◌, ◌-◌, ◌*◌, Bool, true, false, ◌&&◌, ◌||◌, List, [], ◌∷◌, ◌++◌, length, take,
  drop, ltb, leb, ◌==◌, if◌then◌else◌, filter_by, not, Option, none, some,
}
use echopoint_runner.Prelude.Text.{Text}

abbrev pub max_batch_events : ℕ
max_batch_events = 16

abbrev pub max_batch_bytes : ℕ
max_batch_bytes = 32 * 1024

abbrev pub flush_retries : ℕ
flush_retries = 3

pub record Event (P : Type 0) : Type 0 where
  pub sequence : ℕ
  pub kind : Text
  pub payload : P

-- The fields that the operations change.
pub record Reporter (P : Type 0) : Type 0 where
  pub next_sequence : ℕ
  pub pending : List (Event P)
  pub pending_bytes : ℕ

-- What the control plane answers to a batch.
pub data Reply : Type 0 where
  failed : Reply
  accepted : (last : ℕ) → Reply

-- How one call of flushBatch ends: `true, nil`, `false, nil` or `false, err`.
pub data Step : Type 0 where
  sent stopped error : Step

-- How a Flush ends.
pub data Flushed : Type 0 where
  returned raised : Flushed

-- One exchange with the control plane: the events appended meanwhile, and the answer.
pub record Round (P : Type 0) : Type 0 where
  pub meanwhile : List (Text × P)
  pub reply : Reply

-- One Flush of FlushWithRetry, and whether the pause behind it ended by itself.
pub record Attempt (P : Type 0) : Type 0 where
  pub rounds : List (Round P)
  pub slept : Bool

module _ {P : Type 0} where
  abbrev pub unaccepted : ℕ → List (Event P) → List (Event P)
  unaccepted last = filter_by (λ e. not (leb e.sequence last))

  abbrev pub last_sequence : Event P → List (Event P) → ℕ
  last_sequence e [] = e.sequence
  last_sequence e (f ∷ es) = last_sequence f es

-- The length of a JSON encoding is a parameter: `size`.
module _ {P : Type 0} (size : Event P → ℕ) where
  abbrev pub total : List (Event P) → ℕ
  total [] = 0
  total (e ∷ es) = size e + total es

  abbrev pub next_event : Reporter P → Text → P → Event P
  next_event r kind payload = record {
    sequence = r.next_sequence + 1;
    kind = kind;
    payload = payload;
  }

  -- The locked part of enqueue.
  pub push : Reporter P → Text → P → Reporter P
  push r kind payload = record {
    next_sequence = r.next_sequence + 1;
    pending = r.pending ++ next_event r kind payload ∷ [];
    pending_bytes = r.pending_bytes + size (next_event r kind payload);
  }

  -- Whether enqueue goes on to flush.
  pub should_flush : Reporter P → Bool
  should_flush r = leb max_batch_events (length r.pending) || leb max_batch_bytes r.pending_bytes

  pub push_all : Reporter P → List (Text × P) → Reporter P
  push_all r [] = r
  push_all r ((kind, payload) ∷ more) = push_all (push r kind payload) more

  -- The loop of drainPending over what is left of `pending`.
  pub scan : List (Event P) → ℕ → ℕ → ℕ × ℕ
  scan [] count bytes = (count, bytes)
  scan (e ∷ es) count bytes =
      let rest = scan es (count + 1) (bytes + size e) in
      if ltb count max_batch_events
      then if ltb 0 count && ltb max_batch_bytes (bytes + size e) then (count, bytes) else rest
      else (count, bytes)

  abbrev left_bytes : List (Event P) → ℕ → ℕ
  left_bytes [] bytes = 0
  left_bytes (e ∷ es) bytes = bytes

  -- The batch, its bytes, and the reporter without it.
  pub drain_pending : Reporter P → List (Event P) × ℕ × Reporter P
  drain_pending r =
      let (count, bytes) = scan r.pending 0 0 in
      let rest = drop count r.pending in
      (
        take count r.pending,
        bytes,
        record r { pending = rest; pending_bytes = left_bytes rest (r.pending_bytes - bytes) },
      )

  pub prepend_pending : Reporter P → List (Event P) → ℕ → Reporter P
  prepend_pending r [] bytes = r
  prepend_pending r (e ∷ es) bytes = record r {
    pending = (e ∷ es) ++ r.pending;
    pending_bytes = r.pending_bytes + bytes;
  }

  -- flushBatch behind the answer, for a batch that is not empty.
  pub settle : Reporter P → Event P → List (Event P) → ℕ → Reply → Reporter P × Step
  settle r e es bytes failed = (prepend_pending r (e ∷ es) bytes, error)
  settle r e es bytes (accepted last) = if leb (last_sequence e es) last then (r, sent) else (
    prepend_pending r (unaccepted last (e ∷ es)) (total (unaccepted last (e ∷ es))),
    stopped,
  )

  flush_drained : List (Event P) → ℕ → Reporter P → Round P → Reporter P × Step
  unfolding settle
  flush_drained [] bytes r round = (r, stopped)
  flush_drained (e ∷ es) bytes r round = settle (push_all r round.meanwhile) e es bytes round.reply

  pub flush_batch : Reporter P → Round P → Reporter P × Step
  flush_batch r round =
      let (batch, bytes, r') = drain_pending r in flush_drained batch bytes r' round

  -- drainPending finds nothing, or the request is on the wire.
  no_round : List (Event P) → Reporter P → Option (Reporter P × Flushed)
  no_round [] r = some (r, returned)
  no_round (e ∷ es) r = none

  after_batch : Step → Reporter P → Option (Reporter P × Flushed) → Option (Reporter P × Flushed)
  after_batch sent r again = again
  after_batch stopped r again = some (r, returned)
  after_batch error r again = some (r, raised)

  -- Flush over the rounds that take place: `none` while an answer is still awaited.
  pub flush : Reporter P → List (Round P) → Option (Reporter P × Flushed)
  unfolding no_round after_batch
  flush r [] = no_round r.pending r
  flush r (round ∷ rounds) =
      let (r', step) = flush_batch r round in after_batch step r' (flush r' rounds)

  -- Behind a Flush: another attempt, unless it succeeded, none is left, or the pause was cancelled.
  after_attempt :
      Option (Reporter P × Flushed)
      → (last slept : Bool) → (Reporter P → Option (Reporter P × Flushed))
      → Option (Reporter P × Flushed)
  after_attempt none last slept again = none
  after_attempt (some (r, returned)) last slept again = some (r, returned)
  after_attempt (some (r, raised)) last slept again =
      if last then some (r, raised) else if slept then again r else some (r, raised)

  -- The loop of FlushWithRetry with `left` attempts to go.
  pub retry : ℕ → Reporter P → List (Attempt P) → Option (Reporter P × Flushed)
  unfolding after_attempt
  retry zero r attempts = some (r, returned)
  retry (suc left) r [] = none
  retry (suc left) r (attempt ∷ attempts) =
      after_attempt (flush r attempt.rounds) (left == 0) attempt.slept
        (λ r'. retry left r' attempts)

  pub flush_with_retry : Reporter P → List (Attempt P) → Option (Reporter P × Flushed)
  flush_with_retry r attempts = retry flush_retries r attempts
