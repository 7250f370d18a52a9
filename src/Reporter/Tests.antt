-- ===== src/Reporter/Tests.antt =====
-- Runs of the reporter at small inputs, and the theorems at inputs that meet their hypotheses.
use echopoint_runner.Prelude.{ℕ, ◌≡◌, refl, List, [], ◌∷◌, ◌++◌, arith, length, ◌≤◌, ◌⊎◌, true}
use echopoint_runner.Reporter.{
  Event, Reporter, Round, Attempt, failed, accepted, stopped, drain_pending, scan, flush_drained,
  settle, push_all, prepend_pending, flush_batch, flush, total, max_batch_bytes, max_batch_events,
}
use echopoint_runner.Reporter.Batch.{drain_pending-batch}
use echopoint_runner.Reporter.Order.{Settled, flush_batch-Settled}
use echopoint_runner.Reporter.Flush.{Emptied, flush-Emptied}

-- A payload is the size of its encoding.
abbrev size : Event ℕ → ℕ
size e = e.payload

abbrev event : ℕ → ℕ → Event ℕ
event n bytes = record { sequence = n; kind = []; payload = bytes }

abbrev backlog : Reporter ℕ
backlog = record {
  next_sequence = 5;
  pending = event 3 30000 ∷ event 4 3000 ∷ event 5 40000 ∷ [];
  pending_bytes = 73000;
}

abbrev refused : Round ℕ
refused = record { meanwhile = ([], 7) ∷ []; reply = failed }

abbrev granted : Round ℕ
granted = record { meanwhile = []; reply = accepted 5 }

-- The second event does not fit beside the first, and the third is too large to share.
drained_first : (drain_pending size backlog).1 ≡ 30000
unfolding drain_pending scan
drained_first = refl

partly : (flush_batch size backlog (record { meanwhile = []; reply = accepted 2 })).1 ≡ stopped
unfolding flush_batch drain_pending scan flush_drained settle push_all prepend_pending
partly = refl

drain_pending-batch_example :
    ((drain_pending size backlog).0 ++ (drain_pending size backlog).2.pending ≡ backlog.pending)
    × (length (drain_pending size backlog).0 ≤ max_batch_events)
    × ((total size (drain_pending size backlog).0 ≤ max_batch_bytes)
        ⊎ (length (drain_pending size backlog).0 ≤ 1))
    × ((backlog.pending ≡ []) ⊎ (1 ≤ length (drain_pending size backlog).0))
    × ((drain_pending size backlog).1 ≡ total size (drain_pending size backlog).0)
drain_pending-batch_example = drain_pending-batch size backlog

flush_batch-Settled_example : Settled size (flush_batch size backlog refused).0 failed 2
flush_batch-Settled_example =
    flush_batch-Settled size 2 backlog refused (refl, (refl, (refl, refl)))

abbrev attempts : List (Attempt ℕ)
attempts =
    record { rounds = granted ∷ refused ∷ []; slept = true }
    ∷ record { rounds = granted ∷ granted ∷ granted ∷ []; slept = true }
    ∷ []

flush-Emptied_example : Emptied size (flush size backlog (granted ∷ granted ∷ granted ∷ []))
flush-Emptied_example =
    flush-Emptied size (granted ∷ granted ∷ granted ∷ []) backlog 2 5 (refl, (refl, (refl, refl)))
      (omega arith) ((refl, refl), ((refl, refl), ((refl, refl), tt))) (omega arith)
