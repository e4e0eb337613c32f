-- ===== src/Execution/Batch/Deadline.antt =====
-- The timers of the accumulators (src/execution/batch.rs).
use kaf_py.Prelude.{ℕ, ◌+◌, ◌≤◌, ◌≡◌, refl, true, none, some, ℤ, [], ◌∷◌, int_eq, arith}
use kaf_py.Prelude.Map
use kaf_py.Message.{OwnedMessage}
use kaf_py.Execution.Buffer
use kaf_py.Execution.Buffer.{PerPartitionBuffer}
use kaf_py.Execution.Batch.{
  BatchAccumulator, flush_all, flush_buffers, min_deadline, next_deadline, is_empty,
}
use kaf_py.Execution.Batch.Bounds.{flush_all_lem}

add-keeps :
    (now : ℕ) (b : PerPartitionBuffer) (m : OwnedMessage) (w d : ℕ)
    → b.deadline ≡ some d
    → (Buffer.add now b m w).deadline ≡ some d
unfolding Buffer.add
add-keeps now b m w d h = ground (arith, h)

-- The first message of a partition that has no timer yet sets its deadline, and no later message
-- moves it: the window is fixed.
pub fixed_window :
    (t0 t : ℕ) (b : PerPartitionBuffer) (m m' : OwnedMessage) (w : ℕ)
    → b.messages ≡ []
    → b.deadline ≡ none
    → ((Buffer.add t0 b m w).deadline ≡ some (t0 + w))
      × ((Buffer.add t (Buffer.add t0 b m w) m' w).deadline ≡ some (t0 + w))
unfolding Buffer.add
fixed_window t0 t b m m' w e h = ground (arith, e, h)

-- A buffer that was flushed keeps its old deadline `d`, and the next message, at any time from `d`
-- on, starts no new window: it is expired as soon as it is added.
pub stale_deadline :
    (now : ℕ) (b : PerPartitionBuffer) (m : OwnedMessage) (w d : ℕ)
    → b.deadline ≡ some d
    → d ≤ now
    → let next = Buffer.add now (Buffer.take_messages b).1 m w in
      (next.messages ≡ m ∷ [])
      × (next.deadline ≡ some d)
      × (Buffer.is_deadline_expired now next ≡ true)
unfolding Buffer.add Buffer.take_messages Buffer.is_deadline_expired
stale_deadline now b m w d h le = ground (arith, h)

flush_buffers-min_deadline :
    (m : Map.Map ℤ PerPartitionBuffer) → min_deadline (flush_buffers m).1 ≡ min_deadline m
unfolding flush_buffers min_deadline Buffer.is_empty Buffer.take_messages
flush_buffers-min_deadline [] = refl
flush_buffers-min_deadline ((p, b) ∷ m) = ground (arith, flush_buffers-min_deadline m)

-- A flush leaves no message and keeps every deadline, so that the loop sleeps until an instant that
-- has passed, wakes at once and has nothing to flush.
pub flush_all_deadline :
    (a : BatchAccumulator)
    → (next_deadline (flush_all a).1 ≡ next_deadline a) × (is_empty (flush_all a).1 ≡ true)
unfolding flush_all next_deadline
flush_all_deadline a = (flush_buffers-min_deadline a.partition_accumulators, (flush_all_lem a).2)
