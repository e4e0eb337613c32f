-- ===== src/Offset/Committer/Throttle.antt =====
-- When the committer commits (src/offset/commit_task.rs).
use kaf_py.Prelude.{ℕ, ◌+◌, ◌≤◌, ◌<◌, ◌≡◌, refl, Bool, ℤ, List, [], ◌∷◌, arith}
use kaf_py.Offset.Tracker.{OffsetTracker, TopicPartition}
use kaf_py.Offset.Committer.{
  CommitConfig, CommitterState, new, interval_ready, is_due, reset, process_partition,
  process_ready_partitions, run_step, run_rounds, Round, Wake, finished, changed, tick,
}

run_step-count :
    (store_ok : TopicPartition → ℤ → Bool) (config : CommitConfig) (now later : ℕ)
    (t : OffsetTracker) (s : CommitterState) (w : Wake)
    → s.message_count ≡ 0
    → (run_step store_ok config now later t s w).1.message_count ≡ 0
unfolding run_step process_partition process_ready_partitions reset
run_step-count store_ok config now later t s finished h = ground (arith, h)
run_step-count store_ok config now later t s (changed key) h = ground (arith, h)
run_step-count store_ok config now later t s tick h = ground (arith, h)

run_rounds-count :
    (store_ok : TopicPartition → ℤ → Bool) (config : CommitConfig) (s : CommitterState)
    (rs : List Round)
    → s.message_count ≡ 0
    → (run_rounds store_ok config s rs).message_count ≡ 0
unfolding run_rounds
run_rounds-count store_ok config s [] h = h
run_rounds-count store_ok config s (r ∷ rs) h =
    run_rounds-count store_ok config (run_step store_ok config r.now r.later r.tracker s r.wake).1
      rs (run_step-count store_ok config r.now r.later r.tracker s r.wake h)

-- The committer never counts a message: after any rounds, whether it is due depends on the interval
-- alone, for any positive limit on the messages.
never_batch_ready :
    (store_ok : TopicPartition → ℤ → Bool) (config : CommitConfig) (rs : List Round) (now : ℕ)
    → 1 ≤ config.commit_max_messages
    → is_due config now (run_rounds store_ok config new rs)
      ≡ interval_ready config now (run_rounds store_ok config new rs)
unfolding is_due new
never_batch_ready store_ok config rs now h =
    let count = run_rounds-count store_ok config new rs refl in ground (arith, h, count)

-- Within the interval after a cycle the committer makes no call and stays as it is, whatever wakes
-- it. The round of the phase `Done` is no exception: it ends the loop with nothing committed. The
-- limit on the messages is positive, and the clock has not gone back.
pub run_step_throttled :
    (store_ok : TopicPartition → ℤ → Bool) (config : CommitConfig) (before now later : ℕ)
    (t : OffsetTracker) (w : Wake)
    → 1 ≤ config.commit_max_messages
    → before ≤ now
    → now < before + config.commit_interval_ms
    → ((run_step store_ok config now later t (reset before) w).0 ≡ [])
      × ((run_step store_ok config now later t (reset before) w).1 ≡ reset before)
unfolding run_step process_partition process_ready_partitions is_due interval_ready reset
run_step_throttled store_ok config before now later t finished m le h = ground (arith, m, le, h)
run_step_throttled store_ok config before now later t (changed key) m le h =
    ground (arith, m, le, h)
run_step_throttled store_ok config before now later t tick m le h = ground (arith, m, le, h)
