-- ===== src/Offset/Committer.antt =====
-- `OffsetCommitter` of src/offset/commit_task.rs: the throttled task that stores and commits the
-- offsets. An instant and a duration are numbers of milliseconds. Whether `store_offset` of the
-- runner succeeds is an argument; an error of `commit` is only logged.
pub mod Throttle
pub mod Ready
use kaf_py.Prelude.{
  ℕ, ◌-◌, Bool, true, false, ◌||◌, Option, none, some, ℤ, List, [], ◌∷◌, ◌++◌, leb, if◌then◌else◌,
}
use kaf_py.Offset.Tracker.{
  OffsetTracker, TopicPartition, RunnerCall, store_offset, commit, should_commit,
  highest_contiguous, all_partitions,
}

pub record CommitConfig : Type 0 where
  pub commit_interval_ms : ℕ
  pub commit_max_messages : ℕ

-- `CommitConfig::default`
abbrev pub default_config : CommitConfig
default_config = record { commit_interval_ms = 100; commit_max_messages = 100 }

pub record CommitterState : Type 0 where
  pub last_commit : Option ℕ
  pub message_count : ℕ

unfoldable pub new : CommitterState
new = record { last_commit = none; message_count = 0 }

-- `elapsed` is zero where the clock has not advanced.
unfoldable pub interval_ready : CommitConfig → ℕ → CommitterState → Bool
interval_ready config now s = elim s.last_commit [
  | none ↦ true
  | some last ↦ leb config.commit_interval_ms (now - last)
]

unfoldable pub is_due : CommitConfig → ℕ → CommitterState → Bool
is_due config now s = interval_ready config now s || leb config.commit_max_messages s.message_count

unfoldable pub reset : ℕ → CommitterState
reset now = record { last_commit = some now; message_count = 0 }

module _ (store_ok : TopicPartition → ℤ → Bool) where
  unfoldable pub commit_partition : TopicPartition → ℤ → List RunnerCall
  commit_partition key offset =
      if store_ok key offset
      then store_offset key offset ∷ commit ∷ []
      else store_offset key offset ∷ []

  commit_found : TopicPartition → Option ℤ → List RunnerCall
  unfolding commit_partition
  commit_found key none = []
  commit_found key (some offset) = commit_partition key offset

  unfoldable pub commit_if_ready : OffsetTracker → TopicPartition → List RunnerCall
  unfolding commit_found
  commit_if_ready t key =
      if should_commit t key then commit_found key (highest_contiguous t key) else []

  -- The calls, and the new state; the times are those of the check and of the reset.
  unfoldable pub process_partition :
      CommitConfig
      → ℕ
      → ℕ
      → OffsetTracker
      → CommitterState
      → TopicPartition
      → List RunnerCall × CommitterState
  unfolding commit_if_ready
  process_partition config now later t s key =
      if is_due config now s then (commit_if_ready t key, reset later) else ([], s)

-- The partitions that `process_ready_partitions` collects.
collect_found : TopicPartition → Option ℤ → List (TopicPartition × ℤ)
collect_found key none = []
collect_found key (some offset) = (key, offset) ∷ []

unfoldable pub collect : OffsetTracker → List TopicPartition → List (TopicPartition × ℤ)
unfolding collect_found
collect t [] = []
collect t (key ∷ ks) =
    let rest = collect t ks in
    if should_commit t key then collect_found key (highest_contiguous t key) ++ rest else rest

module _ (store_ok : TopicPartition → ℤ → Bool) where
  unfoldable pub commit_each : List (TopicPartition × ℤ) → List RunnerCall
  commit_each [] = []
  commit_each ((key, offset) ∷ ready) = commit_partition store_ok key offset ++ commit_each ready

  unfoldable pub process_ready_partitions :
      CommitConfig → ℕ → ℕ → OffsetTracker → CommitterState → List RunnerCall × CommitterState
  unfolding commit_each collect
  process_ready_partitions config now later t s =
      if is_due config now s
      then (commit_each (collect t (all_partitions t)), reset later)
      else ([], s)

-- What `run` waits for: the phase `Done`, a value of the watch channel, or the ticker.
pub data Wake : Type 0 where
  finished : Wake
  changed : TopicPartition → Wake
  tick : Wake

-- One round of `run`: the calls, the new state, and whether the loop goes on.
unfoldable pub run_step :
    (TopicPartition → ℤ → Bool)
    → CommitConfig
    → ℕ
    → ℕ
    → OffsetTracker
    → CommitterState
    → Wake
    → List RunnerCall × CommitterState × Bool
unfolding process_ready_partitions process_partition
run_step store_ok config now later t s finished =
    let (calls, s') = process_ready_partitions store_ok config now later t s in (calls, s', false)
run_step store_ok config now later t s (changed key) =
    let (calls, s') = process_partition store_ok config now later t s key in (calls, s', true)
run_step store_ok config now later t s tick =
    let (calls, s') = process_ready_partitions store_ok config now later t s in (calls, s', true)

-- A round at its times, with the tracker as it is then.
pub record Round : Type 0 where
  pub now : ℕ
  pub later : ℕ
  pub tracker : OffsetTracker
  pub wake : Wake

-- The state after these rounds.
unfoldable pub run_rounds :
    (TopicPartition → ℤ → Bool) → CommitConfig → CommitterState → List Round → CommitterState
unfolding run_step
run_rounds store_ok config s [] = s
run_rounds store_ok config s (r ∷ rs) =
    run_rounds store_ok config (run_step store_ok config r.now r.later r.tracker s r.wake).1 rs
