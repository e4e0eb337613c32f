-- ===== src/Offset/Committer/Ready.antt =====
-- What the committer commits (src/offset/commit_task.rs).
use kaf_py.Prelude.{
  ℕ, ◌≡◌, refl, ap, Bool, true, some, ℤ, List, [], ◌∷◌, ◌++◌, All, arith, if◌then◌else◌, Bool-cases,
  Option-cases, inl, inr,
}
use kaf_py.Offset.Tracker.{
  OffsetTracker, TopicPartition, RunnerCall, store_offset, commit, should_commit,
  highest_contiguous, all_partitions,
}
use kaf_py.Offset.Committer.{
  CommitConfig, CommitterState, commit_partition, collect, commit_each, commit_if_ready,
  process_ready_partitions, is_due,
}

-- A stored offset is the one the tracker has for its partition, which may be committed.
abbrev pub IsSound : OffsetTracker → RunnerCall → Type 0
IsSound t (store_offset key offset) =
    (should_commit t key ≡ true) × (highest_contiguous t key ≡ some offset)
IsSound t commit = Unit

IsReady : OffsetTracker → TopicPartition × ℤ → Type 0
IsReady t p = (should_commit t p.0 ≡ true) × (highest_contiguous t p.0 ≡ some p.1)

collect-IsReady : (t : OffsetTracker) (ks : List TopicPartition) → All (IsReady t) (collect t ks)
unfolding IsReady collect
collect-IsReady t [] = tt
collect-IsReady t (key ∷ ks) = elim (Bool-cases (should_commit t key)) [
  | inr held ↦ rw held (collect-IsReady t ks)
  | inl ready ↦ elim (Option-cases (highest_contiguous t key)) [
    | inl e ↦ rw (ready, e) (collect-IsReady t ks)
    | inr (o, e) ↦ rw (ready, e) ((ready, e), collect-IsReady t ks)
  ]
]

module _ (store_ok : TopicPartition → ℤ → Bool) where
  commit_each-IsSound :
      (t : OffsetTracker) (ready : List (TopicPartition × ℤ))
      → All (IsReady t) ready
      → All (IsSound t) (commit_each store_ok ready)
  unfolding commit_each commit_partition IsReady
  commit_each-IsSound t [] h = tt
  commit_each-IsSound t ((key, o) ∷ ready) h = elim (Bool-cases (store_ok key o)) [
    | inl ok ↦ rw ok (h.0, (tt, commit_each-IsSound t ready h.1))
    | inr failed ↦ rw failed (h.0, commit_each-IsSound t ready h.1)
  ]

  -- `commit_if_ready` of every partition.
  abbrev pub commit_all : OffsetTracker → List TopicPartition → List RunnerCall
  commit_all t [] = []
  commit_all t (key ∷ ks) = commit_if_ready store_ok t key ++ commit_all t ks

  commit_each-collect :
      (t : OffsetTracker) (ks : List TopicPartition)
      → commit_each store_ok (collect t ks) ≡ commit_all t ks
  unfolding commit_each collect commit_if_ready
  commit_each-collect t [] = refl
  commit_each-collect t (key ∷ ks) = elim (Bool-cases (should_commit t key)) [
    | inr held ↦ rw held (commit_each-collect t ks)
    | inl ready ↦ elim (Option-cases (highest_contiguous t key)) [
      | inl e ↦ rw (ready, e) (commit_each-collect t ks)
      | inr (o, e) ↦
          rw (ready, e) (ap (λ l. commit_partition store_ok key o ++ l) (commit_each-collect t ks))
    ]
  ]

  -- A cycle that is due does for every partition what a signal for that partition alone does, in
  -- the order of the partitions; a cycle that is not due makes no call.
  pub process_ready_partitions_lem :
      (config : CommitConfig) (now later : ℕ) (t : OffsetTracker) (s : CommitterState)
      → (process_ready_partitions store_ok config now later t s).0
        ≡ (if is_due config now s then commit_all t (all_partitions t) else [])
  unfolding process_ready_partitions
  process_ready_partitions_lem config now later t s =
      ground (arith, commit_each-collect t (all_partitions t))

  -- A cycle over all partitions stores, for a partition that may be committed, the offset up to
  -- which everything is acked, and nothing else.
  process_ready_partitions-IsSound :
      (config : CommitConfig) (now later : ℕ) (t : OffsetTracker) (s : CommitterState)
      → All (IsSound t) (process_ready_partitions store_ok config now later t s).0
  unfolding process_ready_partitions
  process_ready_partitions-IsSound config now later t s = elim (Bool-cases (is_due config now s)) [
    | inl due ↦ rw due (
        commit_each-IsSound t (collect t (all_partitions t)) (collect-IsReady t (all_partitions t)))
    | inr early ↦ rw early tt
  ]
