-- ===== src/Offset/Tracker/Commits.antt =====
-- What may be committed, over all partitions (src/offset/offset_tracker.rs).
use kaf_py.Prelude.{
  ℕ, ◌<◌, ◌≡◌, refl, ap, ◌∙◌, Bool, true, false, Option, none, some, ℤ, pos, List, [], ◌∷◌, ◌++◌,
  arith, i64_max, ◌≤ℤ◌, beq_refl, succ_i64, leb_ℤ, Option-cases, Bool-cases, inl, inr,
  if◌then◌else◌,
}
use kaf_py.Prelude.Map
use kaf_py.Prelude.OrdSet
use kaf_py.Prelude.OrdSet.{OrdSet}
use kaf_py.Failure.{FailureReason, TerminalKind}
use kaf_py.Offset.Partition
use kaf_py.Offset.Partition.{PartitionState, record_failed}
use kaf_py.Offset.Partition.Invariant.{IsValid, new-IsValid, first_ack}
use kaf_py.Offset.Partition.History.{Event, acked, failed, InRange, first_acked, step, run}
use kaf_py.Offset.Partition.AtLeastOnce.{Passes, run-Passes}
use kaf_py.Offset.Tracker.{
  OffsetTracker, TopicPartition, key_eq, new, ack, mark_failed, state_or_default, committed_offset,
  should_commit, graceful_shutdown, shutdown_all, shutdown_partition, highest_contiguous, commit,
  all_partitions, RunnerCall, is_committable,
}
use kaf_py.Offset.Tracker.Histories.{
  tracker_run, project, run_alone, tracker_run-Alone, ack-some, get-mark_failed,
}

-- The state of a partition on its own, with the failures before its first ack forgotten.
run_alone-Passes :
    (es : List Event) (b : ℕ)
    → InRange es
    → first_acked es ≡ some b
    → (s : PartitionState) × (run_alone none es ≡ some s) × Passes b es s
run_alone-Passes [] b h e = cc
run_alone-Passes (acked n ∷ es) b h e =
    (run Partition.new (acked n ∷ es), refl, run-Passes (acked n ∷ es) b h e)
run_alone-Passes (failed n r ∷ es) b h e =
    let (s, p, q) = run_alone-Passes es b h.1 e in (s, p, (q.0, q.1))

-- From an empty tracker, no history of acks and failures of any partitions panics, and in each
-- partition with an ack the committed offset is at least the first offset that was acked there, and
-- every offset between them was acked there. Offsets are below i64::MAX.
pub tracker_run-Passes :
    (es : List (TopicPartition × Event)) (key : TopicPartition) (b : ℕ)
    → InRange (project key es)
    → first_acked (project key es) ≡ some b
    → (t : OffsetTracker) × (s : PartitionState) × (tracker_run new es ≡ some t)
      × (Map.get key t.partitions ≡ some s)
      × Passes b (project key es) s
unfolding new Map.get
tracker_run-Passes es key b h e =
    let r = tracker_run-Alone key new es in
    let (s, p, q) = run_alone-Passes (project key es) b h e in
    (r.after, s, r.returns, r.alone ∙ p, q)

-- A failure of a partition that has had no ack is forgotten: the tracker stays as it is, and the
-- next ack of an offset `n` there commits up to `n` at least, past any smaller offset that failed.
-- `n` is below i64::MAX.
pub failure_before_first_ack :
    (t : OffsetTracker) (key : TopicPartition) (o : ℤ) (r : FailureReason) (n : ℕ)
    → Map.get key t.partitions ≡ none
    → n < i64_max
    → (mark_failed t key o r ≡ t)
      × ((t' : OffsetTracker) × (ack (mark_failed t key o r) key (pos n) ≡ some t')
          × (pos n ≤ℤ committed_offset t' key))
unfolding mark_failed committed_offset state_or_default
failure_before_first_ack t key o r n e h =
    let (t', q, p) = ack-some t key n in
    let same : mark_failed t key o r ≡ t = rw (e, mark_failed) in
    let fresh : state_or_default key t ≡ Partition.new = rw (e, state_or_default) in
    let stored : Map.get key t'.partitions ≡ some (Partition.ack Partition.new (pos n)) =
      rw (p, fresh) (Map.get-insert_self key (Partition.ack Partition.new (pos n)) t.partitions) in
    let reached : pos n ≤ℤ (Partition.ack Partition.new (pos n)).committed_offset =
      first_ack Partition.new n h new-IsValid (unfold Partition.new in refl) in
    (same, (t', ap (λ u. ack u key (pos n)) same ∙ q, rw (stored, committed_offset) reached))

has_terminal-run :
    (s : PartitionState) (es : List Event) → s.has_terminal ≡ true → (run s es).has_terminal ≡ true
unfolding run step Partition.ack record_failed
has_terminal-run s [] h = h
has_terminal-run s (acked n ∷ es) h = has_terminal-run (step s (acked n)) es h
has_terminal-run s (failed n r ∷ es) h = has_terminal-run (step s (failed n r)) es (ground arith)

-- Once a terminal failure was recorded in a registered partition, no history of acks and failures
-- of any partitions makes that partition ready to commit again.
pub terminal_closes :
    (t : OffsetTracker) (key : TopicPartition) (o : ℤ) (kind : TerminalKind) (s : PartitionState)
    (es : List (TopicPartition × Event))
    → Map.get key t.partitions ≡ some s
    → (t' : OffsetTracker) × (tracker_run (mark_failed t key o (FailureReason.terminal kind)) es
        ≡ some t')
      × (should_commit t' key ≡ false)
unfolding should_commit
terminal_closes t key o kind s es e =
    let r = tracker_run-Alone key (mark_failed t key o (FailureReason.terminal kind)) es in
    let s' = record_failed s o (FailureReason.terminal kind) in
    let stored = get-mark_failed t key key o (FailureReason.terminal kind) in
    let here : Map.get key (mark_failed t key o (FailureReason.terminal kind)).partitions
        ≡ some s' =
      stored ∙ rw (beq_refl key, e) in
    let end : Map.get key r.after.partitions ≡ some (run s' (project key es)) =
      r.alone ∙ ap (λ q. run_alone q (project key es)) here in
    let closed : (run s' (project key es)).has_terminal ≡ true =
      has_terminal-run s' (project key es) (unfold record_failed in refl) in
    (r.after, r.returns, rw (end, should_commit) (rw closed))

-- A valid partition with a commit and no terminal failure is ready to commit, though the offset
-- after the committed one is not pending.
should_commit_idle :
    (t : OffsetTracker) (key : TopicPartition) (s : PartitionState)
    → Map.get key t.partitions ≡ some s
    → IsValid s
    → s.has_terminal ≡ false
    → pos 0 ≤ℤ s.committed_offset
    → (should_commit t key ≡ true)
      × (OrdSet.contains (succ_i64 s.committed_offset) s.pending_offsets ≡ false)
unfolding should_commit
should_commit_idle t key s e v open_ nonneg = (rw (e, should_commit) (ground arith), v.stopped)

-- Whether an offset is pending, or one is committed.
abbrev pub has_offset : OrdSet → ℤ → Bool
has_offset [] committed = leb_ℤ (pos 0) committed
has_offset (x ∷ pending) committed = true

-- One commit for a partition that has had no terminal failure, and has an offset pending or committed.
abbrev pub commit_of : Option PartitionState → List RunnerCall
commit_of none = []
commit_of (some s) =
    if s.has_terminal
    then []
    else if has_offset s.pending_offsets s.committed_offset
    then commit ∷ []
    else []

abbrev pub commits_of : OffsetTracker → List TopicPartition → List RunnerCall
commits_of t [] = []
commits_of t (key ∷ ks) = commit_of (Map.get key t.partitions) ++ commits_of t ks

is_committable-has_offset :
    (s : PartitionState)
    → is_committable s
      ≡ (if s.has_terminal then false else has_offset s.pending_offsets s.committed_offset)
unfolding is_committable
is_committable-has_offset s = go s.has_terminal s.pending_offsets
  where
    go :
        (closed : Bool) (pending : OrdSet)
        → is_committable (record s { has_terminal = closed; pending_offsets = pending })
          ≡ (if closed then false else has_offset pending s.committed_offset)
    go true pending = refl
    go false [] = refl
    go false (x ∷ pending) = refl

shutdown_partition-commit_of :
    (t : OffsetTracker) (key : TopicPartition)
    → shutdown_partition t key ≡ (if t.has_runner then commit_of (Map.get key t.partitions) else [])
unfolding shutdown_partition should_commit highest_contiguous
shutdown_partition-commit_of t key = elim (Option-cases (Map.get key t.partitions)) [
  | inl missing ↦ rw (shutdown_partition, should_commit, missing) (ground arith)
  | inr (s, found) ↦
      rw (shutdown_partition, should_commit, highest_contiguous, found)
        (rw (is_committable-has_offset s) (ground arith))
]

-- With a runner, `graceful_shutdown` asks it for one commit for each partition that is ready, and stores no
-- offset: the future of `store_offset` is dropped before it is polled. Without a runner it makes no call.
pub graceful_shutdown-commits_of :
    (t : OffsetTracker)
    → graceful_shutdown t ≡ (if t.has_runner then commits_of t (all_partitions t) else [])
unfolding graceful_shutdown
graceful_shutdown-commits_of t = go (all_partitions t)
  where
    go :
        (ks : List TopicPartition)
        → shutdown_all t ks ≡ (if t.has_runner then commits_of t ks else [])
    go [] = ground arith
    go (key ∷ ks) =
        rw (shutdown_partition-commit_of t key, go ks)
          (elim (Bool-cases t.has_runner) [ inl here ↦ rw here refl | inr gone ↦ rw gone refl ])
