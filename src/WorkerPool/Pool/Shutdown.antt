-- ===== src/WorkerPool/Pool/Shutdown.antt =====
-- `WorkerPool::shutdown` of src/worker_pool/pool.rs on the state that the workers share. The join set is
-- an interface; nothing else moves the coordinator while the workers end.
pub mod Repeats
use kaf_py.Prelude.{
  ℕ, ◌-◌, ◌≤◌, ◌≡◌, refl, Bool, true, false, Option, some, List, [], ◌++◌, All, arith, Float64,
  ◌>>=◌, if◌then◌else◌, take, length,
}
use kaf_py.Shutdown
use kaf_py.Shutdown.{
  ShutdownPhase, running, draining, finalizing, done, ShutdownCoordinator, finish_pool_shutdown,
  begin_finalizing, set_done,
}
use kaf_py.Offset.Tracker.{RunnerCall, commit, graceful_shutdown, all_partitions}
use kaf_py.Offset.Tracker.Flush.{flush_failed_to_dlq, flush_failed_to_dlq_lem, messages_of_keys}
use kaf_py.Offset.Tracker.Commits.{commits_of, graceful_shutdown-commits_of}
use kaf_py.Dlq.{DlqRouter}
use kaf_py.Dlq.Channel.{Texts, dlq_channel_capacity}
use kaf_py.WorkerPool.{Shared}

-- tokio's `JoinSet`, by what the workers do to their state until a call returns: `shutdown` under a
-- time-out in seconds, with whether it returned in time, and `abort_all`.
pub record JoinSet (S : Type 0) : Type 0 where
  pub shutdown_within : ℕ → S → Bool × S
  pub abort_all : S → S

pub record PoolState (F64 Sender : Type 0) : Type 0 where
  pub shared : Shared F64 Sender
  pub coordinator : ShutdownCoordinator
  pub is_cancelled : Bool

unfoldable pub end_workers : {S : Type 0} → JoinSet S → ℕ → S → S
end_workers j drain_timeout s =
    let (in_time, s') = j.shutdown_within drain_timeout s in if in_time then s' else j.abort_all s'

abbrev pub phase_after : ShutdownPhase → ShutdownPhase
phase_after draining = done
phase_after p = p

finish_pool_shutdown-phase :
    (c : ShutdownCoordinator)
    → finish_pool_shutdown c ≡ some (record c { phase = phase_after c.phase })
unfolding finish_pool_shutdown begin_finalizing set_done
finish_pool_shutdown-phase c = ground arith

module _ (fl : Float64) {Sender : Type 0} (texts : Texts) (router : DlqRouter) (now : ℕ)
    (j : JoinSet (Shared fl.F64 Sender)) where
  -- Also returns what the runner is called with; `none` is a panic.
  unfoldable pub shutdown :
      PoolState fl.F64 Sender → Option (PoolState fl.F64 Sender × List RunnerCall)
  unfolding end_workers
  shutdown p =
      let s = end_workers j p.coordinator.drain_timeout p.shared in
      let s' : Shared fl.F64 Sender = record s {
        dlq_producer = flush_failed_to_dlq texts router now s.offset_coordinator s.dlq_producer;
      } in
      (do
        c ← finish_pool_shutdown p.coordinator
        some (
          record { shared = s'; coordinator = c; is_cancelled = true },
          graceful_shutdown s.offset_coordinator,
        ))

  -- What a shutdown leaves, whatever the workers still do before they end, in time or aborted: it does not
  -- panic, the token is cancelled, every failed offset of the tracker that is left goes to the dead-letter channel as far as
  -- there is room, the calls on the runner are one commit for each partition that is ready, and no offset is stored, and the coordinator is done if it was
  -- draining, and otherwise stays where it was. The channel is within its capacity when the workers have ended.
  pub shutdown_lem :
      (p : PoolState fl.F64 Sender)
      → let s = end_workers j p.coordinator.drain_timeout p.shared in
        length s.dlq_producer ≤ dlq_channel_capacity
        → (p' : PoolState fl.F64 Sender) × (calls : List RunnerCall) × (shutdown p
            ≡ some (p', calls))
          × (p'.is_cancelled ≡ true)
          × (p'.shared.dlq_producer
              ≡ s.dlq_producer
                ++ take (dlq_channel_capacity - length s.dlq_producer) (
                    messages_of_keys texts router now s.offset_coordinator
                      (all_partitions s.offset_coordinator)))
          × (p'.shared.offset_coordinator ≡ s.offset_coordinator)
          × (calls ≡ (
              if s.offset_coordinator.has_runner
              then commits_of s.offset_coordinator (all_partitions s.offset_coordinator)
              else []))
          × (p'.coordinator.phase ≡ phase_after p.coordinator.phase)
  unfolding shutdown
  shutdown_lem p room =
      let s = end_workers j p.coordinator.drain_timeout p.shared in
      rw (finish_pool_shutdown-phase p.coordinator) (
        record {
          shared = record s {
            dlq_producer = flush_failed_to_dlq texts router now s.offset_coordinator s.dlq_producer;
          };
          coordinator = record p.coordinator { phase = phase_after p.coordinator.phase };
          is_cancelled = true;
        },
        graceful_shutdown s.offset_coordinator,
        refl,
        refl,
        flush_failed_to_dlq_lem texts router now s.offset_coordinator s.dlq_producer room,
        refl,
        graceful_shutdown-commits_of s.offset_coordinator,
        refl,
      )
