-- ===== src/Consumer.antt =====
-- `CustomConsumerContext` of src/consumer/context.rs: what it tells the Kafka client when partitions are
-- revoked and assigned, as the list of its calls. Whether `store_offset` succeeds is an argument, and
-- so is the text of a partition's number; the other results are only logged.
pub mod Rebalances
pub mod Runner
pub mod Config
use kaf_py.Prelude.{
  ℕ, Bool, true, false, Option, none, some, String, concat, ℤ, pos, List, [], ◌∷◌, ◌++◌, leb_ℤ,
  succ_i64, if◌then◌else◌, string_eq,
}
use kaf_py.Prelude.Map
use kaf_py.Prelude.Map.{Map}
use kaf_py.Offset.Tracker.{
  OffsetTracker, TopicPartition, key_eq, highest_contiguous, committed_offset,
}

pub record CustomConsumerContext : Type 0 where
  pub offset_tracker : OffsetTracker
  pub pause_state : Map String Bool
  pub startup_offsets : Map TopicPartition ℤ

pub data Rebalance : Type 0 where
  assign revoke : List TopicPartition → Rebalance
  error : String → Rebalance

-- A call on the consumer; `commit` is synchronous, `seek` waits for at most five seconds.
pub data Call : Type 0 where
  store_offset : TopicPartition → ℤ → Call
  commit_consumer_state : Call
  seek : TopicPartition → ℤ → Call

unfoldable pub new : OffsetTracker → CustomConsumerContext
new tracker = record { offset_tracker = tracker; pause_state = []; startup_offsets = [] }

unfoldable pub seed_startup_offsets :
    CustomConsumerContext → Map TopicPartition ℤ → CustomConsumerContext
seed_startup_offsets ctx offsets = record ctx { startup_offsets = offsets }

unfoldable pub pause_key : (ℤ → String) → TopicPartition → String
pause_key show_int key = concat key.topic (concat "-" (show_int key.partition))

-- The calls for a partition that is revoked.
unfoldable pub revoke_calls :
    (TopicPartition → ℤ → Bool) → OffsetTracker → TopicPartition → List Call
revoke_calls stores tracker key = elim (highest_contiguous tracker key) [
  | none ↦ []
  | some offset ↦
      store_offset key offset ∷ (if stores key offset then commit_consumer_state ∷ [] else [])
]

module _ (show_int : ℤ → String) (stores : TopicPartition → ℤ → Bool) where
  -- The loop over the partitions that are revoked.
  unfoldable pub revoke_each :
      CustomConsumerContext → List TopicPartition → CustomConsumerContext × List Call
  unfolding revoke_calls
  revoke_each ctx [] = (ctx, [])
  revoke_each ctx (key ∷ keys) =
      let ctx' : CustomConsumerContext = record ctx {
        pause_state = Map.remove (pause_key show_int key) ctx.pause_state;
      } in
      let (ctx'', calls) = revoke_each ctx' keys in
      (ctx'', revoke_calls stores ctx.offset_tracker key ++ calls)

  unfoldable pub pre_rebalance :
      CustomConsumerContext → Rebalance → CustomConsumerContext × List Call
  unfolding revoke_each
  pre_rebalance ctx (revoke keys) = revoke_each ctx keys
  pre_rebalance ctx (assign keys) = (ctx, [])
  pre_rebalance ctx (error e) = (ctx, [])

-- Where an assigned partition is to start; `none` leaves it to auto.offset.reset.
unfoldable pub seek_to : CustomConsumerContext → TopicPartition → Option ℤ
seek_to ctx key =
    let in_memory = committed_offset ctx.offset_tracker key in
    if leb_ℤ (pos 0) in_memory then some (succ_i64 in_memory) else Map.get key ctx.startup_offsets

unfoldable pub seek_each : CustomConsumerContext → List TopicPartition → List Call
unfolding seek_to
seek_each ctx [] = []
seek_each ctx (key ∷ keys) =
    let rest = seek_each ctx keys in
    elim (seek_to ctx key) [ none ↦ rest | some offset ↦ seek key offset ∷ rest ]

unfoldable pub post_rebalance : CustomConsumerContext → Rebalance → List Call
unfolding seek_each
post_rebalance ctx (assign keys) = seek_each ctx keys
post_rebalance ctx (revoke keys) = []
post_rebalance ctx (error e) = []
