-- ===== src/Consumer/Rebalances.antt =====
-- What a consumer does with the position of a partition over a rebalance (src/consumer/context.rs).
use kaf_py.Prelude.{
  ℕ, suc, ◌<◌, ◌≡◌, refl, ap, ◌∙◌, Bool, true, some, String, ℤ, pos, List, [], ◌∷◌, ◌++◌, succ_i64,
  i64_max, arith, string_eq,
}
use kaf_py.Prelude.Map
use kaf_py.Prelude.Map.{Map}
use kaf_py.Offset.Tracker.{
  OffsetTracker, TopicPartition, key_eq, highest_contiguous, committed_offset,
}
use kaf_py.Consumer.{
  CustomConsumerContext, assign, revoke, Call, store_offset, commit_consumer_state, seek,
  seed_startup_offsets, pause_key, revoke_calls, revoke_each, pre_rebalance, seek_to, seek_each,
  post_rebalance,
}

-- The partitions of `keys` that the tracker knows are stored at its highest contiguous offset.
unfoldable pub stored_calls :
    (TopicPartition → ℤ → Bool) → OffsetTracker → List TopicPartition → List Call
stored_calls stores tracker [] = []
stored_calls stores tracker (key ∷ keys) =
    revoke_calls stores tracker key ++ stored_calls stores tracker keys

module _ (show_int : ℤ → String) (stores : TopicPartition → ℤ → Bool) where
  revoke_each-calls :
      (keys : List TopicPartition) (ctx : CustomConsumerContext)
      → let (ctx', calls) = revoke_each show_int stores ctx keys in
        (ctx'.offset_tracker ≡ ctx.offset_tracker)
        × (calls ≡ stored_calls stores ctx.offset_tracker keys)
  unfolding revoke_each stored_calls
  revoke_each-calls [] ctx = (refl, refl)
  revoke_each-calls (key ∷ keys) ctx =
      let rest =
        revoke_each-calls keys
          (record ctx { pause_state = Map.remove (pause_key show_int key) ctx.pause_state }) in
      (rest.0, ap (λ calls. revoke_calls stores ctx.offset_tracker key ++ calls) rest.1)

  highest_contiguous-committed_offset :
      (tracker : OffsetTracker) (key : TopicPartition) (offset : ℤ)
      → highest_contiguous tracker key ≡ some offset
      → committed_offset tracker key ≡ offset
  unfolding highest_contiguous committed_offset
  highest_contiguous-committed_offset tracker key offset h = ground arith

  seek_to-suc :
      (ctx : CustomConsumerContext) (key : TopicPartition) (n : ℕ)
      → committed_offset ctx.offset_tracker key ≡ pos n
      → n < i64_max
      → seek_to ctx key ≡ some (pos (suc n))
  unfolding seek_to succ_i64
  seek_to-suc ctx key n found small = rw (seek_to, found) (ground (arith, small))

  seek_each-cons :
      (ctx : CustomConsumerContext) (key : TopicPartition) (keys : List TopicPartition) (offset : ℤ)
      → seek_to ctx key ≡ some offset
      → seek_each ctx (key ∷ keys) ≡ seek key offset ∷ seek_each ctx keys
  unfolding seek_each
  seek_each-cons ctx key keys offset h = rw (seek_each, h) refl

  -- A partition that is revoked and comes back: the consumer stores and commits its highest contiguous offset `n`, first of the
  -- partitions and whether or not the tracker lets it commit, and on the assignment it seeks `n + 1`, whatever startup offsets
  -- were fetched in between. When the tracker has the partition at `n`, the client accepts the offset, and `n` is below
  -- the largest 64-bit number.
  pub post_rebalance-pre_rebalance :
      (ctx : CustomConsumerContext) (key : TopicPartition) (keys : List TopicPartition) (n : ℕ)
      (startup : Map TopicPartition ℤ)
      → highest_contiguous ctx.offset_tracker key ≡ some (pos n)
      → stores key (pos n) ≡ true
      → n < i64_max
      → let (ctx', calls) = pre_rebalance show_int stores ctx (revoke (key ∷ keys)) in
        let seeded = seed_startup_offsets ctx' startup in
        (calls
          ≡ store_offset key (pos n)
            ∷ commit_consumer_state
            ∷ stored_calls stores ctx.offset_tracker keys)
        × (post_rebalance seeded (assign (key ∷ keys))
            ≡ seek key (pos (suc n)) ∷ post_rebalance seeded (assign keys))
  unfolding pre_rebalance post_rebalance seed_startup_offsets stored_calls
  post_rebalance-pre_rebalance ctx key keys n startup at ok small =
      let after = revoke_each-calls (key ∷ keys) ctx in
      let seeded : CustomConsumerContext =
        seed_startup_offsets (pre_rebalance show_int stores ctx (revoke (key ∷ keys))).0 startup in
      let stored : stored_calls stores ctx.offset_tracker (key ∷ keys)
          ≡ store_offset key (pos n)
            ∷ commit_consumer_state
            ∷ stored_calls stores ctx.offset_tracker keys =
        rw (stored_calls, revoke_calls, at, ok) refl in
      let found : committed_offset seeded.offset_tracker key ≡ pos n =
        ap (λ t. committed_offset t key) after.0
        ∙ highest_contiguous-committed_offset ctx.offset_tracker key (pos n) at in
      let sought : seek_to seeded key ≡ some (pos (suc n)) = seek_to-suc seeded key n found small in
      (after.1 ∙ stored, seek_each-cons seeded key keys (pos (suc n)) sought)
