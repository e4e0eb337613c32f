-- ===== src/Examples/Consumers.antt =====
-- A consumer whose topic `orders` is paused, with a client that says yes to everything; two workers that
-- share the permits of a handler; and a partition over a rebalance.
use kaf_py.Prelude.{
  ℕ, ◌+◌, ◌≡◌, ◌≤◌, refl, Bool, true, false, none, some, String, ℤ, pos, List, [], ◌∷◌, ltb,
  if◌then◌else◌, arith, string_eq,
}
use kaf_py.Prelude.Map
use kaf_py.Offset.Tracker.{TopicPartition, key_eq, highest_contiguous}
use kaf_py.Offset.Partition
use kaf_py.Dispatcher.Queues.{Mpsc, full, HandlerEntry}
use kaf_py.Dispatcher.Metadata.{HandlerMetadata}
use kaf_py.Dispatcher.Consumer.{
  Client, Dispatching, Event, item, acknowledged, consumer_error, loop,
}
use kaf_py.Dispatcher.Consumer.Pausing.{IsPaused, loop-IsPaused}
use kaf_py.WorkerPool.Concurrency.{Action, start, finish, new, acquire, semaphore_of, running, run}
use kaf_py.WorkerPool.Concurrency.Limits.{run-acquire}
use kaf_py.Consumer.{
  CustomConsumerContext, assign, revoke, store_offset, commit_consumer_state, seek,
  seed_startup_offsets, pre_rebalance, post_rebalance,
}
use kaf_py.Consumer.Rebalances.{stored_calls, post_rebalance-pre_rebalance}
use kaf_py.Examples.{orders}

abbrev agreeing : Client
agreeing = record {
  State = ℕ;
  TopicPartitionList = List ℤ;
  empty = [];
  add_partition_offset = λ tpl topic partition offset. some (partition ∷ tpl);
  assignment = λ s. none;
  pause = λ s tpl. (s + 1, true);
  resume = λ s tpl. (s + 1, true);
}

-- A channel that is always full.
abbrev stuck : Mpsc
stuck = record { Sender = ℕ; channel = λ n. n; try_send = λ s m. (s, full) }

abbrev three_deep : HandlerMetadata
three_deep = record {
  capacity = 3;
  queue_depth = 3;
  inflight = 3;
  semaphore = none;
  outstanding_permits = 0;
  semaphore_limit = 0;
}

abbrev orders_entry : HandlerEntry ℕ
orders_entry = record { sender = 0; metadata = three_deep }

abbrev paused : Dispatching agreeing stuck
paused = record {
  runner = 0;
  dispatcher = ("orders", orders_entry) ∷ [];
  partition_handles = ("orders", pos 0 ∷ []) ∷ [];
  paused_topics = ("orders", tt) ∷ [];
}

orders_paused : IsPaused agreeing stuck paused "orders"
unfolding IsPaused Map.get
orders_paused = refl

abbrev quiet : List Event
quiet = acknowledged "orders" 3 ∷ item consumer_error ∷ []

loop-IsPaused_example : IsPaused agreeing stuck (loop agreeing stuck paused quiet) "orders"
loop-IsPaused_example =
    loop-IsPaused agreeing stuck paused "orders" quiet (tt, (tt, tt)) orders_paused

abbrev turns : List Action
turns = start "orders" ∷ start "orders" ∷ start "payments" ∷ finish 0 ∷ []

run-acquire_example :
    let w = run turns (record { concurrency = new 2; held = [] }) in
    (running "orders" w.held ≤ 2)
    × ((acquire w.concurrency "orders").1 ≡ (
        if ltb (running "orders" w.held) 2
        then some (record {
          handler_id = "orders";
          identity = (semaphore_of w.concurrency "orders").1.identity;
        })
        else none))
run-acquire_example = run-acquire 2 "orders" turns

abbrev at_seven : CustomConsumerContext
at_seven = record {
  offset_tracker = record {
    partitions = (orders, record Partition.new { committed_offset = pos 7 }) ∷ [];
    has_runner = false;
    commit_tx = none;
  };
  pause_state = [];
  startup_offsets = [];
}

at_seven-highest : highest_contiguous at_seven.offset_tracker orders ≡ some (pos 7)
unfolding highest_contiguous Map.get Partition.new
at_seven-highest = refl

abbrev show_int : ℤ → String
show_int i = "i"

abbrev accepts : TopicPartition → ℤ → Bool
accepts key offset = true

post_rebalance-pre_rebalance_example :
    let (ctx', calls) = pre_rebalance show_int accepts at_seven (revoke (orders ∷ [])) in
    let seeded = seed_startup_offsets ctx' ((orders, pos 30) ∷ []) in
    (calls
      ≡ store_offset orders (pos 7)
        ∷ commit_consumer_state
        ∷ stored_calls accepts at_seven.offset_tracker [])
    × (post_rebalance seeded (assign (orders ∷ []))
        ≡ seek orders (pos 8) ∷ post_rebalance seeded (assign []))
post_rebalance-pre_rebalance_example =
    post_rebalance-pre_rebalance show_int accepts at_seven orders [] 7 ((orders, pos 30) ∷ [])
      at_seven-highest refl (omega arith)
