-- ===== src/FanOut.antt =====
-- src/worker_pool/fan_out.rs: the results of the sinks, their configuration, the registry of
-- callbacks, the tracker of one message's branches and the slots. A method returns the new state.
-- A handler and a callback are values of a type that is an argument.
pub mod Dispatch
pub mod Registry
pub mod Slots
pub mod Routing
use kaf_py.Prelude.{
  ℕ, ◌+◌, ◌-◌, ◌%◌, ◌≡◌, min, Bool, true, false, not, Option, none, some, String, ℤ, negsuc, List,
  [], ◌∷◌, ◌++◌, ltb, leb, eqb, nat_eq, if◌then◌else◌, length, add_u8, sub_u8, usize_mod,
}
use kaf_py.Prelude.Map
use kaf_py.Prelude.Map.{Map}
use kaf_py.Failure.{FailureReason}
use kaf_py.Dispatcher.Send.{BackpressureAction, pause_partition}

-- `error` carries the reason and the name of the exception, `timeout` the milliseconds.
pub data BranchResult : Type 0 where
  ok : BranchResult
  error : FailureReason → String → BranchResult
  timeout : ℕ → BranchResult

-- The (branch_id, result) pairs.
abbrev pub BranchResults : Type 0
BranchResults = List (ℕ × BranchResult)

pub record SinkConfig (Handler : Type 0) : Type 0 where
  pub topic : String
  pub handler : Handler
  pub timeout : Option ℕ

-- The semaphore is its number of free permits.
pub record FanOutSlotManager : Type 0 where
  pub semaphore : ℕ
  pub max_slots : ℕ
  pub topic : String

unfoldable pub new_slots : ℕ → String → FanOutSlotManager
new_slots max_fan_out topic = record {
  semaphore = min max_fan_out 64;
  max_slots = min max_fan_out 64;
  topic = topic;
}

unfoldable pub available : FanOutSlotManager → ℕ
available m = m.semaphore

-- A permit of the semaphore is taken, `none` while there is none, and given back at the end of the
-- `match` arm that binds it.
unfoldable pub take_permit : FanOutSlotManager → Option FanOutSlotManager
take_permit m = if ltb 0 m.semaphore then some (record m { semaphore = m.semaphore - 1 }) else none

unfoldable pub drop_permit : FanOutSlotManager → FanOutSlotManager
drop_permit m = record m { semaphore = m.semaphore + 1 }

-- `none`: the call waits. The semaphore is never closed, so that no call returns an error.
unfoldable pub acquire : FanOutSlotManager → Option FanOutSlotManager
unfolding take_permit drop_permit
acquire m = elim (take_permit m) [ none ↦ none | some m' ↦ some (drop_permit m') ]

pub record FanOutConfig (Handler : Type 0) : Type 0 where
  pub sinks : List (SinkConfig Handler)
  pub max_fan_out : ℕ
  pub slot_manager : Option FanOutSlotManager

unfoldable pub sink_count : {Handler : Type 0} → FanOutConfig Handler → ℕ
sink_count c = length c.sinks

unfoldable pub is_exhausted : {Handler : Type 0} → FanOutConfig Handler → Bool
unfolding available
is_exhausted c = elim c.slot_manager [ none ↦ false | some s ↦ eqb (available s) 0 ]

-- `callback_registry` is in FanOut/Registry, and the notification in FanOut/Dispatch.
pub record FanOutTracker : Type 0 where
  pub max_fan_out : ℕ
  pub inflight : ℕ
  pub total : ℕ
  pub completed : ℕ
  pub results : BranchResults

unfoldable pub new : ℕ → FanOutTracker
new max_fan_out = record {
  max_fan_out = min max_fan_out 64;
  inflight = 0;
  total = 0;
  completed = 0;
  results = [];
}

unfoldable pub is_tracker_exhausted : FanOutTracker → Bool
is_tracker_exhausted t = leb t.max_fan_out t.inflight

-- The exchange of `try_acquire_slot`, after `current` was loaded.
unfoldable pub exchange_slot : FanOutTracker → ℕ → FanOutTracker × Bool
exchange_slot t current =
    if leb t.max_fan_out current
    then (t, false)
    else if eqb t.inflight current
    then (record t { inflight = add_u8 current 1 }, true)
    else (t, false)

-- With nothing between the load and the exchange.
unfoldable pub try_acquire_slot : FanOutTracker → FanOutTracker × Bool
unfolding exchange_slot
try_acquire_slot t = exchange_slot t t.inflight

unfoldable pub release_slot : FanOutTracker → FanOutTracker
release_slot t = record t { inflight = sub_u8 t.inflight 1 }

unfoldable pub inflight_count : FanOutTracker → ℕ
inflight_count t = t.inflight

-- Also returns the branch_id.
unfoldable pub register_branch : FanOutTracker → FanOutTracker × ℕ
register_branch t = (record t { total = add_u8 t.total 1 }, t.total)

-- The operations of `record_branch_result`: the push, the `fetch_add`, which returns the number before, and the load of the
-- total, which says whether the waiters are notified.
unfoldable pub push_result : FanOutTracker → ℕ → BranchResult → FanOutTracker
push_result t branch_id result = record t { results = t.results ++ (branch_id, result) ∷ [] }

unfoldable pub count_completed : FanOutTracker → FanOutTracker × ℕ
count_completed t = (record t { completed = add_u8 t.completed 1 }, t.completed)

unfoldable pub is_last : FanOutTracker → ℕ → Bool
is_last t prev = leb t.total (add_u8 prev 1)
