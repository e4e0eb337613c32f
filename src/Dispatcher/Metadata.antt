-- ===== src/Dispatcher/Metadata.antt =====
-- `HandlerMetadata` of src/dispatcher/queue_manager.rs: the counters of one handler. A method
-- returns the new counters. All calls are made under the lock of the queue manager, so that each
-- compare-and-swap loop succeeds in its first round. A semaphore is its number of free permits.
use kaf_py.Prelude.{
  ℕ, ◌+◌, ◌-◌, ◌≤◌, ◌<◌, ◌≡◌, Bool, true, false, Option, none, some, arith, ltb, leb, min,
  if◌then◌else◌, usize_mod, add_usize, sub_usize,
}

pub record HandlerMetadata : Type 0 where
  pub capacity : ℕ
  pub queue_depth : ℕ
  pub inflight : ℕ
  pub semaphore : Option ℕ
  pub outstanding_permits : ℕ
  pub semaphore_limit : ℕ

unfoldable pub new : ℕ → Option ℕ → ℕ → HandlerMetadata
new capacity semaphore limit = record {
  capacity = capacity;
  queue_depth = 0;
  inflight = 0;
  semaphore = semaphore;
  outstanding_permits = 0;
  semaphore_limit = limit;
}

try_acquire : HandlerMetadata → Option ℕ → HandlerMetadata × Bool
try_acquire m none = (m, true)
try_acquire m (some _) =
    if leb m.semaphore_limit m.outstanding_permits
    then (m, false)
    else (record m { outstanding_permits = add_usize m.outstanding_permits 1 }, true)

unfoldable pub try_acquire_semaphore : HandlerMetadata → HandlerMetadata × Bool
unfolding try_acquire
try_acquire_semaphore m = try_acquire m m.semaphore

release : HandlerMetadata → ℕ → Option ℕ → HandlerMetadata
release m count none = m
release m count (some free) =
    let to_release = min count m.outstanding_permits in
    if ltb 0 to_release
    then record m {
      outstanding_permits = sub_usize m.outstanding_permits to_release;
      semaphore = some (free + to_release);
    }
    else m

unfoldable pub release_permits : HandlerMetadata → ℕ → HandlerMetadata
unfolding release
release_permits m count = release m count m.semaphore

unfoldable pub get_inflight : HandlerMetadata → ℕ
get_inflight m = m.inflight

-- `-` on the numbers is the saturating subtraction.
unfoldable pub ack : HandlerMetadata → ℕ → HandlerMetadata
unfolding release_permits
ack m count =
    release_permits
      (record m { queue_depth = m.queue_depth - count; inflight = m.inflight - count }) count

-- Both counters agree between two calls, and the permits given out stay within the limit.
pub record IsBalanced (m : HandlerMetadata) : Type 0 where
  pub same : m.queue_depth ≡ m.inflight
  pub in_range : m.inflight < usize_mod
  pub limited : m.outstanding_permits ≤ m.semaphore_limit
  pub limit_in_range : m.semaphore_limit < usize_mod

pub ack-IsBalanced : (m : HandlerMetadata) (count : ℕ) → IsBalanced m → IsBalanced (ack m count)
unfolding ack
ack-IsBalanced m count v = ground arith

pub try_acquire_semaphore-IsBalanced :
    (m : HandlerMetadata) → IsBalanced m → IsBalanced (try_acquire_semaphore m).0
unfolding try_acquire_semaphore
try_acquire_semaphore-IsBalanced m v = ground arith

-- With a semaphore, a permit is refused exactly when as many are out as the limit allows.
pub try_acquire_semaphore_iff :
    (m : HandlerMetadata) (free : ℕ)
    → m.semaphore ≡ some free
    → IsBalanced m
    → (try_acquire_semaphore m).1 ≡ ltb m.outstanding_permits m.semaphore_limit
unfolding try_acquire_semaphore
try_acquire_semaphore_iff m free e v = ground arith
