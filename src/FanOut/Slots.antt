-- ===== src/FanOut/Slots.antt =====
-- The slots of src/worker_pool/fan_out.rs: those of a `FanOutTracker`, whose load and exchange are two
-- steps, and those of a `FanOutSlotManager`.
use kaf_py.Prelude.{
  ℕ, zero, suc, ◌+◌, ◌≤◌, ◌<◌, ◌≡◌, refl, ap, false, Option, some, inl, inr, List, [], ◌∷◌, ltb,
  leb, eqb, if◌then◌else◌, arith, Bool-cases, ◌>>=◌,
}
use kaf_py.FanOut.{
  FanOutSlotManager, available, take_permit, drop_permit, acquire, FanOutConfig, is_exhausted,
  FanOutTracker, new, exchange_slot, release_slot,
}

-- A call of a task on the slots: the exchange after a load of any earlier value, or a release.
pub data SlotCall : Type 0 where
  exchange : ℕ → SlotCall
  release : SlotCall

unfoldable pub call : SlotCall → FanOutTracker × ℕ → FanOutTracker × ℕ
unfolding exchange_slot release_slot
call (exchange current) (t, held) =
    let (t', got) = exchange_slot t current in (t', (if got then held + 1 else held))
call release (t, held) = elim held [ zero ↦ (t, 0) | suc held ↦ (release_slot t, held) ]

-- The calls of the tasks in any order, with the number of the slots that are held; a slot is released
-- only while one is held.
unfoldable pub calls : List SlotCall → FanOutTracker × ℕ → FanOutTracker × ℕ
calls [] s = s
calls (c ∷ cs) s = calls cs (call c s)

unfoldable IsBounded : FanOutTracker × ℕ → Type 0
IsBounded (t, held) = (t.inflight ≡ held) × (held ≤ t.max_fan_out) × (t.max_fan_out ≤ 64)

call-IsBounded :
    (c : SlotCall) (t : FanOutTracker) (held : ℕ)
    → IsBounded (t, held)
    → IsBounded (call c (t, held))
unfolding IsBounded call exchange_slot release_slot
call-IsBounded (exchange current) t held h = elim (Bool-cases (leb t.max_fan_out current)) [
  | inl out ↦ rw out h
  | inr below ↦ elim (Bool-cases (eqb t.inflight current)) [
    | inl same ↦
        rw (below, same)
          (
            ground (arith, h.0, h.1, h.2, below, same),
            ground (arith, h.0, h.1, h.2, below, same),
            h.2,
          )
    | inr other ↦ rw (below, other) h
  ]
]
call-IsBounded release t zero h = h
call-IsBounded release t (suc held) h = (omega (arith, h.0, h.1, h.2), omega (arith, h.1), h.2)

calls-IsBounded :
    (cs : List SlotCall) (s : FanOutTracker × ℕ) → IsBounded s → IsBounded (calls cs s)
unfolding calls
calls-IsBounded [] s h = h
calls-IsBounded (c ∷ cs) (t, held) h =
    calls-IsBounded cs (call c (t, held)) (call-IsBounded c t held h)

-- The in-flight count of a tracker is the number of the slots that are held, and never above the fan-out degree, which is at
-- most 64. For every order of exchanges, each after a load of any value, and of releases of held
-- slots, on a new tracker.
pub calls-bounded :
    (max_fan_out : ℕ) (cs : List SlotCall)
    → let (t, held) = calls cs (new max_fan_out, 0) in
      (t.inflight ≡ held) × (held ≤ t.max_fan_out) × (t.max_fan_out ≤ 64)
unfolding IsBounded new
calls-bounded max_fan_out cs =
    calls-IsBounded cs (new max_fan_out, 0) (refl, omega arith, omega arith)

-- `acquire` leaves the number of available slots as it is: its permit is back when it returns.
acquire-available : (m : FanOutSlotManager) → 0 < available m → acquire m ≡ some m
unfolding acquire available take_permit drop_permit
acquire-available m free = elim (Bool-cases (ltb 0 m.semaphore)) [
  | inl some_free ↦
      rw (acquire, take_permit, some_free)
        (ap (λ n. some (record m { semaphore = n })) (omega (arith, free)))
  | inr none_free ↦ ground (arith, none_free, free)
]

-- `n` calls of `acquire` with nothing given back between them.
unfoldable pub acquire_times : ℕ → FanOutSlotManager → Option FanOutSlotManager
acquire_times zero m = some m
acquire_times (suc n) m = acquire m >>= acquire_times n

acquire_times-some : (n : ℕ) (m : FanOutSlotManager) → 0 < available m → acquire_times n m ≡ some m
unfolding acquire_times
acquire_times-some zero m free = refl
acquire_times-some (suc n) m free = rw (acquire-available m free) (acquire_times-some n m free)

-- However often slots are acquired, a configuration whose manager has a slot is not exhausted, with any number of sinks.
pub acquire_times-is_exhausted :
    {Handler : Type 0} (n : ℕ) (c : FanOutConfig Handler) (m : FanOutSlotManager)
    → 0 < available m
    → (acquire_times n m ≡ some m) × (is_exhausted (record c { slot_manager = some m }) ≡ false)
unfolding is_exhausted available
acquire_times-is_exhausted n c m free = (acquire_times-some n m free, ground arith)
