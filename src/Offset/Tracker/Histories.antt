-- ===== src/Offset/Tracker/Histories.antt =====
-- The tracker over histories: each partition runs on its own (src/offset/offset_tracker.rs).
use kaf_py.Prelude.{
  ℕ, ◌≡◌, refl, sym, ap, ◌∙◌, inl, inr, true, false, Option, none, some, ℤ, pos, List, [], ◌∷◌,
  arith, Bool-cases, ◌==◌, if◌then◌else◌, ◌>>=◌, leb_ℤ, ◌⊎◌,
}
use mathlib.Core.Option
use kaf_py.Prelude.Map
use kaf_py.Failure.{FailureReason}
use kaf_py.Offset.Partition
use kaf_py.Offset.Partition.{PartitionState, record_failed}
use kaf_py.Offset.Partition.History.{Event, acked, failed, step, run}
use kaf_py.Offset.Tracker.{
  OffsetTracker, TopicPartition, key_eq, beq_key_iff, ack, signal, mark_failed, state_or_default,
}

unfoldable pub tracker_step : OffsetTracker → TopicPartition × Event → Option OffsetTracker
tracker_step t (key, acked n) = ack t key (pos n)
tracker_step t (key, failed n r) = some (mark_failed t key (pos n) r)

unfoldable pub tracker_run : OffsetTracker → List (TopicPartition × Event) → Option OffsetTracker
tracker_run t [] = some t
tracker_run t (e ∷ es) = do t' ← tracker_step t e; tracker_run t' es

-- The events of one partition.
abbrev pub project : TopicPartition → List (TopicPartition × Event) → List Event
project key [] = []
project key ((k, e) ∷ es) = if k == key then e ∷ project key es else project key es

-- The state of a partition that runs on its own from `o`.
abbrev pub run_alone : Option PartitionState → List Event → Option PartitionState
run_alone none [] = none
run_alone none (acked n ∷ es) = some (run Partition.new (acked n ∷ es))
run_alone none (failed n r ∷ es) = run_alone none es
run_alone (some s) es = some (run s es)

-- An ack of a non-negative offset does not panic, and stores the new state of its partition.
pub ack-some :
    (t : OffsetTracker) (key : TopicPartition) (n : ℕ)
    → (t' : OffsetTracker) × (ack t key (pos n) ≡ some t')
      × (t'.partitions
          ≡ Map.insert key (Partition.ack (state_or_default key t) (pos n)) t.partitions)
unfolding ack
ack-some t key n = (
  record t {
    partitions = Map.insert key (Partition.ack (state_or_default key t) (pos n)) t.partitions;
    commit_tx = signal t.commit_tx key;
  },
  rw nonneg,
  refl,
)
  where
    nonneg : leb_ℤ (pos 0) (pos n) ≡ true
    nonneg = ground arith

pub get-mark_failed :
    (t : OffsetTracker) (key j : TopicPartition) (o : ℤ) (r : FailureReason)
    → Map.get j (mark_failed t key o r).partitions ≡ (
        if key == j
        then Option.map (λ s. record_failed s o r) (Map.get j t.partitions)
        else Map.get j t.partitions)
unfolding mark_failed
get-mark_failed t key j o r = go (Map.get key t.partitions) refl (Bool-cases (key == j))
  where
    found_at :
        (found : Option PartitionState)
        → (key == j) ≡ true
        → Map.get key t.partitions ≡ found
        → Map.get j t.partitions ≡ found
    found_at found same e = ap (λ k. Map.get k t.partitions) (sym ((beq_key_iff key j).0 same)) ∙ e

    go :
        (found : Option PartitionState)
        → Map.get key t.partitions ≡ found
        → ((key == j) ≡ true) ⊎ ((key == j) ≡ false)
        → Map.get j (mark_failed t key o r).partitions ≡ (
            if key == j
            then Option.map (λ s. record_failed s o r) (Map.get j t.partitions)
            else Map.get j t.partitions)
    go none e (inl same) = rw (e, mark_failed) (rw (same, found_at none same e) refl)
    go none e (inr other) = rw (e, mark_failed) (rw other)
    go (some s) e (inl same) =
        rw (e, mark_failed)
          (rw
            (
              same,
              found_at (some s) same e,
              Map.get-insert j key (record_failed s o r) t.partitions,
            )
            (rw same refl))
    go (some s) e (inr other) =
        rw (e, mark_failed)
          (rw (other, Map.get-insert_ne j key (record_failed s o r) t.partitions other))

-- The rest of the history of `key` after an event of `k`.
abbrev Continues :
    TopicPartition → TopicPartition → Event → List Event → OffsetTracker → OffsetTracker → Type 0
Continues k key e es t t' =
    run_alone (Map.get key t'.partitions) es
    ≡ run_alone (Map.get key t.partitions) (if k == key then e ∷ es else es)

acked-Continues :
    (t t' : OffsetTracker) (k key : TopicPartition) (n : ℕ) (es : List Event)
    → t'.partitions ≡ Map.insert k (Partition.ack (state_or_default k t) (pos n)) t.partitions
    → Continues k key (acked n) es t t'
unfolding state_or_default run
acked-Continues t t' k key n es p = rw p (
    rw (Map.get-insert key k (Partition.ack (state_or_default k t) (pos n)) t.partitions)
      (elim (Bool-cases (k == key)) [
        | inl h ↦ rw h (rw (← (beq_key_iff k key).0 h) (go (Map.get k t.partitions) refl))
        | inr h ↦ rw h
      ]))
  where
    go :
        (o : Option PartitionState)
        → Map.get k t.partitions ≡ o
        → run_alone (some (Partition.ack (state_or_default k t) (pos n))) es
          ≡ run_alone o (acked n ∷ es)
    go none e = rw (e, state_or_default) (unfold run step in refl)
    go (some s) e = rw (e, state_or_default) (unfold run step in refl)

failed-Continues :
    (t : OffsetTracker) (k key : TopicPartition) (n : ℕ) (r : FailureReason) (es : List Event)
    → Continues k key (failed n r) es t (mark_failed t k (pos n) r)
failed-Continues t k key n r es =
    rw (get-mark_failed t k key (pos n) r) (go (Map.get key t.partitions) (Bool-cases (k == key)))
  where
    go :
        (o : Option PartitionState)
        → ((k == key) ≡ true) ⊎ ((k == key) ≡ false)
        → run_alone (if k == key then Option.map (λ s. record_failed s (pos n) r) o else o) es
          ≡ run_alone o (if k == key then failed n r ∷ es else es)
    go none (inl h) = rw h refl
    go (some s) (inl h) = rw h (unfold run step in refl)
    go o (inr h) = rw h

pub record Alone (key : TopicPartition) (t : OffsetTracker) (es : List (TopicPartition × Event))
    (r : Option OffsetTracker) : Type 0 where
  pub after : OffsetTracker
  pub returns : r ≡ some after
  pub alone : Map.get key after.partitions ≡ run_alone (Map.get key t.partitions) (project key es)

run_alone-nil : (o : Option PartitionState) → o ≡ run_alone o []
run_alone-nil none = refl
run_alone-nil (some s) = unfold run in refl

pub tracker_run-Alone :
    (key : TopicPartition) (t : OffsetTracker) (es : List (TopicPartition × Event))
    → Alone key t es (tracker_run t es)
unfolding tracker_run tracker_step
tracker_run-Alone key t [] = record {
  after = t;
  returns = refl;
  alone = run_alone-nil (Map.get key t.partitions);
}
tracker_run-Alone key t ((k, acked n) ∷ es) =
    let (t', e, p) = ack-some t k n in
    let rest = tracker_run-Alone key t' es in
    record {
      after = rest.after;
      returns = rw e rest.returns;
      alone = rest.alone ∙ acked-Continues t t' k key n (project key es) p;
    }
tracker_run-Alone key t ((k, failed n r) ∷ es) =
    let t' = mark_failed t k (pos n) r in
    let rest = tracker_run-Alone key t' es in
    record {
      after = rest.after;
      returns = rest.returns;
      alone = rest.alone ∙ failed-Continues t k key n r (project key es);
    }
