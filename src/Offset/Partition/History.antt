-- ===== src/Offset/Partition/History.antt =====
-- What a history of acks and failures leaves of one partition (src/offset/offset_tracker.rs).
use kaf_py.Prelude.{
  ℕ, ◌<◌, ◌≡◌, Bool, true, false, ◌||◌, ℤ, pos, Option, none, some, List, [], ◌∷◌, arith, i64_max,
  ◌≤ℤ◌, beq_ℤ, All,
}
use kaf_py.Prelude.OrdSet
use kaf_py.Failure.{FailureReason}
use kaf_py.Offset.Partition.{PartitionState, ack, record_failed}
use kaf_py.Offset.Partition.Invariant.{
  IsValid, record_failed-IsValid, ack-IsValid, ack-Advanced, ack_nonneg,
}

pub data Event : Type 0 where
  acked : ℕ → Event
  failed : ℕ → FailureReason → Event

abbrev pub offset_of : Event → ℕ
offset_of (acked n) = n
offset_of (failed n r) = n

-- Every offset is below i64::MAX.
abbrev pub InRange : List Event → Type 0
InRange = All (λ e. offset_of e < i64_max)

unfoldable pub step : PartitionState → Event → PartitionState
step s (acked n) = ack s (pos n)
step s (failed n r) = record_failed s (pos n) r

unfoldable pub run : PartitionState → List Event → PartitionState
run s [] = s
run s (e ∷ es) = run (step s e) es

abbrev pub acks : ℤ → Event → Bool
acks x (acked n) = beq_ℤ (pos n) x
acks x (failed n r) = false

abbrev pub was_acked : ℤ → List Event → Bool
was_acked x [] = false
was_acked x (e ∷ es) = acks x e || was_acked x es

abbrev pub first_acked : List Event → Option ℕ
first_acked [] = none
first_acked (acked n ∷ es) = some n
first_acked (failed n r ∷ es) = first_acked es

pub step-IsValid :
    (s : PartitionState) (e : Event) → offset_of e < i64_max → IsValid s → IsValid (step s e)
unfolding step
step-IsValid s (acked n) h v = ack-IsValid s n h v
step-IsValid s (failed n r) h v = record_failed-IsValid s (pos n) r v

-- Every history of acks and failures of offsets below i64::MAX keeps a partition valid.
pub run-IsValid :
    (s : PartitionState) (es : List Event) → InRange es → IsValid s → IsValid (run s es)
unfolding run
run-IsValid s [] h v = v
run-IsValid s (e ∷ es) h v = run-IsValid (step s e) es h.1 (step-IsValid s e h.0 v)

-- What is pending, and what the cursor has passed from `base` on, was acked.
pub record Accounted (A : ℤ → Bool) (base : ℤ) (s : PartitionState) : Type 0 where
  pub left_start : pos 0 ≤ℤ s.committed_offset
  pub pending_acked : (x : ℤ) → OrdSet.contains x s.pending_offsets ≡ true → A x ≡ true
  pub passed_acked : (x : ℤ) → base ≤ℤ x → x ≤ℤ s.committed_offset → A x ≡ true

pub step-Accounted :
    (A : ℤ → Bool) (base : ℤ) (s : PartitionState) (e : Event)
    → offset_of e < i64_max
    → IsValid s
    → Accounted A base s
    → Accounted (λ x. A x || acks x e) base (step s e)
unfolding step record_failed
step-Accounted A base s (failed n r) h v a = record {
  left_start = a.left_start;
  pending_acked = λ x c. ground (
    arith,
    a.pending_acked x,
    OrdSet.contains-remove x (pos n) s.pending_offsets v.pending_sorted,
  );
  passed_acked = λ x l c. ground (arith, a.passed_acked x);
}
step-Accounted A base s (acked n) h v a =
    let adv = ack-Advanced s n h v in
    record {
      left_start = ack_nonneg s n h v;
      pending_acked = λ x c. ground (
        arith,
        a.pending_acked x,
        adv.rest x,
        OrdSet.contains-insert x (pos n) s.pending_offsets,
      );
      passed_acked = λ x l c. ground (
        arith,
        a.left_start,
        a.passed_acked x,
        a.pending_acked x,
        adv.taken x,
        OrdSet.contains-insert x (pos n) s.pending_offsets,
      );
    }
