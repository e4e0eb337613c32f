-- ===== src/Offset/Partition/AtLeastOnce.antt =====
-- No offset is committed before it was acked (src/offset/offset_tracker.rs).
use kaf_py.Prelude.{
  ℕ, ◌<◌, ◌≡◌, refl, ap, Bool, true, false, ◌||◌, ◌&&◌, not, ℤ, pos, negsuc, some, List, [], ◌∷◌,
  arith, pred_i64_parts, i64_max, ◌≤ℤ◌, ◌<ℤ◌, ltb_ℤ, leb_ℤ, beq_ℤ, inl, inr, Bool-cases,
}
use kaf_py.Prelude.OrdSet
use kaf_py.Failure.{FailureReason}
use kaf_py.Offset.Partition.{PartitionState, new, ack, record_failed}
use kaf_py.Offset.Partition.Invariant.{
  IsValid, new-IsValid, record_failed-IsValid, ack-IsValid, ack-Advanced, first_ack, ack_nonneg,
  ack_forward,
}
use kaf_py.Offset.Partition.History.{
  Event, acked, failed, InRange, step, run, acks, was_acked, first_acked, step-IsValid, Accounted,
  step-Accounted,
}

run-Accounted :
    (A : ℤ → Bool) (base : ℤ) (s : PartitionState) (es : List Event)
    → InRange es
    → IsValid s
    → Accounted A base s
    → Accounted (λ x. A x || was_acked x es) base (run s es)
unfolding run
run-Accounted A base s [] h v a = record {
  left_start = a.left_start;
  pending_acked = λ x c. ground (arith, a.pending_acked x c);
  passed_acked = λ x l c. ground (arith, a.passed_acked x l c);
}
run-Accounted A base s (e ∷ es) h v a =
    let b =
      run-Accounted (λ x. A x || acks x e) base (step s e) es h.1 (step-IsValid s e h.0 v)
        (step-Accounted A base s e h.0 v a) in
    record {
      left_start = b.left_start;
      pending_acked = λ x c. ground (arith, b.pending_acked x c);
      passed_acked = λ x l c. ground (arith, b.passed_acked x l c);
    }

-- Before the first ack.
abbrev IsFresh : PartitionState → Type 0
IsFresh s = (s.committed_offset ≡ negsuc 0) × (s.pending_offsets ≡ [])

first_ack-Accounted :
    (s : PartitionState) (n : ℕ)
    → n < i64_max
    → IsValid s
    → IsFresh s
    → Accounted (λ x. acks x (acked n)) (pos n) (step s (acked n))
unfolding step OrdSet.contains
first_ack-Accounted s n h v f =
    let adv = ack-Advanced s n h v in
    let only = λ (x : ℤ). OrdSet.contains-insert x (pos n) s.pending_offsets in
    let no_start : beq_ℤ s.committed_offset (negsuc 0) ≡ true = rw f.0 refl in
    let none_before = λ (x : ℤ). ap (OrdSet.contains x) f.1 in
    record {
      left_start = ack_nonneg s n h v;
      pending_acked = λ x c. ground (arith, adv.rest x, only x, none_before x);
      passed_acked =
          λ x l c. ground (arith, adv.taken x, only x, none_before x, pred_i64_parts n, no_start);
    }

-- The cursor has reached the first offset `b` that was acked, and has passed only what was acked.
abbrev Reaches : ℕ → List Event → PartitionState → Type 0
Reaches b es s =
    (pos b ≤ℤ s.committed_offset)
    × ((x : ℤ) → pos b ≤ℤ x → x ≤ℤ s.committed_offset → was_acked x es ≡ true)

-- The same as an equation of tests for every offset.
abbrev pub Passes : ℕ → List Event → PartitionState → Type 0
Passes b es s =
    (pos b ≤ℤ s.committed_offset)
    × ((x : ℤ) → (not (leb_ℤ (pos b) x && leb_ℤ x s.committed_offset) || was_acked x es) ≡ true)

-- Once an offset was acked, no history of acks and failures moves the cursor back. The partition
-- was valid, and offsets are below i64::MAX.
run-forward :
    (s : PartitionState) (es : List Event)
    → InRange es
    → IsValid s
    → pos 0 ≤ℤ s.committed_offset
    → s.committed_offset ≤ℤ (run s es).committed_offset
unfolding run step record_failed
run-forward s [] h v p = omega arith
run-forward s (failed n r ∷ es) h v p =
    run-forward (record_failed s (pos n) r) es h.1 (record_failed-IsValid s (pos n) r v) p
run-forward s (acked n ∷ es) h v p = omega (
  arith,
  ack_forward s n h.0 v p,
  run-forward (ack s (pos n)) es h.1 (ack-IsValid s n h.0 v) (ack_nonneg s n h.0 v),
)

record_failed-IsFresh :
    (s : PartitionState) (n : ℕ) (r : FailureReason)
    → IsFresh s
    → IsFresh (record_failed s (pos n) r)
unfolding record_failed OrdSet.remove
record_failed-IsFresh s n r f = (f.0, ap (OrdSet.remove (pos n)) f.1)

fresh-Reaches :
    (s : PartitionState) (es : List Event) (b : ℕ)
    → InRange es
    → IsValid s
    → IsFresh s
    → first_acked es ≡ some b
    → Reaches b es (run s es)
unfolding run step
fresh-Reaches s [] b h v f e = cc
fresh-Reaches s (failed n r ∷ es) b h v f e =
    let (reached, passed) =
      fresh-Reaches (record_failed s (pos n) r) es b h.1 (record_failed-IsValid s (pos n) r v)
        (record_failed-IsFresh s n r f) e in
    (reached, λ x l c. passed x l c)
fresh-Reaches s (acked n ∷ es) b h v f e =
    let t = ack s (pos n) in
    let w = ack-IsValid s n h.0 v in
    let run_ok =
      run-Accounted (λ x. acks x (acked n)) (pos n) t es h.1 w (first_ack-Accounted s n h.0 v f) in
    let same : n ≡ b = ground arith in
    rw (← same) (
      omega (arith, first_ack s n h.0 v f.0, run-forward t es h.1 w (ack_nonneg s n h.0 v)),
      λ x l c. run_ok.passed_acked x l c,
    )

-- From a new partition: once some offset was acked, the committed offset is at least the first one
-- acked, and every offset from there up to the committed offset was acked. Offsets are below
-- i64::MAX.
pub run-Passes :
    (es : List Event) (b : ℕ) → InRange es → first_acked es ≡ some b → Passes b es (run new es)
unfolding new
run-Passes es b h e =
    let (reached, passed) = fresh-Reaches new es b h new-IsValid (refl, refl) e in
    (reached, λ x. ground (arith, passed x))

-- An offset above the cursor that is marked failed stays above the cursor, whatever else is acked
-- or fails, until it is acked again. An ack came before. The partition was valid, and offsets are
-- below i64::MAX.
pub failed_blocks :
    (s : PartitionState) (m : ℕ) (r : FailureReason) (es : List Event)
    → IsValid s
    → pos 0 ≤ℤ s.committed_offset
    → s.committed_offset <ℤ pos m
    → InRange es
    → was_acked (pos m) es ≡ false
    → (run (record_failed s (pos m) r) es).committed_offset <ℤ pos m
unfolding record_failed
failed_blocks s m r es v p above h unacked =
    let t = record_failed s (pos m) r in
    let known = λ (x : ℤ). leb_ℤ x s.committed_offset || OrdSet.contains x t.pending_offsets in
    let start : Accounted known s.committed_offset t = record {
      left_start = p;
      pending_acked = λ x c. ground arith;
      passed_acked = λ x l c. ground arith;
    } in
    let end =
      run-Accounted known s.committed_offset t es h (record_failed-IsValid s (pos m) r v) start in
    elim (Bool-cases (ltb_ℤ (run t es).committed_offset (pos m))) [
      | inl below ↦ ground arith
      | inr reached ↦ ground (
        arith,
        end.passed_acked (pos m),
        OrdSet.contains-remove (pos m) (pos m) s.pending_offsets v.pending_sorted,
      )
    ]
