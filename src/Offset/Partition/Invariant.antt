-- ===== src/Offset/Partition/Invariant.antt =====
-- What holds of a partition between two calls (src/offset/offset_tracker.rs).
use kaf_py.Prelude.{
  ℕ, ◌<◌, ◌≡◌, refl, inl, inr, true, false, ℤ, pos, negsuc, arith, succ_i64, succ_i64_parts,
  pred_i64_parts, beq_ℤ_iff, eq_of_parts, sym, ◌∙◌, ◌≢◌, i64_max, ◌≤ℤ◌, ◌<ℤ◌, leb_ℤ, beq_ℤ,
  Bool-cases,
}
use mathlib.Core.Bool.{false≢true}
use kaf_py.Prelude.OrdSet
use kaf_py.Prelude.OrdSet.{OrdSet, IsAscending}
use kaf_py.Failure.{FailureReason}
use kaf_py.Offset.Partition.{PartitionState, new, seeded, ack, record_failed}
use kaf_py.Offset.Partition.Advance.{Advanced, advance-Advanced}

pub record IsValid (s : PartitionState) : Type 0 where
  pub pending_sorted : IsAscending s.pending_offsets
  pub failed_sorted : IsAscending s.failed_offsets
  pub floor : negsuc 0 ≤ℤ s.committed_offset
  pub in_range : s.committed_offset <ℤ pos i64_max
  pub pending_in_range : OrdSet.contains (pos i64_max) s.pending_offsets ≡ false
  -- The offset after the cursor is not pending.
  pub stopped : OrdSet.contains (succ_i64 s.committed_offset) s.pending_offsets ≡ false

pub new-IsValid : IsValid new
unfolding new OrdSet.contains
new-IsValid = record {
  pending_sorted = tt;
  failed_sorted = tt;
  floor = omega arith;
  in_range = omega arith;
  pending_in_range = refl;
  stopped = refl;
}

pub record_failed-IsValid :
    (s : PartitionState) (x : ℤ) (r : FailureReason) → IsValid s → IsValid (record_failed s x r)
unfolding record_failed
record_failed-IsValid s x r v = record {
  pending_sorted = OrdSet.remove-IsAscending x s.pending_offsets v.pending_sorted;
  failed_sorted = OrdSet.insert-IsAscending x s.failed_offsets v.failed_sorted;
  floor = v.floor;
  in_range = v.in_range;
  pending_in_range =
      ground (arith, OrdSet.contains-remove (pos i64_max) x s.pending_offsets v.pending_sorted);
  stopped = ground (
    arith,
    OrdSet.contains-remove (succ_i64 s.committed_offset) x s.pending_offsets v.pending_sorted,
  );
}

module _ (s : PartitionState) (n : ℕ) (small : n < i64_max) (v : IsValid s) where
  seeded_in_range : seeded s.committed_offset (pos n) <ℤ pos i64_max
  seeded_in_range = ground (arith, pred_i64_parts n)

  -- The cursor runs on from where it stood, or from just below the first offset.
  pub ack-Advanced :
      Advanced
        (seeded s.committed_offset (pos n))
        (OrdSet.insert (pos n) s.pending_offsets)
        ((ack s (pos n)).committed_offset, (ack s (pos n)).pending_offsets)
  unfolding ack
  ack-Advanced =
      advance-Advanced _ (seeded s.committed_offset (pos n))
        (OrdSet.insert (pos n) s.pending_offsets) (omega arith) seeded_in_range
        (ground (arith, OrdSet.contains-insert (pos i64_max) (pos n) s.pending_offsets))
        (OrdSet.insert-IsAscending (pos n) s.pending_offsets v.pending_sorted)

  pub ack-IsValid : IsValid (ack s (pos n))
  unfolding ack
  ack-IsValid = record {
    pending_sorted = ack-Advanced.ascending;
    failed_sorted = OrdSet.remove-IsAscending (pos n) s.failed_offsets v.failed_sorted;
    floor = ground (arith, pred_i64_parts n, ack-Advanced.forward, v.floor);
    in_range = ack-Advanced.in_range;
    pending_in_range = ground (
      arith,
      ack-Advanced.rest (pos i64_max),
      OrdSet.contains-insert (pos i64_max) (pos n) s.pending_offsets,
      v.pending_in_range,
    );
    stopped = ack-Advanced.stopped;
  }

  -- The loop does not stop just below the offset that was acked.
  pub not_below : succ_i64 (ack s (pos n)).committed_offset ≢ pos n
  not_below e =
      let kept : OrdSet.contains (pos n) (ack s (pos n)).pending_offsets ≡ true = ground (
        arith,
        ack-Advanced.rest (pos n),
        OrdSet.contains-insert (pos n) (pos n) s.pending_offsets,
        succ_i64_parts (ack s (pos n)).committed_offset ack-Advanced.in_range,
      ) in
      false≢true (sym ack-Advanced.stopped ∙ rw e kept)

  -- The first ack commits its own offset.
  pub first_ack : s.committed_offset ≡ negsuc 0 → pos n ≤ℤ (ack s (pos n)).committed_offset
  first_ack e = elim (Bool-cases (leb_ℤ (pos n) (ack s (pos n)).committed_offset)) [
    | inl h ↦ ground arith
    | inr h ↦ absurd (
        not_below (
          eq_of_parts _ _ (
            ground (
              arith,
              ack-Advanced.forward,
              pred_i64_parts n,
              succ_i64_parts (ack s (pos n)).committed_offset ack-Advanced.in_range,
            ))))
  ]

  -- After an ack the cursor has left its start.
  pub ack_nonneg : pos 0 ≤ℤ (ack s (pos n)).committed_offset
  ack_nonneg = elim (Bool-cases (beq_ℤ s.committed_offset (negsuc 0))) [
    | inl h ↦ ground (arith, first_ack ((beq_ℤ_iff s.committed_offset (negsuc 0)).0 h))
    | inr h ↦ ground (arith, ack-Advanced.forward, v.floor)
  ]

  -- A cursor that has left its start never goes back.
  pub ack_forward :
      pos 0 ≤ℤ s.committed_offset → s.committed_offset ≤ℤ (ack s (pos n)).committed_offset
  ack_forward h = ground (arith, ack-Advanced.forward)
