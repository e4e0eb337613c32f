-- ===== src/Offset/Partition.antt =====
-- `PartitionState` of src/offset/offset_tracker.rs: the offsets of one partition. A method returns
-- the new state. The loop of `ack` takes one entry of `pending_offsets` in each round, so their
-- number is fuel enough.
pub mod Advance
pub mod Invariant
pub mod History
pub mod AtLeastOnce
pub mod Exact
use kaf_py.Prelude.{
  ℕ, zero, suc, Bool, true, false, Option, none, some, ℤ, pos, negsuc, succ_i64, pred_i64, beq_ℤ,
  [], if◌then◌else◌, length,
}
use kaf_py.Prelude.OrdSet
use kaf_py.Prelude.OrdSet.{OrdSet}
use kaf_py.Failure.{FailureReason, FailureCategory, terminal, category}

pub record PartitionState : Type 0 where
  pub committed_offset : ℤ
  pub pending_offsets : OrdSet
  pub failed_offsets : OrdSet
  pub last_failure_reason : Option FailureReason
  pub has_terminal : Bool

unfoldable pub new : PartitionState
new = record {
  committed_offset = negsuc 0;
  pending_offsets = [];
  failed_offsets = [];
  last_failure_reason = none;
  has_terminal = false;
}

-- `loop { if pending.remove(committed + 1) { committed += 1 } else { break } }`
unfoldable pub advance : ℕ → ℤ → OrdSet → ℤ × OrdSet
advance zero committed pending = (committed, pending)
advance (suc fuel) committed pending =
    let next = succ_i64 committed in
    elim (OrdSet.contains next pending) [
      | true ↦ advance fuel next (OrdSet.remove next pending)
      | false ↦ (committed, pending)
    ]

-- The cursor that the first ack starts from.
abbrev pub seeded : ℤ → ℤ → ℤ
seeded committed offset = if beq_ℤ committed (negsuc 0) then pred_i64 offset else committed

unfoldable pub ack : PartitionState → ℤ → PartitionState
ack s offset =
    let pending = OrdSet.insert offset s.pending_offsets in
    let moved = advance (length pending) (seeded s.committed_offset offset) pending in
    record s {
      committed_offset = moved.0;
      pending_offsets = moved.1;
      failed_offsets = OrdSet.remove offset s.failed_offsets;
    }

unfoldable pub mark_failed : PartitionState → ℤ → PartitionState
mark_failed s offset = record s {
  pending_offsets = OrdSet.remove offset s.pending_offsets;
  failed_offsets = OrdSet.insert offset s.failed_offsets;
}

abbrev is_terminal : FailureCategory → Bool
is_terminal terminal = true
is_terminal _ = false

-- The trait's `mark_failed` on a registered partition: the reason of the last failure is kept, and
-- a terminal failure closes the partition for commits.
unfoldable pub record_failed : PartitionState → ℤ → FailureReason → PartitionState
unfolding mark_failed category
record_failed s offset reason = record (mark_failed s offset) {
  last_failure_reason = some reason;
  has_terminal = if is_terminal (category reason) then true else s.has_terminal;
}
