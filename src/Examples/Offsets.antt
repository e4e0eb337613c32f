-- ===== src/Examples/Offsets.antt =====
-- The histories of one partition on concrete inputs.
use kaf_py.Prelude.{◌≡◌, refl, false, none, pos, List, [], ◌∷◌, arith, succ_i64, pred_i64}
use kaf_py.Prelude.OrdSet
use kaf_py.Offset.Partition.{advance, mark_failed, PartitionState, new, ack, record_failed}
use kaf_py.Offset.Partition.Invariant.{IsValid}
use kaf_py.Offset.Partition.History.{Event, acked, failed, InRange, step, run}
use kaf_py.Offset.Partition.Exact.{run_exact, standing}
use kaf_py.Examples.{timeout_reason}

abbrev pub events : List Event
events = acked 5 ∷ failed 6 timeout_reason ∷ acked 7 ∷ []

pub events-InRange : InRange events
events-InRange = (omega arith, (omega arith, (omega arith, tt)))

abbrev pub opened : PartitionState
opened = record {
  committed_offset = pos 5;
  pending_offsets = [];
  failed_offsets = [];
  last_failure_reason = none;
  has_terminal = false;
}

pub opened-IsValid : IsValid opened
unfolding OrdSet.contains
opened-IsValid = record {
  pending_sorted = tt;
  failed_sorted = tt;
  floor = omega arith;
  in_range = omega arith;
  pending_in_range = refl;
  stopped = refl;
}

run_exact_example :
    (OrdSet.contains (pos 7) (run new events).pending_offsets ≡ standing (pos 7) events)
    × (standing (succ_i64 (run new events).committed_offset) events ≡ false)
unfolding run step ack record_failed mark_failed advance OrdSet.contains OrdSet.insert OrdSet.remove
    new succ_i64 pred_i64
run_exact_example = run_exact events (pos 7) events-InRange (omega arith)
