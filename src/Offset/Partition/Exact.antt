-- ===== src/Offset/Partition/Exact.antt =====
-- The pending offsets, and where exactly the cursor stops (src/offset/offset_tracker.rs).
use kaf_py.Prelude.{
  ℕ, ◌<◌, ◌+◌, ◌≡◌, refl, sym, ap, ◌∙◌, Bool, true, false, not, ◌&&◌, ◌||◌, ℤ, pos, List, [], ◌∷◌,
  arith, succ_i64, succ_i64_parts, pred_i64_parts, i64_max, ◌≤ℤ◌, ◌<ℤ◌, leb_ℤ, beq_ℤ, eq_of_parts,
  Bool-cases, inl, inr, pos_part, neg_part, suc,
}
use kaf_py.Prelude.OrdSet
use kaf_py.Offset.Partition.{PartitionState, new, ack, record_failed}
use kaf_py.Offset.Partition.Invariant.{IsValid, new-IsValid, ack-Advanced, ack_nonneg, not_below}
use kaf_py.Offset.Partition.History.{
  Event, acked, failed, offset_of, InRange, step, run, step-IsValid, run-IsValid,
}

-- The last event of the offset was an ack; `before` holds if there is no event of it.
abbrev pub standing_after : Event → ℤ → Bool → Bool
standing_after (acked n) x before = beq_ℤ (pos n) x || before
standing_after (failed n r) x before = not (beq_ℤ (pos n) x) && before

abbrev pub standing_from : Bool → ℤ → List Event → Bool
standing_from before x [] = before
standing_from before x (e ∷ es) = standing_from (standing_after e x before) x es

abbrev pub standing : ℤ → List Event → Bool
standing = standing_from false

-- Above the cursor, exactly the offsets that stand acked are pending.
abbrev Buffers : (ℤ → Bool) → PartitionState → Type 0
Buffers A s = (x : ℤ) → s.committed_offset <ℤ x → OrdSet.contains x s.pending_offsets ≡ A x

step-Buffers :
    (A : ℤ → Bool) (s : PartitionState) (e : Event)
    → offset_of e < i64_max
    → IsValid s
    → Buffers A s
    → Buffers (λ x. standing_after e x (A x)) (step s e)
unfolding step record_failed
step-Buffers A s (failed n r) h v b x l =
    ground (arith, b x, OrdSet.contains-remove x (pos n) s.pending_offsets v.pending_sorted)
step-Buffers A s (acked n) h v b x l = ground (
  arith,
  b x,
  v.floor,
  (ack-Advanced s n h v).rest x,
  (ack-Advanced s n h v).forward,
  ack_nonneg s n h v,
  pred_i64_parts n,
  OrdSet.contains-insert x (pos n) s.pending_offsets,
)

run-Buffers :
    (A : ℤ → Bool) (s : PartitionState) (es : List Event)
    → InRange es
    → IsValid s
    → Buffers A s
    → Buffers (λ x. standing_from (A x) x es) (run s es)
unfolding run
run-Buffers A s [] h v b = b
run-Buffers A s (e ∷ es) h v b =
    run-Buffers (λ x. standing_after e x (A x)) (step s e) es h.1 (step-IsValid s e h.0 v)
      (step-Buffers A s e h.0 v b)

run_exact-Buffers : (es : List Event) → InRange es → Buffers (λ x. standing x es) (run new es)
run_exact-Buffers es h =
    run-Buffers (λ x. false) new es h new-IsValid (λ x l. unfold new OrdSet.contains in refl)

-- From a new partition, an offset `x` above the committed offset is pending exactly if its last
-- event was an ack, and the offset after the committed one is not such an offset: the cursor stops
-- nowhere too early. Offsets are below i64::MAX.
pub run_exact :
    (es : List Event) (x : ℤ)
    → InRange es
    → (run new es).committed_offset <ℤ x
    → (OrdSet.contains x (run new es).pending_offsets ≡ standing x es)
      × (standing (succ_i64 (run new es).committed_offset) es ≡ false)
run_exact es x h above =
    let v = run-IsValid new es h new-IsValid in
    (
      run_exact-Buffers es h x above,
      sym (
            run_exact-Buffers es h (succ_i64 (run new es).committed_offset)
              (ground (arith, succ_i64_parts (run new es).committed_offset v.in_range)))
          ∙ v.stopped,
    )

module _ (s : PartitionState) (n : ℕ) (small : n < i64_max) (v : IsValid s)
    (started : pos 0 ≤ℤ s.committed_offset) where
  -- An ack of the offset after the cursor moves the cursor at least there, also when that offset
  -- had failed, and it is no longer marked failed.
  pub ack_next :
      succ_i64 s.committed_offset ≡ pos n
      → (pos n ≤ℤ (ack s (pos n)).committed_offset)
        × (OrdSet.contains (pos n) (ack s (pos n)).failed_offsets ≡ false)
  unfolding ack
  ack_next e = (
    elim (Bool-cases (leb_ℤ (pos n) (ack s (pos n)).committed_offset)) [
      | inl h ↦ ground arith
      | inr h ↦ absurd (
          not_below s n small v (
            ap succ_i64 (
              eq_of_parts (ack s (pos n)).committed_offset s.committed_offset
                (ground (arith, (ack-Advanced s n small v).forward, one_more)))
            ∙ e))
    ],
    ground (arith, OrdSet.contains-remove (pos n) (pos n) s.failed_offsets v.failed_sorted),
  )
    where
      one_more : n + neg_part s.committed_offset ≡ suc (pos_part s.committed_offset)
      one_more = rw e at (succ_i64_parts s.committed_offset v.in_range) ∙ omega arith

  -- An ack of an offset that the cursor has passed leaves the cursor where it is, and afterwards
  -- the offset is in the pending set. Offsets are below i64::MAX, and an ack came before. The
  -- partition was valid.
  ack_again :
      pos n ≤ℤ s.committed_offset
      → ((ack s (pos n)).committed_offset ≡ s.committed_offset)
        × (OrdSet.contains (pos n) (ack s (pos n)).pending_offsets ≡ true)
  ack_again below = (
    eq_of_parts (ack s (pos n)).committed_offset s.committed_offset (
        ground (
          arith,
          (ack-Advanced s n small v).forward,
          (ack-Advanced s n small v).taken (succ_i64 s.committed_offset),
          OrdSet.contains-insert (succ_i64 s.committed_offset) (pos n) s.pending_offsets,
          succ_i64_parts s.committed_offset v.in_range,
          v.stopped,
        )),
    ground (
      arith,
      (ack-Advanced s n small v).rest (pos n),
      OrdSet.contains-insert (pos n) (pos n) s.pending_offsets,
    ),
  )
