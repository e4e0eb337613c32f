-- ===== src/Offset/Partition/Advance.antt =====
-- What the loop of `PartitionState::ack` (src/offset/offset_tracker.rs) computes.
use kaf_py.Prelude.{
  ℕ, zero, suc, ◌≤◌, ◌≡◌, refl, inl, inr, true, false, not, ◌&&◌, ℤ, pos, [], ◌∷◌, arith, succ_i64,
  succ_i64_parts, beq_ℤ_iff, sym, ap, ◌∙◌, i64_max, ◌≤ℤ◌, ◌<ℤ◌, ltb_ℤ, leb_ℤ, beq_ℤ, length,
  Bool-cases,
}
use mathlib.Core.Bool.{false≢true}
use kaf_py.Prelude.OrdSet
use kaf_py.Prelude.OrdSet.{OrdSet, IsAscending}
use kaf_py.Offset.Partition.{advance}

-- `r` is the cursor and the set after the cursor `c` has run through the set `p`.
pub record Advanced (c : ℤ) (p : OrdSet) (r : ℤ × OrdSet) : Type 0 where
  pub forward : c ≤ℤ r.0
  pub in_range : r.0 <ℤ pos i64_max
  pub taken : (x : ℤ) → c <ℤ x → x ≤ℤ r.0 → OrdSet.contains x p ≡ true
  pub rest :
      (x : ℤ) → OrdSet.contains x r.1 ≡ (OrdSet.contains x p && not (ltb_ℤ c x && leb_ℤ x r.0))
  pub ascending : IsAscending r.1
  pub stopped : OrdSet.contains (succ_i64 r.0) r.1 ≡ false

module _ (c : ℤ) (p : OrdSet) (below : c <ℤ pos i64_max)
    (small : OrdSet.contains (pos i64_max) p ≡ false) (sorted : IsAscending p)
    (next_pending : OrdSet.contains (succ_i64 c) p ≡ true) where
  next_below : succ_i64 c <ℤ pos i64_max
  next_below = elim (Bool-cases (beq_ℤ (succ_i64 c) (pos i64_max))) [
    | inl e ↦ absurd (
        false≢true (
          sym small
          ∙ ap (λ z. OrdSet.contains z p) (sym ((beq_ℤ_iff (succ_i64 c) (pos i64_max)).0 e))
          ∙ next_pending))
    | inr e ↦ ground (arith, succ_i64_parts c below)
  ]

  step-Advanced :
      (r : ℤ × OrdSet) → Advanced (succ_i64 c) (OrdSet.remove (succ_i64 c) p) r → Advanced c p r
  step-Advanced r a = record {
    forward = omega (arith, succ_i64_parts c below, a.forward);
    in_range = a.in_range;
    taken = λ x l h. elim (Bool-cases (beq_ℤ (succ_i64 c) x)) [
      | inl e ↦ ap (λ z. OrdSet.contains z p) (sym ((beq_ℤ_iff (succ_i64 c) x).0 e)) ∙ next_pending
      | inr e ↦
          ground (
            arith,
            succ_i64_parts c below,
            a.taken x,
            OrdSet.contains-remove x (succ_i64 c) p sorted,
          )
    ];
    rest = λ x. ground (
      arith,
      succ_i64_parts c below,
      a.rest x,
      a.forward,
      OrdSet.contains-remove x (succ_i64 c) p sorted,
    );
    ascending = a.ascending;
    stopped = a.stopped;
  }

idle-Advanced :
    (c : ℤ) (p : OrdSet)
    → c <ℤ pos i64_max
    → IsAscending p
    → OrdSet.contains (succ_i64 c) p ≡ false
    → Advanced c p (c, p)
idle-Advanced c p below sorted done = record {
  forward = ground arith;
  in_range = below;
  taken = λ x l h. absurd (omega arith);
  rest = λ x. ground arith;
  ascending = sorted;
  stopped = done;
}

-- With at least as much fuel as entries the loop ends by its own test.
pub advance-Advanced :
    (fuel : ℕ) (c : ℤ) (p : OrdSet)
    → length p ≤ fuel
    → c <ℤ pos i64_max
    → OrdSet.contains (pos i64_max) p ≡ false
    → IsAscending p
    → Advanced c p (advance fuel c p)
unfolding advance
advance-Advanced zero c [] enough below small sorted =
    idle-Advanced c [] below tt (unfold OrdSet.contains in refl)
advance-Advanced zero c (x ∷ p) enough below small sorted = absurd (omega arith)
advance-Advanced (suc fuel) c p enough below small sorted =
    elim (Bool-cases (OrdSet.contains (succ_i64 c) p)) [
      | inl more ↦
          rw (more, advance)
            (step-Advanced c p below small sorted more _ (
              advance-Advanced fuel (succ_i64 c) (OrdSet.remove (succ_i64 c) p)
                (omega (arith, OrdSet.length-remove (succ_i64 c) p more))
                (next_below c p below small sorted more)
                (ground (arith, OrdSet.contains-remove (pos i64_max) (succ_i64 c) p sorted))
                (OrdSet.remove-IsAscending (succ_i64 c) p sorted)))
      | inr done ↦ rw (done, advance) (idle-Advanced c p below sorted done)
    ]
