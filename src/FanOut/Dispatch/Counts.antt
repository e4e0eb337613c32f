-- ===== src/FanOut/Dispatch/Counts.antt =====
-- How many of the tasks of `process_fan_out` in src/worker_pool/worker.rs have come to a stage.
use kaf_py.Prelude.{
  ℕ, zero, suc, ◌+◌, ◌≤◌, ◌≡◌, refl, some, List, [], ◌∷◌, leb, ap, eqb, if◌then◌else◌, length,
  arith,
}
use kaf_py.FanOut.Dispatch.{
  Stage, spawned, registered, pushed, counted, tested, completed, released, stage_at, set_stage,
  spawn_all,
}

unfoldable pub rank : Stage → ℕ
rank spawned = 0
rank (registered branch_id) = 1
rank (pushed branch_id) = 2
rank (counted branch_id prev) = 3
rank (tested branch_id last) = 4
rank (completed branch_id) = 5
rank released = 6

-- The number of the tasks at the rank `k` or above.
unfoldable pub count_from : ℕ → List Stage → ℕ
unfolding rank
count_from k [] = 0
count_from k (s ∷ branches) = (if leb k (rank s) then 1 else 0) + count_from k branches

pub count_from_le : (k : ℕ) (branches : List Stage) → count_from k branches ≤ length branches
unfolding count_from
count_from_le k [] = omega arith
count_from_le k (s ∷ branches) = ground (arith, count_from_le k branches)

pub count_from-suc :
    (k : ℕ) (branches : List Stage) → count_from (suc k) branches ≤ count_from k branches
unfolding count_from
count_from-suc k [] = omega arith
count_from-suc k (s ∷ branches) = ground (arith, count_from-suc k branches)

pub length-set_stage :
    (i : ℕ) (s : Stage) (branches : List Stage) → length (set_stage i s branches) ≡ length branches
unfolding set_stage
length-set_stage i s [] = omega arith
length-set_stage zero s (r ∷ branches) = omega arith
length-set_stage (suc i) s (r ∷ branches) = omega (arith, length-set_stage i s branches)

pub stage_at-set_stage :
    (i : ℕ) (s s' : Stage) (branches : List Stage)
    → stage_at i branches ≡ some s
    → stage_at i (set_stage i s' branches) ≡ some s'
unfolding stage_at set_stage
stage_at-set_stage i s s' [] found = cc
stage_at-set_stage zero s s' (r ∷ branches) found = refl
stage_at-set_stage (suc i) s s' (r ∷ branches) found = stage_at-set_stage i s s' branches found

-- A task that rises by one rank is counted once more, at its new rank.
pub count_from-set_stage :
    (k i : ℕ) (s s' : Stage) (branches : List Stage)
    → stage_at i branches ≡ some s
    → rank s' ≡ suc (rank s)
    → count_from k (set_stage i s' branches)
      ≡ count_from k branches + (if eqb k (suc (rank s)) then 1 else 0)
unfolding count_from stage_at set_stage
count_from-set_stage k i s s' [] found rises = cc
count_from-set_stage k zero s s' (r ∷ branches) found rises = ground arith
count_from-set_stage k (suc i) s s' (r ∷ branches) found rises =
    ground (arith, count_from-set_stage k i s s' branches found rises)

pub length-spawn_all : (n : ℕ) → length (spawn_all n) ≡ n
unfolding spawn_all
length-spawn_all zero = omega arith
length-spawn_all (suc n) = omega (arith, length-spawn_all n)

pub count_from-spawn_all : (k n : ℕ) → count_from (suc k) (spawn_all n) ≡ 0
unfolding count_from spawn_all
count_from-spawn_all k zero = omega arith
count_from-spawn_all k (suc n) = ground (arith, count_from-spawn_all k n)

pub set_stage_same :
    (i : ℕ) (s : Stage) (branches : List Stage)
    → stage_at i branches ≡ some s
    → set_stage i s branches ≡ branches
unfolding stage_at set_stage
set_stage_same i s [] found = cc
set_stage_same zero s (r ∷ branches) found = grind arith
set_stage_same (suc i) s (r ∷ branches) found = ap (λ b. r ∷ b) (set_stage_same i s branches found)

pub count_from_mono :
    (k i : ℕ) (s s' : Stage) (branches : List Stage)
    → stage_at i branches ≡ some s
    → rank s ≤ rank s'
    → count_from k branches ≤ count_from k (set_stage i s' branches)
unfolding count_from stage_at set_stage
count_from_mono k i s s' [] found rises = cc
count_from_mono k zero s s' (r ∷ branches) found rises = ground arith
count_from_mono k (suc i) s s' (r ∷ branches) found rises =
    ground (arith, count_from_mono k i s s' branches found rises)

-- When every task is at the rank `k` or above, so is each of them.
pub rank-stage_at :
    (k i : ℕ) (s : Stage) (branches : List Stage)
    → stage_at i branches ≡ some s
    → count_from k branches ≡ length branches
    → k ≤ rank s
unfolding count_from stage_at
rank-stage_at k i s [] found all = cc
rank-stage_at k zero s (r ∷ branches) found all = ground (arith, count_from_le k branches)
rank-stage_at k (suc i) s (r ∷ branches) found all =
    ground (arith, count_from_le k branches, rank-stage_at k i s branches found)
