-- ===== src/WorkerPool/Pool/Rounds.antt =====
-- The loop of `WorkerPool::run` (src/worker_pool/pool.rs) while nobody cancels the token.
use kaf_py.Prelude.{ℕ, zero, suc, ◌+◌, ◌-◌, ◌≡◌, ◌∙◌, false, List, [], ◌∷◌, arith, min}
use kaf_py.WorkerPool.Pool.{Round, not_cancelled, join_next, run}

abbrev pub replicate : ℕ → List Round
replicate zero = []
replicate (suc n) = not_cancelled ∷ replicate n

-- While the token is not cancelled: of any number of rounds the first wait for the workers, one each, and all
-- further ones wait for nothing, and `run` neither ends nor shuts the pool down.
pub run-not_cancelled :
    (rounds workers joined idle_rounds : ℕ)
    → run
        (record {
          workers = workers;
          joined = joined;
          idle_rounds = idle_rounds;
          shuts_down = false;
        })
        (replicate rounds)
      ≡ record {
        workers = workers - rounds;
        joined = joined + min workers rounds;
        idle_rounds = idle_rounds + (rounds - workers);
        shuts_down = false;
      }
unfolding run join_next
run-not_cancelled zero workers joined idle_rounds = ground arith
run-not_cancelled (suc rounds) zero joined idle_rounds =
    run-not_cancelled rounds zero joined (idle_rounds + 1) ∙ ground arith
run-not_cancelled (suc rounds) (suc workers) joined idle_rounds =
    run-not_cancelled rounds workers (joined + 1) idle_rounds ∙ ground arith
