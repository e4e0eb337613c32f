-- ===== src/Shutdown.antt =====
-- `ShutdownCoordinator` of src/shutdown/shutdown.rs, and the calls that move it in
-- src/consumer/runner.rs (`stop`) and src/worker_pool/pool.rs (`shutdown`). A method returns the
-- new coordinator; `none` is the panic of its assertion. A token is its `is_cancelled`.
use kaf_py.Prelude.{
  ℕ, ◌+◌, ◌≡◌, ◌↔◌, Bool, true, false, Option, none, some, arith, List, [], ◌∷◌, ◌>>=◌,
  if◌then◌else◌, >>=-eq-some, ◌||◌,
}

pub data ShutdownPhase : Type 0 where
  running draining finalizing done : ShutdownPhase

pub record ShutdownCoordinator : Type 0 where
  pub phase : ShutdownPhase
  pub drain_timeout : ℕ
  pub dispatcher_cancel : Bool
  pub worker_cancel : Bool
  pub committer_cancel : Bool

unfoldable pub new : ℕ → ShutdownCoordinator
new drain_timeout_secs = record {
  phase = running;
  drain_timeout = drain_timeout_secs;
  dispatcher_cancel = false;
  worker_cancel = false;
  committer_cancel = false;
}

enter_draining : ShutdownPhase → Option ShutdownPhase
enter_draining running = some draining
enter_draining _ = none

enter_finalizing : ShutdownPhase → Option ShutdownPhase
enter_finalizing draining = some finalizing
enter_finalizing _ = none

enter_done : ShutdownPhase → Option ShutdownPhase
enter_done finalizing = some done
enter_done _ = none

-- Also returns the three tokens, as they are.
unfoldable pub begin_draining :
    ShutdownCoordinator → Option (ShutdownCoordinator × (Bool × Bool × Bool))
unfolding enter_draining
begin_draining c = do
  p ← enter_draining c.phase
  some (record c { phase = p }, (c.dispatcher_cancel, c.worker_cancel, c.committer_cancel))

unfoldable pub begin_finalizing : ShutdownCoordinator → Option ShutdownCoordinator
unfolding enter_finalizing
begin_finalizing c = do p ← enter_finalizing c.phase; some (record c { phase = p })

unfoldable pub set_done : ShutdownCoordinator → Option ShutdownCoordinator
unfolding enter_done
set_done c = do p ← enter_done c.phase; some (record c { phase = p })

abbrev is_phase_done : ShutdownPhase → Bool
is_phase_done done = true
is_phase_done _ = false

abbrev is_phase_draining : ShutdownPhase → Bool
is_phase_draining draining = true
is_phase_draining _ = false

unfoldable pub is_done : ShutdownCoordinator → Bool
is_done c = is_phase_done c.phase

-- The end of `WorkerPool::shutdown`.
unfoldable pub finish_pool_shutdown : ShutdownCoordinator → Option ShutdownCoordinator
unfolding begin_finalizing set_done
finish_pool_shutdown c =
    let moved : Option ShutdownCoordinator = (do c' ← begin_finalizing c; set_done c') in
    if is_phase_draining c.phase then moved else some c

-- The calls on a coordinator.
pub data Call : Type 0 where
  drains finalizes finishes ends_pool : Call

unfoldable pub call : ShutdownCoordinator → Call → Option ShutdownCoordinator
unfolding begin_draining begin_finalizing set_done finish_pool_shutdown
call c drains = do (c', _) ← begin_draining c; some c'
call c finalizes = begin_finalizing c
call c finishes = set_done c
call c ends_pool = finish_pool_shutdown c

unfoldable pub call_all : ShutdownCoordinator → List Call → Option ShutdownCoordinator
call_all c [] = some c
call_all c (k ∷ ks) = do c' ← call c k; call_all c' ks

-- How far the shutdown has come.
abbrev pub rank : ShutdownPhase → ℕ
rank running = 0
rank draining = 1
rank finalizing = 2
rank done = 3

-- How many phases a call goes on.
abbrev pub gain : ShutdownPhase → Call → ℕ
gain p drains = 1
gain p finalizes = 1
gain p finishes = 1
gain p ends_pool = if is_phase_draining p then 2 else 0

-- A call that returns goes on by its number of phases and never back, and cancels no token.
pub call_forward :
    (c : ShutdownCoordinator) (k : Call) {c' : ShutdownCoordinator}
    → call c k ≡ some c'
    → (rank c'.phase ≡ rank c.phase + gain c.phase k)
      × (c'.dispatcher_cancel ≡ c.dispatcher_cancel)
      × (c'.worker_cancel ≡ c.worker_cancel)
      × (c'.committer_cancel ≡ c.committer_cancel)
unfolding call
call_forward c drains e = ground arith
call_forward c finalizes e = ground arith
call_forward c finishes e = ground arith
call_forward c ends_pool e = ground arith

-- Whether the assertion of a call holds.
abbrev pub is_allowed : ShutdownPhase → Call → Bool
is_allowed running drains = true
is_allowed draining finalizes = true
is_allowed finalizing finishes = true
is_allowed p ends_pool = true
is_allowed _ _ = false

-- Each call panics in every phase but its own, except for the end of the pool's shutdown, which
-- never panics.
call_panics :
    (c : ShutdownCoordinator) (k : Call) → (call c k ≡ none) ↔ (is_allowed c.phase k ≡ false)
unfolding call
call_panics c drains = ground arith
call_panics c finalizes = ground arith
call_panics c finishes = ground arith
call_panics c ends_pool = ground arith

abbrev pub is_drain : Call → Bool
is_drain drains = true
is_drain _ = false

abbrev pub drained : List Call → Bool
drained [] = false
drained (k ∷ ks) = is_drain k || drained ks

running-call :
    (c : ShutdownCoordinator) (k : Call) {c' : ShutdownCoordinator}
    → c.phase ≡ running
    → is_drain k ≡ false
    → call c k ≡ some c'
    → c'.phase ≡ running
unfolding call
running-call c drains h d e = cc
running-call c finalizes h d e = ground arith
running-call c finishes h d e = ground arith
running-call c ends_pool h d e = ground arith

-- No shutdown is done that was not begun: without a `begin_draining` the coordinator stays in the
-- running phase, also when the pool has shut down.
pub undrained_running :
    (c : ShutdownCoordinator) (ks : List Call) {c' : ShutdownCoordinator}
    → c.phase ≡ running
    → drained ks ≡ false
    → call_all c ks ≡ some c'
    → (c'.phase ≡ running) × (is_done c' ≡ false)
unfolding call_all is_done
undrained_running c [] h d e = ground arith
undrained_running c (k ∷ ks) h d e =
    let (t, a, b) = >>=-eq-some (call c k) (λ t. call_all t ks) e in
    undrained_running t ks (running-call c k h (ground arith) a) (ground arith) b
