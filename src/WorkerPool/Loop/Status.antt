-- ===== src/WorkerPool/Loop/Status.antt =====
-- The status that `worker_loop` (src/worker_pool/worker.rs) shows of its worker.
use kaf_py.Prelude.{
  ℕ, ◌≡◌, refl, subst, Bool, true, false, Option, none, some, List, [], ◌∷◌, inl, inr, Float64,
  ◌>>=◌, >>=-eq-some, if◌then◌else◌, nat_eq, Bool-cases,
}
use mathlib.Core.Option.{some-injective}
use kaf_py.Prelude.Map
use kaf_py.Message.{OwnedMessage}
use kaf_py.Dlq.{DlqRouter}
use kaf_py.Dlq.Channel.{Texts}
use kaf_py.WorkerPool.{ExecutionAction}
use kaf_py.WorkerPool.Worker.{WorkerState, context, handle_execution_result}
use kaf_py.WorkerPool.Loop.{
  WorkerStatus, idle, active, set_active, set_idle, Event, received, cancelled, handled, Worker,
  stop, continue, round, worker_loop,
}

-- A worker that is idle or has stopped shows as idle, one that processes a message as active on it.
unfoldable pub Shows : WorkerState → Bool → Option WorkerStatus → Type 0
Shows state true status = status ≡ some idle
Shows WorkerState.idle false status = status ≡ some idle
Shows (WorkerState.processing msg) false status =
    status ≡ some (active msg.topic msg.topic msg.partition msg.offset)

Shows-idle :
    (b : Bool) (status : Option WorkerStatus) → status ≡ some idle → Shows WorkerState.idle b status
unfolding Shows
Shows-idle true status e = e
Shows-idle false status e = e

module _ (fl : Float64) {Sender : Type 0} (texts : Texts) (router : DlqRouter)
    (now worker_id : ℕ) where
  unfoldable pub IsShown : Worker fl.F64 Sender → Type 0
  unfolding Shows
  IsShown w = Shows w.state w.stopped (Map.get worker_id w.pool_state)

  stop-IsShown : (w : Worker fl.F64 Sender) → IsShown (stop fl texts router now worker_id w)
  unfolding IsShown Shows stop set_idle
  stop-IsShown w = Map.get-insert_self worker_id idle w.pool_state

  set_idle-Shows :
      (w : Worker fl.F64 Sender)
      → Shows WorkerState.idle w.stopped (Map.get worker_id (set_idle w.pool_state worker_id))
  unfolding set_idle
  set_idle-Shows w = Shows-idle w.stopped _ (Map.get-insert_self worker_id idle w.pool_state)

  idle-shown :
      (w : Worker fl.F64 Sender)
      → IsShown w
      → w.state ≡ WorkerState.idle
      → w.stopped ≡ false
      → Map.get worker_id w.pool_state ≡ some idle
  unfolding IsShown Shows
  idle-shown w h st going =
      subst (λ b. Shows WorkerState.idle b (Map.get worker_id w.pool_state)) going
        (subst (λ s. Shows s w.stopped (Map.get worker_id w.pool_state)) st h)

  continue-IsShown :
      (w : Worker fl.F64 Sender) (msg : OwnedMessage) (action : Option ExecutionAction)
      (is_cancelled : Bool)
      → w.state ≡ WorkerState.processing msg
      → IsShown w
      → IsShown (continue fl texts router now worker_id w msg action is_cancelled)
  unfolding IsShown Shows continue set_idle
  continue-IsShown w msg none true st h = stop-IsShown w
  continue-IsShown w msg (some (ExecutionAction.retry delay)) true st h = stop-IsShown w
  continue-IsShown w msg (some ExecutionAction.ack) true st h = stop-IsShown w
  continue-IsShown w msg (some ExecutionAction.dlq) true st h = stop-IsShown w
  continue-IsShown w msg (some (ExecutionAction.retry delay)) false st h =
      subst (λ state. Shows state w.stopped (Map.get worker_id w.pool_state)) st h
  continue-IsShown w msg (some ExecutionAction.ack) false st h = set_idle-Shows w
  continue-IsShown w msg (some ExecutionAction.dlq) false st h = set_idle-Shows w
  continue-IsShown w msg none false st h = set_idle-Shows w

  round-IsShown :
      (state : WorkerState) (event : Event fl.F64) (w w' : Worker fl.F64 Sender)
      → w.state ≡ state
      → w.stopped ≡ false
      → IsShown w
      → round fl texts router now worker_id state event w ≡ some w'
      → IsShown w'
  unfolding IsShown Shows round set_active
  round-IsShown WorkerState.idle (received msg) w w' st going h e =
      subst IsShown (some-injective _ w' e)
        (rw going (Map.get-insert_self worker_id _ w.pool_state))
  round-IsShown WorkerState.idle cancelled w w' st going h e =
      subst IsShown (some-injective _ w' e) (idle-shown w h st going)
  round-IsShown WorkerState.idle (handled draw result c) w w' st going h e =
      subst IsShown (some-injective _ w' e) h
  round-IsShown (WorkerState.processing msg) (handled draw result c) w w' st going h e =
      let (r, ran, ends) =
        >>=-eq-some
          (handle_execution_result fl texts router now w.shared draw (context msg) msg result)
          (λ r. some (continue fl texts router now worker_id (record w { shared = r.0 }) msg r.1 c))
          e in
      subst IsShown (some-injective _ w' ends)
        (continue-IsShown (record w { shared = r.0 }) msg r.1 c st h)
  round-IsShown (WorkerState.processing msg) (received other) w w' st going h e =
      subst IsShown (some-injective _ w' e) h
  round-IsShown (WorkerState.processing msg) cancelled w w' st going h e =
      subst IsShown (some-injective _ w' e) h

  -- A worker that waits for a message or has stopped is shown as idle, and one that processes a message as active on
  -- the topic, partition and offset of that message: after any events, whatever the results of the handler and whenever
  -- the token is cancelled, if it was so before and no step panicked.
  pub worker_loop-IsShown :
      (events : List (Event fl.F64)) (w w' : Worker fl.F64 Sender)
      → IsShown w
      → worker_loop fl texts router now worker_id events w ≡ some w'
      → IsShown w'
  unfolding worker_loop
  worker_loop-IsShown [] w w' h e = subst IsShown (some-injective w w' e) h
  worker_loop-IsShown (event ∷ events) w w' h e = elim (Bool-cases w.stopped) [
    | inl stopped ↦
        let same : some w ≡ some w' =
          subst
            (λ b.
              (if b
                then some w
                else (round fl texts router now worker_id w.state event w >>= λ v.
                    worker_loop fl texts router now worker_id events v))
              ≡ some w')
            stopped e in
        subst IsShown (some-injective w w' same) h
    | inr going ↦
        let opened : (round fl texts router now worker_id w.state event w >>= λ v.
        worker_loop fl texts router now worker_id events v)
            ≡ some w' =
          subst
            (λ b.
              (if b
                then some w
                else (round fl texts router now worker_id w.state event w >>= λ v.
                    worker_loop fl texts router now worker_id events v))
              ≡ some w')
            going e in
        let (v, ran, rest) =
          >>=-eq-some (round fl texts router now worker_id w.state event w)
            (λ v. worker_loop fl texts router now worker_id events v) opened in
        worker_loop-IsShown events v w' (round-IsShown w.state event w v refl going h ran) rest
  ]
