-- ===== src/FanOut/Registry.antt =====
-- `CallbackRegistry` of src/worker_pool/fan_out.rs. A callback is a value; `emit` returns the one
-- that it calls.
use kaf_py.Prelude.{
  ℕ, ◌+◌, ◌%◌, ◌≤◌, ◌<◌, ◌≡◌, refl, Option, none, some, [], ◌∷◌, nat_eq, arith, usize_mod, ◌==◌,
  All, Bool-cases, inl, inr, eqb, beq_refl, sym,
}
use kaf_py.Prelude.Map
use kaf_py.Prelude.Map.{Map}

pub record CallbackRegistry (Callback : Type 0) : Type 0 where
  pub callbacks : Map ℕ Callback
  pub next_branch_id : ℕ

module _ {Callback : Type 0} where
  unfoldable pub new : CallbackRegistry Callback
  new = record { callbacks = []; next_branch_id = 1 }

  unfoldable pub next_id : CallbackRegistry Callback → CallbackRegistry Callback × ℕ
  next_id r = (record r { next_branch_id = (r.next_branch_id + 1) % usize_mod }, r.next_branch_id)

  unfoldable pub on_sink_complete :
      CallbackRegistry Callback → Callback → CallbackRegistry Callback × ℕ
  unfolding next_id
  on_sink_complete r callback =
      let (r', branch_id) = next_id r in
      (record r' { callbacks = Map.insert branch_id callback r'.callbacks }, branch_id)

  unfoldable pub emit : CallbackRegistry Callback → ℕ → CallbackRegistry Callback × Option Callback
  emit r branch_id =
      (record r { callbacks = Map.remove branch_id r.callbacks }, Map.get branch_id r.callbacks)

module _ {Callback : Type 0} where
  -- The identifiers that were given out are below the next one.
  unfoldable IsFresh : CallbackRegistry Callback → Type 0
  IsFresh r = All (λ entry. entry.0 < r.next_branch_id) r.callbacks

  get-All_below :
      (k j : ℕ) (m : Map ℕ Callback) → k ≤ j → All (λ entry. entry.0 < k) m → Map.get j m ≡ none
  unfolding Map.get
  get-All_below k j [] le h = refl
  get-All_below k j ((i, v) ∷ m) le h = ground (arith, get-All_below k j m le h.1)

  All-mono :
      (k l : ℕ) (m : Map ℕ Callback)
      → k < l
      → All (λ entry. entry.0 < k) m
      → All (λ entry. entry.0 < l) m
  All-mono k l [] lt h = tt
  All-mono k l ((i, w) ∷ m) lt h = (omega (arith, h.0, lt), All-mono k l m lt h.1)

  insert-All_below :
      (k l : ℕ) (v : Callback) (m : Map ℕ Callback)
      → k < l
      → All (λ entry. entry.0 < k) m
      → All (λ entry. entry.0 < l) (Map.insert k v m)
  unfolding Map.insert
  insert-All_below k l v [] lt h = (lt, tt)
  insert-All_below k l v ((i, w) ∷ m) lt h = elim (Bool-cases (eqb i k)) [
    | inl here ↦ rw here (omega (arith, h.0, lt), All-mono k l m lt h.1)
    | inr away ↦ rw away (omega (arith, h.0, lt), insert-All_below k l v m lt h.1)
  ]

  -- A callback that is registered is called on the completion of its own branch, once, and on no other; the other
  -- callbacks stay. While the identifiers that were given out are below the next one, which the registration keeps up to
  -- the last 64-bit number.
  emit-on_sink_complete :
      (r : CallbackRegistry Callback) (callback : Callback) (other : ℕ)
      → IsFresh r
      → r.next_branch_id + 1 < usize_mod
      → let (r', branch_id) = on_sink_complete r callback in
        let (r'', called) = emit r' branch_id in
        IsFresh r'
        × (called ≡ some callback)
        × ((emit r'' branch_id).1 ≡ none)
        × ((emit r'' other).1 ≡ (emit r other).1)
  unfolding on_sink_complete next_id emit IsFresh
  emit-on_sink_complete r callback other fresh small =
      let id = r.next_branch_id in
      let known = Map.insert id callback r.callbacks in
      let next : (id + 1) % usize_mod ≡ id + 1 = omega (arith, small) in
      (
        rw next (insert-All_below id (id + 1) callback r.callbacks (omega arith) fresh),
        Map.get-insert_self id callback r.callbacks,
        rw (Map.get-remove id id known, beq_refl id) refl,
        elim (Bool-cases (id == other)) [
          | inl same ↦
              rw (Map.get-remove other id known, same)
                (sym (get-All_below id other r.callbacks (ground (arith, same)) fresh))
          | inr away ↦
              rw (Map.get-remove other id known, away)
                (Map.get-insert_ne other id callback r.callbacks away)
        ],
      )
