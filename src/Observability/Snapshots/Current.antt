-- ===== src/Observability/Snapshots/Current.antt =====
-- Which task's snapshot `get_current_snapshot` of src/observability/runtime_snapshot.rs reads.
use kaf_py.Prelude.{ℕ, zero, suc, ◌≡◌, ◌≢◌, refl, ap, ◌∙◌, some, List, [], ◌∷◌, ◌++◌, All}
use kaf_py.Observability.Snapshots.{
  RuntimeSnapshot, Process, spawn, tick, replace, lookup, get_current_snapshot,
  register_status_callback, default_snapshot,
}

-- What happens in the process: the runtime of a further consumer is built, a task ticks, or Python
-- registers a callback.
pub data Happening : Type 0 where
  spawned : Happening
  ticked : ℕ → RuntimeSnapshot → Happening
  registered : ℕ → Happening

abbrev pub happen : Process → Happening → Process
happen p spawned = spawn p
happen p (ticked task snapshot) = tick p task snapshot
happen p (registered callback) = register_status_callback p callback

abbrev pub happen_all : Process → List Happening → Process
happen_all p [] = p
happen_all p (h ∷ hs) = happen_all (happen p h) hs

-- It is no tick of that task.
abbrev pub IsOther : ℕ → Happening → Type 0
IsOther task spawned = Unit
IsOther task (ticked other snapshot) = other ≢ task
IsOther task (registered callback) = Unit

lookup-append :
    (ss : List RuntimeSnapshot) (s : RuntimeSnapshot) (i : ℕ) {found : RuntimeSnapshot}
    → lookup ss i ≡ some found
    → lookup (ss ++ s ∷ []) i ≡ some found
unfolding lookup
lookup-append [] s i e = cc
lookup-append (s' ∷ ss) s zero e = e
lookup-append (s' ∷ ss) s (suc i) e = lookup-append ss s i e

lookup-replace_ne :
    (ss : List RuntimeSnapshot) (j : ℕ) (s : RuntimeSnapshot) (i : ℕ)
    → j ≢ i
    → lookup (replace ss j s) i ≡ lookup ss i
unfolding lookup replace
lookup-replace_ne [] j s i ne = refl
lookup-replace_ne (s' ∷ ss) zero s zero ne = absurd (ne refl)
lookup-replace_ne (s' ∷ ss) zero s (suc i) ne = refl
lookup-replace_ne (s' ∷ ss) (suc j) s zero ne = refl
lookup-replace_ne (s' ∷ ss) (suc j) s (suc i) ne = lookup-replace_ne ss j s i (λ e. ne (ap suc e))

-- The global cell and the snapshot that it leads to.
abbrev Shows : ℕ → RuntimeSnapshot → Process → Type 0
Shows task found p = (p.global ≡ some task) × (lookup p.snapshots task ≡ some found)

happen-Shows :
    (task : ℕ) (found : RuntimeSnapshot) (p : Process) (h : Happening)
    → IsOther task h
    → Shows task found p
    → Shows task found (happen p h)
unfolding spawn tick register_status_callback
happen-Shows task found p spawned other shows =
    (rw (spawn, shows.0) refl, lookup-append p.snapshots default_snapshot task (shows.1))
happen-Shows task found p (ticked j s) other shows =
    (shows.0, lookup-replace_ne p.snapshots j s task other ∙ shows.1)
happen-Shows task found p (registered callback) other shows =
    rw (register_status_callback, shows.0) (shows.0, shows.1)

happen_all-Shows :
    (task : ℕ) (found : RuntimeSnapshot) (p : Process) (hs : List Happening)
    → All (IsOther task) hs
    → Shows task found p
    → Shows task found (happen_all p hs)
happen_all-Shows task found p [] others shows = shows
happen_all-Shows task found p (h ∷ hs) others shows =
    happen_all-Shows task found (happen p h) hs others.1
      (happen-Shows task found p h others.0 shows)

-- Once a task is the global one, and shows a snapshot, no start of a further runtime, no tick of any
-- other task and no registration of a callback changes what `get_current_snapshot` returns.
pub get_current_snapshot-happen_all :
    (task : ℕ) (found : RuntimeSnapshot) (p : Process) (hs : List Happening)
    → p.global ≡ some task
    → lookup p.snapshots task ≡ some found
    → All (IsOther task) hs
    → get_current_snapshot (happen_all p hs) ≡ found
unfolding get_current_snapshot
get_current_snapshot-happen_all task found p hs global there others =
    let shows = happen_all-Shows task found p hs others (global, there) in
    rw (get_current_snapshot, shows.0, shows.1) refl
