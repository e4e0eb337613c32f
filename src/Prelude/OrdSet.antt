-- ===== src/Prelude/OrdSet.antt =====
-- A `BTreeSet<i64>` as an ascending list.
use mathlib.Core.Path.{◌≡◌, refl}
use mathlib.Core.Bool.{Bool, true, false, not, ◌&&◌, ◌||◌}
use mathlib.Core.List.{List, [], ◌∷◌}
use native.Mathlib.Omega.{arith}
use Prim.Native.Nat.{suc}
use kaf_py.Prelude.Tests.{if◌then◌else◌}
use kaf_py.Prelude.Lists.{length}
use kaf_py.Prelude.Int.{ℤ, ◌<ℤ◌, ltb_ℤ, beq_ℤ}

abbrev pub OrdSet : Type 0
OrdSet = List ℤ

unfoldable pub contains : ℤ → OrdSet → Bool
contains x [] = false
contains x (y ∷ s) = beq_ℤ y x || contains x s

unfoldable pub insert : ℤ → OrdSet → OrdSet
insert x [] = x ∷ []
insert x (y ∷ s) = if beq_ℤ y x then y ∷ s else if ltb_ℤ x y then x ∷ y ∷ s else y ∷ insert x s

unfoldable pub remove : ℤ → OrdSet → OrdSet
remove x [] = []
remove x (y ∷ s) = if beq_ℤ y x then s else y ∷ remove x s

-- Every entry is above `lo`, in strictly ascending order.
abbrev pub AscendsFrom : ℤ → OrdSet → Type 0
AscendsFrom lo [] = Unit
AscendsFrom lo (y ∷ s) = (lo <ℤ y) × AscendsFrom y s

abbrev pub IsAscending : OrdSet → Type 0
IsAscending [] = Unit
IsAscending (y ∷ s) = AscendsFrom y s

pub AscendsFrom-IsAscending : (lo : ℤ) (s : OrdSet) → AscendsFrom lo s → IsAscending s
AscendsFrom-IsAscending lo [] h = tt
AscendsFrom-IsAscending lo (y ∷ s) h = h.1

pub AscendsFrom-mono : (a b : ℤ) (s : OrdSet) → a <ℤ b → AscendsFrom b s → AscendsFrom a s
AscendsFrom-mono a b [] l h = tt
AscendsFrom-mono a b (y ∷ s) l h = (omega arith, h.1)

pub contains_le :
    (x lo : ℤ) (s : OrdSet) → AscendsFrom lo s → ltb_ℤ lo x ≡ false → contains x s ≡ false
unfolding contains
contains_le x lo [] h l = refl
contains_le x lo (y ∷ s) h l = ground (arith, contains_le x y s h.1)

pub contains-insert : (x y : ℤ) (s : OrdSet) → contains x (insert y s) ≡ beq_ℤ y x || contains x s
unfolding contains insert
contains-insert x y [] = refl
contains-insert x y (z ∷ s) = ground (arith, contains-insert x y s)

contains-remove_from :
    (x y lo : ℤ) (s : OrdSet)
    → AscendsFrom lo s
    → contains x (remove y s) ≡ not (beq_ℤ y x) && contains x s
unfolding contains remove
contains-remove_from x y lo [] h = ground arith
contains-remove_from x y lo (z ∷ s) h =
    ground (arith, contains-remove_from x y z s h.1, contains_le x z s h.1)

pub contains-remove :
    (x y : ℤ) (s : OrdSet)
    → IsAscending s
    → contains x (remove y s) ≡ not (beq_ℤ y x) && contains x s
unfolding contains remove
contains-remove x y [] h = ground arith
contains-remove x y (z ∷ s) h = ground (arith, contains-remove_from x y z s h, contains_le x z s h)

insert-AscendsFrom :
    (lo x : ℤ) (s : OrdSet) → lo <ℤ x → AscendsFrom lo s → AscendsFrom lo (insert x s)
unfolding insert
insert-AscendsFrom lo x [] l h = (l, tt)
insert-AscendsFrom lo x (y ∷ s) l h = ground (arith, insert-AscendsFrom y x s)

pub insert-IsAscending : (x : ℤ) (s : OrdSet) → IsAscending s → IsAscending (insert x s)
unfolding insert
insert-IsAscending x [] h = tt
insert-IsAscending x (y ∷ s) h = ground (arith, insert-AscendsFrom y x s)

remove-AscendsFrom : (lo x : ℤ) (s : OrdSet) → AscendsFrom lo s → AscendsFrom lo (remove x s)
unfolding remove
remove-AscendsFrom lo x [] h = tt
remove-AscendsFrom lo x (y ∷ s) h =
    ground (arith, remove-AscendsFrom y x s h.1, AscendsFrom-mono lo y s)

pub remove-IsAscending : (x : ℤ) (s : OrdSet) → IsAscending s → IsAscending (remove x s)
unfolding remove
remove-IsAscending x [] h = tt
remove-IsAscending x (y ∷ s) h =
    ground (arith, remove-AscendsFrom y x s h, AscendsFrom-IsAscending y s h)

-- Removing a member makes the set smaller by one.
pub length-remove :
    (x : ℤ) (s : OrdSet) → contains x s ≡ true → suc (length (remove x s)) ≡ length s
unfolding contains remove
length-remove x [] h = cc
length-remove x (y ∷ s) h = ground (arith, length-remove x s)
