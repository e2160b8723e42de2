-- ===== src/Base/Ordered.antt =====
-- A `BTreeSet<u32>` as its elements in ascending order.
use Prim.Native.Nat.{ℕ, suc, ◌≤◌, ◌<◌}
use mathlib.Core.Path.{◌≡◌, refl}
use mathlib.Core.Bool.{Bool, false, ◌||◌}
use mathlib.Core.List.{List, [], ◌∷◌}
use native.Mathlib.Omega.{arith}
use nullnet_grpc.Base.Lists.{All}
use nullnet_grpc.Base.Tests.{ltb, nat_beq, if◌then◌else◌}

abbrev pub BTreeSet : Type 0
BTreeSet = List ℕ

unfoldable pub set_insert : ℕ → BTreeSet → BTreeSet
set_insert a [] = a ∷ []
set_insert a (x ∷ xs) =
    if ltb a x then a ∷ x ∷ xs else if nat_beq a x then x ∷ xs else x ∷ set_insert a xs

abbrev pub set_contains : ℕ → BTreeSet → Bool
set_contains a [] = false
set_contains a (x ∷ xs) = nat_beq a x || set_contains a xs

-- The elements ascend strictly and are at least `lo`.
abbrev pub Ascending : ℕ → BTreeSet → Type 0
Ascending lo [] = Unit {0}
Ascending lo (x ∷ xs) = (lo ≤ x) × Ascending (suc x) xs

unfoldable pub set_remove : ℕ → BTreeSet → BTreeSet
set_remove a [] = []
set_remove a (x ∷ xs) = if nat_beq a x then xs else x ∷ set_remove a xs

pub contains-insert :
    (a j : ℕ) (xs : BTreeSet)
    → set_contains j (set_insert a xs) ≡ (nat_beq j a || set_contains j xs)
unfolding set_insert
contains-insert a j [] = refl
contains-insert a j (x ∷ xs) = ground (arith, contains-insert a j xs)

pub insert-Ascending :
    (lo a : ℕ) (xs : BTreeSet) → lo ≤ a → Ascending lo xs → Ascending lo (set_insert a xs)
unfolding set_insert
insert-Ascending lo a [] h s = (h, tt)
insert-Ascending lo a (x ∷ xs) h s = ground (arith, insert-Ascending (suc x) a xs)

pub insert-All :
    (hi a : ℕ) (xs : BTreeSet) → a < hi → All (λ x. x < hi) xs → All (λ x. x < hi) (set_insert a xs)
unfolding set_insert
insert-All hi a [] h s = (h, tt)
insert-All hi a (x ∷ xs) h s = ground (arith, insert-All hi a xs)

-- Nothing below the lower bound is an element.
pub contains_below :
    (lo j : ℕ) (xs : BTreeSet) → Ascending lo xs → j < lo → set_contains j xs ≡ false
contains_below lo j [] s h = refl
contains_below lo j (x ∷ xs) s h = ground (arith, contains_below (suc x) j xs)
