-- ===== src/Base/HashSet.antt =====
-- A `HashSet<K>` as a list without repetitions.
use mathlib.Core.Bool.{Bool, false, ◌||◌}
use mathlib.Core.List.{List, [], ◌∷◌}
use nullnet_grpc.Base.Tests.{if◌then◌else◌}
use nullnet_grpc.Base.Equality.{PartialEq, ◌==◌}

module _ {ℓ} {K : Type ℓ} ⦃e : PartialEq K⦄ where
  abbrev pub contains : K → List K → Bool
  contains k [] = false
  contains k (x ∷ xs) = x == k || contains k xs

  abbrev pub insert : K → List K → List K
  insert k xs = if contains k xs then xs else k ∷ xs

  -- The elements of a list, each once.
  abbrev pub collect : List K → List K
  collect [] = []
  collect (x ∷ xs) = insert x (collect xs)
