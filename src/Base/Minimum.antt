-- ===== src/Base/Minimum.antt =====
-- `min_by_key` gives a least element.
use Prim.Native.Nat.{ℕ, ◌≤◌}
use mathlib.Core.Path.{◌≡◌, refl, subst}
use mathlib.Core.Bool.{Bool, true, ◌||◌}
use mathlib.Core.Option.{some, some-injective}
use mathlib.Core.Logic.{◌⊎◌, inl, inr}
use mathlib.Core.List.{Memᴰ}
use mathlib.Core.List.Memᴰ
use mathlib.Core.List.{List, [], ◌∷◌}
use native.Mathlib.Omega.{arith}
use nullnet_grpc.Base.Tests.{Bool-cases, ltb, if◌then◌else◌}
use nullnet_grpc.Base.Lists.{All, any, min_by_key_from, min_by_key}

module _ {ℓ} {A : Type ℓ} (key : A → ℕ) where
  pub All-le_trans :
      (m n : ℕ) (xs : List A) → m ≤ n → All (λ x. n ≤ key x) xs → All (λ x. m ≤ key x) xs
  All-le_trans m n [] h a = tt
  All-le_trans m n (x ∷ xs) h a = (omega arith, All-le_trans m n xs h a.1)

  min_by_key_from-le :
      (best : A) (xs : List A)
      → (key (min_by_key_from key best xs) ≤ key best)
        × All (λ x. key (min_by_key_from key best xs) ≤ key x) xs
  min_by_key_from-le best [] = (omega arith, tt)
  min_by_key_from-le best (x ∷ xs) =
      let next = if ltb (key x) (key best) then x else best in
      let (le_next, rest) = min_by_key_from-le next xs in
      (ground (arith, le_next), (ground (arith, le_next), rest))

  pub min_by_key-le :
      (xs : List A) (m : A) → min_by_key key xs ≡ some m → All (λ x. key m ≤ key x) xs
  min_by_key-le [] m e = cc
  min_by_key-le (x ∷ xs) m e =
      subst (λ n. All (λ y. key n ≤ key y) (x ∷ xs)) (some-injective _ _ e)
        (min_by_key_from-le x xs)

  min_by_key_from-any :
      (p : A → Bool) (best : A) (xs : List A)
      → p (min_by_key_from key best xs) ≡ true
      → (p best || any p xs) ≡ true
  min_by_key_from-any p best [] h = ground arith
  min_by_key_from-any p best (x ∷ xs) h =
      ground (arith, min_by_key_from-any p (if ltb (key x) (key best) then x else best) xs h)

  -- What holds of the least element holds of some element.
  pub min_by_key-any :
      (p : A → Bool) (xs : List A) (m : A)
      → min_by_key key xs ≡ some m
      → p m ≡ true
      → any p xs ≡ true
  min_by_key-any p [] m e h = cc
  min_by_key-any p (x ∷ xs) m e h = ground (arith, min_by_key_from-any p x xs)

  -- The least element is one of the elements.
  min_by_key_from-Mem : (best : A) (xs : List A) → Memᴰ (min_by_key_from key best xs) (best ∷ xs)
  min_by_key_from-Mem best [] = Memᴰ.head refl
  min_by_key_from-Mem best (x ∷ xs) = elim (Bool-cases (ltb (key x) (key best))) [
    | inl less ↦ rw less (Memᴰ.tail (min_by_key_from-Mem x xs))
    | inr more ↦ rw more (kept (Memᴰ.cases_cons (min_by_key_from-Mem best xs)))
  ]
    where
      kept : {m : A} → (m ≡ best) ⊎ Memᴰ m xs → Memᴰ m (best ∷ (x ∷ xs))
      kept (inl same) = Memᴰ.head same
      kept (inr later) = Memᴰ.tail (Memᴰ.tail later)

  pub min_by_key-Mem : (xs : List A) (m : A) → min_by_key key xs ≡ some m → Memᴰ m xs
  min_by_key-Mem [] m e = cc
  min_by_key-Mem (x ∷ xs) m e =
      subst (λ n. Memᴰ n (x ∷ xs)) (some-injective _ _ e) (min_by_key_from-Mem x xs)
