-- ===== src/Base/Sorting.antt =====
-- `sort_by_key` as a stable insertion sort, the order of texts, and that a sort forgets the order of
-- elements with different keys.
use Prim.Native.Char.{code}
use Prim.Native.String.{String, [] as empty, ◌∷◌ as ◌:>◌}
use mathlib.Core.Path.{◌≡◌, refl, sym, ap, ◌∙◌}
use mathlib.Core.Logic.{◌⊎◌, ◌≢◌, inl, inr}
use mathlib.Core.Bool.{Bool, true, false}
use mathlib.Core.List.{List, [], ◌∷◌}
use native.Mathlib.Omega.{arith}
use text.Mathlib.TextEquality.{Char-path}
use nullnet_grpc.Base.Tests.{ltb, if◌then◌else◌, Bool-cases}

-- The order of texts by their code points, which is that of their bytes in UTF-8.
unfoldable pub str_le : String → String → Bool
str_le empty t = true
str_le (c :> s) empty = false
str_le (c :> s) (d :> t) =
    let rest = str_le s t in
    if ltb (code c) (code d) then true else if ltb (code d) (code c) then false else rest

-- What a sort needs of an order.
pub record IsOrder {ℓ} {A : Type ℓ} (le : A → A → Bool) : Type ℓ where
  pub total : (a b : A) → (le a b ≡ true) ⊎ (le b a ≡ true)
  pub trans : (a b c : A) → le a b ≡ true → le b c ≡ true → le a c ≡ true

unfoldable pub insert_by {ℓ} : {A : Type ℓ} → (A → A → Bool) → A → List A → List A
insert_by le x [] = x ∷ []
insert_by le x (y ∷ l) = let rest = insert_by le x l in if le x y then x ∷ y ∷ l else y ∷ rest

unfoldable pub sort_by {ℓ} : {A : Type ℓ} → (A → A → Bool) → List A → List A
unfolding insert_by
sort_by le [] = []
sort_by le (x ∷ l) = insert_by le x (sort_by le l)

-- Two lists with the same elements in different orders, where only elements with different keys
-- change places: the orders in which a map may be iterated.
pub data Reordered {ℓ} {A : Type ℓ} (key : A → String) : List A → List A → Type ℓ where
  same : (l : List A) → Reordered key l l
  under : (x : A) {l m : List A} → Reordered key l m → Reordered key (x ∷ l) (x ∷ m)
  swap : (x y : A) (l : List A) → key x ≢ key y → Reordered key (x ∷ y ∷ l) (y ∷ x ∷ l)
  then_also : {l m n : List A} → Reordered key l m → Reordered key m n → Reordered key l n

module _ {ℓ} {A : Type ℓ} (le : A → A → Bool) (order : IsOrder le) where
  not_both :
      (x y : A)
      → (le x y ≡ false) ⊎ (le y x ≡ false)
      → ((le x y ≡ true) × (le y x ≡ false)) ⊎ ((le x y ≡ false) × (le y x ≡ true))
  not_both x y d = elim d [
    | inl isnt ↦ elim (order.total x y) [ inl is ↦ cc | inr back ↦ inr (isnt, back) ]
    | inr isnt ↦ elim (order.total x y) [ inl is ↦ inl (is, isnt) | inr back ↦ cc ]
  ]

  -- An element that is not below the head is not below what is below the head.
  above : (x y h : A) → le y h ≡ true → le x h ≡ false → le x y ≡ false
  above x y h below not_below = elim (Bool-cases (le x y)) [
    | inl is ↦ absurd (true-false (sym (order.trans x y h is below) ∙ not_below))
    | inr isnt ↦ isnt
  ]
    where
      true-false : true ≡ false → ⊥
      true-false e = cc

  insert_by_comm :
      (x y : A) (l : List A)
      → (le x y ≡ false) ⊎ (le y x ≡ false)
      → insert_by le x (insert_by le y l) ≡ insert_by le y (insert_by le x l)
  unfolding insert_by
  insert_by_comm x y [] d = elim (not_both x y d) [
    | inl (is, isnt) ↦ rw (is, isnt, insert_by) refl
    | inr (isnt, is) ↦ rw (is, isnt, insert_by) refl
  ]
  insert_by_comm x y (h ∷ l) d = elim (Bool-cases (le x h)) [
    | inl xh ↦ elim (Bool-cases (le y h)) [
      | inl yh ↦ elim (not_both x y d) [
        | inl (is, isnt) ↦ simp (xh, yh, is, isnt, insert_by)
        | inr (isnt, is) ↦ simp (xh, yh, is, isnt, insert_by)
      ]
      | inr yh ↦ let yx = above y x h xh yh in simp (yx, yh, xh, insert_by)
    ]
    | inr xh ↦ elim (Bool-cases (le y h)) [
      | inl yh ↦ let xy = above x y h yh xh in simp (xy, yh, xh, insert_by)
      | inr yh ↦ simp (xh, yh, insert_by, insert_by_comm x y l d)
    ]
  ]

str_le_total : (s t : String) → (str_le s t ≡ true) ⊎ (str_le t s ≡ true)
unfolding str_le
str_le_total empty t = inl refl
str_le_total (c :> s) empty = inr refl
str_le_total (c :> s) (d :> t) = let rest = str_le_total s t in ground arith

str_le_trans : (s t u : String) → str_le s t ≡ true → str_le t u ≡ true → str_le s u ≡ true
unfolding str_le
str_le_trans empty t u p q = refl
str_le_trans (c :> s) empty u p q = cc
str_le_trans (c :> s) (d :> t) empty p q = cc
str_le_trans (c :> s) (d :> t) (e :> u) p q = let rest = str_le_trans s t u in ground arith

str_le_antisym : (s t : String) → str_le s t ≡ true → str_le t s ≡ true → s ≡ t
unfolding str_le
str_le_antisym empty empty p q = refl
str_le_antisym empty (d :> t) p q = cc
str_le_antisym (c :> s) empty p q = cc
str_le_antisym (c :> s) (d :> t) p q =
    let tails : s ≡ t = str_le_antisym s t (ground (arith, p, q)) (ground (arith, p, q)) in
    let heads : c ≡ d = Char-path c d (ground (arith, p, q)) in λ i. heads i :> tails i

-- The order of the elements by the text of their keys.
abbrev pub by_key {ℓ} : {A : Type ℓ} → (A → String) → A → A → Bool
by_key key a b = str_le (key a) (key b)

by_key-IsOrder {ℓ} : {A : Type ℓ} (key : A → String) → IsOrder (by_key key)
by_key-IsOrder key = record {
  total = λ a b. str_le_total (key a) (key b);
  trans = λ a b c p q. str_le_trans (key a) (key b) (key c) p q;
}

differ : (s t : String) → s ≢ t → (str_le s t ≡ false) ⊎ (str_le t s ≡ false)
differ s t d = elim (Bool-cases (str_le s t)) [
  | inr above ↦ inl above
  | inl below ↦ elim (Bool-cases (str_le t s)) [
    | inr above ↦ inr above
    | inl also ↦ absurd (d (str_le_antisym s t below also))
  ]
]

pub sort_by-Reordered {ℓ} :
    {A : Type ℓ} (key : A → String) {l m : List A}
    → Reordered key l m
    → sort_by (by_key key) l ≡ sort_by (by_key key) m
unfolding sort_by
sort_by-Reordered key (same l) = refl
sort_by-Reordered key (under x r) = ap (insert_by (by_key key) x) (sort_by-Reordered key r)
sort_by-Reordered key (swap x y l d) =
    insert_by_comm (by_key key) (by_key-IsOrder key) x y (sort_by (by_key key) l)
      (differ (key x) (key y) d)
sort_by-Reordered key (then_also r s) = sort_by-Reordered key r ∙ sort_by-Reordered key s
