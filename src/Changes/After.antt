-- ===== src/Changes/After.antt =====
-- What a list of changes leaves behind: a condition that one of them establishes and that all keep
-- (src/services/changes.rs).
pub mod Lost
pub mod Loaded
pub mod Cleared
pub mod Proxied
use mathlib.Core.List.{Memᴰ}
use mathlib.Core.List.Memᴰ
use nullnet_grpc.Base.{
  ℕ, ◌≡◌, refl, sym, ◌∙◌, subst, inl, inr, String, Option, none, some, some-injective, List, [],
  ◌∷◌, Bool, true, retain, filter_map, Option-cases, Bool-cases, string_eq, ◌==◌, if◌then◌else◌,
  PartialEq,
}
use nullnet_grpc.Base.HashMap.{HashMap, get}
use nullnet_grpc.Base.Results.{◌>>=◌}
use nullnet_grpc.Proto.{Net}
use nullnet_grpc.ServiceInfo.{OwnedClient, ServiceMap}
use nullnet_grpc.Changes.{
  World, ServiceChange, for_each, apply_change, apply_changes, update_loaded,
}
use nullnet_grpc.Changes.Kept.{Kept, Result, Result-bind, Result-map, for_each-Result, Any, All-Any}
use nullnet_grpc.Changes.Kept.Whole.{change-kept}

-- A last step that gives the condition, whatever came before.
pub Result-always :
    (P : World → Type 0) (m : Option World) (f : World → World)
    → ((w : World) → P (f w))
    → Result P (m >>= λ w. some (f w))
Result-always P none f h = tt
Result-always P (some w) f h = h w

pub Result-then :
    (P Q : World → Type 0) (m : Option World) (f : World → World)
    → Result P m
    → ((w : World) → P w → Q (f w))
    → Result Q (m >>= λ w. some (f w))
Result-then P Q none f r h = tt
Result-then P Q (some w) f r h = h w r

-- A loop one of whose rounds gives the condition, from any world, and all of which keep it.
pub for_each-established :
    {A : Type 0} (P : World → Type 0) (body : A → World → Option World)
    → ((x : A) (w : World) → P w → Result P (body x w))
    → (x : A) → ((w : World) → Result P (body x w))
    → (xs : List A) (w : World) → Memᴰ x xs
    → Result P (for_each body xs w)
for_each-established P body keeps x h [] w mem = absurd (Memᴰ.not-nil mem)
for_each-established P body keeps x h (y ∷ xs) w mem = elim (Memᴰ.cases_cons mem) [
  | inl same ↦
      Result-bind P (body y w) _ (subst (λ z. Result P (body z w)) same (h w))
        (λ v p. for_each-Result P Any body (λ z u q. keeps z u) xs v (All-Any xs) p)
  | inr later ↦ elim (Option-cases (body y w)) [
    | inl out ↦ rw (out, for_each) tt
    | inr (v, done) ↦ rw (done, for_each) (for_each-established P body keeps x h xs v later)
  ]
]

module _ (net : Net) (P : World → Type 0) (Good : OwnedClient → Type 0) (kept : Kept net P Good)
    (fuel : ℕ) where
  -- One of the changes gives the condition, from any world.
  pub changes-Result :
      (c : ServiceChange) (changes : List ServiceChange) (w : World)
      → Memᴰ c changes
      → ((v : World) → Result P (apply_change net fuel c v))
      → Result P (for_each (apply_change net fuel) changes w)
  changes-Result c changes w mem h =
      for_each-established P (apply_change net fuel) (λ x v. change-kept net P Good kept fuel x v) c
        h changes w mem

  pub apply_changes-established :
      (c : ServiceChange) (changes : List ServiceChange) (loaded : Option ServiceMap) (w : World)
      → Memᴰ c changes
      → ((v : World) → Result P (apply_change net fuel c v))
      → ((v : World) → P v → P (update_loaded loaded v))
      → Result P (apply_changes net fuel changes loaded w)
  unfolding apply_changes
  apply_changes-established c changes loaded w mem h u =
      Result-map P (for_each (apply_change net fuel) changes w) (update_loaded loaded)
        (changes-Result c changes w mem h) u

-- What is found under a name is an entry of the map.
pub get-Mem {ℓ κ} :
    {K : Type ℓ} {V : Type κ} ⦃e : PartialEq K⦄ (k : K) (m : HashMap K V) (v : V)
    → get k m ≡ some v
    → Memᴰ (k, v) m
unfolding get
get-Mem k [] v h = cc
get-Mem ⦃e⦄ k ((j, w) ∷ m) v h = elim (Bool-cases (j == k)) [
  | inl hit ↦
      let same : w ≡ v = some-injective _ _ (rw hit at h) in
      Memᴰ.head (λ i. (sym ((e.beq_iff j k).0 hit) i, sym same i))
  | inr miss ↦ Memᴰ.tail (get-Mem k m v (rw miss at h))
]

pub filter_map-Mem {ℓ κ} :
    {A : Type ℓ} {B : Type κ} (f : A → Option B) (x : A) (y : B) (xs : List A)
    → Memᴰ x xs
    → f x ≡ some y
    → Memᴰ y (filter_map f xs)
filter_map-Mem f x y [] mem e = absurd (Memᴰ.not-nil mem)
filter_map-Mem f x y (z ∷ xs) mem e = elim (Memᴰ.cases_cons mem) [
  | inl same ↦
      let found : f z ≡ some y = subst (λ u. f u ≡ some y) same e in
      rw (found, filter_map) (Memᴰ.head refl)
  | inr later ↦ elim (Option-cases (f z)) [
    | inl out ↦ rw (out, filter_map) (filter_map-Mem f x y xs later e)
    | inr (u, found) ↦ rw (found, filter_map) (Memᴰ.tail (filter_map-Mem f x y xs later e))
  ]
]

pub retain-Mem {ℓ} :
    {A : Type ℓ} (p : A → Bool) (x : A) (xs : List A)
    → Memᴰ x xs
    → p x ≡ true
    → Memᴰ x (retain p xs)
retain-Mem p x [] mem e = absurd (Memᴰ.not-nil mem)
retain-Mem p x (z ∷ xs) mem e = elim (Memᴰ.cases_cons mem) [
  | inl same ↦
      let passes : p z ≡ true = subst (λ u. p u ≡ true) same e in
      rw (passes, retain) (Memᴰ.head same)
  | inr later ↦ elim (Bool-cases (p z)) [
    | inl stays ↦ rw (stays, retain) (Memᴰ.tail (retain-Mem p x xs later e))
    | inr out ↦ rw (out, retain) (retain-Mem p x xs later e)
  ]
]
