-- ===== src/Base/HashMap.antt =====
-- A `HashMap<K, V>` as an association list. Its order stands for the order of iteration, which the
-- standard library leaves open: a theorem about all maps is one about all orders.
use mathlib.Core.Path.{◌≡◌, refl, subst, ◌∙◌}
use mathlib.Core.Bool.{Bool}
use mathlib.Core.Option.{Option, none, some, some-injective}
use mathlib.Core.Option
use mathlib.Core.List.{List, [], ◌∷◌, map}
use native.Mathlib.Omega.{arith}
use nullnet_grpc.Base.Tests.{if◌then◌else◌, Bool-cases}
use mathlib.Core.Logic.{inl, inr}
use nullnet_grpc.Base.Lists.{is_some, All}
use nullnet_grpc.Base.Equality.{PartialEq, ◌==◌, beq_refl}

abbrev pub HashMap {ℓ κ} : Type ℓ → Type κ → Type (ℓ ⊔ κ)
HashMap K V = List (K × V)

module _ {ℓ κ} {K : Type ℓ} {V : Type κ} where
  abbrev pub keys : HashMap K V → List K
  keys = map (λ e. e.0)

  abbrev pub values : HashMap K V → List V
  values = map (λ e. e.1)

module _ {ℓ κ} {K : Type ℓ} {V : Type κ} ⦃e : PartialEq K⦄ where
  unfoldable pub get : K → HashMap K V → Option V
  get k [] = none
  get k ((j, v) ∷ m) = if j == k then some v else get k m

  unfoldable pub contains_key : K → HashMap K V → Bool
  unfolding get
  contains_key k m = is_some (get k m)

  -- A present key keeps its place and takes the new value.
  unfoldable pub insert : K → V → HashMap K V → HashMap K V
  insert k v [] = (k, v) ∷ []
  insert k v ((j, w) ∷ m) = if j == k then (j, v) ∷ m else (j, w) ∷ insert k v m

  unfoldable pub remove : K → HashMap K V → HashMap K V
  remove k [] = []
  remove k ((j, w) ∷ m) = let rest = remove k m in if j == k then rest else (j, w) ∷ rest

  -- A write through `get_mut`, or `entry(k).and_modify(f)`: a missing key changes nothing.
  unfoldable pub modify : K → (V → V) → HashMap K V → HashMap K V
  modify k f [] = []
  modify k f ((j, w) ∷ m) = if j == k then (j, f w) ∷ m else (j, w) ∷ modify k f m

  pub get-insert :
      (k j : K) (v : V) (m : HashMap K V)
      → get j (insert k v m) ≡ (if k == j then some v else get j m)
  unfolding get insert
  get-insert k j v [] = refl
  get-insert k j v ((i, w) ∷ m) =
      ground (arith, e.beq_iff k j, e.beq_iff i k, e.beq_iff i j, get-insert k j v m)

  pub get-remove :
      (k j : K) (m : HashMap K V) → get j (remove k m) ≡ (if k == j then none else get j m)
  unfolding get remove
  get-remove k j [] = ground arith
  get-remove k j ((i, w) ∷ m) =
      ground (arith, e.beq_iff k j, e.beq_iff i k, e.beq_iff i j, get-remove k j m)

  pub get-modify :
      (k j : K) (f : V → V) (m : HashMap K V)
      → get j (modify k f m) ≡ (if k == j then Option.map f (get j m) else get j m)
  unfolding get modify
  get-modify k j f [] = ground arith
  get-modify k j f ((i, w) ∷ m) =
      ground (arith, e.beq_iff k j, e.beq_iff i k, e.beq_iff i j, get-modify k j f m)

  pub get-insert_same : (k : K) (v : V) (m : HashMap K V) → get k (insert k v m) ≡ some v
  get-insert_same k v m = get-insert k k v m ∙ rw (beq_refl k) refl

  pub get-remove_same : (k : K) (m : HashMap K V) → get k (remove k m) ≡ none
  get-remove_same k m = get-remove k k m ∙ rw (beq_refl k) refl

  pub get-modify_same :
      (k : K) (f : V → V) (m : HashMap K V) → get k (modify k f m) ≡ Option.map f (get k m)
  get-modify_same k f m = get-modify k k f m ∙ rw (beq_refl k) refl

  -- Two writes in turn are one.
  pub modify-modify :
      (k : K) (f g : V → V) (m : HashMap K V)
      → modify k f (modify k g m) ≡ modify k (λ v. f (g v)) m
  unfolding modify
  modify-modify k f g [] = refl
  modify-modify k f g ((j, v) ∷ m) = elim (Bool-cases (j == k)) [
    | inl hit ↦ rw (hit, modify) (rw (hit, modify))
    | inr miss ↦ rw (miss, modify) (rw (miss, modify, modify-modify k f g m))
  ]

  -- A write depends only on what it makes of the value that is there.
  pub modify-same :
      (k : K) (f g : V → V) (m : HashMap K V) (v : V)
      → get k m ≡ some v
      → f v ≡ g v
      → modify k f m ≡ modify k g m
  unfolding modify get
  modify-same k f g [] v e h = refl
  modify-same k f g ((j, w) ∷ m) v e h = ground (arith, modify-same k f g m v)

  -- A condition on the values is kept by each write, and holds of what is read.
  pub All-get {ι} :
      (P : V → Type ι) (k : K) (m : HashMap K V) (v : V)
      → get k m ≡ some v
      → All (λ (x : K × V). P x.1) m
      → P v
  unfolding get
  All-get P k [] v h a = cc
  All-get P k ((j, w) ∷ m) v h a = elim (Bool-cases (j == k)) [
    | inl hit ↦ subst P (some-injective _ _ (rw hit at h)) a.0
    | inr miss ↦ All-get P k m v (rw miss at h) a.1
  ]

  pub All-insert {ι} :
      (P : V → Type ι) (k : K) (v : V) (m : HashMap K V)
      → P v
      → All (λ (x : K × V). P x.1) m
      → All (λ (x : K × V). P x.1) (insert k v m)
  unfolding insert
  All-insert P k v [] p a = (p, tt)
  All-insert P k v ((j, w) ∷ m) p a = elim (Bool-cases (j == k)) [
    | inl hit ↦ rw hit (p, a.1)
    | inr miss ↦ rw miss (a.0, All-insert P k v m p a.1)
  ]

  pub All-remove {ι} :
      (P : V → Type ι) (k : K) (m : HashMap K V)
      → All (λ (x : K × V). P x.1) m
      → All (λ (x : K × V). P x.1) (remove k m)
  unfolding remove
  All-remove P k [] a = tt
  All-remove P k ((j, w) ∷ m) a = elim (Bool-cases (j == k)) [
    | inl hit ↦ rw hit (All-remove P k m a.1)
    | inr miss ↦ rw miss (a.0, All-remove P k m a.1)
  ]

  pub All-modify {ι} :
      (P : V → Type ι) (k : K) (f : V → V) (m : HashMap K V)
      → ((v : V) → P v → P (f v))
      → All (λ (x : K × V). P x.1) m
      → All (λ (x : K × V). P x.1) (modify k f m)
  unfolding modify
  All-modify P k f [] h a = tt
  All-modify P k f ((j, w) ∷ m) h a = elim (Bool-cases (j == k)) [
    | inl hit ↦ rw hit (h w a.0, a.1)
    | inr miss ↦ rw miss (a.0, All-modify P k f m h a.1)
  ]
