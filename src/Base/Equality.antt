-- ===== src/Base/Equality.antt =====
-- Equality as an interface (`PartialEq`), with its instances for the types of keys.
use Prim.Native.Nat.{ℕ}
use Prim.Native.String.{String}
use mathlib.Core.Path.{◌≡◌, refl}
use mathlib.Core.Logic.{◌↔◌}
use mathlib.Core.Bool.{Bool, true, false, ◌&&◌}
use mathlib.Core.Option.{Option, none, some}
use mathlib.Core.List.{List, [], ◌∷◌}
use native.Mathlib.Omega.{arith}
use text.Mathlib.Text.{◌==◌ as str_eq}
use text.Mathlib.TextEquality.{eq_iff}
use nullnet_grpc.Base.Tests.{nat_beq, nat_beq_iff}

pub record PartialEq {ℓ} (A : Type ℓ) : Type ℓ where
  pub beq : A → A → Bool
  pub beq_iff : (x y : A) → (beq x y ≡ true) ↔ (x ≡ y)

instance abbrev pub string_eq : PartialEq String
string_eq = record { beq = str_eq; beq_iff = eq_iff }

instance abbrev pub nat_eq : PartialEq ℕ
nat_eq = record { beq = nat_beq; beq_iff = nat_beq_iff }

module _ {ℓ} {A : Type ℓ} ⦃e : PartialEq A⦄ where
  infix 50 ◌==◌
  abbrev pub ◌==◌ : A → A → Bool
  x == y = e.beq x y

  pub beq_refl : (x : A) → (x == x) ≡ true
  beq_refl x = (e.beq_iff x x).1 refl

module _ {ℓ} {A : Type ℓ} ⦃e : PartialEq A⦄ where
  abbrev pub option_beq : Option A → Option A → Bool
  option_beq none none = true
  option_beq (some a) (some b) = e.beq a b
  option_beq _ _ = false

  pub option_beq_iff : (a b : Option A) → (option_beq a b ≡ true) ↔ (a ≡ b)
  option_beq_iff none none = (λ _. refl, λ _. refl)
  option_beq_iff none (some b) = (λ h. cc, λ h. cc)
  option_beq_iff (some a) none = (λ h. cc, λ h. cc)
  option_beq_iff (some a) (some b) =
      (λ h. ground (arith, e.beq_iff a b), λ h. ground (arith, e.beq_iff a b))

  instance abbrev pub option_eq : PartialEq (Option A)
  option_eq = record { beq = option_beq; beq_iff = option_beq_iff }

  abbrev pub list_beq : List A → List A → Bool
  list_beq [] [] = true
  list_beq (a ∷ as') (b ∷ bs) = e.beq a b && list_beq as' bs
  list_beq _ _ = false

  pub list_beq_iff : (a b : List A) → (list_beq a b ≡ true) ↔ (a ≡ b)
  list_beq_iff [] [] = (λ _. refl, λ _. refl)
  list_beq_iff [] (b ∷ bs) = (λ h. cc, λ h. cc)
  list_beq_iff (a ∷ r) [] = (λ h. cc, λ h. cc)
  list_beq_iff (a ∷ r) (b ∷ s) = (
    λ h. ground (arith, e.beq_iff a b, list_beq_iff r s),
    λ h. ground (arith, e.beq_iff a b, list_beq_iff r s),
  )

  instance abbrev pub list_eq : PartialEq (List A)
  list_eq = record { beq = list_beq; beq_iff = list_beq_iff }

module _ {ℓ κ} {A : Type ℓ} {B : Type κ} ⦃e : PartialEq A⦄ ⦃f : PartialEq B⦄ where
  abbrev pub pair_beq : A × B → A × B → Bool
  pair_beq x y = e.beq x.0 y.0 && f.beq x.1 y.1

  pub pair_beq_iff : (x y : A × B) → (pair_beq x y ≡ true) ↔ (x ≡ y)
  pair_beq_iff x y = (
    λ h. ground (arith, e.beq_iff x.0 y.0, f.beq_iff x.1 y.1),
    λ h. ground (arith, e.beq_iff x.0 y.0, f.beq_iff x.1 y.1),
  )

  instance abbrev pub pair_eq : PartialEq (A × B)
  pair_eq = record { beq = pair_beq; beq_iff = pair_beq_iff }
