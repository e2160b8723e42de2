-- ===== src/Base/Results.antt =====
-- `Option` and `Result` as monads: the operator `?`, and the messages that reach a caller.
use Prim.Native.String.{String}
use mathlib.Core.Option.{Option, none, some}
use mathlib.Core.Logic.{◌⊎◌, inl, inr}
use mathlib.Core.Path.{◌≡◌, refl, ap, subst}

infixl 5 ◌>>=◌
abbrev pub ◌>>=◌ {ℓ κ} : {A : Type ℓ} {B : Type κ} → Option A → (A → Option B) → Option B
none >>= f = none
some a >>= f = f a

-- `Result<T, Error>`; of an `Error` the code keeps the text.
pub data Result {ℓ} (A : Type ℓ) : Type ℓ where
  ok : A → Result A
  err : String → Result A

abbrev pub ok_or {ℓ} : {A : Type ℓ} → Option A → String → Result A
ok_or none e = err e
ok_or (some a) e = ok a

pub Result-cases {ℓ} :
    {A : Type ℓ} (r : Result A) → ((a : A) × (r ≡ ok a)) ⊎ ((e : String) × (r ≡ err e))
Result-cases (ok a) = inl (a, refl)
Result-cases (err e) = inr (e, refl)

payload {ℓ} : {A : Type ℓ} → A → Result A → A
payload default (ok a) = a
payload default (err e) = default

IsOk {ℓ} : {A : Type ℓ} → Result A → Type 0
IsOk (ok a) = Unit {0}
IsOk (err e) = ⊥

pub ok-injective {ℓ} : {A : Type ℓ} {a b : A} → ok a ≡ ok b → a ≡ b
unfolding payload
ok-injective {a = a} e = ap (payload a) e

pub ok-err {ℓ} : {A : Type ℓ} {a : A} {e : String} → ok a ≡ err e → ⊥
unfolding IsOk
ok-err e = subst IsOk e tt
