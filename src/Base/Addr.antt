-- ===== src/Base/Addr.antt =====
-- The addresses of `std::net` and their text. An `IpAddr` is its canonical text, by which two
-- addresses are equal exactly when the texts are; an `Ipv4Addr` is its four octets.
use Prim.Native.Nat.{ℕ, zero, suc, ◌/◌, ◌%◌}
use Prim.Native.String.{String, ◌++◌}
use mathlib.Core.Bool.{Bool, true, ◌&&◌}
use mathlib.Core.Path.{◌≡◌, refl}
use mathlib.Core.Logic.{◌↔◌}
use native.Mathlib.Omega.{arith}
use nullnet_grpc.Base.Tests.{ltb, nat_beq, if◌then◌else◌}
use nullnet_grpc.Base.Equality.{PartialEq}

abbrev pub IpAddr : Type 0
IpAddr = String

pub record Ipv4Addr : Type 0 where
  pub o0 : ℕ
  pub o1 : ℕ
  pub o2 : ℕ
  pub o3 : ℕ

abbrev pub unspecified : Ipv4Addr
unspecified = record { o0 = 0; o1 = 0; o2 = 0; o3 = 0 }

abbrev pub ipv4_beq : Ipv4Addr → Ipv4Addr → Bool
ipv4_beq a b = nat_beq a.o0 b.o0 && (nat_beq a.o1 b.o1 && (nat_beq a.o2 b.o2 && nat_beq a.o3 b.o3))

pub ipv4_beq_iff : (a b : Ipv4Addr) → (ipv4_beq a b ≡ true) ↔ (a ≡ b)
ipv4_beq_iff a b = (λ h. ground arith, λ h. ground arith)

instance abbrev pub ipv4_eq : PartialEq Ipv4Addr
ipv4_eq = record { beq = ipv4_beq; beq_iff = ipv4_beq_iff }

digit : ℕ → String
digit zero = "0"
digit (suc zero) = "1"
digit (suc (suc zero)) = "2"
digit (suc (suc (suc zero))) = "3"
digit (suc (suc (suc (suc zero)))) = "4"
digit (suc (suc (suc (suc (suc zero))))) = "5"
digit (suc (suc (suc (suc (suc (suc zero)))))) = "6"
digit (suc (suc (suc (suc (suc (suc (suc zero))))))) = "7"
digit (suc (suc (suc (suc (suc (suc (suc (suc zero)))))))) = "8"
digit (suc (suc (suc (suc (suc (suc (suc (suc (suc n))))))))) = "9"

-- Decimal digits, the last one last; a 32-bit number has at most ten.
decimal_from : ℕ → ℕ → String
unfolding digit
decimal_from zero n = ""
decimal_from (suc fuel) n =
    let high = decimal_from fuel (n / 10) in if ltb n 10 then digit n else high ++ digit (n % 10)

-- The `Display` of an unsigned integer of at most 128 bits, which has at most 39 digits.
unfoldable pub decimal : ℕ → String
unfolding decimal_from
decimal n = decimal_from 39 n

-- The `Display` of an `Ipv4Addr`.
unfoldable pub ipv4_to_string : Ipv4Addr → String
unfolding decimal
ipv4_to_string a = decimal a.o0 ++ "." ++ decimal a.o1 ++ "." ++ decimal a.o2 ++ "." ++ decimal a.o3

decimal_test : decimal 2_097_151 ≡ "2097151"
unfolding decimal
decimal_test = refl

ipv4_to_string_test : ipv4_to_string (record { o0 = 10; o1 = 0; o2 = 3; o3 = 41 }) ≡ "10.0.3.41"
unfolding ipv4_to_string
ipv4_to_string_test = refl
