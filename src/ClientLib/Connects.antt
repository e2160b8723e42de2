-- ===== src/ClientLib/Connects.antt =====
-- The connection of the client library (nullnet-grpc-lib/src/lib.rs).
use nullnet_grpc.Base.{
  ℕ, zero, suc, ◌≡◌, refl, String, Bool, Option, none, some, List, [], ◌∷◌, ◌++◌,
}
use nullnet_grpc.Base.Results.{ok}
use nullnet_grpc.ClientLib.{Endpoint, uri, first_channel, secured, connected, new}

abbrev pub failures {ℓ} : {A : Type ℓ} → ℕ → List (Option A)
failures zero = []
failures (suc n) = none ∷ failures n

module _ {E C : Type 0} (endpoint : Endpoint E C) where
  first_channel-failures :
      (n : ℕ) (channel : C) (rest : List (Option C))
      → first_channel endpoint (failures n ++ (some channel ∷ rest)) ≡ some channel
  unfolding first_channel
  first_channel-failures zero channel rest = refl
  first_channel-failures (suc n) channel rest = first_channel-failures n channel rest

  -- If the address is valid, and with TLS its configuration succeeds, then `new` returns the channel
  -- of the first attempt that succeeds, however many failed before.
  pub new-connects :
      (host : String) (port : ℕ) (tls : Bool) (e e' : E) (n : ℕ) (channel : C)
      (rest : List (Option C))
      → endpoint.from_shared (uri host port tls) ≡ ok e
      → secured endpoint tls (endpoint.connect_timeout 10 e) ≡ ok e'
      → endpoint.connect e' ≡ failures n ++ (some channel ∷ rest)
      → new endpoint host port tls ≡ some (ok channel)
  unfolding new connected
  new-connects host port tls e e' n channel rest valid secure attempts =
      rw (valid, new)
        (rw (secure, connected) (rw attempts (rw (first_channel-failures n channel rest) refl)))
