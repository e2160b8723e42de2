-- ===== src/Tests/Connections.antt =====
-- A concrete endpoint to which the third attempt connects.
use nullnet_grpc.Base.{ℕ, ◌≡◌, refl, String, true, none, some, [], ◌∷◌, decimal}
use nullnet_grpc.Base.Results.{ok}
use nullnet_grpc.ClientLib.{Endpoint, new, connected, first_channel}

abbrev endpoint : Endpoint String ℕ
endpoint = record {
  from_shared = λ address. ok address;
  connect_timeout = λ seconds e. e;
  tls_config = λ e. ok e;
  connect = λ e. none ∷ none ∷ some 7 ∷ [];
}

new_test : new endpoint "localhost" 50051 true ≡ some (ok 7)
unfolding new connected first_channel decimal
new_test = refl
