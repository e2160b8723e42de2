-- ===== src/ClientLib.antt =====
-- nullnet-grpc-lib/src/lib.rs: the interface that the nodes and the proxies use. The endpoint of
-- tonic, the generated client and the text of a status are parameters.
pub mod Connects
use Prim.Native.String.{◌++◌}
use nullnet_grpc.Base.{
  ℕ, String, Bool, true, false, Option, none, some, List, [], ◌∷◌, if◌then◌else◌, decimal,
}
use nullnet_grpc.Base.Results.{Result, ok, err, ◌>>=◌}
use nullnet_grpc.Proto.{
  NetType, ProxyRequest, Services, ServicesListResponse, Upstream, BackendTriggerRequest,
  NetMessage,
}
use nullnet_grpc.GrpcImpl.{Rpc, Status, response, status}

-- `tonic::transport::Endpoint`, and what the attempts to connect give one after the other: a channel
-- or a failure.
pub record Endpoint (E C : Type 0) : Type 0 where
  pub from_shared : String → Result E
  pub connect_timeout : ℕ → E → E
  pub tls_config : E → Result E
  pub connect : E → List (Option C)

-- The generated client over a channel: each call sends a message, to a remote side of type `W`.
pub record NullnetGrpcClient (W S : Type 0) : Type 0 where
  pub network_type : W → Option (W × Rpc NetType)
  pub control_channel : S → W → Option (W × Rpc (List NetMessage))
  pub proxy : ProxyRequest → W → Option (W × Rpc Upstream)
  pub services_list : Services → W → Option (W × Rpc ServicesListResponse)
  pub backend_trigger : BackendTriggerRequest → W → Option (W × Rpc (Unit {0}))

abbrev pub protocol : Bool → String
protocol tls = if tls then "https" else "http"

abbrev pub uri : String → ℕ → Bool → String
uri host port tls = protocol tls ++ "://" ++ host ++ ":" ++ decimal port

module _ {E C : Type 0} (endpoint : Endpoint E C) where
  -- The loop that retries; `none` if it still does when the attempts run out.
  unfoldable pub first_channel : List (Option C) → Option C
  first_channel [] = none
  first_channel (none ∷ attempts) = first_channel attempts
  first_channel (some channel ∷ attempts) = some channel

  abbrev pub secured : Bool → E → Result E
  secured tls e = if tls then endpoint.tls_config e else ok e

  unfoldable pub connected : Result E → Option (Result C)
  unfolding first_channel
  connected (err e) = some (err e)
  connected (ok e) = do channel ← first_channel (endpoint.connect e); some (ok channel)

  -- `NullnetGrpcInterface::new`, up to the client that wraps the channel.
  unfoldable pub new : String → ℕ → Bool → Option (Result C)
  unfolding connected
  new host port tls = elim (endpoint.from_shared (uri host port tls)) [
    | err e ↦ some (err e)
    | ok e ↦ connected (secured tls (endpoint.connect_timeout 10 e))
  ]

-- `map(Response::into_inner)` and `map_err(|e| e.to_string())`.
abbrev pub into_inner : {A : Type 0} → (Status → String) → Rpc A → Result A
into_inner to_string (response a) = ok a
into_inner to_string (status s) = err (to_string s)

abbrev pub called : {W A : Type 0} → (Status → String) → Option (W × Rpc A) → Option (W × Result A)
called to_string none = none
called to_string (some (w, r)) = some (w, into_inner to_string r)

module _ {W S : Type 0} (to_string : Status → String) (client : NullnetGrpcClient W S) where
  abbrev pub network_type : W → Option (W × Result NetType)
  network_type w = called to_string (client.network_type w)

  abbrev pub control_channel : S → W → Option (W × Result (List NetMessage))
  control_channel receiver w = called to_string (client.control_channel receiver w)

  abbrev pub proxy : ProxyRequest → W → Option (W × Result Upstream)
  proxy message w = called to_string (client.proxy message w)

  abbrev pub services_list : Services → W → Option (W × Result ServicesListResponse)
  services_list message w = called to_string (client.services_list message w)

  abbrev pub backend_trigger : String → ℕ → W → Option (W × Result (Unit {0}))
  backend_trigger service_name port w =
      called to_string
        (client.backend_trigger (record { service_name = service_name; port = port }) w)
