-- ===== src/Stubs/Client.antt =====
-- nullnet-grpc-lib/src/proto/nullnet_grpc.rs, `nullnet_grpc_client`: each call names its method, and
-- is sent to the method's path once the channel is ready.
use Prim.Native.String.{◌++◌}
use nullnet_grpc.Base.{String, Option, some, List}
use nullnet_grpc.Base.Results.{ok, err}
use nullnet_grpc.Proto.{
  NetType, Services, ServicesListResponse, ProxyRequest, Upstream, BackendTriggerRequest,
  NetMessage,
}
use nullnet_grpc.GrpcImpl.{Rpc, status, unknown}
use nullnet_grpc.ClientLib.{NullnetGrpcClient}
use nullnet_grpc.Stubs.{Codecs, Outgoing, TonicClient}

-- `into_request`, and the extension that each call inserts.
abbrev pub outgoing : {A : Type 0} → String → A → Outgoing A
outgoing method message = record {
  message = message;
  grpc_method = record { service = "nullnet_grpc.NullnetGrpc"; method = method };
}

module _ {T W B S : Type 0} (tonic : TonicClient T W B S) (codecs : Codecs B) (inner : T) where
  -- `self.inner.ready().await.map_err(..)?` in front of a call.
  abbrev pub when_ready : {A : Type 0} → (W → Option (W × Rpc A)) → W → Option (W × Rpc A)
  when_ready call w = elim (tonic.ready inner w) [
    | err e ↦ some (w, status (unknown ("Service was not ready: " ++ e)))
    | ok u ↦ call w
  ]

  unfoldable pub network_type : W → Option (W × Rpc NetType)
  network_type = when_ready (
      tonic.unary codecs.empty codecs.net_type inner (outgoing "NetworkType" tt)
        "/nullnet_grpc.NullnetGrpc/NetworkType")

  unfoldable pub services_list : Services → W → Option (W × Rpc ServicesListResponse)
  services_list request = when_ready (
      tonic.unary codecs.services codecs.services_list_response inner
        (outgoing "ServicesList" request) "/nullnet_grpc.NullnetGrpc/ServicesList")

  unfoldable pub control_channel : S → W → Option (W × Rpc (List NetMessage))
  control_channel request = when_ready (
      tonic.streaming inner (outgoing "ControlChannel" request)
        "/nullnet_grpc.NullnetGrpc/ControlChannel")

  unfoldable pub proxy : ProxyRequest → W → Option (W × Rpc Upstream)
  proxy request = when_ready (
      tonic.unary codecs.proxy_request codecs.upstream inner (outgoing "Proxy" request)
        "/nullnet_grpc.NullnetGrpc/Proxy")

  unfoldable pub backend_trigger : BackendTriggerRequest → W → Option (W × Rpc (Unit {0}))
  backend_trigger request = when_ready (
      tonic.unary codecs.backend_trigger_request codecs.empty inner
        (outgoing "BackendTrigger" request) "/nullnet_grpc.NullnetGrpc/BackendTrigger")

  -- What the interface holds.
  abbrev pub nullnet_grpc_client : NullnetGrpcClient W S
  nullnet_grpc_client = record {
    network_type = network_type;
    control_channel = control_channel;
    proxy = proxy;
    services_list = services_list;
    backend_trigger = backend_trigger;
  }
