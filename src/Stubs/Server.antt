-- ===== src/Stubs/Server.antt =====
-- src/proto/nullnet_grpc.rs, `nullnet_grpc_server`: the trait, the server that holds an
-- implementation of it, and the dispatch of a request on its path; and the server that src/main.rs
-- starts.
use nullnet_grpc.Base.{
  ℕ, ◌*◌, String, Option, none, some, List, [], ◌==◌, string_eq, if◌then◌else◌, Ipv4Addr, IpAddr,
  unspecified,
}
use nullnet_grpc.Base.HashMap.{insert}
use nullnet_grpc.Proto.{
  NetType, Services, ServicesListResponse, ProxyRequest, Upstream, BackendTriggerRequest,
  NetMessage,
}
use nullnet_grpc.Proto.{Net}
use nullnet_grpc.Net.{IpNetworkCrate}
use nullnet_grpc.Changes.{World}
use nullnet_grpc.GrpcImpl.{
  Request, Rpc, response, status, Readings, network_type, services_list_method,
  control_channel_method, proxy_method, backend_trigger_method,
}
use nullnet_grpc.Stubs.{Codecs, HttpRequest, HttpResponse, Grpc, TonicServer}

-- The trait. `S` is the type of the stream that the control channel receives.
pub record NullnetGrpc (W S : Type 0) : Type 0 where
  pub network_type : Request (Unit {0}) → W → Option (W × Rpc NetType)
  pub services_list : Request Services → W → Option (W × Rpc ServicesListResponse)
  pub control_channel : Request S → W → Option (W × Rpc (List NetMessage))
  pub proxy : Request ProxyRequest → W → Option (W × Rpc Upstream)
  pub backend_trigger : Request BackendTriggerRequest → W → Option (W × Rpc (Unit {0}))

pub record NullnetGrpcServer (W S E : Type 0) : Type 0 where
  pub inner : NullnetGrpc W S
  pub accept_compression_encodings : E
  pub send_compression_encodings : E
  pub max_decoding_message_size : Option ℕ
  pub max_encoding_message_size : Option ℕ

module _ {W S E : Type 0} where
  -- `max_decoding_message_size`, the one setting that the program changes.
  abbrev pub with_max_decoding_message_size : ℕ → NullnetGrpcServer W S E → NullnetGrpcServer W S E
  with_max_decoding_message_size limit server = record server {
    max_decoding_message_size = some limit;
  }

  module _ {B : Type 0} (tonic : TonicServer W B S E) where
    -- `new`, by `from_arc`.
    abbrev pub from_arc : NullnetGrpc W S → NullnetGrpcServer W S E
    from_arc inner = record {
      inner = inner;
      accept_compression_encodings = tonic.no_encodings;
      send_compression_encodings = tonic.no_encodings;
      max_decoding_message_size = none;
      max_encoding_message_size = none;
    }

    -- The answer to a path that no method has.
    abbrev pub unimplemented_response : HttpResponse B
    unimplemented_response = record {
      headers =
          insert tonic.content_type tonic.grpc_content_type
            (insert tonic.grpc_status tonic.unimplemented []);
      body = tonic.default_body;
    }

    -- `apply_compression_config` and `apply_max_message_size_config` on a new `Grpc`.
    abbrev pub configured : NullnetGrpcServer W S E → Grpc E
    configured server = record {
      accept_compression_encodings = server.accept_compression_encodings;
      send_compression_encodings = server.send_compression_encodings;
      max_decoding_message_size = server.max_decoding_message_size;
      max_encoding_message_size = server.max_encoding_message_size;
    }

    module _ (codecs : Codecs B) where
      -- The arm of each method.
      abbrev pub network_type_svc :
          NullnetGrpcServer W S E → HttpRequest B → W → Option (W × HttpResponse B)
      network_type_svc server =
          tonic.unary codecs.empty codecs.net_type (configured server) server.inner.network_type

      abbrev pub services_list_svc :
          NullnetGrpcServer W S E → HttpRequest B → W → Option (W × HttpResponse B)
      services_list_svc server =
          tonic.unary codecs.services codecs.services_list_response (configured server)
            server.inner.services_list

      abbrev pub control_channel_svc :
          NullnetGrpcServer W S E → HttpRequest B → W → Option (W × HttpResponse B)
      control_channel_svc server = tonic.streaming (configured server) server.inner.control_channel

      abbrev pub proxy_svc :
          NullnetGrpcServer W S E → HttpRequest B → W → Option (W × HttpResponse B)
      proxy_svc server =
          tonic.unary codecs.proxy_request codecs.upstream (configured server) server.inner.proxy

      abbrev pub backend_trigger_svc :
          NullnetGrpcServer W S E → HttpRequest B → W → Option (W × HttpResponse B)
      backend_trigger_svc server =
          tonic.unary codecs.backend_trigger_request codecs.empty (configured server)
            server.inner.backend_trigger

      unfoldable pub call :
          NullnetGrpcServer W S E → HttpRequest B → W → Option (W × HttpResponse B)
      call server req w =
          if req.path == "/nullnet_grpc.NullnetGrpc/NetworkType"
          then network_type_svc server req w
          else if req.path == "/nullnet_grpc.NullnetGrpc/ServicesList"
          then services_list_svc server req w
          else if req.path == "/nullnet_grpc.NullnetGrpc/ControlChannel"
          then control_channel_svc server req w
          else if req.path == "/nullnet_grpc.NullnetGrpc/Proxy"
          then proxy_svc server req w
          else if req.path == "/nullnet_grpc.NullnetGrpc/BackendTrigger"
          then backend_trigger_svc server req w
          else some (w, unimplemented_response)

    -- The server that `main` serves.
    unfoldable pub main_server : NullnetGrpc W S → NullnetGrpcServer W S E
    main_server init = with_max_decoding_message_size (50 * 1024 * 1024) (from_arc init)

abbrev pub port : ℕ
port = 50051

-- The address that `main` listens on.
abbrev pub address : Ipv4Addr × ℕ
address = (unspecified, port)

-- `impl NullnetGrpc for NullnetGrpcImpl`: the stream that the control channel answers with is empty
-- when it is opened.
abbrev pub opened : World × Rpc (Unit {0}) → Option (World × Rpc (List NetMessage))
opened (w, response u) = some (w, response [])
opened (w, status s) = some (w, status s)

abbrev pub nullnet_grpc_impl :
    (String → Option IpAddr)
    → IpNetworkCrate
    → Net
    → ℕ
    → ℕ
    → List (ℕ × Readings)
    → NullnetGrpc World (Unit {0})
nullnet_grpc_impl parse crate net fuel now sched = record {
  network_type = λ request w. some (w, network_type net);
  services_list = services_list_method net fuel;
  control_channel = λ request w. opened (control_channel_method request w);
  proxy = proxy_method parse crate net fuel now sched;
  backend_trigger = backend_trigger_method crate net sched;
}
