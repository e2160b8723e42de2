-- ===== src/Stubs.antt =====
-- The generated stubs of the service (nullnet-grpc-lib/src/proto/nullnet_grpc.rs and
-- src/proto/nullnet_grpc.rs): what they use of tonic, as parameters.
pub mod Client
pub mod Server
pub mod Transport
pub mod Routed
use nullnet_grpc.Base.{ℕ, ◌≡◌, String, Option, some, List, IpAddr}
use nullnet_grpc.Base.HashMap.{HashMap}
use nullnet_grpc.Base.Results.{Result}
use nullnet_grpc.Proto.{
  NetType, Services, ServicesListResponse, ProxyRequest, Upstream, BackendTriggerRequest,
  NetMessage,
}
use nullnet_grpc.GrpcImpl.{Request, Rpc}

-- `tonic_prost::ProstCodec` for one type of messages: a message survives the wire.
pub record Codec (B A : Type 0) : Type 0 where
  pub encode : A → B
  pub decode : B → Option A
  pub encoded_len : A → ℕ
  pub decode-encode : (a : A) → decode (encode a) ≡ some a

-- The codecs of the messages of the unary methods.
pub record Codecs (B : Type 0) : Type 0 where
  pub empty : Codec B (Unit {0})
  pub net_type : Codec B NetType
  pub services : Codec B Services
  pub services_list_response : Codec B ServicesListResponse
  pub proxy_request : Codec B ProxyRequest
  pub upstream : Codec B Upstream
  pub backend_trigger_request : Codec B BackendTriggerRequest

-- `tonic::GrpcMethod`.
pub record GrpcMethod : Type 0 where
  pub service : String
  pub method : String

-- A `tonic::Request` before it is sent: the message, or the stream of them, and the extension that
-- names the method.
pub record Outgoing (A : Type 0) : Type 0 where
  pub message : A
  pub grpc_method : GrpcMethod

-- What the server's stub sees of an `http::Request`.
pub record HttpRequest (B : Type 0) : Type 0 where
  pub path : String
  pub remote_addr : Option IpAddr
  pub body : B

pub record HttpResponse (B : Type 0) : Type 0 where
  pub headers : HashMap String String
  pub body : B

-- `tonic::client::Grpc` over a channel of type `T`, to a remote side of type `W`. `S` is the type of
-- the stream that the control channel sends.
pub record TonicClient (T W B S : Type 0) : Type 1 where
  pub ready : T → W → Result (Unit {0})
  pub unary :
      {A C : Type 0} → Codec B A → Codec B C → T → Outgoing A → String → W → Option (W × Rpc C)
  pub streaming : T → Outgoing S → String → W → Option (W × Rpc (List NetMessage))

-- The settings of `tonic::server::Grpc`, where `E` is `EnabledCompressionEncodings`.
pub record Grpc (E : Type 0) : Type 0 where
  pub accept_compression_encodings : E
  pub send_compression_encodings : E
  pub max_decoding_message_size : Option ℕ
  pub max_encoding_message_size : Option ℕ

-- `tonic::server::Grpc`, and the constants of tonic and of the crate http that the stub names.
pub record TonicServer (W B S E : Type 0) : Type 1 where
  pub no_encodings : E
  pub unary :
      {A C : Type 0}
      → Codec B A
      → Codec B C
      → Grpc E
      → (Request A → W → Option (W × Rpc C))
      → HttpRequest B
      → W
      → Option (W × HttpResponse B)
  pub streaming :
      Grpc E
      → (Request S → W → Option (W × Rpc (List NetMessage)))
      → HttpRequest B
      → W
      → Option (W × HttpResponse B)
  pub default_body : B
  pub grpc_status : String
  pub unimplemented : String
  pub content_type : String
  pub grpc_content_type : String
