-- ===== src/Stubs/Transport.antt =====
-- What the stubs rely on tonic for, between a channel and what serves it.
use nullnet_grpc.Base.{ℕ, ◌≡◌, ◌≤◌, ◌*◌, String, Option, none, some, List, string_eq, IpAddr}
use nullnet_grpc.Proto.{Services, ProxyRequest, BackendTriggerRequest, NetMessage}
use nullnet_grpc.GrpcImpl.{Request, Rpc, response, status}
use nullnet_grpc.Stubs.{
  Codec, Codecs, Outgoing, HttpRequest, HttpResponse, TonicClient, Grpc, TonicServer,
}
use nullnet_grpc.Stubs.Server.{NullnetGrpc}

-- A message that a side takes: within its limit, or within 4 MB where it has none.
abbrev pub Fits : {B A : Type 0} → Codec B A → Option ℕ → A → Type 0
Fits codec none a = codec.encoded_len a ≤ 4_000_000
Fits codec (some limit) a = codec.encoded_len a ≤ limit

-- The reply, if there is one, is a message that the client takes.
abbrev pub ReplyFits : {W B C : Type 0} → Codec B C → Option (W × Rpc C) → Type 0
ReplyFits codec none = Unit {0}
ReplyFits codec (some (w, status s)) = Unit {0}
ReplyFits codec (some (w, response c)) = Fits codec none c

abbrev pub received : {A : Type 0} → Option IpAddr → A → Request A
received addr message = record { remote_addr = addr; message = message }

-- tonic between a channel and what serves it, for a caller at an address: a call is carried to the
-- server under its path, and its reply back, and where the messages fit, the method that is run on
-- a request gets the message of the call.
pub record IsTransport {T W B S E : Type 0} (client : TonicClient T W B S)
    (server : TonicServer W B S E) (inner : T) (addr : Option IpAddr)
    (serve : HttpRequest B → W → Option (W × HttpResponse B)) : Type 1 where
  pub http : {A : Type 0} → Codec B A → Outgoing A → String → HttpRequest B
  pub http_path :
      {A : Type 0} (a : Codec B A) (o : Outgoing A) (path : String) → (http a o path).path ≡ path
  pub read : {C : Type 0} → Codec B C → Option (W × HttpResponse B) → Option (W × Rpc C)
  pub sends :
      {A C : Type 0} (a : Codec B A) (c : Codec B C) (o : Outgoing A) (path : String) (w : W)
      → client.unary a c inner o path w ≡ read c (serve (http a o path) w)
  pub runs :
      {A C : Type 0} (a : Codec B A) (c : Codec B C) (grpc : Grpc E)
      (f : Request A → W → Option (W × Rpc C)) (o : Outgoing A) (path : String) (w : W)
      → grpc.max_encoding_message_size ≡ none
      → Fits a grpc.max_decoding_message_size o.message
      → ReplyFits c (f (received addr o.message) w)
      → read c (server.unary a c grpc f (http a o path) w) ≡ f (received addr o.message) w
  pub http_stream : Outgoing S → String → HttpRequest B
  pub http_stream_path : (o : Outgoing S) (path : String) → (http_stream o path).path ≡ path
  pub read_stream : Option (W × HttpResponse B) → Option (W × Rpc (List NetMessage))
  pub sends_stream :
      (o : Outgoing S) (path : String) (w : W)
      → client.streaming inner o path w ≡ read_stream (serve (http_stream o path) w)
  pub runs_stream :
      (grpc : Grpc E) (f : Request S → W → Option (W × Rpc (List NetMessage))) (o : Outgoing S)
      (path : String) (w : W)
      → read_stream (server.streaming grpc f (http_stream o path) w) ≡ f (received addr o.message) w

-- The messages of a call of each method, and its reply, fit.
pub record IsSmall {W B S : Type 0} (codecs : Codecs B) (service : NullnetGrpc W S)
    (addr : Option IpAddr) (w : W) (listed : Services) (proxied : ProxyRequest)
    (triggered : BackendTriggerRequest) : Type 0 where
  pub empty : Fits codecs.empty (some (50 * 1024 * 1024)) tt
  pub listed_fits : Fits codecs.services (some (50 * 1024 * 1024)) listed
  pub proxied_fits : Fits codecs.proxy_request (some (50 * 1024 * 1024)) proxied
  pub triggered_fits : Fits codecs.backend_trigger_request (some (50 * 1024 * 1024)) triggered
  pub net_type : ReplyFits codecs.net_type (service.network_type (received addr tt) w)
  pub list_reply :
      ReplyFits codecs.services_list_response (service.services_list (received addr listed) w)
  pub upstream : ReplyFits codecs.upstream (service.proxy (received addr proxied) w)
  pub trigger_reply : ReplyFits codecs.empty (service.backend_trigger (received addr triggered) w)
