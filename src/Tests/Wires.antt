-- ===== src/Tests/Wires.antt =====
-- A concrete wire between the client library and the server: the messages themselves, and a status
-- in a header.
use nullnet_grpc.Base.{
  ◌≡◌, refl, String, Option, none, some, List, [], ◌∷◌, ◌==◌, string_eq, if◌then◌else◌, IpAddr,
  arith,
}
use nullnet_grpc.Base.HashMap.{HashMap}
use nullnet_grpc.Base.Results.{ok}
use nullnet_grpc.Proto.{
  vlan, NetType, Services, ServicesListResponse, ProxyRequest, Upstream, BackendTriggerRequest,
  NetMessage,
}
use nullnet_grpc.Changes.{World}
use nullnet_grpc.GrpcImpl.{Request, Rpc, Status, response, status, internal, unknown}
use nullnet_grpc.ClientLib
use nullnet_grpc.ClientLib.{called}
use nullnet_grpc.Stubs.{
  Codec, Codecs, Outgoing, HttpRequest, HttpResponse, TonicClient, TonicServer,
}
use nullnet_grpc.Stubs.Client.{nullnet_grpc_client}
use nullnet_grpc.Stubs.Server.{
  NullnetGrpc, call, main_server, nullnet_grpc_impl, unimplemented_response,
}
use nullnet_grpc.Stubs.Transport.{ReplyFits, IsTransport, IsSmall}
use nullnet_grpc.Stubs.Routed.{calls-routed}
use nullnet_grpc.Tests.Networks.{crate}
use nullnet_grpc.Tests.Setups.{five_turns, world}

data Wire : Type 0 where
  empty_body : Wire
  net_type_body : NetType → Wire
  services_body : Services → Wire
  list_body : ServicesListResponse → Wire
  proxy_body : ProxyRequest → Wire
  upstream_body : Upstream → Wire
  trigger_body : BackendTriggerRequest → Wire
  stream_body : List NetMessage → Wire

abbrev empty_of : Wire → Option (Unit {0})
empty_of empty_body = some tt
empty_of _ = none

abbrev net_type_of : Wire → Option NetType
net_type_of (net_type_body m) = some m
net_type_of _ = none

abbrev services_of : Wire → Option Services
services_of (services_body m) = some m
services_of _ = none

abbrev list_of : Wire → Option ServicesListResponse
list_of (list_body m) = some m
list_of _ = none

abbrev proxy_of : Wire → Option ProxyRequest
proxy_of (proxy_body m) = some m
proxy_of _ = none

abbrev upstream_of : Wire → Option Upstream
upstream_of (upstream_body m) = some m
upstream_of _ = none

abbrev trigger_of : Wire → Option BackendTriggerRequest
trigger_of (trigger_body m) = some m
trigger_of _ = none

abbrev codec :
    {A : Type 0} (encode : A → Wire) (decode : Wire → Option A)
    → ((a : A) → decode (encode a) ≡ some a)
    → Codec Wire A
codec encode decode law = record {
  encode = encode;
  decode = decode;
  encoded_len = λ a. 100;
  decode-encode = law;
}

abbrev codecs : Codecs Wire
codecs = record {
  empty = codec (λ u. empty_body) empty_of (λ u. refl);
  net_type = codec net_type_body net_type_of (λ m. refl);
  services = codec services_body services_of (λ m. refl);
  services_list_response = codec list_body list_of (λ m. refl);
  proxy_request = codec proxy_body proxy_of (λ m. refl);
  upstream = codec upstream_body upstream_of (λ m. refl);
  backend_trigger_request = codec trigger_body trigger_of (λ m. refl);
}

abbrev addr : Option IpAddr
addr = some "10.1.1.1"

abbrev http : {A : Type 0} → Codec Wire A → Outgoing A → String → HttpRequest Wire
http a o path = record { path = path; remote_addr = addr; body = a.encode o.message }

abbrev http_stream : Outgoing (Unit {0}) → String → HttpRequest Wire
http_stream o path = record { path = path; remote_addr = addr; body = empty_body }

abbrev decoded : {A : Type 0} → Option A → Rpc A
decoded none = status (internal "failed to decode")
decoded (some a) = response a

abbrev with_headers : {A : Type 0} → HashMap String String → Rpc A → Rpc A
with_headers [] r = r
with_headers ((code, e) ∷ hs) r = if code == "13" then status (internal e) else status (unknown e)

abbrev read :
    {C : Type 0} → (Wire → Option C) → Option (World × HttpResponse Wire) → Option (World × Rpc C)
read decode none = none
read decode (some (w, r)) = some (w, with_headers r.headers (decoded (decode r.body)))

abbrev reply :
    {C : Type 0} → (C → Wire) → Option (World × Rpc C) → Option (World × HttpResponse Wire)
reply encode none = none
reply encode (some (w, response c)) = some (w, record { headers = []; body = encode c })
reply encode (some (w, status (internal e))) =
    some (w, record { headers = ("13", e) ∷ []; body = empty_body })
reply encode (some (w, status (unknown e))) =
    some (w, record { headers = ("2", e) ∷ []; body = empty_body })

abbrev stream_of : Wire → Option (List NetMessage)
stream_of (stream_body ms) = some ms
stream_of _ = none

-- A channel is what serves its requests.
abbrev Channel : Type 0
Channel = HttpRequest Wire → World → Option (World × HttpResponse Wire)

abbrev client : TonicClient Channel World Wire (Unit {0})
client = record {
  ready = λ inner w. ok tt;
  unary = λ a c inner o path w. read c.decode (inner (http a o path) w);
  streaming = λ inner o path w. read stream_of (inner (http_stream o path) w);
}

abbrev run_method :
    {A C : Type 0}
    → Option A
    → (C → Wire)
    → (Request A → World → Option (World × Rpc C))
    → Option IpAddr
    → World
    → Option (World × HttpResponse Wire)
run_method none encode f from w = reply encode (some (w, status (internal "failed to decode")))
run_method (some a) encode f from w =
    reply encode (f (record { remote_addr = from; message = a }) w)

abbrev server : TonicServer World Wire (Unit {0}) (Unit {0})
server = record {
  no_encodings = tt;
  unary = λ a c grpc f req w. run_method (a.decode req.body) c.encode f req.remote_addr w;
  streaming = λ grpc f req w. run_method (empty_of req.body) stream_body f req.remote_addr w;
  default_body = empty_body;
  grpc_status = "grpc-status";
  unimplemented = "12";
  content_type = "content-type";
  grpc_content_type = "application/grpc";
}

-- What is written is read.
read-reply :
    {C : Type 0} (encode : C → Wire) (decode : Wire → Option C)
    → ((c : C) → decode (encode c) ≡ some c)
    → (x : Option (World × Rpc C)) → read decode (reply encode x) ≡ x
read-reply encode decode law none = refl
read-reply encode decode law (some (w, response c)) = rw (law c) refl
read-reply encode decode law (some (w, status (internal e))) = refl
read-reply encode decode law (some (w, status (unknown e))) = refl

transport : (inner : Channel) → IsTransport client server inner addr inner
transport inner = record {
  http = http;
  http_path = λ a o path. refl;
  read = λ c. read c.decode;
  sends = λ a c o path w. refl;
  runs = λ a c grpc f o path w plain fits small.
      rw (a.decode-encode o.message) (read-reply c.encode c.decode c.decode-encode _);
  http_stream = http_stream;
  http_stream_path = λ o path. refl;
  read_stream = read stream_of;
  sends_stream = λ o path w. refl;
  runs_stream = λ grpc f o path w. read-reply stream_body stream_of (λ ms. refl) _;
}

abbrev service : NullnetGrpc World (Unit {0})
service = nullnet_grpc_impl (λ text. some text) crate vlan 9 7 five_turns

abbrev channel : Channel
channel = call server codecs (main_server server service)

abbrev list_message : Services
list_message = record {
  services = (record { name = "web"; port = 80; docker_container = none }) ∷ [];
}

abbrev proxy_message : ProxyRequest
proxy_message = record { client_ip = "10.9.9.9"; service_name = "web" }

abbrev trigger_message : BackendTriggerRequest
trigger_message = record { service_name = "web"; port = 5432 }

short-ReplyFits :
    {C : Type 0} (encode : C → Wire) (decode : Wire → Option C)
    (law : (c : C) → decode (encode c) ≡ some c) (x : Option (World × Rpc C))
    → ReplyFits (codec encode decode law) x
short-ReplyFits encode decode law none = tt
short-ReplyFits encode decode law (some (w, response c)) = omega arith
short-ReplyFits encode decode law (some (w, status s)) = tt

all-IsSmall : IsSmall codecs service addr world list_message proxy_message trigger_message
all-IsSmall = record {
  empty = omega arith;
  listed_fits = omega arith;
  proxied_fits = omega arith;
  triggered_fits = omega arith;
  net_type = omega arith;
  list_reply = short-ReplyFits list_body list_of (λ m. refl) _;
  upstream = short-ReplyFits upstream_body upstream_of (λ m. refl) _;
  trigger_reply = short-ReplyFits (λ u. empty_body) empty_of (λ u. refl) _;
}

abbrev text_of : Status → String
text_of (internal e) = e
text_of (unknown e) = e

abbrev from_caller : {A : Type 0} → A → Request A
from_caller m = record { remote_addr = addr; message = m }

calls-routed_example :
    (ClientLib.network_type text_of (nullnet_grpc_client client codecs channel) world
      ≡ called text_of (service.network_type (from_caller tt) world))
    × (ClientLib.services_list text_of
          (nullnet_grpc_client client codecs channel)
          list_message
          world
        ≡ called text_of (service.services_list (from_caller list_message) world))
    × (ClientLib.control_channel text_of (nullnet_grpc_client client codecs channel) tt world
        ≡ called text_of (service.control_channel (from_caller tt) world))
    × (ClientLib.proxy text_of (nullnet_grpc_client client codecs channel) proxy_message world
        ≡ called text_of (service.proxy (from_caller proxy_message) world))
    × (ClientLib.backend_trigger text_of
          (nullnet_grpc_client client codecs channel)
          "web"
          5432
          world
        ≡ called text_of (service.backend_trigger (from_caller trigger_message) world))
calls-routed_example =
    calls-routed client server codecs channel addr service (transport channel) world text_of refl tt
      list_message proxy_message "web" 5432 all-IsSmall

-- A path that no method has is not implemented.
call_test :
    call server codecs
      (main_server server service)
      (record { path = "/nullnet_grpc.NullnetGrpc/Other"; remote_addr = addr; body = empty_body })
      world
    ≡ some (world, unimplemented_response server)
unfolding call
call_test = refl
