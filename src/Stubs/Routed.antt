-- ===== src/Stubs/Routed.antt =====
-- The calls of the client library at the server (nullnet-grpc-lib/src/lib.rs, and both stubs).
use nullnet_grpc.Base.{ℕ, ◌≡◌, ◌*◌, refl, ap, ◌∙◌, String, Option, some, string_eq, IpAddr}
use nullnet_grpc.Base.Results.{ok}
use nullnet_grpc.Proto.{Services, ProxyRequest}
use nullnet_grpc.GrpcImpl.{Request, Rpc, Status}
use nullnet_grpc.ClientLib
use nullnet_grpc.ClientLib.{NullnetGrpcClient, called}
use nullnet_grpc.Stubs.{Codec, Codecs, Outgoing, HttpRequest, TonicClient, TonicServer}
use nullnet_grpc.Stubs.Client.{
  when_ready, network_type, services_list, control_channel, proxy, backend_trigger,
  nullnet_grpc_client,
}
use nullnet_grpc.Stubs.Server.{NullnetGrpc, NullnetGrpcServer, configured, call, main_server}
use nullnet_grpc.Stubs.Transport.{Fits, ReplyFits, received, IsTransport, IsSmall}

module _ {W B S E : Type 0} (server : TonicServer W B S E) (codecs : Codecs B)
    (s : NullnetGrpcServer W S E) (req : HttpRequest B) (w : W) where
  call-network_type :
      req.path ≡ "/nullnet_grpc.NullnetGrpc/NetworkType"
      → call server codecs s req w
        ≡ server.unary codecs.empty codecs.net_type (configured server s) s.inner.network_type req w
  unfolding call
  call-network_type h = rw h refl

  call-services_list :
      req.path ≡ "/nullnet_grpc.NullnetGrpc/ServicesList"
      → call server codecs s req w
        ≡ server.unary codecs.services codecs.services_list_response
            (configured server s)
            s.inner.services_list
            req
            w
  unfolding call
  call-services_list h = rw h refl

  call-control_channel :
      req.path ≡ "/nullnet_grpc.NullnetGrpc/ControlChannel"
      → call server codecs s req w
        ≡ server.streaming (configured server s) s.inner.control_channel req w
  unfolding call
  call-control_channel h = rw h refl

  call-proxy :
      req.path ≡ "/nullnet_grpc.NullnetGrpc/Proxy"
      → call server codecs s req w
        ≡ server.unary codecs.proxy_request codecs.upstream
            (configured server s)
            s.inner.proxy
            req
            w
  unfolding call
  call-proxy h = rw h refl

  call-backend_trigger :
      req.path ≡ "/nullnet_grpc.NullnetGrpc/BackendTrigger"
      → call server codecs s req w
        ≡ server.unary codecs.backend_trigger_request codecs.empty
            (configured server s)
            s.inner.backend_trigger
            req
            w
  unfolding call
  call-backend_trigger h = rw h refl

module _ {T W B S E : Type 0} (client : TonicClient T W B S) (server : TonicServer W B S E)
    (codecs : Codecs B) (inner : T) (addr : Option IpAddr) (service : NullnetGrpc W S)
    (t : IsTransport client server inner addr (call server codecs (main_server server service)))
    (w : W) where
  -- A unary call that the dispatch takes to a method is answered by that method.
  carried :
      {A C : Type 0} (a : Codec B A) (c : Codec B C) (f : Request A → W → Option (W × Rpc C))
      (o : Outgoing A) (path : String)
      → ((req : HttpRequest B)
          → req.path ≡ path
          → call server codecs (main_server server service) req w
            ≡ server.unary a c (configured server (main_server server service)) f req w)
      → Fits a (some (50 * 1024 * 1024)) o.message
      → ReplyFits c (f (received addr o.message) w)
      → client.unary a c inner o path w ≡ f (received addr o.message) w
  unfolding main_server
  carried a c f o path dispatch fits small =
      t.sends a c o path w
      ∙ (ap (t.read c) (dispatch (t.http a o path) (t.http_path a o path))
          ∙ t.runs a c _ f o path w refl fits small)

  carried_stream :
      (o : Outgoing S)
      → client.streaming inner o "/nullnet_grpc.NullnetGrpc/ControlChannel" w
        ≡ service.control_channel (received addr o.message) w
  unfolding main_server
  carried_stream o =
      t.sends_stream o _ w
      ∙ (ap t.read_stream (
            call-control_channel server codecs (main_server server service) (t.http_stream o _) w
              (t.http_stream_path o _))
          ∙ t.runs_stream _ service.control_channel o _ w)

  module _ (to_string : Status → String) (ready : client.ready inner w ≡ ok tt) where
    abbrev stub : NullnetGrpcClient W S
    stub = nullnet_grpc_client client codecs inner

    -- Over a ready channel that tonic serves with the server of main, each call of the client library
    -- whose messages fit is answered by the method of the service that has its name, run on the
    -- message and the caller's address.
    pub calls-routed :
        (stream : S) (listed : Services) (proxied : ProxyRequest) (name : String) (trigger_port : ℕ)
        → IsSmall codecs service addr w listed proxied
            (record { service_name = name; port = trigger_port })
        → (ClientLib.network_type to_string stub w
            ≡ called to_string (service.network_type (received addr tt) w))
          × (ClientLib.services_list to_string stub listed w
              ≡ called to_string (service.services_list (received addr listed) w))
          × (ClientLib.control_channel to_string stub stream w
              ≡ called to_string (service.control_channel (received addr stream) w))
          × (ClientLib.proxy to_string stub proxied w
              ≡ called to_string (service.proxy (received addr proxied) w))
          × (ClientLib.backend_trigger to_string stub name trigger_port w
              ≡ called to_string (
                  service.backend_trigger
                    (received addr (record { service_name = name; port = trigger_port }))
                    w))
    unfolding network_type services_list control_channel proxy backend_trigger main_server
    calls-routed stream listed proxied name trigger_port small =
        let s = main_server server service in
        (
          rw (ready, when_ready)
              (ap (called to_string) (
                carried codecs.empty codecs.net_type service.network_type _ _
                  (λ req. call-network_type server codecs s req w) small.empty small.net_type)),
          rw (ready, when_ready)
              (ap (called to_string) (
                carried codecs.services codecs.services_list_response service.services_list _ _
                  (λ req. call-services_list server codecs s req w) small.listed_fits
                  small.list_reply)),
          rw (ready, when_ready) (ap (called to_string) (carried_stream _)),
          rw (ready, when_ready)
              (ap (called to_string) (
                carried codecs.proxy_request codecs.upstream service.proxy _ _
                  (λ req. call-proxy server codecs s req w) small.proxied_fits small.upstream)),
          rw (ready, when_ready)
              (ap (called to_string) (
                carried codecs.backend_trigger_request codecs.empty service.backend_trigger _ _
                  (λ req. call-backend_trigger server codecs s req w) small.triggered_fits
                  small.trigger_reply)),
        )
