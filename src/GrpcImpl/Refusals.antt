-- ===== src/GrpcImpl/Refusals.antt =====
-- The requests that the service refuses (src/nullnet_grpc_impl.rs).
use nullnet_grpc.Base.{
  ℕ, ◌≡◌, refl, String, Option, none, some, List, inl, inr, ◌⊎◌, ◌^◌, ◌≤◌, Bool-cases, Option-cases,
  is_some, ltb, IpAddr, arith, string_eq,
}
use nullnet_grpc.Base.HashMap.{get}
use nullnet_grpc.Proto.{Net, ProxyRequest, BackendTriggerRequest}
use nullnet_grpc.Net.{IpNetworkCrate}
use nullnet_grpc.Clients.{Client, new_client}
use nullnet_grpc.ServiceInfo.{ServiceInfo, unregistered, registered, ServiceMap}
use nullnet_grpc.Changes.{World}
use nullnet_grpc.GrpcImpl.EdgeTask.{Readings}
use nullnet_grpc.GrpcImpl.{
  decide_proxy, decide_service, perform_proxy, handle_proxy_request, decide_trigger,
  decide_initiator, perform_trigger, handle_backend_trigger, backend_trigger, Request, status,
  internal, Rpc, reject, refuse, proxy_impl, proxy_method, backend_trigger_method,
}

-- The service is not there, or not registered, or has no timeout and is thus no entry point.
abbrev pub NotServed : Option ServiceInfo → Type 0
NotServed none = Unit {0}
NotServed (some (unregistered unreg)) = Unit {0}
NotServed (some (registered reg)) = reg.timeout ≡ none

-- The caller learns that the request failed, and the world is what it was.
abbrev pub IsRefused : {A : Type 0} → World → Option (World × Rpc A) → Type 0
IsRefused w m = (e : String) × (m ≡ some (w, status (internal e)))

decide_service-rejects :
    (proxy_ip : IpAddr) (client : Client) (si : Option ServiceInfo)
    → NotServed si
    → (e : String) × (decide_service proxy_ip client si ≡ reject e)
decide_service-rejects proxy_ip client none h = ("Service not found", refl)
decide_service-rejects proxy_ip client (some (unregistered unreg)) h =
    elim (Bool-cases (is_some unreg.timeout)) [
      | inl entry ↦ rw (entry, decide_service) ("Service is not registered", refl)
      | inr inner ↦ rw (inner, decide_service) ("Service is not a configured entry point", refl)
    ]
decide_service-rejects proxy_ip client (some (registered reg)) h =
    rw (h, decide_service) ("Service is not a configured entry point", refl)

decide_initiator-refuses :
    (name : String) (port : ℕ) (ip : IpAddr) (services : ServiceMap) (si : Option ServiceInfo)
    → NotServed si
    → (e : String) × (decide_initiator name port ip services si ≡ refuse e)
decide_initiator-refuses name port ip services none h = ("Initiator service not found", refl)
decide_initiator-refuses name port ip services (some (unregistered unreg)) h =
    elim (Bool-cases (is_some unreg.timeout)) [
      | inl entry ↦ rw (entry, decide_initiator) ("Initiator service is not registered", refl)
      | inr inner ↦
          rw (inner, decide_initiator) ("Initiator service is not a configured entry point", refl)
    ]
decide_initiator-refuses name port ip services (some (registered reg)) h =
    rw (h, decide_initiator) ("Initiator service is not a configured entry point", refl)

module _ (crate : IpNetworkCrate) (net : Net) (sched : List (ℕ × Readings)) (w : World) where
  -- A proxy request is answered with a status, and changes nothing, if the caller's address is not
  -- known, or the client's address does not parse, or the service is absent, not registered, or no
  -- entry point.
  pub proxy_method-IsRefused :
      (parse : String → Option IpAddr) (fuel now : ℕ) (request : Request ProxyRequest)
      → (request.remote_addr ≡ none)
        ⊎ (parse request.message.client_ip ≡ none)
        ⊎ NotServed (get request.message.service_name w.services)
      → IsRefused w (proxy_method parse crate net fuel now sched request w)
  unfolding proxy_method proxy_impl handle_proxy_request decide_proxy perform_proxy
  proxy_method-IsRefused parse fuel now request h = elim (Option-cases request.remote_addr) [
    | inl nowhere ↦ rw (nowhere, proxy_impl) (_, refl)
    | inr (proxy_ip, from) ↦ elim (Option-cases (parse request.message.client_ip)) [
      | inl bad ↦ rw (from, bad, proxy_impl) (_, refl)
      | inr (client_ip, parsed) ↦ elim h [
        | inl nowhere ↦ cc
        | inr (inl bad) ↦ cc
        | inr (inr not_served) ↦
            let (e, rejects) =
              decide_service-rejects proxy_ip (new_client client_ip (some proxy_ip)) _ not_served in
            rw (from, parsed, rejects, proxy_impl) (e, refl)
      ]
    ]
  ]

  -- A backend trigger is answered with a status, and changes nothing, if the caller's address is not
  -- known, or the port does not fit into 16 bits, or the service is absent, not registered, or no
  -- entry point.
  pub backend_trigger_method-IsRefused :
      (request : Request BackendTriggerRequest)
      → (request.remote_addr ≡ none)
        ⊎ (2 ^ 16 ≤ request.message.port)
        ⊎ NotServed (get request.message.service_name w.services)
      → IsRefused w (backend_trigger_method crate net sched request w)
  unfolding backend_trigger_method backend_trigger handle_backend_trigger decide_trigger
      perform_trigger
  backend_trigger_method-IsRefused request h = elim (Option-cases request.remote_addr) [
    | inl nowhere ↦ rw (nowhere, backend_trigger_method) (_, refl)
    | inr (ip, from) ↦ elim (Bool-cases (ltb request.message.port (2 ^ 16))) [
      | inr large ↦ rw (from, large, backend_trigger_method) (_, refl)
      | inl fits ↦ elim h [
        | inl nowhere ↦ cc
        | inr (inl large) ↦ absurd (ground (arith, large, fits))
        | inr (inr not_served) ↦
            let (e, refuses) =
              decide_initiator-refuses request.message.service_name request.message.port ip
                w.services _ not_served in
            rw (from, fits, refuses, backend_trigger_method) (e, refl)
      ]
    ]
  ]
