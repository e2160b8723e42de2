-- ===== src/ServiceInfo/Queries.antt =====
-- What `RegisteredServiceInfo` answers about its replicas and their clients.
use nullnet_grpc.Base.{
  ℕ, ◌-◌, ◌*◌, String, Bool, not, ◌&&◌, Option, none, some, List, map, ◌==◌, string_eq, option_eq,
  nat_eq, ipv4_eq, any, retain, find, min_by_key, filter_map, flat_map, find_map, is_some, length,
  leb, if◌then◌else◌, IpAddr, Ipv4Addr, unspecified, ipv4_to_string,
}
use nullnet_grpc.Base.HashMap.{contains_key, keys, values}
use nullnet_grpc.Base.Results.{◌>>=◌}
use mathlib.Core.Option
use nullnet_grpc.Proto.{Upstream}
use nullnet_grpc.Clients.{Client, ClientInfo, client_eq, is_client_setup as set_up_in}
use nullnet_grpc.ServiceInfo.Defs.{Replica, RegisteredServiceInfo, matches_identity}

abbrev pub has_client : Client → Replica → Bool
has_client client r = contains_key client r.clients.clients

-- The server replica of a client entry.
unfoldable pub client_replica : Client → RegisteredServiceInfo → Option (IpAddr × Option String)
client_replica client reg =
    Option.map (λ (r : Replica). (r.ip, r.docker_container)) (find (has_client client) reg.replicas)

abbrev pub client_keys : Replica → List Client
client_keys r = keys r.clients.clients

unfoldable pub proxy_clients_count : RegisteredServiceInfo → ℕ
proxy_clients_count reg =
    length (retain (λ (c : Client). is_some c.proxy) (flat_map client_keys reg.replicas))

-- A network that a new client of the proxy can share, with the replica that it leads to.
abbrev pub reusable : IpAddr → Replica → Client × ClientInfo → Option (ClientInfo × Replica)
reusable proxy_ip r (c, ci) =
    if c.proxy == some proxy_ip && not (ci.server_net == unspecified) then some (ci, r) else none

unfoldable pub find_reusable_network_on_proxy :
    IpAddr
    → RegisteredServiceInfo
    → Option (Upstream × Ipv4Addr × Ipv4Addr × ℕ × IpAddr × Option String)
find_reusable_network_on_proxy proxy_ip reg = do
  (ci, r) ←
      min_by_key (λ (e : ClientInfo × Replica). e.0.active_chains)
        (flat_map (λ (r : Replica). filter_map (reusable proxy_ip r) r.clients.clients)
          reg.replicas)
  some (
    record { ip = ipv4_to_string ci.server_net; port = r.port },
    ci.client_net,
    ci.server_net,
    ci.net_id,
    r.ip,
    r.docker_container,
  )

unfoldable pub has_clients_with_net_id : ℕ → RegisteredServiceInfo → Bool
has_clients_with_net_id net_id reg =
    any (λ (r : Replica). any (λ (ci : ClientInfo). ci.net_id == net_id) (values r.clients.clients))
      reg.replicas

unfoldable pub pick_replica_least_clients : RegisteredServiceInfo → Option Replica
pick_replica_least_clients reg = min_by_key (λ (r : Replica). length r.clients.clients) reg.replicas

abbrev pub upstream_on : Client → Replica → Option Upstream
upstream_on client r =
    Option.map (λ server_net. record { ip = ipv4_to_string server_net; port = r.port })
      (set_up_in client r.clients)

-- Whether, and where, any replica has the client.
unfoldable pub is_client_setup : Client → RegisteredServiceInfo → Option Upstream
is_client_setup client reg = find_map (upstream_on client) reg.replicas

unfoldable pub is_client_on_replica : Client → IpAddr → Option String → RegisteredServiceInfo → Bool
is_client_on_replica client ip docker reg =
    any (λ (r : Replica). is_some (set_up_in client r.clients))
      (retain (matches_identity ip docker) reg.replicas)

-- `Duration::from_secs`, in nanoseconds.
abbrev pub from_secs : ℕ → ℕ
from_secs s = s * 1_000_000_000

-- `now.duration_since(latest)` is 0 where the clock reads earlier.
unfoldable pub expired_proxy_clients : ℕ → ℕ → RegisteredServiceInfo → List Client
expired_proxy_clients now timeout reg =
    flat_map
      (λ (r : Replica).
        map (λ (e : Client × ClientInfo). e.0)
          (retain (λ (e : Client × ClientInfo). is_some e.0.proxy && leb timeout (now - e.1.latest))
            r.clients.clients))
      reg.replicas

abbrev pub minimum : List ℕ → Option ℕ
minimum = min_by_key (λ n. n)

unfoldable pub nearest_proxy_expiry : ℕ → ℕ → RegisteredServiceInfo → Option ℕ
nearest_proxy_expiry now timeout reg = minimum (
    flat_map
      (λ (r : Replica).
        map (λ (e : Client × ClientInfo). timeout - (now - e.1.latest))
          (retain (λ (e : Client × ClientInfo). is_some e.0.proxy) r.clients.clients))
      reg.replicas)

unfoldable pub service_clients_on_ip : IpAddr → RegisteredServiceInfo → List Client
service_clients_on_ip ip reg =
    retain (λ (c : Client). not (is_some c.proxy))
      (flat_map client_keys (retain (λ (r : Replica). r.ip == ip) reg.replicas))

unfoldable pub service_clients_on_replica :
    IpAddr → Option String → RegisteredServiceInfo → List Client
service_clients_on_replica ip docker_container reg =
    retain (λ (c : Client). not (is_some c.proxy))
      (flat_map client_keys (retain (matches_identity ip docker_container) reg.replicas))

unfoldable pub has_replica_on_ip : IpAddr → RegisteredServiceInfo → Bool
has_replica_on_ip ip reg = any (λ (r : Replica). r.ip == ip) reg.replicas

-- Every client entry with its replica's identity, as `all_clients_owned` collects them.
pub record OwnedClient : Type 0 where
  pub client : Client
  pub info : ClientInfo
  pub replica_ip : IpAddr
  pub replica_docker : Option String

abbrev pub owned_on : Replica → List OwnedClient
owned_on r =
    map
      (λ (e : Client × ClientInfo). record {
        client = e.0;
        info = e.1;
        replica_ip = r.ip;
        replica_docker = r.docker_container;
      })
      r.clients.clients

unfoldable pub all_clients_owned : RegisteredServiceInfo → List OwnedClient
all_clients_owned reg = flat_map owned_on reg.replicas
