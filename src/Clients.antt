-- ===== src/Clients.antt =====
-- src/services/clients.rs: who is connected to a replica, and over which network. An `Instant` is a
-- number of nanoseconds, and an operation that reads the clock takes its reading `now`. The counter
-- `active_chains` is a `usize` that grows by one per chain set up, and is not bounded here.
use Prim.Native.String.{◌++◌}
use nullnet_grpc.Base.{
  ℕ, ◌+◌, ◌-◌, String, ◌≡◌, ◌↔◌, Bool, true, ◌&&◌, Option, none, some, arith, PartialEq, ◌==◌,
  string_eq, option_eq, pair_eq, eq_iff, option_beq_iff, IpAddr, Ipv4Addr, unspecified,
}
use nullnet_grpc.Base.HashMap.{HashMap, get, insert}
use mathlib.Core.Option

pub record Client : Type 0 where
  pub name : String
  pub proxy : Option IpAddr
  pub replica : Option (IpAddr × Option String)

abbrev pub client_beq : Client → Client → Bool
client_beq a b = a.name == b.name && (a.proxy == b.proxy && a.replica == b.replica)

pub client_beq_iff : (a b : Client) → (client_beq a b ≡ true) ↔ (a ≡ b)
client_beq_iff a b = (
  λ h. ground (
    arith,
    eq_iff a.name b.name,
    option_beq_iff a.proxy b.proxy,
    option_beq_iff a.replica b.replica,
  ),
  λ h. ground (
    arith,
    eq_iff a.name b.name,
    option_beq_iff a.proxy b.proxy,
    option_beq_iff a.replica b.replica,
  ),
)

-- The derived `PartialEq`.
instance abbrev pub client_eq : PartialEq Client
client_eq = record { beq = client_beq; beq_iff = client_beq_iff }

-- `Client::new`.
abbrev pub new_client : String → Option IpAddr → Client
new_client name proxy = record { name = name; proxy = proxy; replica = none }

-- `Client::new_service`.
abbrev pub new_service : String → IpAddr → Option String → Client
new_service name replica_ip replica_docker = record {
  name = name;
  proxy = none;
  replica = some (replica_ip, replica_docker);
}

abbrev pub is_proxy : Client → Option IpAddr
is_proxy c = c.proxy

abbrev pub replica_identity : Client → Option (IpAddr × Option String)
replica_identity c = c.replica

unfoldable pub display_name : Client → String
display_name c = elim c.proxy [ none ↦ c.name | some proxy ↦ c.name ++ " (via " ++ proxy ++ ")" ]

pub record ClientInfo : Type 0 where
  pub client_ip : IpAddr
  pub client_net : Ipv4Addr
  pub server_net : Ipv4Addr
  pub net_id : ℕ
  pub time_ms : ℕ
  pub active_chains : ℕ
  pub latest : ℕ
  pub docker_container : Option String

-- `ClientInfo::new`.
abbrev pub new_info : ℕ → IpAddr → Ipv4Addr → Ipv4Addr → ℕ → ℕ → Option String → ClientInfo
new_info now client_ip client_net server_net net_id time_ms docker_container = record {
  client_ip = client_ip;
  client_net = client_net;
  server_net = server_net;
  net_id = net_id;
  time_ms = time_ms;
  active_chains = 0;
  latest = now;
  docker_container = docker_container;
}

abbrev pub placeholder : ℕ → IpAddr → ClientInfo
placeholder now client_ip = record {
  client_ip = client_ip;
  client_net = unspecified;
  server_net = unspecified;
  net_id = 0;
  time_ms = 0;
  active_chains = 0;
  latest = now;
  docker_container = none;
}

abbrev pub set_latest_now : ℕ → ClientInfo → ClientInfo
set_latest_now now ci = record ci { latest = now }

abbrev pub add_active_chain : ℕ → ClientInfo → ClientInfo
add_active_chain now ci = set_latest_now now (record ci { active_chains = ci.active_chains + 1 })

-- `saturating_sub`.
abbrev pub remove_active_chains : ℕ → ClientInfo → ClientInfo
remove_active_chains num_chains ci = record ci { active_chains = ci.active_chains - num_chains }

pub record Clients : Type 0 where
  pub clients : HashMap Client ClientInfo

abbrev pub add_client : Client → ClientInfo → Clients → Clients
add_client client client_info cs = record { clients = insert client client_info cs.clients }

abbrev pub is_client_setup : Client → Clients → Option Ipv4Addr
is_client_setup client cs = Option.map (λ (ci : ClientInfo). ci.server_net) (get client cs.clients)
