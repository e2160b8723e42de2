-- ===== src/GrpcImpl/EdgeTask.antt =====
-- The task that `net_chain_setup` spawns for one edge, as a state machine: between two steps other
-- tasks and handlers may run, within one step the task holds the lock that the step needs, or waits
-- for the two nodes. What the clock, the random ids and the nodes answer comes with each step.
use nullnet_grpc.Base.{ℕ, String, Bool, Option, none, some, is_some, if◌then◌else◌, Ipv4Addr}
use nullnet_grpc.Proto.{Net}
use nullnet_grpc.Net.{IpNetworkCrate}
use nullnet_grpc.Orchestrator.{Reply, allocate_net_id, send_net_setup, send_net_teardown}
use nullnet_grpc.Clients.{Client, new_info, placeholder}
use nullnet_grpc.Edge.{RegisteredEdge}
use nullnet_grpc.ServiceInfo.{
  RegisteredServiceInfo, is_client_setup, is_client_on_replica, add_chain, add_client_to_replica,
  remove_client,
}
use nullnet_grpc.Changes.{World, get_registered, put_registered, update_registered}

pub record SuccessfulEdge : Type 0 where
  pub client : Client
  pub server_name : String
  pub proxy_upstream : Option Ipv4Addr

pub data EdgeOutcome : Type 0 where
  success : SuccessfulEdge → EdgeOutcome
  failed : EdgeOutcome

-- Where a task stands: not begun; with its slot reserved; with a network identifier; with the
-- answers of the server's and the client's node; with the identifier of a network to tear down
-- because the service is gone; with a slot to give back; done.
pub data EdgeTask : Type 0 where
  starting : RegisteredEdge → EdgeTask
  reserved : RegisteredEdge → EdgeTask
  numbered : RegisteredEdge → ℕ → EdgeTask
  answered : RegisteredEdge → ℕ → Option Ipv4Addr → Option Ipv4Addr → EdgeTask
  orphaned : RegisteredEdge → ℕ → EdgeTask
  releasing : RegisteredEdge → EdgeTask
  finished : EdgeOutcome → EdgeTask

-- What one step reads: the clock, the time since the task began, and for each end the id of the
-- setup message and what comes of it.
pub record Readings : Type 0 where
  pub now : ℕ
  pub time_ms : ℕ
  pub server_msg_id : String
  pub server_reply : Reply
  pub client_msg_id : String
  pub client_reply : Reply

abbrev pub server_name : RegisteredEdge → String
server_name e = e.server.1.name

abbrev pub already_setup : RegisteredEdge → RegisteredServiceInfo → Bool
already_setup e reg =
    if is_some e.client.1.proxy
    then is_some (is_client_setup e.client.1 reg)
    else is_client_on_replica e.client.1 e.server.0 e.server_docker reg

abbrev pub reuse_edge : RegisteredEdge → EdgeTask
reuse_edge e =
    finished
      (success (record { client = e.client.1; server_name = server_name e; proxy_upstream = none }))

abbrev pub with_services : World → RegisteredEdge → RegisteredServiceInfo → World
with_services w e reg = record w { services = put_registered (server_name e) reg w.services }

-- The first section under the write lock: count one chain more on an edge that is set up, or
-- reserve the slot.
unfoldable pub reserve : ℕ → RegisteredEdge → World → EdgeTask × World
reserve now e w = elim (get_registered (server_name e) w.services) [
  | none ↦ (finished failed, w)
  | some reg ↦
      if already_setup e reg
      then (reuse_edge e, with_services w e (add_chain now e.client.1 reg))
      else (
        reserved e,
        with_services w e (
            add_client_to_replica e.server.0 e.server_docker e.client.1 (placeholder now e.client.0)
              reg),
      )
]

module _ (net : Net) where
  unfoldable pub obtain_id : RegisteredEdge → World → EdgeTask × World
  obtain_id e w =
      let (o, id) = allocate_net_id net w.orchestrator in
      elim id [
        | none ↦ (releasing e, record w { orchestrator = o })
        | some net_id ↦ (numbered e net_id, record w { orchestrator = o })
      ]

  abbrev pub tear_down : RegisteredEdge → ℕ → World → World
  tear_down e net_id w = record w {
    orchestrator =
        send_net_teardown net e.client.0 e.client_docker e.server.0 e.server_docker net_id
          w.orchestrator;
  }

  abbrev pub set_up_edge : RegisteredEdge → Ipv4Addr → EdgeTask
  set_up_edge e net_ip_server = finished (
      success (record {
        client = e.client.1;
        server_name = server_name e;
        proxy_upstream = if is_some e.client.1.proxy then some net_ip_server else none;
      }))

  abbrev pub register_link :
      Readings
      → RegisteredEdge
      → ℕ
      → Ipv4Addr
      → Ipv4Addr
      → RegisteredServiceInfo
      → RegisteredServiceInfo
  register_link rd e net_id net_ip_server net_ip_client reg = add_chain rd.now e.client.1 (
      add_client_to_replica e.server.0 e.server_docker e.client.1
        (new_info rd.now e.client.0 net_ip_client net_ip_server net_id rd.time_ms e.client_docker)
        reg)

  -- Both answers are there: register the link under the write lock. An answer is missing: tear the
  -- network down.
  unfoldable pub commit :
      Readings → RegisteredEdge → ℕ → Option Ipv4Addr → Option Ipv4Addr → World → EdgeTask × World
  commit rd e net_id (some net_ip_server) (some net_ip_client) w =
      elim (get_registered (server_name e) w.services) [
        | none ↦ (orphaned e net_id, w)
        | some reg ↦ (
          set_up_edge e net_ip_server,
          with_services w e (register_link rd e net_id net_ip_server net_ip_client reg),
        )
      ]
  commit rd e net_id _ _ w = (releasing e, tear_down e net_id w)

-- `remove_client` of the placeholder, if the service is still registered.
abbrev pub release_slot : RegisteredEdge → World → World
release_slot e w = record w {
  services = update_registered (server_name e) (remove_client e.client.1) w.services;
}

module _ (crate : IpNetworkCrate) (net : Net) where
  -- The two setups, which the code joins, with their waits for an answer as one step.
  unfoldable pub exchange : Readings → RegisteredEdge → ℕ → World → EdgeTask × World
  exchange rd e net_id w =
      let dockers : Option String × Option String = (e.client_docker, e.server_docker) in
      let (o₁, server_ok) =
        send_net_setup crate net rd.server_msg_id rd.server_reply e.server.0 none net_id e.client.0
          dockers none w.orchestrator in
      let (o₂, client_ok) =
        send_net_setup crate net rd.client_msg_id rd.client_reply e.client.0 (some (server_name e))
          net_id e.server.0 dockers e.backend_entry_port o₁ in
      (answered e net_id server_ok client_ok, record w { orchestrator = o₂ })

  unfoldable pub step_task : Readings → EdgeTask → World → EdgeTask × World
  unfolding reserve obtain_id exchange commit
  step_task rd (starting e) w = reserve rd.now e w
  step_task rd (reserved e) w = obtain_id net e w
  step_task rd (numbered e net_id) w = exchange rd e net_id w
  step_task rd (answered e net_id server_ok client_ok) w =
      commit net rd e net_id server_ok client_ok w
  step_task rd (orphaned e net_id) w = (finished failed, tear_down net e net_id w)
  step_task rd (releasing e) w = (finished failed, release_slot e w)
  step_task rd (finished outcome) w = (finished outcome, w)
