-- ===== src/GrpcImpl/SetUp.antt =====
-- An edge whose two nodes acknowledge their setups (src/nullnet_grpc_impl.rs).

use nullnet_grpc.Base.{
  Option, Ipv4Addr, ℕ, ◌≡◌, refl, sym, ap, ◌∙◌, subst, false, none, some, is_some, any, find, inl,
  inr, Bool-cases, string_eq, List, [], ◌∷◌,
}
use nullnet_grpc.Proto.{Net}
use nullnet_grpc.NetIdPool.{allocate}
use nullnet_grpc.Net.{IpNetworkCrate}
use nullnet_grpc.Net.Sides.{IsLawful, server_address}
use nullnet_grpc.Orchestrator.{acknowledged, send_net_setup}
use nullnet_grpc.Orchestrator.Delivered.{IsUp, send_net_setup-delivered}
use nullnet_grpc.Clients.{client_eq, placeholder}
use nullnet_grpc.Edge.{RegisteredEdge}
use nullnet_grpc.ServiceInfo.{
  add_chain, Replica, RegisteredServiceInfo, matches_identity, has_client, is_client_setup,
  add_client_to_replica,
}
use nullnet_grpc.ServiceInfo.Upstreams.{
  upstream_of, absent-setup, absent-on_replica, add_client_twice-setup, add_chain-setup,
}
use nullnet_grpc.Changes.{World, as_registered, get_registered, put_registered}
use nullnet_grpc.Changes.Entry.{put_registered-same}
use nullnet_grpc.GrpcImpl.EdgeTask.{
  EdgeTask, starting, reserved, numbered, answered, Readings, server_name, already_setup, reserve,
  obtain_id, exchange, commit, step_task, register_link, set_up_edge,
}
use nullnet_grpc.GrpcImpl.Rollback.{pool_of, exchange-pool}

-- A task's turns, one after the other.
unfoldable pub turns_of : IpNetworkCrate → Net → List Readings → EdgeTask × World → EdgeTask × World
turns_of crate net [] s = s
turns_of crate net (rd ∷ rds) (t, w) = turns_of crate net rds (step_task crate net rd t w)

-- What an edge finds when its task begins: the server's service with the picked replica, on which no
-- client entry of it is, and both nodes with an open channel.
pub record Ready (e : RegisteredEdge) (reg : RegisteredServiceInfo) (r : Replica) (w : World)
    : Type 0 where
  pub is_registered : get_registered (server_name e) w.services ≡ some reg
  pub is_free : any (has_client e.client.1) reg.replicas ≡ false
  pub is_picked : find (matches_identity e.server.0 e.server_docker) reg.replicas ≡ some r
  pub server_up : IsUp e.server.0 w.orchestrator
  pub client_up : IsUp e.client.0 w.orchestrator

-- What a task that succeeded leaves, with the address of its network's server end.
pub record IsSetUp (net : Net) (e : RegisteredEdge) (reg : RegisteredServiceInfo) (r : Replica)
    (id : ℕ) (before : World) (s : EdgeTask × World) : Type 0 where
  pub succeeded : s.0 ≡ set_up_edge net e (server_address net id e.server_docker)
  pub reg' : RegisteredServiceInfo
  pub is_registered : get_registered (server_name e) s.1.services ≡ some reg'
  pub same_timeout : reg'.timeout ≡ reg.timeout
  pub is_setup :
      is_client_setup e.client.1 reg' ≡ some (upstream_of (server_address net id e.server_docker) r)
  pub is_taken : pool_of s.1 ≡ (allocate net (pool_of before)).0

-- Four turns of a task, which reserves the slot, takes the identifier, has both answers, and ends.
pub record Walk (crate : IpNetworkCrate) (net : Net) (rd₁ rd₂ rd₃ rd₄ : Readings)
    (e : RegisteredEdge) (id : ℕ) (before : World) (s : EdgeTask × World) : Type 0 where
  pub w₁ : World
  pub w₂ : World
  pub w₃ : World
  pub to_server : Option Ipv4Addr
  pub to_client : Option Ipv4Addr
  pub reserves : step_task crate net rd₁ (starting e) before ≡ (reserved e, w₁)
  pub numbers : step_task crate net rd₂ (reserved e) w₁ ≡ (numbered e id, w₂)
  pub answers : step_task crate net rd₃ (numbered e id) w₂ ≡ (answered e id to_server to_client, w₃)
  pub commits : step_task crate net rd₄ (answered e id to_server to_client) w₃ ≡ s

free-already_setup :
    (e : RegisteredEdge) (reg : RegisteredServiceInfo)
    → any (has_client e.client.1) reg.replicas ≡ false
    → already_setup e reg ≡ false
free-already_setup e reg h = elim (Bool-cases (is_some e.client.1.proxy)) [
  | inl via ↦ rw (via, absent-setup e.client.1 reg h) refl
  | inr direct ↦ rw (direct, absent-on_replica e.client.1 e.server.0 e.server_docker reg h) refl
]

-- The world with the slot of the edge reserved.
abbrev pub with_slot : ℕ → RegisteredEdge → RegisteredServiceInfo → World → World
with_slot now e reg w = record w {
  services =
      put_registered (server_name e)
        (add_client_to_replica e.server.0 e.server_docker e.client.1 (placeholder now e.client.0)
          reg)
        w.services;
}

pub reserve-free :
    (now : ℕ) (e : RegisteredEdge) (reg : RegisteredServiceInfo) (w : World)
    → get_registered (server_name e) w.services ≡ some reg
    → any (has_client e.client.1) reg.replicas ≡ false
    → reserve now e w ≡ (reserved e, with_slot now e reg w)
unfolding reserve
reserve-free now e reg w found free = rw (found, reserve) (rw (free-already_setup e reg free) refl)

module _ (net : Net) where
  obtain_id-given :
      (e : RegisteredEdge) (w : World) (id : ℕ)
      → (allocate net (pool_of w)).1 ≡ some id
      → obtain_id net e w ≡ (
        numbered e id,
        record w {
          orchestrator = record w.orchestrator { net_id_pool = (allocate net (pool_of w)).0 };
        },
      )
  unfolding obtain_id
  obtain_id-given e w id got = rw (got, obtain_id) refl

  link_timeout :
      (now : ℕ) (rd : Readings) (e : RegisteredEdge) (id : ℕ) (a : Ipv4Addr)
      (reg : RegisteredServiceInfo)
      → (register_link net rd e id a a (
          add_client_to_replica e.server.0 e.server_docker e.client.1
            (placeholder now e.client.0)
            reg)).timeout
        ≡ reg.timeout
  unfolding add_client_to_replica add_chain
  link_timeout now rd e id a reg = refl

turns-Walk :
    (crate : IpNetworkCrate) (net : Net) (rd₁ rd₂ rd₃ rd₄ : Readings) (e : RegisteredEdge) (id : ℕ)
    (w : World) (s : EdgeTask × World)
    → Walk crate net rd₁ rd₂ rd₃ rd₄ e id w s
    → turns_of crate net (rd₁ ∷ rd₂ ∷ rd₃ ∷ rd₄ ∷ []) (starting e, w) ≡ s
unfolding turns_of
turns-Walk crate net rd₁ rd₂ rd₃ rd₄ e id w s walk =
    ap (turns_of crate net (rd₂ ∷ rd₃ ∷ rd₄ ∷ [])) walk.reserves
    ∙ (ap (turns_of crate net (rd₃ ∷ rd₄ ∷ [])) walk.numbers
        ∙ (ap (turns_of crate net (rd₄ ∷ [])) walk.answers ∙ walk.commits))

module _ (crate : IpNetworkCrate) (lawful : IsLawful crate) (net : Net) where
  -- Both setups are acknowledged: both answers are the server's address.
  exchange-answered :
      (rd : Readings) (e : RegisteredEdge) (id : ℕ) (w : World)
      → rd.server_reply ≡ acknowledged
      → rd.client_reply ≡ acknowledged
      → IsUp e.server.0 w.orchestrator
      → IsUp e.client.0 w.orchestrator
      → exchange crate net rd e id w ≡ (
        answered e id
            (some (server_address net id e.server_docker))
            (some (server_address net id e.server_docker)),
        record w { orchestrator = (exchange crate net rd e id w).1.orchestrator },
      )
  unfolding exchange
  exchange-answered rd e id w server_ack client_ack server_up client_up =
      let (server_ok, still_up) =
        send_net_setup-delivered crate lawful net rd.server_msg_id e.server.0 none id e.client.0
          e.client_docker e.server_docker none w.orchestrator server_up in
      let o =
        (send_net_setup crate net rd.server_msg_id acknowledged e.server.0 none id e.client.0
          (e.client_docker, e.server_docker) none w.orchestrator).0 in
      let (client_ok, after) =
        send_net_setup-delivered crate lawful net rd.client_msg_id e.client.0 (some (server_name e))
          id e.server.0 e.client_docker e.server_docker e.backend_entry_port o
          (still_up e.client.0 client_up) in
      rw (server_ack, client_ack, server_ok, client_ok) refl

  module _ (rd₁ rd₂ rd₃ rd₄ : Readings) (e : RegisteredEdge) (reg : RegisteredServiceInfo)
      (r : Replica) (id : ℕ) (w : World) (ready : Ready e reg r w)
      (got : (allocate net (pool_of w)).1 ≡ some id) (server_ack : rd₃.server_reply ≡ acknowledged)
      (client_ack : rd₃.client_reply ≡ acknowledged) where
    pub setup-Walk :
        (s : EdgeTask × World) × Walk crate net rd₁ rd₂ rd₃ rd₄ e id w s
        × IsSetUp net e reg r id w s
    unfolding step_task commit
    setup-Walk =
        let slot = with_slot rd₁.now e reg w in
        let numbered_world : World = record slot {
          orchestrator = record w.orchestrator { net_id_pool = (allocate net (pool_of w)).0 };
        } in
        let a = server_address net id e.server_docker in
        let reg₁ =
          add_client_to_replica e.server.0 e.server_docker e.client.1
            (placeholder rd₁.now e.client.0) reg in
        let reg' = register_link net rd₄ e id a a reg₁ in
        let there : get_registered (server_name e) slot.services ≡ some reg₁ =
          ap as_registered
            (put_registered-same (server_name e) reg reg₁ w.services ready.is_registered) in
        let answered_world : World = record numbered_world {
          orchestrator = (exchange crate net rd₃ e id numbered_world).1.orchestrator;
        } in
        (
          (
            set_up_edge net e a,
            record answered_world { services = put_registered (server_name e) reg' slot.services },
          ),
          record {
            w₁ = slot;
            w₂ = numbered_world;
            w₃ = answered_world;
            to_server = some a;
            to_client = some a;
            reserves = reserve-free rd₁.now e reg w ready.is_registered ready.is_free;
            numbers = obtain_id-given net e slot id got;
            answers =
                exchange-answered rd₃ e id numbered_world server_ack client_ack ready.server_up
                  ready.client_up;
            commits = rw (there, commit) refl;
          },
          record {
            succeeded = refl;
            reg' = reg';
            is_registered =
                ap as_registered
                  (put_registered-same (server_name e) reg₁ reg' slot.services there);
            same_timeout = link_timeout net rd₁.now rd₄ e id a reg;
            is_setup =
                add_chain-setup rd₄.now e.client.1 _
                ∙ add_client_twice-setup e.client.1 e.server.0 e.server_docker reg r ready.is_free
                    ready.is_picked (placeholder rd₁.now e.client.0) _;
            is_taken = exchange-pool crate net rd₃ e id numbered_world;
          },
        )

    -- A task whose edge is ready is done after four turns if the pool has an identifier and both
    -- nodes acknowledge: the client is set up on the picked replica with the address of the new
    -- network's server end, the timeout of the service is the same, and the pool has given the
    -- network's identifier.
    pub setup_turns-IsSetUp :
        IsSetUp net e reg r id w (turns_of crate net (rd₁ ∷ rd₂ ∷ rd₃ ∷ rd₄ ∷ []) (starting e, w))
    setup_turns-IsSetUp =
        let (s, walk, done) = setup-Walk in
        subst (IsSetUp net e reg r id w) (sym (turns-Walk crate net rd₁ rd₂ rd₃ rd₄ e id w s walk))
          done
