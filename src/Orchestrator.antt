-- ===== src/Orchestrator.antt =====
-- src/orchestrator.rs: the control channels, the setups that wait for an acknowledgement, and the
-- pool of network identifiers. The outgoing end of a channel is the messages sent into it and
-- whether its receiver still lives; it takes a message at once, while a send into the code's channel
-- of 64 messages waits for room. A random message id and what comes of the wait for an
-- acknowledgement are arguments.
pub mod Laws
pub mod Delivered
use nullnet_grpc.Base.{
  ℕ, String, Bool, true, false, Option, none, some, List, [], ◌∷◌, ◌++◌, if◌then◌else◌, string_eq,
  IpAddr, Ipv4Addr,
}
use nullnet_grpc.Base.HashMap.{HashMap, get, insert, remove, modify}
use nullnet_grpc.Proto.{Net, NetMessage}
use nullnet_grpc.NetIdPool
use nullnet_grpc.NetIdPool.{NetIdPool}
use nullnet_grpc.Net.{IpNetworkCrate, setup, teardown}

pub record OutboundStream : Type 0 where
  pub is_open : Bool
  pub messages : List NetMessage

pub record Orchestrator : Type 0 where
  pub clients : HashMap IpAddr OutboundStream
  pub pending : HashMap String (Unit {0})
  pub net_id_pool : NetIdPool

unfoldable pub new : Orchestrator
new = record { clients = []; pending = []; net_id_pool = NetIdPool.new }

-- The first part of `add_client`: a new channel replaces an older one of the same node.
abbrev pub add_client : IpAddr → OutboundStream → Orchestrator → Orchestrator
add_client client_ip outbound o = record o { clients = insert client_ip outbound o.clients }

-- One message of the loop that `add_client` spawns: the setup with that id waits no longer.
abbrev pub acknowledge : String → Orchestrator → Orchestrator
acknowledge msg_id o = record o { pending = remove msg_id o.pending }

abbrev pub remove_client : IpAddr → Orchestrator → Orchestrator
remove_client ip o = record o { clients = remove ip o.clients }

abbrev pub push_message : NetMessage → OutboundStream → OutboundStream
push_message m s = record s { messages = s.messages ++ m ∷ [] }

-- `outbound.send(Ok(message))` on the channel of `dest`; `false` if the receiver is gone.
abbrev pub send : IpAddr → OutboundStream → NetMessage → Orchestrator → Orchestrator × Bool
send dest outbound m o =
    if outbound.is_open
    then (record o { clients = modify dest (push_message m) o.clients }, true)
    else (o, false)

-- What comes of `timeout(30 s, rx)`: the acknowledgement, a dropped sender, or the end of the time.
pub data Reply : Type 0 where
  acknowledged dropped timed_out : Reply

-- A wait ends after the sender has left `pending`, or takes it out.
abbrev pub await_reply : String → Reply → Ipv4Addr → Orchestrator → Orchestrator × Option Ipv4Addr
await_reply msg_id acknowledged server_net o = (acknowledge msg_id o, some server_net)
await_reply msg_id dropped server_net o = (acknowledge msg_id o, none)
await_reply msg_id timed_out server_net o = (record o { pending = remove msg_id o.pending }, none)

abbrev pub after_send :
    String → Reply → Ipv4Addr → Orchestrator × Bool → Orchestrator × Option Ipv4Addr
after_send msg_id reply server_net (o, true) = await_reply msg_id reply server_net o
after_send msg_id reply server_net (o, false) =
    (record o { pending = remove msg_id o.pending }, none)

module _ (crate : IpNetworkCrate) (net : Net) where
  unfoldable pub send_net_setup :
      String
      → Reply
      → IpAddr
      → Option String
      → ℕ
      → IpAddr
      → Option String × Option String
      → Option ℕ
      → Orchestrator
      → Orchestrator × Option Ipv4Addr
  send_net_setup msg_id reply dest remote_server_name net_id remote dockers dnat_port o =
      elim (get dest o.clients) [
        | none ↦ (o, none)
        | some outbound ↦
            let o' = record o { pending = insert msg_id tt o.pending } in
            let made =
              setup crate net msg_id dest remote_server_name net_id remote dockers dnat_port in
            elim made [
              | none ↦ (o', none)
              | some (server_net, message) ↦
                  after_send msg_id reply server_net (send dest outbound message o')
            ]
      ]

module _ (net : Net) where
  abbrev pub allocate_net_id : Orchestrator → Orchestrator × Option ℕ
  allocate_net_id o =
      let (pool, id) = NetIdPool.allocate net o.net_id_pool in (record o { net_id_pool = pool }, id)

  -- One side of a teardown: a node with no channel is passed over, and a failed send is ignored.
  unfoldable pub teardown_side : IpAddr → String → Option String → ℕ → Orchestrator → Orchestrator
  teardown_side dest side docker net_id o = elim (get dest o.clients) [
    | none ↦ o
    | some outbound ↦ (send dest outbound (teardown net net_id side docker) o).0
  ]

  unfoldable pub send_net_teardown :
      IpAddr → Option String → IpAddr → Option String → ℕ → Orchestrator → Orchestrator
  unfolding teardown_side
  send_net_teardown client client_docker server server_docker net_id o =
      let o' =
        teardown_side server "s" server_docker net_id
          (teardown_side client "c" client_docker net_id o) in
      record o' { net_id_pool = NetIdPool.free net net_id o'.net_id_pool }
