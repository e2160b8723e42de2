-- ===== src/Proto.antt =====
-- proto/nullnet_grpc.proto and src/proto/nullnet_grpc.rs: the messages of the service. A field that
-- the wire format may leave out is an `Option`.
use nullnet_grpc.Base.{ℕ, String, Option, none, some, List, ◌==◌, string_eq, if◌then◌else◌}

pub data Net : Type 0 where
  vxlan vlan : Net

-- The number of a `Net` on the wire.
pub record NetType : Type 0 where
  pub net : ℕ

-- `Net::as_str_name` and `Net::from_str_name`.
abbrev pub as_str_name : Net → String
as_str_name vxlan = "VXLAN"
as_str_name vlan = "VLAN"

abbrev pub from_str_name : String → Option Net
from_str_name value =
    if value == "VXLAN" then some vxlan else if value == "VLAN" then some vlan else none

pub record MsgId : Type 0 where
  pub id : String

pub record HostMapping : Type 0 where
  pub ip : String
  pub name : String

pub record VlanSetup : Type 0 where
  pub msg_id : Option MsgId
  pub vlan_id : ℕ
  pub local_veth : String
  pub remote_veth : String
  pub local_ip : String
  pub remote_ip : String
  pub host_mapping : Option HostMapping

pub record VlanTeardown : Type 0 where
  pub vlan_id : ℕ

pub record VxlanSetup : Type 0 where
  pub msg_id : Option MsgId
  pub vxlan_id : ℕ
  pub ns_name : String
  pub ns_net : String
  pub br_name : String
  pub br_net : String
  pub local_ip : String
  pub remote_ip : String
  pub host_mapping : Option HostMapping
  pub docker_container : Option String
  pub dnat_port : Option ℕ

pub record VxlanTeardown : Type 0 where
  pub vxlan_id : ℕ
  pub ns_name : String
  pub br_name : String
  pub docker_container : Option String

-- The `oneof` of `NetMessage`.
pub data Message : Type 0 where
  vlan_setup : VlanSetup → Message
  vlan_teardown : VlanTeardown → Message
  vxlan_setup : VxlanSetup → Message
  vxlan_teardown : VxlanTeardown → Message

pub record NetMessage : Type 0 where
  pub message : Option Message

pub record Service : Type 0 where
  pub name : String
  pub port : ℕ
  pub docker_container : Option String

pub record Services : Type 0 where
  pub services : List Service

pub record ServiceTrigger : Type 0 where
  pub service_name : String
  pub ports : List ℕ

pub record ServicesListResponse : Type 0 where
  pub service_triggers : List ServiceTrigger

pub record ProxyRequest : Type 0 where
  pub client_ip : String
  pub service_name : String

pub record Upstream : Type 0 where
  pub ip : String
  pub port : ℕ

pub record BackendTriggerRequest : Type 0 where
  pub service_name : String
  pub port : ℕ
