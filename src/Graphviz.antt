-- ===== src/Graphviz.antt =====
-- src/graphviz.rs: the drawing of the services. The kind of network is an argument; the loop that
-- writes the text to a file every ten seconds is not modelled.
pub mod Order
use Prim.Native.Char.{Char, code}
use Prim.Native.String.{◌++◌, [] as empty, ◌∷◌ as ◌:>◌}
use nullnet_grpc.Base.{
  ℕ, String, Bool, true, false, not, leb, nat_eq, ◌||◌, ◌&&◌, ◌==◌, string_eq, option_eq, PartialEq,
  eq_iff, option_beq_iff, arith, ◌≡◌, ◌↔◌, Option, none, some, List, [], ◌∷◌, map, flat_map,
  filter_map, retain, length, is_empty, is_some, if◌then◌else◌, IpAddr, decimal, ipv4_to_string,
}
use nullnet_grpc.Base.HashMap.{keys}
use nullnet_grpc.Base.HashSet.{contains}
use nullnet_grpc.Base.Sorting.{sort_by, by_key}
use nullnet_grpc.Proto.{Net, as_str_name}
use nullnet_grpc.Clients.{Client, ClientInfo, replica_identity, display_name}
use nullnet_grpc.ServiceInfo.{
  Replica, RegisteredServiceInfo, ServiceInfo, unregistered, registered, ServiceMap, timeout,
}

-- A service's name, and the address and container of a replica.
abbrev pub Identity : Type 0
Identity = String × IpAddr × Option String

abbrev pub identity_beq : Identity → Identity → Bool
identity_beq (name, ip, docker) (name', ip', docker') =
    name == name' && ip == ip' && docker == docker'

pub identity_beq_iff : (a b : Identity) → (identity_beq a b ≡ true) ↔ (a ≡ b)
identity_beq_iff (name, ip, docker) (name', ip', docker') = (
  λ h. ground (arith, eq_iff name name', eq_iff ip ip', option_beq_iff docker docker'),
  λ h. ground (arith, eq_iff name name', eq_iff ip ip', option_beq_iff docker docker'),
)

instance abbrev pub identity_eq : PartialEq Identity
identity_eq = record { beq = identity_beq; beq_iff = identity_beq_iff }

abbrev pub initiator : Client → Option Identity
initiator c = elim (replica_identity c) [
  | none ↦ none
  | some (ip, docker) ↦ some (c.name, ip, docker)
]

abbrev pub replica_initiators : Replica → List Identity
replica_initiators r = filter_map initiator (keys r.clients.clients)

abbrev pub initiators_of : ServiceInfo → List Identity
initiators_of (unregistered unreg) = []
initiators_of (registered reg) = flat_map replica_initiators reg.replicas

-- The replicas that start an edge somewhere; of the set only `contains` is used.
abbrev pub initiators : ServiceMap → List Identity
initiators services = flat_map (λ (e : String × ServiceInfo). initiators_of e.1) services

abbrev pub is_active : String → (Identity → Bool) → Replica → Bool
is_active name is_initiator r =
    not (is_empty r.clients.clients) || is_initiator (name, r.ip, r.docker_container)

unfoldable pub graphviz_label : String → (Identity → Bool) → ServiceInfo → String
graphviz_label name is_initiator (unregistered unreg) = name
graphviz_label name is_initiator (registered reg) =
    name
    ++ " ("
    ++ decimal (length (retain (is_active name is_initiator) reg.replicas))
    ++ "/"
    ++ decimal (length reg.replicas)
    ++ ")"

unfoldable pub graphviz_style : ServiceInfo → String
graphviz_style (unregistered unreg) =
    if is_some unreg.timeout then "[style=solid, color=red]" else "[style=dashed, color=red]"
graphviz_style (registered reg) =
    if is_some reg.timeout then "[style=solid, color=green]" else "[style=dashed, color=green]"

unfoldable pub graphviz_edge_label : Net → Bool → ClientInfo → String
graphviz_edge_label net show_ends ci =
    let name = as_str_name net ++ " " ++ decimal ci.net_id ++ " [" ++ decimal ci.time_ms ++ "ms]" in
    if show_ends
    then "[label=\""
      ++ name
      ++ "\", taillabel=\""
      ++ ipv4_to_string ci.client_net
      ++ "\", headlabel=\""
      ++ ipv4_to_string ci.server_net
      ++ "\"]"
    else "[label=\"" ++ name ++ "\"]"

abbrev pub edge_line : Net → String → Client × ClientInfo → String
edge_line net name (c, ci) =
    "\t\""
    ++ display_name c
    ++ "\" -> \""
    ++ name
    ++ "\" "
    ++ graphviz_edge_label net false ci
    ++ ";\n"

-- One text after the other.
abbrev pub concat : List String → String
concat [] = ""
concat (s ∷ ss) = s ++ concat ss

-- The edges to a registered service, by the names of their clients.
abbrev pub edge_lines : Net → String → ServiceInfo → String
edge_lines net name (unregistered unreg) = ""
edge_lines net name (registered reg) = concat (
    map (edge_line net name) (
      sort_by (by_key (λ (e : Client × ClientInfo). display_name e.0))
        (flat_map (λ (r : Replica). r.clients.clients) reg.replicas)))

abbrev pub service_lines : Net → (Identity → Bool) → String × ServiceInfo → String
service_lines net is_initiator (name, info) =
    "\t\""
    ++ name
    ++ "\" [label=\""
    ++ graphviz_label name is_initiator info
    ++ "\"] "
    ++ graphviz_style info
    ++ ";\n"
    ++ edge_lines net name info
    ++ "\n"

abbrev pub header : String
header =
    "digraph G {\n\tbgcolor=grey10;\n\tnode [color=white, fontcolor=white];\n\tedge [color=white, fontcolor=white, fontsize=9, labelangle=180, labeldistance=0.8];\n\n"

-- The services by their names.
abbrev pub entries : ServiceMap → ServiceMap
entries services = sort_by (by_key (λ (e : String × ServiceInfo). e.0)) services

-- `char::is_whitespace`.
abbrev pub is_whitespace : Char → Bool
is_whitespace c =
    let n = code c in
    (leb 9 n && leb n 13)
    || n == 32
    || n == 133
    || n == 160
    || n == 5760
    || (leb 8192 n && leb n 8202)
    || n == 8232
    || n == 8233
    || n == 8239
    || n == 8287
    || n == 12288

unfoldable pub trim_start : String → String
trim_start empty = ""
trim_start (c :> s) = let rest = trim_start s in if is_whitespace c then rest else c :> s

unfoldable pub trim_end : String → String
trim_end empty = ""
trim_end (c :> s) = let rest = trim_end s in if is_whitespace c && rest == "" then "" else c :> rest

-- What is drawn once the set of initiators and the sorted services are known.
unfoldable pub render_sorted : Net → (Identity → Bool) → ServiceMap → String
unfolding trim_start trim_end
render_sorted net is_initiator sorted =
    trim_end (trim_start (header ++ concat (map (service_lines net is_initiator) sorted)))
    ++ "\n}\n"

unfoldable pub render_graphviz : Net → ServiceMap → String
unfolding render_sorted
render_graphviz net services =
    render_sorted net (λ k. contains k (initiators services)) (entries services)
