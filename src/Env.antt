-- ===== src/Env.antt =====
-- src/env.rs: the kind of network and the default timeout that the environment asks for. The
-- variables, the upper case of a text and the parse of a number are parameters.
use nullnet_grpc.Base.{ℕ, String, Option, ◌==◌, string_eq, if◌then◌else◌, unwrap_or}
use nullnet_grpc.Proto.{Net, vxlan, vlan}

-- `std::env::var(…)`, or the empty text.
abbrev pub variable : Option String → String
variable var = unwrap_or var ""

-- `NET_TYPE`; `Net::default()` is the first of the two.
unfoldable pub net_type : (String → String) → Option String → Net
net_type to_uppercase var =
    let str = to_uppercase (variable var) in
    if str == "VXLAN" then vxlan else if str == "VLAN" then vlan else vxlan

-- `TIMEOUT`, in seconds.
unfoldable pub timeout : (String → Option ℕ) → Option String → ℕ
timeout parse var = unwrap_or (parse (variable var)) 60
