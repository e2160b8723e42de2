-- ===== src/Timeout.antt =====
-- src/timeout.rs: the clients whose time is over, and how long to sleep until the next one. The
-- endless repetition of the round is not modelled; the environment variable TIMEOUT is an argument.
pub mod Nearest
pub mod Expired
use nullnet_grpc.Base.{
  ℕ, zero, suc, String, Option, none, some, List, [], ◌∷◌, map, flat_map, min, is_empty,
  if◌then◌else◌,
}
use nullnet_grpc.Base.HashMap.{values}
use nullnet_grpc.Proto.{Net}
use nullnet_grpc.ServiceInfo.{
  RegisteredServiceInfo, ServiceInfo, unregistered, registered, ServiceMap, timeout, from_secs,
  expired_proxy_clients, nearest_proxy_expiry,
}
use nullnet_grpc.Changes.{World, ServiceChange, proxy_client_timed_out, apply_changes}

-- The configured timeout, unless there is none or it is 0.
abbrev pub active_timeout : Option ℕ → Option ℕ
active_timeout none = none
active_timeout (some zero) = none
active_timeout (some (suc t)) = some (suc t)

abbrev pub expired_in : ℕ → String → ServiceInfo → Option ℕ → List ServiceChange
expired_in now name si none = []
expired_in now name (unregistered unreg) (some t) = []
expired_in now name (registered reg) (some t) =
    map (proxy_client_timed_out name) (expired_proxy_clients now (from_secs t) reg)

unfoldable pub collect_timed_out_clients : ℕ → ServiceMap → List ServiceChange
collect_timed_out_clients now services =
    flat_map (λ (e : String × ServiceInfo). expired_in now e.0 e.1 (active_timeout (timeout e.1)))
      services

unfoldable pub apply_timeouts : Net → ℕ → ℕ → World → Option World
unfolding collect_timed_out_clients
apply_timeouts net fuel now w =
    let changes = collect_timed_out_clients now w.services in
    if is_empty changes then some w else apply_changes net fuel changes none w

abbrev pub cap_expiry : ℕ → Option ℕ → ℕ
cap_expiry nearest none = nearest
cap_expiry nearest (some expiry) = min nearest expiry

abbrev pub cap_service : ℕ → ServiceInfo → Option ℕ → ℕ → ℕ
cap_service now si none nearest = nearest
cap_service now (unregistered unreg) (some t) nearest = min nearest (from_secs t)
cap_service now (registered reg) (some t) nearest =
    cap_expiry (min nearest (from_secs t)) (nearest_proxy_expiry now (from_secs t) reg)

unfoldable pub nearest_from : ℕ → List ServiceInfo → ℕ → ℕ
nearest_from now [] nearest = nearest
nearest_from now (si ∷ sis) nearest =
    nearest_from now sis (cap_service now si (active_timeout (timeout si)) nearest)

unfoldable pub nearest_timeout : ℕ → ℕ → ServiceMap → ℕ
unfolding nearest_from
nearest_timeout default_timeout now services =
    nearest_from now (values services) (from_secs default_timeout)

-- One turn of `check_timeouts`: how long it sleeps, by the services that it reads before, and what it
-- does when it wakes up, by itself or notified, to the world that it then finds.
unfoldable pub check_round : Net → ℕ → ℕ → ℕ → World → ℕ → World → ℕ × Option World
unfolding nearest_timeout apply_timeouts
check_round net fuel default_timeout now before now' woken =
    (nearest_timeout default_timeout now before.services, apply_timeouts net fuel now' woken)
