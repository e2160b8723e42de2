-- ===== src/Server/Refines/Handlers.antt =====
-- What the handlers keep of the world, each run alone (src/nullnet_grpc_impl.rs,
-- src/orchestrator.rs, src/services/input.rs).
use nullnet_grpc.Base.{ℕ, sym, subst, String, Option, none, some, List, [], IpAddr}
use nullnet_grpc.Base.Results.{Result}
use nullnet_grpc.Proto.{Net, ProxyRequest, BackendTriggerRequest, Services}
use nullnet_grpc.Net.{IpNetworkCrate}
use nullnet_grpc.Changes.{World}
use nullnet_grpc.Changes.Kept.Sound.{SoundWorld}
use nullnet_grpc.GrpcImpl.{
  Request, Readings, proxy_method, backend_trigger_method, services_list_method, serve_channel,
}
use nullnet_grpc.Input.{ServicesToml}
use nullnet_grpc.Input.Watch.{Watch, WatchEvent, WatchReadings, watch}
use nullnet_grpc.Server.{Server, Reachable}
use nullnet_grpc.Server.Reach.{Reachable-Grown}
use nullnet_grpc.Server.Refines.{Refines}
use nullnet_grpc.Server.Refines.Proxy.{idle, proxy_method-Refines}
use nullnet_grpc.Server.Refines.Triggers.{backend_trigger_method-Refines}
use nullnet_grpc.Server.Refines.Updates.{
  Updates, services_list_method-Refines, serve_channel-Updates,
}
use nullnet_grpc.Server.Refines.Watching.{Watched, watch-Watched}

-- Each registered service has a replica and no two with the same identity, the pool is valid, and
-- the identifiers of client entries lie below the pool's next fresh one.
abbrev pub IsSound : Net → World → Type 0
IsSound net w = SoundWorld net w.orchestrator.net_id_pool.next_fresh w

-- The world that a handler ends with, if it ends.
abbrev pub EndsSound : {A : Type 0} → Net → Option (World × A) → Type 0
EndsSound net none = Unit {0}
EndsSound net (some (w, a)) = IsSound net w

abbrev pub UpdatesSound : Net → Option World → Type 0
UpdatesSound net none = Unit {0}
UpdatesSound net (some w) = IsSound net w

abbrev pub WatchesSound : Net → Option Watch → Type 0
WatchesSound net none = Unit {0}
WatchesSound net (some s) = IsSound net s.world

module _ (crate : IpNetworkCrate) (net : Net) (w : World) (sound : IsSound net w) where
  reached-IsSound : (s : Server) → Reachable crate net (idle w []) s → IsSound net s.world
  reached-IsSound s r =
      let (m, grows, after) =
        Reachable-Grown crate net w.orchestrator.net_id_pool.next_fresh r (sound, tt, tt) in
      subst (λ k. SoundWorld net k s.world) (sym after.0.1.1) after.0

  Refines-EndsSound :
      {A : Type 0} (m : Option (World × A)) → Refines crate net (idle w []) m → EndsSound net m
  Refines-EndsSound none r = tt
  Refines-EndsSound (some (v, a)) (tasks, offers, r) =
      reached-IsSound (record { world = v; tasks = tasks; offers = offers }) r

  Updates-UpdatesSound : (m : Option World) → Updates crate net (idle w []) m → UpdatesSound net m
  Updates-UpdatesSound none u = tt
  Updates-UpdatesSound (some v) u = reached-IsSound (idle v []) u

  Watched-WatchesSound : (m : Option Watch) → Watched crate net (idle w []) m → WatchesSound net m
  Watched-WatchesSound none u = tt
  Watched-WatchesSound (some s) u = reached-IsSound (idle s.world []) u

  -- From a sound world, the world that a proxy request, a backend trigger, a services list, the
  -- service of a node's channel until its end, or the watch of the configuration ends with is sound,
  -- if it ends, whatever the nodes answer and the file holds.
  pub handlers-IsSound :
      (parse_ip : String → Option IpAddr) (parse : String → Result ServicesToml)
      (fuel now default_timeout : ℕ) (sched : List (ℕ × Readings)) (proxied : Request ProxyRequest)
      (triggered : Request BackendTriggerRequest) (listed : Request Services) (ip : IpAddr)
      (inbound : List String) (events : List (WatchEvent × WatchReadings)) (last notified : ℕ)
      → EndsSound net (proxy_method parse_ip crate net fuel now sched proxied w)
        × EndsSound net (backend_trigger_method crate net sched triggered w)
        × EndsSound net (services_list_method net fuel listed w)
        × UpdatesSound net (serve_channel net fuel ip inbound w)
        × WatchesSound net (
            watch parse net fuel default_timeout events
              (record { world = w; last_update_time = last; notified = notified }))
  handlers-IsSound parse_ip parse fuel now default_timeout sched proxied triggered listed ip inbound
        events last notified =
      (
        Refines-EndsSound _ (proxy_method-Refines crate net parse_ip fuel now sched proxied w []),
        Refines-EndsSound _ (backend_trigger_method-Refines crate net sched triggered w []),
        Refines-EndsSound _ (services_list_method-Refines crate net fuel listed w []),
        Updates-UpdatesSound _ (serve_channel-Updates crate net fuel ip inbound (idle w [])),
        Watched-WatchesSound _
            (watch-Watched crate net parse fuel default_timeout events (idle w []) last notified),
      )
