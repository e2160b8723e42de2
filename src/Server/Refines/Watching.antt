-- ===== src/Server/Refines/Watching.antt =====
-- The watch of the configuration as a run of the transition system (src/services/input.rs).
use nullnet_grpc.Base.{
  ℕ, String, Option, none, some, List, [], ◌∷◌, inl, inr, Bool-cases, Option-cases,
}
use nullnet_grpc.Base.Results.{Result, Result-cases}
use nullnet_grpc.Proto.{Net}
use nullnet_grpc.Net.{IpNetworkCrate}
use nullnet_grpc.Changes.{apply_changes, detect_config_changes}
use nullnet_grpc.Input.{ServicesToml, apply_config_update}
use nullnet_grpc.Input.Watch.{
  Watch, WatchEvent, WatchReadings, modified, other, closed, is_settled, load, on_modified, watch,
}
use nullnet_grpc.Server.{Server, Reachable, here, next, change}
use nullnet_grpc.Server.Start.{load-Sound}
use nullnet_grpc.Server.Refines.{Reachable-trans}

-- The world of the watch's state, if there is one, is one that the server reaches.
abbrev pub Watched : IpNetworkCrate → Net → Server → Option Watch → Type 0
Watched crate net s none = Unit {0}
Watched crate net s (some v) = Reachable crate net s (record s { world = v.world })

module _ (crate : IpNetworkCrate) (net : Net) (parse : String → Result ServicesToml)
    (fuel default_timeout : ℕ) where
  on_modified-Watched :
      (rd : WatchReadings) (s : Server) (last notified : ℕ)
      → Watched crate net s (
          on_modified parse net fuel default_timeout rd
            (record { world = s.world; last_update_time = last; notified = notified }))
  unfolding on_modified apply_config_update
  on_modified-Watched rd s last notified = elim (Bool-cases (is_settled rd.received last)) [
    | inr early ↦ rw (early, on_modified) here
    | inl settled ↦
        rw (settled, on_modified)
          (elim (Result-cases (load rd.read parse default_timeout)) [
            | inr (e, failed) ↦ rw failed here
            | inl (loaded, found) ↦
                let changes = detect_config_changes rd.now s.world.services loaded in
                elim (Option-cases (apply_changes net fuel changes (some loaded) s.world)) [
                  | inl out ↦ rw (found, out) tt
                  | inr (w, done) ↦
                      rw (found, done)
                        (next here (
                          change fuel changes (some loaded) w
                            (load-Sound 101 rd.read parse default_timeout loaded found) done))
                ]
          ])
  ]

  -- If the watch of the configuration handles its events, whatever the file holds at each of them,
  -- then the server reaches the world that it ends with, from any state, whose tasks and offers
  -- stay.
  pub watch-Watched :
      (events : List (WatchEvent × WatchReadings)) (s : Server) (last notified : ℕ)
      → Watched crate net s (
          watch parse net fuel default_timeout events
            (record { world = s.world; last_update_time = last; notified = notified }))
  unfolding watch
  watch-Watched [] s last notified = here
  watch-Watched ((closed, rd) ∷ events) s last notified = here
  watch-Watched ((other, rd) ∷ events) s last notified = watch-Watched events s last notified
  watch-Watched ((modified, rd) ∷ events) s last notified =
      let start : Watch = record {
        world = s.world;
        last_update_time = last;
        notified = notified;
      } in
      let first = on_modified-Watched rd s last notified in
      elim (Option-cases (on_modified parse net fuel default_timeout rd start)) [
        | inl out ↦ rw (out, watch) tt
        | inr (v, done) ↦
            rw (done, watch)
              (chained (watch parse net fuel default_timeout events v) s v (rw done at first)
                (watch-Watched events (record s { world = v.world }) v.last_update_time v.notified))
      ]
    where
      chained :
          (m : Option Watch) (s : Server) (v : Watch)
          → Reachable crate net s (record s { world = v.world })
          → Watched crate net (record s { world = v.world }) m
          → Watched crate net s m
      chained none s v r u = tt
      chained (some v') s v r u = Reachable-trans crate net r u
