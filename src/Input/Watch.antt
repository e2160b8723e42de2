-- ===== src/Input/Watch.antt =====
-- The load of services.toml, and the loop that watches it: which of the watcher's events lead to an
-- update. The file system, the parse of TOML and the clock are parameters: what they give comes with
-- each event.
use nullnet_grpc.Base.{
  ℕ, ◌+◌, ◌-◌, ◌*◌, ◌/◌, ◌≡◌, refl, String, Bool, false, Option, some, List, [], ◌∷◌, ltb,
  if◌then◌else◌, ◌<◌, All, arith,
}
use nullnet_grpc.Base.Results.{Result, ok, err, ◌>>=◌}
use nullnet_grpc.Proto.{Net}
use nullnet_grpc.ServiceInfo.{ServiceMap}
use nullnet_grpc.Changes.{World}
use nullnet_grpc.Input.{ServicesToml, services_map, apply_config_update}

-- `./services/services.toml`.
abbrev pub services_path : String
services_path = "./services/services.toml"

-- The text of the file, then its parse, then the services.
unfoldable pub load_from :
    (String → Result String) → (String → Result ServicesToml) → ℕ → String → Result ServiceMap
load_from read parse default_timeout path = elim (read path) [
  | err e ↦ err e
  | ok text ↦ elim (parse text) [ err e ↦ err e | ok toml ↦ ok (services_map default_timeout toml) ]
]

unfoldable pub load :
    (String → Result String) → (String → Result ServicesToml) → ℕ → Result ServiceMap
unfolding load_from
load read parse default_timeout = load_from read parse default_timeout services_path

-- What the watcher's channel brings: `Modify`, another kind of event or an error, or its end.
pub data WatchEvent : Type 0 where
  modified : WatchEvent
  other : WatchEvent
  closed : WatchEvent

-- The clock when the event is received, the file's text when it is read, the clock at the update,
-- and the clock when it is done; in nanoseconds.
pub record WatchReadings : Type 0 where
  pub received : ℕ
  pub read : String → Result String
  pub now : ℕ
  pub done : ℕ

-- The services and the orchestrator, the time of the last update, and how often the timeouts' task
-- was notified.
pub record Watch : Type 0 where
  pub world : World
  pub last_update_time : ℕ
  pub notified : ℕ

abbrev pub nanos_per_milli : ℕ
nanos_per_milli = 1000000

-- `last_update_time.elapsed().as_millis() > 100`.
abbrev pub is_settled : ℕ → ℕ → Bool
is_settled received last_update_time = ltb 100 ((received - last_update_time) / nanos_per_milli)

module _ (parse : String → Result ServicesToml) (net : Net) (fuel default_timeout : ℕ) where
  -- The services that were loaded are applied, under the write lock.
  abbrev pub update_from_loaded : WatchReadings → Result ServiceMap → Watch → Option Watch
  update_from_loaded rd (err e) s = some (record s { last_update_time = rd.done })
  update_from_loaded rd (ok loaded_services) s = do
    w ← apply_config_update net fuel rd.now loaded_services s.world
    some (record { world = w; last_update_time = rd.done; notified = s.notified + 1 })

  -- A modification that is received long enough after the last update.
  unfoldable pub on_modified : WatchReadings → Watch → Option Watch
  unfolding load
  on_modified rd s =
      if is_settled rd.received s.last_update_time
      then update_from_loaded rd (load rd.read parse default_timeout) s
      else some s

  -- The loop, until the channel ends or no further event comes.
  unfoldable pub watch : List (WatchEvent × WatchReadings) → Watch → Option Watch
  unfolding on_modified
  watch [] s = some s
  watch ((closed, rd) ∷ events) s = some s
  watch ((other, rd) ∷ events) s = watch events s
  watch ((modified, rd) ∷ events) s = on_modified rd s >>= watch events

-- The event is received less than 101 milliseconds after the time.
abbrev pub IsEarly : ℕ → WatchEvent × WatchReadings → Type 0
IsEarly last_update_time (event, rd) = rd.received < last_update_time + 101 * nanos_per_milli

module _ (parse : String → Result ServicesToml) (net : Net) (fuel default_timeout : ℕ) where
  on_modified-early :
      (rd : WatchReadings) (s : Watch)
      → rd.received < s.last_update_time + 101 * nanos_per_milli
      → on_modified parse net fuel default_timeout rd s ≡ some s
  unfolding on_modified
  on_modified-early rd s early =
      let unsettled : is_settled rd.received s.last_update_time ≡ false = ground (arith, early) in
      rw unsettled refl

  -- Events that are received less than 101 milliseconds after the last update change nothing, neither
  -- the services nor the time of the last update, whatever the file then holds.
  pub watch-early :
      (events : List (WatchEvent × WatchReadings)) (s : Watch)
      → All (IsEarly s.last_update_time) events
      → watch parse net fuel default_timeout events s ≡ some s
  unfolding watch
  watch-early [] s a = refl
  watch-early ((closed, rd) ∷ events) s a = refl
  watch-early ((other, rd) ∷ events) s a = watch-early events s a.1
  watch-early ((modified, rd) ∷ events) s a =
      rw (on_modified-early rd s a.0) (watch-early events s a.1)
