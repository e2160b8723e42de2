-- ===== src/Changes/After/Loaded.antt =====
-- The services after an update from a configuration (src/services/changes.rs).
use mathlib.Core.Option
use mathlib.Core.List.{Memᴰ}
use mathlib.Core.List.Memᴰ
use nullnet_grpc.Base.{
  ℕ, ◌≡◌, ◌⊎◌, refl, ap, ◌∙◌, subst, inl, inr, String, true, false, not, Option, none, some, List,
  [], ◌∷◌, is_some, Option-cases, Bool-cases, string_eq, ◌==◌, if◌then◌else◌, arith, eq_iff,
}
use nullnet_grpc.Base.HashMap.{
  HashMap, get, modify, insert, remove, contains_key, keys, get-modify, get-insert, get-remove_same,
}
use nullnet_grpc.Proto.{Net}
use nullnet_grpc.ServiceInfo.{
  ServiceInfo, unregistered, registered, ServiceMap, proxy_deps, triggers, timeout, max_networks,
  update_from_file,
}
use nullnet_grpc.Changes.{
  World, removed, apply_change, apply_changes, for_each, detect_config_changes, update_all,
  update_loaded, on_services, teardown_invalidated_service,
}
use nullnet_grpc.Changes.Kept.One.{absent_service-Kept}
use nullnet_grpc.Changes.Kept.{Result, for_each-Result, Any, All-Any}
use nullnet_grpc.Changes.Kept.Whole.{change-kept}
use nullnet_grpc.Changes.After.{Result-always, Result-then, retain-Mem, changes-Result, get-Mem}

-- What the configuration says of a service.
pub record Config : Type 0 where
  pub proxy_deps : List String
  pub triggers : HashMap ℕ (List String)
  pub timeout : Option ℕ
  pub max_networks : Option ℕ

abbrev pub config : ServiceInfo → Config
config si = record {
  proxy_deps = proxy_deps si;
  triggers = triggers si;
  timeout = timeout si;
  max_networks = max_networks si;
}

-- No name has two entries.
abbrev pub DistinctKeys : ServiceMap → Type 0
DistinctKeys [] = Unit {0}
DistinctKeys ((k, si) ∷ m) = (contains_key k m ≡ false) × DistinctKeys m

-- The same services, with the same configuration.
abbrev pub SameConfig : ServiceMap → ServiceMap → Type 0
SameConfig a b = (name : String) → Option.map config (get name a) ≡ Option.map config (get name b)

update_from_file-config :
    (loaded si : ServiceInfo) → config (update_from_file loaded si) ≡ config loaded
unfolding update_from_file
update_from_file-config loaded (unregistered unreg) = refl
update_from_file-config loaded (registered reg) = refl

abbrev updated : String → ServiceInfo → ServiceMap → ServiceMap
updated k loaded services =
    if contains_key k services
    then modify k (update_from_file loaded) services
    else insert k loaded services

-- One loaded service determines the configuration under its name.
updated-config :
    (k name : String) (loaded : ServiceInfo) (services : ServiceMap)
    → Option.map config (get name (updated k loaded services))
      ≡ (if k == name then some (config loaded) else Option.map config (get name services))
unfolding contains_key
updated-config k name loaded services = elim (Option-cases (get k services)) [
  | inl absent ↦ rw (absent, updated) (rw (get-insert k name loaded services) (ground arith))
  | inr (si, found) ↦
      rw (found, updated)
        (rw (get-modify k name (update_from_file loaded) services) (elim (Bool-cases (k == name)) [
          | inr elsewhere ↦ rw elsewhere refl
          | inl here ↦
              let there : get name services ≡ some si =
                subst (λ n. get n services ≡ some si) ((eq_iff k name).0 here) found in
              rw (here, there) (ap some (update_from_file-config loaded si))
        ]))
]

update_all-config :
    (loaded services : ServiceMap) (name : String)
    → DistinctKeys loaded
    → Option.map config (get name (update_all loaded services)) ≡ (
        if contains_key name loaded
        then Option.map config (get name loaded)
        else Option.map config (get name services))
unfolding update_all contains_key get
update_all-config [] services name d = refl
update_all-config ((k, si) ∷ loaded) services name d =
    update_all-config loaded (updated k si services) name d.1 ∙ (elim (Bool-cases (k == name)) [
      | inr elsewhere ↦ rw (updated-config k name si services, elsewhere) refl
      | inl here ↦
          let last : is_some (get name loaded) ≡ false =
            subst (λ n. contains_key n loaded ≡ false) ((eq_iff k name).0 here) d.0 in
          rw (updated-config k name si services, here, last) refl
    ])

-- A current service that is not loaded is among the changes.
removed-Mem :
    (now : ℕ) (name : String) (current loaded : ServiceMap) (si : ServiceInfo)
    → get name current ≡ some si
    → contains_key name loaded ≡ false
    → Memᴰ (removed name) (detect_config_changes now current loaded)
unfolding detect_config_changes
removed-Mem now name current loaded si e gone = Memᴰ.append_left _ (
    Memᴰ.map removed (
      retain-Mem (λ k. not (contains_key k loaded)) name (keys current)
        (Memᴰ.map (λ (x : String × ServiceInfo). x.0) (get-Mem name current si e)) (rw gone refl)))

module _ (net : Net) (fuel : ℕ) where
  removed-absent :
      (name : String) (w : World)
      → Result (λ v. get name v.services ≡ none) (apply_change net fuel (removed name) w)
  unfolding apply_change
  removed-absent name w =
      Result-always (λ v. get name v.services ≡ none)
        (teardown_invalidated_service net fuel name true w) (on_services (remove name))
        (λ v. get-remove_same name v.services)

  -- A service that is not loaded is gone after the changes.
  changes-absent :
      (now : ℕ) (name : String) (loaded : ServiceMap) (w : World)
      → contains_key name loaded ≡ false
      → Result
          (λ v. get name v.services ≡ none)
          (for_each (apply_change net fuel) (detect_config_changes now w.services loaded) w)
  changes-absent now name loaded w gone =
      let P : World → Type 0 = λ v. get name v.services ≡ none in
      let kept = absent_service-Kept net name in
      let changes = detect_config_changes now w.services loaded in
      elim (Option-cases (get name w.services)) [
        | inl absent ↦
            for_each-Result P Any (apply_change net fuel)
              (λ x u q. change-kept net P Any kept fuel x u) changes w (All-Any changes) absent
        | inr (si, found) ↦
            changes-Result net P Any kept fuel (removed name) changes w
              (removed-Mem now name w.services loaded si found gone) (removed-absent name)
      ]

  update_loaded-config :
      (loaded services : ServiceMap) (name : String)
      → DistinctKeys loaded
      → (contains_key name loaded ≡ true) ⊎ (get name services ≡ none)
      → Option.map config (get name (update_all loaded services))
        ≡ Option.map config (get name loaded)
  unfolding contains_key
  update_loaded-config loaded services name d h =
      update_all-config loaded services name d ∙ elim h [
        | inl known ↦ rw known refl
        | inr absent ↦ elim (Option-cases (get name loaded)) [
          | inl unknown ↦ rw (unknown, absent) refl
          | inr (si, found) ↦ rw found refl
        ]
      ]

  -- An update from loaded services leaves exactly these services, with their configuration.
  pub loaded-SameConfig :
      (now : ℕ) (loaded : ServiceMap) (w : World) (name : String)
      → DistinctKeys loaded
      → Result
          (λ v. Option.map config (get name v.services) ≡ Option.map config (get name loaded))
          (apply_changes net fuel (detect_config_changes now w.services loaded) (some loaded) w)
  unfolding apply_changes
  loaded-SameConfig now loaded w name d =
      let changes = detect_config_changes now w.services loaded in
      elim (Bool-cases (contains_key name loaded)) [
        | inl known ↦
            Result-always _ (for_each (apply_change net fuel) changes w)
              (update_loaded (some loaded))
              (λ v. update_loaded-config loaded v.services name d (inl known))
        | inr unknown ↦
            Result-then (λ v. get name v.services ≡ none) _
              (for_each (apply_change net fuel) changes w) (update_loaded (some loaded))
              (changes-absent now name loaded w unknown)
              (λ v absent. update_loaded-config loaded v.services name d (inr absent))
      ]
