-- ===== src/Changes/After/Lost.antt =====
-- The replicas of a lost node (src/orchestrator.rs, src/services/changes.rs).
use mathlib.Core.List.{Memᴰ}
use mathlib.Core.List.Memᴰ
use nullnet_grpc.Base.{
  ℕ, ◌≡◌, refl, sym, subst, inl, inr, ◌⊎◌, String, true, false, not, Option, none, some, List, [],
  ◌∷◌, All, any, retain, filter_map, Option-cases, Bool-cases, string_eq, ◌==◌, IpAddr, arith,
}
use nullnet_grpc.Base.HashMap.{get, modify, get-modify_same, get-insert_same}
use mathlib.Core.Option
use nullnet_grpc.Proto.{Net}
use nullnet_grpc.ServiceInfo.{
  Replica, RegisteredServiceInfo, ServiceInfo, unregistered, registered, ServiceMap,
  has_replica_on_ip, remove_replicas_on_ip, keep_replicas, unregister,
}
use nullnet_grpc.Changes.{
  World, replicas_removed, apply_change, apply_changes, detect_node_disconnect_changes,
  lost_replicas, fail_service, get_registered, on_services, all_on_ip, ids_on_ip, on_ip, for_each,
  to_clean_up, teardown_dependent, teardown_backend_chains, teardown_partial_replicas,
  teardown_invalidated_service,
}
use nullnet_grpc.Changes.Kept.{Result, Result-if, Any}
use nullnet_grpc.Changes.Kept.Whole.{apply_changes-kept}
use nullnet_grpc.Changes.Kept.One.{Closed, OnReplicas, not_registered-OnReplicas, replicas-Kept}
use nullnet_grpc.Changes.After.{Result-always, apply_changes-established, get-Mem, filter_map-Mem}

-- The replica stands elsewhere.
abbrev pub IsOff : IpAddr → Replica → Type 0
IsOff ip r = (r.ip == ip) ≡ false

IsOff-Closed : (ip : IpAddr) → Closed (IsOff ip)
IsOff-Closed ip = record { dropped = λ client r p. p; counted = λ client r p. p }

retain-IsOff :
    (ip : IpAddr) (rs : List Replica)
    → All (IsOff ip) (retain (λ (r : Replica). not (r.ip == ip)) rs)
retain-IsOff ip [] = tt
retain-IsOff ip (r ∷ rs) = elim (Bool-cases (r.ip == ip)) [
  | inl on ↦ rw on (retain-IsOff ip rs)
  | inr off ↦ rw off (off, retain-IsOff ip rs)
]

none_on-IsOff :
    (ip : IpAddr) (rs : List Replica)
    → any (λ (r : Replica). r.ip == ip) rs ≡ false
    → All (IsOff ip) rs
none_on-IsOff ip [] h = tt
none_on-IsOff ip (r ∷ rs) h = (ground arith, none_on-IsOff ip rs (ground arith))

-- A failed service has no replica.
fail_service-OnReplicas :
    (P : Replica → Type 0) (name : String) (w : World)
    → OnReplicas P (get name (fail_service name w).services)
fail_service-OnReplicas P name w = elim (Option-cases (get_registered name w.services)) [
  | inr (reg, found) ↦
      rw (found, fail_service)
        (subst (OnReplicas P) (sym (get-insert_same name (unregister reg) w.services)) tt)
  | inl absent ↦
      rw (absent, fail_service) (not_registered-OnReplicas P (get name w.services) absent)
]

keep-IsOff :
    (ip : IpAddr) (reg : RegisteredServiceInfo) (rs : List Replica)
    → All (IsOff ip) rs
    → OnReplicas (IsOff ip) (some (keep_replicas reg rs))
keep-IsOff ip reg [] a = tt
keep-IsOff ip reg (r ∷ rs) a = a

entry-IsOff :
    (ip : IpAddr) (si : Option ServiceInfo)
    → OnReplicas (IsOff ip) (Option.map (remove_replicas_on_ip ip) si)
unfolding remove_replicas_on_ip
entry-IsOff ip none = tt
entry-IsOff ip (some (unregistered unreg)) = tt
entry-IsOff ip (some (registered reg)) = keep-IsOff ip reg _ (retain-IsOff ip reg.replicas)

node_lost-IsOff :
    (name : String) (ip : IpAddr) (w : World)
    → OnReplicas
        (IsOff ip)
        (get name (on_services (modify name (remove_replicas_on_ip ip)) w).services)
node_lost-IsOff name ip w =
    subst (OnReplicas (IsOff ip)) (sym (get-modify_same name (remove_replicas_on_ip ip) w.services))
      (entry-IsOff ip (get name w.services))

-- A registered service with a replica on the node is among the changes.
lost-Mem :
    (name : String) (ip : IpAddr) (services : ServiceMap) (reg : RegisteredServiceInfo)
    → get name services ≡ some (registered reg)
    → has_replica_on_ip ip reg ≡ true
    → Memᴰ (replicas_removed name ip) (detect_node_disconnect_changes services ip)
unfolding detect_node_disconnect_changes
lost-Mem name ip services reg e on = Memᴰ.append_left _ (
    filter_map-Mem (lost_replicas ip) (name, registered reg) (replicas_removed name ip) services
      (get-Mem name services (registered reg) e) (rw on refl))

module _ (net : Net) (fuel : ℕ) where
  replicas_removed-IsOff :
      (name : String) (ip : IpAddr) (w : World)
      → Result
          (λ v. OnReplicas (IsOff ip) (get name v.services))
          (apply_change net fuel (replicas_removed name ip) w)
  unfolding apply_change teardown_invalidated_service
  replicas_removed-IsOff name ip w =
      let off : World → Type 0 = λ v. OnReplicas (IsOff ip) (get name v.services) in
      let before =
        teardown_backend_chains net name (ids_on_ip ip (get_registered name w.services)) none w in
      Result-if off (all_on_ip ip (get_registered name w.services)) _ _
        (Result-always off
          (for_each (teardown_dependent net fuel name) (filter_map (to_clean_up name) w.services) w)
          (fail_service name) (fail_service-OnReplicas (IsOff ip) name))
        (Result-always off (teardown_partial_replicas net fuel name (on_ip ip) before)
          (on_services (modify name (remove_replicas_on_ip ip))) (node_lost-IsOff name ip))

  disconnect_entry-IsOff :
      (name : String) (ip : IpAddr) (w : World) (si : Option ServiceInfo)
      → get name w.services ≡ si
      → OnReplicas (IsOff ip) si
        ⊎ Memᴰ (replicas_removed name ip) (detect_node_disconnect_changes w.services ip)
  unfolding has_replica_on_ip
  disconnect_entry-IsOff name ip w none e = inl tt
  disconnect_entry-IsOff name ip w (some (unregistered unreg)) e = inl tt
  disconnect_entry-IsOff name ip w (some (registered reg)) e =
      elim (Bool-cases (has_replica_on_ip ip reg)) [
        | inr off ↦ inl (none_on-IsOff ip reg.replicas off)
        | inl on ↦ inr (lost-Mem name ip w.services reg e on)
      ]

  -- The changes of a node's loss leave no replica on it under any name.
  pub disconnect-IsOff :
      (name : String) (ip : IpAddr) (w : World)
      → Result
          (λ v. OnReplicas (IsOff ip) (get name v.services))
          (apply_changes net fuel (detect_node_disconnect_changes w.services ip) none w)
  disconnect-IsOff name ip w =
      let kept = replicas-Kept net (IsOff ip) (IsOff-Closed ip) name in
      elim (disconnect_entry-IsOff name ip w (get name w.services) refl) [
        | inl off ↦ apply_changes-kept net _ Any kept fuel _ none w (λ v p. p) off
        | inr lost ↦
            apply_changes-established net _ Any kept fuel (replicas_removed name ip) _ none w lost
              (replicas_removed-IsOff name ip) (λ v p. p)
      ]
