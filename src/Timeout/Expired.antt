-- ===== src/Timeout/Expired.antt =====
-- The clients whose time is over, after a check (src/timeout.rs).
use mathlib.Core.List.{Memᴰ}
use mathlib.Core.List.Memᴰ
use nullnet_grpc.Base.{
  ℕ, suc, ◌≡◌, ◌≤◌, ◌<◌, ◌-◌, refl, subst, String, true, some, none, List, [], ◌∷◌, flat_map,
  is_some, is_empty, inl, inr, Bool-cases, string_eq, beq_refl, arith, leb, ◌&&◌,
}
use nullnet_grpc.Base.HashMap.{get}
use nullnet_grpc.Proto.{Net}
use nullnet_grpc.Clients.{Client, ClientInfo, client_eq}
use nullnet_grpc.ServiceInfo.{
  Replica, RegisteredServiceInfo, ServiceInfo, registered, ServiceMap, timeout, from_secs,
  expired_proxy_clients,
}
use nullnet_grpc.Changes.{
  World, ServiceChange, proxy_client_timed_out, by_client, get_registered, apply_change,
}
use nullnet_grpc.Changes.Entry.{registered_of}
use nullnet_grpc.Changes.Walk.{Ranked}
use nullnet_grpc.Changes.Walk.Ending.{apply_changes_ends}
use nullnet_grpc.Changes.Kept.{Result, Any}
use nullnet_grpc.Changes.Kept.One.{OnReplicas, replicas-Kept}
use nullnet_grpc.Changes.After.{apply_changes-established, get-Mem, retain-Mem}
use nullnet_grpc.Changes.After.Cleared.{Lacks, Lacks-Closed, teardown_chain-Lacks}
use nullnet_grpc.Timeout.{active_timeout, expired_in, collect_timed_out_clients, apply_timeouts}

-- The service has a timeout, and an entry of the proxy client on one of its replicas was last used
-- that long ago.
pub record IsExpired (now : ℕ) (name : String) (c : Client) (services : ServiceMap) : Type 0 where
  pub reg : RegisteredServiceInfo
  pub seconds : ℕ
  pub replica : Replica
  pub info : ClientInfo
  pub is_registered : get_registered name services ≡ some reg
  pub has_timeout : reg.timeout ≡ some (suc seconds)
  pub is_replica : Memᴰ replica reg.replicas
  pub is_entry : get c replica.clients.clients ≡ some info
  pub via_proxy : is_some c.proxy ≡ true
  pub is_over : from_secs (suc seconds) ≤ now - info.latest

flat_map-Mem {ℓ κ} :
    {A : Type ℓ} {B : Type κ} (f : A → List B) (x : A) (y : B) (xs : List A)
    → Memᴰ x xs
    → Memᴰ y (f x)
    → Memᴰ y (flat_map f xs)
flat_map-Mem f x y [] mem m = absurd (Memᴰ.not-nil mem)
flat_map-Mem f x y (z ∷ xs) mem m = elim (Memᴰ.cases_cons mem) [
  | inl same ↦ Memᴰ.append_left _ (subst (λ u. Memᴰ y (f u)) same m)
  | inr later ↦ Memᴰ.append_right _ (flat_map-Mem f x y xs later m)
]

expired-Mem :
    (now : ℕ) (name : String) (c : Client) (services : ServiceMap)
    → IsExpired now name c services
    → Memᴰ (proxy_client_timed_out name c) (collect_timed_out_clients now services)
unfolding collect_timed_out_clients expired_proxy_clients
expired-Mem now name c services x =
    let entry = get-Mem name services (registered x.reg) (registered_of _ x.reg x.is_registered) in
    let over : (is_some c.proxy && leb (from_secs (suc x.seconds)) (now - x.info.latest)) ≡ true =
      rw x.via_proxy (ground (arith, x.is_over)) in
    flat_map-Mem
      (λ (e : String × ServiceInfo). expired_in now e.0 e.1 (active_timeout (timeout e.1)))
      (name, registered x.reg) (proxy_client_timed_out name c) services entry
      (rw x.has_timeout (
        Memᴰ.map (proxy_client_timed_out name) (
          flat_map-Mem _ x.replica c x.reg.replicas x.is_replica (
            Memᴰ.map (λ (e : Client × ClientInfo). e.0)
              (retain-Mem
                (λ (e : Client × ClientInfo).
                  is_some e.0.proxy && leb (from_secs (suc x.seconds)) (now - e.1.latest))
                (c, x.info) x.replica.clients.clients
                (get-Mem c x.replica.clients.clients x.info x.is_entry) over)))))

module _ (net : Net) (fuel now : ℕ) where
  timed_out-Lacks :
      (name : String) (c : Client) (w : World)
      → is_some c.proxy ≡ true
      → Result
          (λ v. OnReplicas (Lacks c) (get name v.services))
          (apply_change net fuel (proxy_client_timed_out name c) w)
  unfolding apply_change
  timed_out-Lacks name c w via =
      teardown_chain-Lacks c (by_client c) (λ ip docker. rw (via, beq_refl c) refl) net fuel name w

  expired-Lacks :
      (name : String) (c : Client) (w : World)
      → IsExpired now name c w.services
      → Result (λ v. OnReplicas (Lacks c) (get name v.services)) (apply_timeouts net fuel now w)
  unfolding apply_timeouts
  expired-Lacks name c w x =
      let mem = expired-Mem now name c w.services x in
      elim (Bool-cases (is_empty (collect_timed_out_clients now w.services))) [
        | inl empty ↦ absurd (nonempty _ mem empty)
        | inr changed ↦
            rw (changed, apply_timeouts)
              (apply_changes-established net _ Any
                (replicas-Kept net (Lacks c) (Lacks-Closed c) name) fuel
                (proxy_client_timed_out name c) _ none w mem
                (λ v. timed_out-Lacks name c v x.via_proxy) (λ v p. p))
      ]
    where
      nonempty :
          (cs : List ServiceChange)
          → Memᴰ (proxy_client_timed_out name c) cs
          → is_empty cs ≡ true
          → ⊥
      nonempty [] mem h = Memᴰ.not-nil mem
      nonempty (d ∷ cs) mem h = cc

-- Where the proxy dependencies are ranked and the fuel is enough, a check for timeouts returns, and
-- afterwards they are still ranked, and no replica of a service has a client whose time on the
-- service was over.
pub apply_timeouts-cleared :
    (net : Net) (rank : String → ℕ) (fuel : ℕ) (enough : (name : String) → rank name < fuel)
    (now : ℕ) (w : World)
    → Ranked rank w.services
    → (w' : World) × (apply_timeouts net fuel now w ≡ some w')
      × Ranked rank w'.services
      × ((name : String) (c : Client)
          → IsExpired now name c w.services
          → OnReplicas (Lacks c) (get name w'.services))
unfolding apply_timeouts
apply_timeouts-cleared net rank fuel enough now w r =
    let changes = collect_timed_out_clients now w.services in
    elim (Bool-cases (is_empty changes)) [
      | inl empty ↦
          let returns : apply_timeouts net fuel now w ≡ some w = rw (empty, apply_timeouts) refl in
          (
            w,
            returns,
            r,
            λ name c x.
                subst (Result (λ v. OnReplicas (Lacks c) (get name v.services))) returns
                  (expired-Lacks net fuel now name c w x),
          )
      | inr changed ↦
          let (w', e, r') = apply_changes_ends net rank fuel enough changes none w r tt in
          let returns : apply_timeouts net fuel now w ≡ some w' = rw (changed, apply_timeouts) e in
          (
            w',
            returns,
            r',
            λ name c x.
                subst (Result (λ v. OnReplicas (Lacks c) (get name v.services))) returns
                  (expired-Lacks net fuel now name c w x),
          )
    ]
