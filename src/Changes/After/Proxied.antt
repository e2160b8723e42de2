-- ===== src/Changes/After/Proxied.antt =====
-- The clients of a lost proxy (src/orchestrator.rs, src/services/changes.rs).
use mathlib.Core.List.{Memᴰ}
use mathlib.Core.List.Memᴰ
use nullnet_grpc.Base.{
  ℕ, ◌≡◌, refl, sym, subst, ◌⊎◌, inl, inr, String, Bool, true, false, Option, none, some, List, [],
  ◌∷◌, All, any, retain, some-injective, Option-cases, Bool-cases, string_eq, option_eq, ◌==◌,
  IpAddr, arith, beq_refl, filter_map,
}
use nullnet_grpc.Base.HashMap.{HashMap, get, contains_key, keys}
use nullnet_grpc.Proto.{Net}
use nullnet_grpc.Clients.{Client, ClientInfo, client_eq}
use nullnet_grpc.ServiceInfo.{
  Replica, ServiceInfo, unregistered, registered, ServiceMap, client_keys,
}
use nullnet_grpc.Changes.{
  World, by_ip, matches, proxy_disconnected, apply_change, apply_changes,
  detect_node_disconnect_changes, lost_replicas, services_via, has_client_via, teardown_chain,
}
use nullnet_grpc.Changes.Kept.{Kept, Result, for_each-Result, All-Any, Any, chain-kept}
use nullnet_grpc.Changes.Kept.Whole.{apply_changes-kept}
use nullnet_grpc.Changes.Kept.One.{OnReplicas, replicas-Kept}
use nullnet_grpc.Changes.After.{
  for_each-established, apply_changes-established, get-Mem, retain-Mem,
}
use nullnet_grpc.Changes.After.Cleared.{Lacks, Lacks-Closed, teardown_chain-Lacks}

nothing-retain {ℓ} : {A : Type ℓ} (p : A → Bool) (xs : List A) → any p xs ≡ false → retain p xs ≡ []
nothing-retain p [] h = refl
nothing-retain p (x ∷ xs) h = elim (Bool-cases (p x)) [
  | inl hit ↦ absurd (found_not (rw hit at h))
  | inr miss ↦ rw (miss, retain) (nothing-retain p xs (rw miss at h))
]
  where
    found_not : true ≡ false → ⊥
    found_not e = cc

module _ (ip : IpAddr) (c : Client) (via : c.proxy ≡ some ip) where
  -- A replica none of whose clients comes through the proxy does not have this one.
  no_client-Lacks :
      (m : HashMap Client ClientInfo)
      → any (λ (k : Client). k.proxy == some ip) (keys m) ≡ false
      → contains_key c m ≡ false
  unfolding contains_key get
  no_client-Lacks [] h = refl
  no_client-Lacks ((k, ci) ∷ m) h = elim (Bool-cases (k == c)) [
    | inl same ↦
        let through : (k.proxy == some ip) ≡ true =
          subst (λ (x : Client). (x.proxy == some ip) ≡ true) (sym ((client_eq.beq_iff k c).0 same))
            (rw via (beq_refl (some ip))) in
        absurd (found_not (rw through at h))
    | inr other ↦ rw other (no_client-Lacks m (ground (arith, h)))
  ]
    where
      found_not : true ≡ false → ⊥
      found_not e = cc

  none_via-Lacks :
      (rs : List Replica)
      → any (λ (r : Replica). any (λ (k : Client). k.proxy == some ip) (client_keys r)) rs ≡ false
      → All (Lacks c) rs
  none_via-Lacks [] h = tt
  none_via-Lacks (r ∷ rs) h =
      (no_client-Lacks r.clients.clients (ground (arith, h)), none_via-Lacks rs (ground (arith, h)))

  by_ip_matches : (rip : IpAddr) (docker : Option String) → matches (by_ip ip) c rip docker ≡ true
  by_ip_matches rip docker = rw via (rw (beq_refl (some ip)) refl)

  entry-Lacks :
      (si : Option ServiceInfo)
      → ((x : ServiceInfo) → si ≡ some x → has_client_via ip x ≡ false)
      → OnReplicas (Lacks c) si
  entry-Lacks none h = tt
  entry-Lacks (some (unregistered unreg)) h = tt
  entry-Lacks (some (registered reg)) h = none_via-Lacks reg.replicas (h (registered reg) refl)

  -- A service under whose name a client of the proxy is found is among those that are cleaned up.
  via-cases :
      (name : String) (services : ServiceMap)
      → OnReplicas (Lacks c) (get name services) ⊎ Memᴰ name (services_via ip services)
  via-cases name services = elim (Option-cases (get name services)) [
    | inl absent ↦ inl (rw absent tt)
    | inr (si, found) ↦ elim (Bool-cases (has_client_via ip si)) [
      | inl hit ↦ inr (
          Memᴰ.map (λ (e : String × ServiceInfo). e.0)
            (retain-Mem (λ (e : String × ServiceInfo). has_client_via ip e.1) (name, si) services
              (get-Mem name services si found) hit))
      | inr miss ↦ inl (
          rw found (
            entry-Lacks (some si)
              (λ x e. subst (λ y. has_client_via ip y ≡ false) (some-injective _ _ e) miss)))
    ]
  ]

  module _ (net : Net) (fuel : ℕ) (name : String) where
    abbrev AllLack : World → Type 0
    AllLack w = OnReplicas (Lacks c) (get name w.services)

    AllLack-Kept : Kept net AllLack Any
    AllLack-Kept = replicas-Kept net (Lacks c) (Lacks-Closed c) name

    chain-Lacks :
        (k : String) (w : World)
        → AllLack w
        → Result AllLack (teardown_chain net fuel k (by_ip ip) w)
    chain-Lacks k = chain-kept net AllLack Any AllLack-Kept fuel k (by_ip ip)

    disconnected-Lacks :
        (w : World) → Result AllLack (apply_change net fuel (proxy_disconnected ip) w)
    unfolding apply_change
    disconnected-Lacks w =
        let body = λ (k : String). teardown_chain net fuel k (by_ip ip) in
        elim (via-cases name w.services) [
          | inl already ↦
              for_each-Result AllLack Any body (λ k v q. chain-Lacks k v)
                (services_via ip w.services) w (All-Any (services_via ip w.services)) already
          | inr hit ↦
              for_each-established AllLack body chain-Lacks name
                (teardown_chain-Lacks c (by_ip ip) by_ip_matches net fuel name)
                (services_via ip w.services) w hit
        ]

    -- The changes of a node's loss leave no client that came through it.
    pub disconnect-Lacks :
        (w : World)
        → Result AllLack
            (apply_changes net fuel (detect_node_disconnect_changes w.services ip) none w)
    unfolding detect_node_disconnect_changes
    disconnect-Lacks w =
        elim (Bool-cases (any (λ (e : String × ServiceInfo). has_client_via ip e.1) w.services)) [
          | inl some_via ↦
              apply_changes-established net AllLack Any AllLack-Kept fuel (proxy_disconnected ip) _
                none w
                (Memᴰ.append_right (filter_map (lost_replicas ip) w.services)
                  (rw some_via (Memᴰ.head refl)))
                disconnected-Lacks (λ v p. p)
          | inr none_via ↦
              apply_changes-kept net AllLack Any AllLack-Kept fuel _ none w (λ v p. p)
                (elim (via-cases name w.services) [
                  | inl already ↦ already
                  | inr hit ↦
                      absurd (Memᴰ.not-nil (rw (nothing-retain _ w.services none_via) at hit))
                ])
        ]
