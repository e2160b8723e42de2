-- ===== src/Changes/Walk/Ranks.antt =====
-- The proxy dependencies under updates of the map of services (src/services/changes.rs).
use nullnet_grpc.Base.{
  String, ◌≡◌, some, [], inl, inr, Option-cases, if◌then◌else◌, string_eq, ◌==◌, eq_iff, arith,
}
use nullnet_grpc.Base.HashMap.{get, insert, modify, remove, get-insert, get-modify, get-remove}
use nullnet_grpc.ServiceInfo.{
  RegisteredServiceInfo, ServiceInfo, registered, ServiceMap, proxy_deps,
}
use nullnet_grpc.Changes.{deps_of, get_registered, put_registered}

-- A change of one service that keeps its dependencies keeps those of all.
pub deps_of-modify :
    (k j : String) (f : ServiceInfo → ServiceInfo) (services : ServiceMap)
    → ((si : ServiceInfo) → proxy_deps (f si) ≡ proxy_deps si)
    → deps_of j (modify k f services) ≡ deps_of j services
deps_of-modify k j f services same = elim (Option-cases (get j services)) [
  | inl absent ↦ rw (get-modify k j f services) (ground (arith, absent))
  | inr (si, found) ↦ rw (get-modify k j f services) (ground (arith, found, same si))
]

pub deps_of-put_registered :
    (k j : String) (reg reg' : RegisteredServiceInfo) (services : ServiceMap)
    → get_registered k services ≡ some reg
    → reg'.proxy_deps ≡ reg.proxy_deps
    → deps_of j (put_registered k reg' services) ≡ deps_of j services
deps_of-put_registered k j reg reg' services found same =
    rw (get-modify k j (λ _. registered reg') services) (ground (arith, eq_iff k j))

pub deps_of-insert :
    (k j : String) (si : ServiceInfo) (services : ServiceMap)
    → proxy_deps si ≡ deps_of k services
    → deps_of j (insert k si services) ≡ deps_of j services
deps_of-insert k j si services same = rw (get-insert k j si services) (ground (arith, eq_iff k j))

pub deps_of-remove :
    (k j : String) (services : ServiceMap)
    → deps_of j (remove k services) ≡ (if k == j then [] else deps_of j services)
deps_of-remove k j services = rw (get-remove k j services) (ground arith)
