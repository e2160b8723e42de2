-- ===== src/Changes/Entry.antt =====
-- One entry of the map of services under the writes of src/services/changes.rs.
use nullnet_grpc.Base.{
  String, ◌≡◌, refl, sym, ◌∙◌, Option, none, some, inl, inr, Option-cases, Bool-cases, string_eq,
  beq_refl, eq_iff, ◌==◌, subst,
}
use nullnet_grpc.Base.HashMap.{get, modify, insert, remove, get-modify, get-insert, get-remove}
use nullnet_grpc.ServiceInfo.{
  ServiceMap, ServiceInfo, RegisteredServiceInfo, unregistered, registered,
}
use nullnet_grpc.Changes.{as_registered, get_registered, put_registered, update_registered}

pub registered_of :
    (si : Option ServiceInfo) (reg : RegisteredServiceInfo)
    → as_registered si ≡ some reg
    → si ≡ some (registered reg)
registered_of none reg e = cc
registered_of (some (unregistered unreg)) reg e = cc
registered_of (some (registered reg')) reg e = cc

pub put_registered-same :
    (name : String) (reg reg' : RegisteredServiceInfo) (services : ServiceMap)
    → get_registered name services ≡ some reg
    → get name (put_registered name reg' services) ≡ some (registered reg')
put_registered-same name reg reg' services e =
    get-modify name name (λ _. registered reg') services
    ∙ rw (beq_refl name, registered_of (get name services) reg e) refl

-- A condition on the entry at `name`, absent or not, and the writes at any name.
module _ (Q : Option ServiceInfo → Type 0) (name : String) where
  pub modify-at :
      (k : String) (f : ServiceInfo → ServiceInfo) (services : ServiceMap)
      → ((si : ServiceInfo) → Q (some si) → Q (some (f si)))
      → Q (get name services)
      → Q (get name (modify k f services))
  modify-at k f services h q =
      subst Q (sym (get-modify k name f services)) (elim (Bool-cases (k == name)) [
        | inl here ↦ elim (Option-cases (get name services)) [
          | inl absent ↦ rw (here, absent) (subst Q absent q)
          | inr (si, found) ↦ rw (here, found) (h si (subst Q found q))
        ]
        | inr elsewhere ↦ rw elsewhere q
      ])

  pub remove-at :
      (k : String) (services : ServiceMap)
      → Q none
      → Q (get name services)
      → Q (get name (remove k services))
  remove-at k services n q =
      subst Q (sym (get-remove k name services))
        (elim (Bool-cases (k == name)) [ inl here ↦ rw here n | inr elsewhere ↦ rw elsewhere q ])

  -- What replaces a registered service needs the condition only where that service had it.
  pub put-at :
      (k : String) (reg reg' : RegisteredServiceInfo) (services : ServiceMap)
      → get_registered k services ≡ some reg
      → (Q (some (registered reg)) → Q (some (registered reg')))
      → Q (get name services)
      → Q (get name (put_registered k reg' services))
  put-at k reg reg' services e h q =
      subst Q (sym (get-modify k name (λ _. registered reg') services))
        (elim (Bool-cases (k == name)) [
          | inl here ↦
              let found : get name services ≡ some (registered reg) =
                subst (λ n. get n services ≡ some (registered reg)) ((eq_iff k name).0 here)
                  (registered_of (get k services) reg e) in
              rw (here, found) (h (subst Q found q))
          | inr elsewhere ↦ rw elsewhere q
        ])

  pub replace-at :
      (k : String) (reg : RegisteredServiceInfo) (si : ServiceInfo) (services : ServiceMap)
      → get_registered k services ≡ some reg
      → (Q (some (registered reg)) → Q (some si))
      → Q (get name services)
      → Q (get name (insert k si services))
  replace-at k reg si services e h q =
      subst Q (sym (get-insert k name si services)) (elim (Bool-cases (k == name)) [
        | inl here ↦
            let found : get name services ≡ some (registered reg) =
              subst (λ n. get n services ≡ some (registered reg)) ((eq_iff k name).0 here)
                (registered_of (get k services) reg e) in
            rw here (h (subst Q found q))
        | inr elsewhere ↦ rw elsewhere q
      ])

  pub update-at :
      (k : String) (f : RegisteredServiceInfo → RegisteredServiceInfo) (services : ServiceMap)
      → ((reg : RegisteredServiceInfo) → Q (some (registered reg)) → Q (some (registered (f reg))))
      → Q (get name services)
      → Q (get name (update_registered k f services))
  update-at k f services h q = elim (Option-cases (get_registered k services)) [
    | inl absent ↦ rw (absent, update_registered) q
    | inr (reg, found) ↦
        rw (found, update_registered) (put-at k reg (f reg) services found (h reg) q)
  ]
