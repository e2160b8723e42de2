-- ===== src/Graphviz/Order.antt =====
-- The drawing and the order in which the map of services is iterated (src/graphviz.rs).
use nullnet_grpc.Base.{◌≡◌, refl, ap, sym, ◌∙◌, String, ◌||◌, List, [], ◌∷◌, ◌++◌, arith}
use nullnet_grpc.Base.HashSet.{contains}
use nullnet_grpc.Base.Sorting.{Reordered, same, under, swap, then_also, sort_by-Reordered}
use nullnet_grpc.Proto.{Net}
use nullnet_grpc.ServiceInfo.{ServiceInfo, ServiceMap}
use nullnet_grpc.Graphviz.{
  Identity, identity_eq, initiators, initiators_of, render_sorted, render_graphviz,
}

contains-append :
    (k : Identity) (xs ys : List Identity)
    → contains k (xs ++ ys) ≡ (contains k xs || contains k ys)
contains-append k [] ys = refl
contains-append k (x ∷ xs) ys = ground (arith, contains-append k xs ys)

contains_swap :
    (k : Identity) (xs ys zs : List Identity)
    → contains k (xs ++ (ys ++ zs)) ≡ contains k (ys ++ (xs ++ zs))
contains_swap k xs ys zs = ground (
  arith,
  contains-append k xs (ys ++ zs),
  contains-append k ys zs,
  contains-append k ys (xs ++ zs),
  contains-append k xs zs,
)

abbrev pub name_of : String × ServiceInfo → String
name_of e = e.0

initiators-Reordered :
    (k : Identity) {a b : ServiceMap}
    → Reordered name_of a b
    → contains k (initiators a) ≡ contains k (initiators b)
initiators-Reordered k (same l) = refl
initiators-Reordered k (under x {l} {m} r) =
    contains-append k (initiators_of x.1) (initiators l)
    ∙ ap (λ rest. contains k (initiators_of x.1) || rest) (initiators-Reordered k r)
    ∙ sym (contains-append k (initiators_of x.1) (initiators m))
initiators-Reordered k (swap x y l d) =
    contains_swap k (initiators_of x.1) (initiators_of y.1) (initiators l)
initiators-Reordered k (then_also r s) = initiators-Reordered k r ∙ initiators-Reordered k s

-- The drawing does not depend on the order in which the map of services is iterated, which is
-- unspecified.
pub render_graphviz-Reordered :
    (net : Net) (a b : ServiceMap)
    → Reordered name_of a b
    → render_graphviz net a ≡ render_graphviz net b
unfolding render_graphviz
render_graphviz-Reordered net a b r i =
    render_sorted net (λ k. initiators-Reordered k r i) (sort_by-Reordered name_of r i)
