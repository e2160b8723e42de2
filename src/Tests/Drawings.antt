-- ===== src/Tests/Drawings.antt =====
-- The drawing of two services, whichever comes first.
use nullnet_grpc.Base.{
  ◌≡◌, ◌≢◌, ◌==◌, string_eq, String, true, false, [], ◌∷◌, beq_refl, ap, sym, ◌∙◌, refl, none, some,
}
use nullnet_grpc.Base.Sorting.{swap, sort_by, str_le}
use nullnet_grpc.Proto.{vlan}
use nullnet_grpc.ServiceInfo.{ServiceInfo, new_service_info}
use nullnet_grpc.Graphviz.{render_graphviz, graphviz_label, graphviz_style}
use nullnet_grpc.Graphviz.Order.{render_graphviz-Reordered}

abbrev web : String × ServiceInfo
web = ("web", new_service_info ("db" ∷ []) [] (some 60) none)

abbrev db : String × ServiceInfo
db = ("db", new_service_info [] [] none none)

abbrev web_name : String
web_name = "web"

abbrev db_name : String
db_name = "db"

web_db : web_name ≢ db_name
web_db e = absurd (true_false (sym (beq_refl web_name) ∙ ap (λ name. web_name == name) e))
  where
    true_false : true ≡ false → ⊥
    true_false h = cc

render_graphviz-Reordered_example :
    render_graphviz vlan (web ∷ db ∷ []) ≡ render_graphviz vlan (db ∷ web ∷ [])
render_graphviz-Reordered_example =
    render_graphviz-Reordered vlan (web ∷ db ∷ []) (db ∷ web ∷ []) (swap web db [] web_db)

render_graphviz_test :
    render_graphviz vlan (web ∷ db ∷ [])
    ≡ "digraph G {\n\tbgcolor=grey10;\n\tnode [color=white, fontcolor=white];\n\tedge [color=white, fontcolor=white, fontsize=9, labelangle=180, labeldistance=0.8];\n\n\t\"db\" [label=\"db\"] [style=dashed, color=red];\n\n\t\"web\" [label=\"web\"] [style=solid, color=red];\n}\n"
unfolding render_graphviz sort_by str_le graphviz_label graphviz_style
render_graphviz_test = refl
