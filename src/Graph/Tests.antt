-- ===== src/Graph/Tests.antt =====
-- Runs of the join graph on a small schema: orders refer to customers and to stores, customers and
-- stores to regions.
use snakemake_storage_plugin.Base.{
  ◌⊎◌, ◌≡◌, ◌≢◌, ◌↔◌, refl, String, true, false, none, List, [], ◌∷◌, Memᴰ, length, ◌≤◌, contains,
  any, all, keep, subset,
}
use snakemake_storage_plugin.Base.Result.{ok, err}
use snakemake_storage_plugin.Graph.{
  Entity, Edge, Route, JoinGraph, cycle, out_of_fuel, many_to_one, label, default_label, join_comma,
  route_labels, route_fan_out, hop_fan_out, route_cardinality, Leads,
}
use snakemake_storage_plugin.Graph.Check.{
  names, index_entities, lookup_entity, entity, check_edge, check_edges, IsSound,
}
use snakemake_storage_plugin.Graph.Acyclic.{
  visit, visit_each, check_acyclic, mark_of, parents, from_node, join_graph,
}
use snakemake_storage_plugin.Graph.Build.{
  join_graph_acyclic, join_graph-IsSound, join_graph_acyclic, join_graph_cycle,
  join_graph-ne-out_of_fuel,
}
use snakemake_storage_plugin.Graph.Acyclic.Real.{Cyclic}
use snakemake_storage_plugin.Graph.Search.{walk, collect, paths, IsWalk, IsSimple}
use snakemake_storage_plugin.Graph.Search.Exact.{paths_exact}
use snakemake_storage_plugin.Graph.Choice.Ambiguous.{ambiguous_has_two}
use snakemake_storage_plugin.Graph.Choice.{
  ambiguous, ambiguous_from, path, reachable, reachable_from,
}
use snakemake_storage_plugin.Graph.Choice.Unique.{
  path_right, reachable_keeps_grain, Answers, IsEntity, IsUnknown, IsRoute,
}

abbrev table_entity : String → Entity
table_entity n = record { name = n; primary_key = "id" ∷ [] }

abbrev refers : String → String → String → Edge
refers a c b = record {
  child = a;
  parent = b;
  columns = c ∷ [];
  cardinality = many_to_one;
  nullable = false;
  name = none;
}

abbrev shop_entities : List Entity
shop_entities =
    table_entity "orders"
    ∷ table_entity "customers"
    ∷ table_entity "stores"
    ∷ table_entity "regions"
    ∷ []

abbrev orders_customers : Edge
orders_customers = refers "orders" "customer_id" "customers"

abbrev shop_edges : List Edge
shop_edges =
    orders_customers
    ∷ refers "orders" "store_id" "stores"
    ∷ refers "customers" "region_id" "regions"
    ∷ refers "stores" "region_id" "regions"
    ∷ []

abbrev shop : JoinGraph
shop = record { entities = shop_entities; edges = shop_edges }

abbrev to_customer : Route
to_customer = record {
  source = "orders";
  hops = record { edge = orders_customers; forward = true } ∷ [];
}

shop_built : join_graph shop_entities shop_edges ≡ ok shop
unfolding join_graph index_entities check_edges check_edge entity lookup_entity check_acyclic visit
    visit_each mark_of parents label default_label join_comma contains
shop_built = refl

abbrev loop_edges : List Edge
loop_edges = refers "orders" "customer_id" "customers" ∷ refers "customers" "order_id" "orders" ∷ []

loop_refused :
    join_graph shop_entities loop_edges ≡ err (cycle ("orders" ∷ "customers" ∷ "orders" ∷ []))
unfolding join_graph index_entities check_edges check_edge entity lookup_entity check_acyclic visit
    visit_each mark_of parents label default_label join_comma contains from_node
loop_refused = refl

join_graph_cycle_example : Cyclic loop_edges
join_graph_cycle_example =
    join_graph_cycle shop_entities loop_edges ("orders" ∷ "customers" ∷ "orders" ∷ []) loop_refused

join_graph-ne-out_of_fuel_example : join_graph shop_entities loop_edges ≢ err out_of_fuel
join_graph-ne-out_of_fuel_example = join_graph-ne-out_of_fuel shop_entities loop_edges

join_graph_acyclic_example : ¬ Leads shop.edges "orders" "orders"
join_graph_acyclic_example = join_graph_acyclic shop_entities shop_edges shop shop_built "orders"

join_graph-IsSound_example : IsSound shop_entities orders_customers
join_graph-IsSound_example =
    join_graph-IsSound shop_entities shop_edges shop orders_customers shop_built (Memᴰ.head refl)

paths_exact_example : Memᴰ to_customer (paths shop_edges "orders" "customers" 1) ↔ (
    (to_customer.source ≡ "orders")
    × IsWalk shop_edges "orders" to_customer.hops "customers"
    × IsSimple ("orders" ∷ []) to_customer.hops
    × (length to_customer.hops ≤ 1)
    × (to_customer.hops ≢ []))
paths_exact_example = paths_exact shop_edges "orders" "customers" 1 to_customer

path_right_example :
    ((IsEntity shop "orders" × IsEntity shop "regions")
      × Answers shop "orders" "regions" none false 4 (path shop "orders" "regions" none false 4))
    ⊎ IsUnknown shop "orders" "regions" none false 4 (path shop "orders" "regions" none false 4)
path_right_example =
    path_right shop_entities shop_edges shop shop_built "orders" "regions" none false 4

to_customer_reachable : Memᴰ ("customers", to_customer) (reachable shop "orders" 1)
unfolding reachable reachable_from path entity lookup_entity paths walk collect contains keep subset
    route_labels route_fan_out hop_fan_out any all
to_customer_reachable = Memᴰ.head refl

reachable_keeps_grain_example :
    IsRoute shop.edges "orders" "customers" 1 to_customer
    × (route_cardinality to_customer ≡ many_to_one)
    × ((q : Route)
        → IsRoute shop.edges "orders" "customers" 1 q
        → route_fan_out q ≡ false
        → q ≡ to_customer)
reachable_keeps_grain_example =
    reachable_keeps_grain shop_entities shop_edges shop shop_built "orders" 1 "customers"
      to_customer to_customer_reachable

-- Two routes lead from an order to a region.
regions_ambiguous : Memᴰ "regions" (ambiguous shop "orders" 2)
unfolding ambiguous ambiguous_from path entity lookup_entity paths walk collect contains keep subset
    route_labels route_fan_out hop_fan_out any all
regions_ambiguous = Memᴰ.head refl

ambiguous_has_two_example :
    Memᴰ "regions" (names shop.entities)
    × ((table_entity "regions").name ≢ "orders")
    × ((p q : Route) × (IsRoute shop.edges "orders" "regions" 2 p × (route_fan_out p ≡ false))
        × (IsRoute shop.edges "orders" "regions" 2 q × (route_fan_out q ≡ false))
        × (p ≢ q))
ambiguous_has_two_example =
    ambiguous_has_two shop_entities shop_edges shop shop_built "orders" 2 "regions"
      regions_ambiguous
