-- ===== src/Manifest/Tests.antt =====
-- A dataset of orders joined to customers, and the customers to regions.
use snakemake_storage_plugin.Base.{
  ◌≡◌, refl, String, List, Memᴰ, Distinct, has_duplicate, ◌++◌, true, false, none, some, [], ◌∷◌,
  contains, subset, any, all, keep,
}
use snakemake_storage_plugin.Base.Result.{ok}
use snakemake_storage_plugin.Graph.{
  Edge, JoinGraph, many_to_one, label, default_label, join_comma, route_labels, route_fan_out,
  hop_fan_out,
}
use snakemake_storage_plugin.Graph.Check.{
  index_entities, lookup_entity, entity, check_edge, check_edges,
}
use snakemake_storage_plugin.Graph.Acyclic.{
  visit, visit_each, check_acyclic, mark_of, parents, join_graph,
}
use snakemake_storage_plugin.Graph.Search.{walk, collect, paths}
use snakemake_storage_plugin.Graph.Choice.{path}
use snakemake_storage_plugin.Manifest.{
  Component, DatasetV2, Joined, component, covers_key, left_column, add_join, check_join,
  check_each, check_routes, check_select, check_from, check_joins, entities_of,
}
use snakemake_storage_plugin.Base.Dict.{lookup, insert}
use snakemake_storage_plugin.Manifest.{DatasetMaterialization, Manifest, v1, v2}
use snakemake_storage_plugin.Manifest.Checks.{
  Placed, placed, names_of, physical_names, check_placed, check_manifests,
}
use snakemake_storage_plugin.Manifest.Across.{check_manifests_sound}
use snakemake_storage_plugin.Manifest.Joins.{AreSound, check_joins-AreSound}

abbrev keyed : String → Component
keyed n = record {
  name = n;
  kind = "dimension";
  primary_key = "id" ∷ [];
  source = none;
  source_table = none;
  priority = none;
  columns = none;
  schema = none;
}

abbrev sales : DatasetV2
sales = record {
  name = "sales";
  components = keyed "orders" ∷ keyed "customers" ∷ keyed "regions" ∷ [];
  base = some "orders";
  joins =
      record {
        component = "customers";
        on = ("customer_id", "id") ∷ [];
        left = none;
        join_type = "inner";
        fan_out = false;
      }
      ∷ record {
        component = "regions";
        on = ("region_id", "id") ∷ [];
        left = some "customers";
        join_type = "left";
        fan_out = false;
      }
      ∷ [];
  select = record { column = "name"; component = some "customers"; alias = none } ∷ [];
  view_sql = [];
  materialize = "view";
  storage_schema = "analytics_storage";
}

abbrev sales_edge : String → String → String → Edge
sales_edge a c b = record {
  child = a;
  parent = b;
  columns = c ∷ [];
  cardinality = many_to_one;
  nullable = false;
  name = none;
}

abbrev sales_joined : Joined
sales_joined = record {
  joined = "regions" ∷ "customers" ∷ "orders" ∷ [];
  edges =
      sales_edge "orders" "customer_id" "customers"
      ∷ sales_edge "customers" "region_id" "regions"
      ∷ [];
  to_one = "regions" ∷ "customers" ∷ "orders" ∷ [];
}

abbrev sales_graph : JoinGraph
sales_graph = record { entities = entities_of sales.components; edges = sales_joined.edges }

sales_accepted : check_joins sales ≡ ok ("orders", sales_joined, sales_graph)
unfolding check_joins check_from check_each check_join component add_join covers_key left_column
    contains subset any all keep check_routes check_select path paths walk collect entity
    lookup_entity route_labels route_fan_out hop_fan_out join_graph index_entities check_edges
    check_edge check_acyclic visit visit_each mark_of parents label default_label join_comma
sales_accepted = refl

check_joins-AreSound_example : AreSound sales "orders" sales_graph
check_joins-AreSound_example =
    check_joins-AreSound sales "orders" sales_joined sales_graph sales_accepted

abbrev zoned : DatasetMaterialization
zoned = record {
  name = "jobs";
  geometry_column = "geom";
  contour_table = "zones";
  fact_join_columns = "zone" ∷ [];
  contour_join_columns = "code" ∷ [];
  output_columns = "zone" ∷ "geom" ∷ [];
  fact_source = none;
  contour_source = "zone_emploi_contours";
  compact_schema = "analytics_storage";
  keyed = true;
}

-- A v1 dataset, and two v2 datasets that share their components.
abbrev file_manifests : List Manifest
file_manifests = v1 zoned ∷ v2 sales ∷ v2 (record sales { name = "returns" }) ∷ []

file_accepted : check_manifests file_manifests ≡ ok tt
unfolding check_manifests check_placed placed has_duplicate contains lookup insert
file_accepted = refl

abbrev keyed_orders : Placed
keyed_orders = ("analytics_storage", keyed "orders")

sales_placed : Memᴰ keyed_orders (placed file_manifests)
unfolding placed
sales_placed = Memᴰ.head refl

returns_placed : Memᴰ keyed_orders (placed file_manifests)
unfolding placed
returns_placed = Memᴰ.tail (Memᴰ.tail (Memᴰ.tail (Memᴰ.head refl)))

check_manifests_sound_example :
    Distinct (names_of file_manifests)
    × (keyed_orders ≡ keyed_orders)
    × (¬ Memᴰ {A = String} "orders" (physical_names file_manifests ++ names_of file_manifests))
check_manifests_sound_example =
    check_manifests_sound file_manifests file_accepted keyed_orders keyed_orders sales_placed
      returns_placed refl
