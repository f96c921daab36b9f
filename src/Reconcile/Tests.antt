-- ===== src/Reconcile/Tests.antt =====
-- A registry that wants the table `orders`, and a database with an old table and an old component.
use snakemake_storage_plugin.Base.{
  has_text, ◌≡◌, refl, String, true, false, none, some, [], ◌∷◌, Memᴰ, any, keep, contains,
  if◌then◌else◌,
}
use snakemake_storage_plugin.Base.Result.{ok}
use snakemake_storage_plugin.Sql.{
  ref_in, reference, plain, same_ref, table, Relation, loaded, table_updates, Link,
}
use snakemake_storage_plugin.Sql.Effect.{has_link}
use snakemake_storage_plugin.Sql.Memory.{Memory, postgresql_memory, postgresql_memory-IsServer}
use snakemake_storage_plugin.Sql.Exec.{execute, begin, for_each, ◌>>=◌}
use snakemake_storage_plugin.Meta.{advisory_lock, table_exists}
use snakemake_storage_plugin.Base.Dict.{insert_all}
use snakemake_storage_plugin.Reconcile.{
  component, plain_marker, DesiredState, ManagedObject, object, Listing, desired_objects,
  manifest_objects, to_set, inventory, public_inventory, schema_inventory, is_private,
  is_component_at,
}
use snakemake_storage_plugin.Reconcile.Prune.{
  Report, reconcile, prune, execute_prune, prune_block, drop_schema, drop_relation, forget,
}
use snakemake_storage_plugin.Reconcile.Only.{prune_only_obsolete}
use snakemake_storage_plugin.Reconcile.Spares.{reconcile_spares_desired}

abbrev registry : DesiredState
registry = record { manifests = []; tables = "orders" ∷ []; storage_schemas = "storage" ∷ [] }

abbrev load : Relation
load = record { kind = table; body = loaded 1; comment = none; grants = [] }

abbrev database : Memory
database = record {
  catalog = λ r.
      if same_ref (plain "orders") r
      then some load
      else if same_ref (reference "storage" "gone") r
      then some load
      else none;
  rows = λ m k. none;
  links = [];
}

abbrev listed : Listing postgresql_memory
listed = record {
  marker_keys = λ s m. [];
  names_in = λ s schema. "gone" ∷ "stg__gone" ∷ [];
  schema_names = λ s. "public" ∷ "storage" ∷ [];
}

abbrev gone : ManagedObject
gone = object component "gone" (some "storage") none

abbrev report : Report
report = record {
  desired = desired_objects registry "public";
  obsolete = gone ∷ [];
  missing = object plain_marker "orders" none none ∷ [];
  authoritative = true;
}

reported :
    reconcile postgresql_memory listed registry true "public" database ≡ (ok report, database)
unfolding reconcile inventory public_inventory schema_inventory desired_objects manifest_objects
    to_set has_text keep any contains ◌>>=◌ table_exists
reported = refl

reconcile_spares_desired_example :
    (is_private "gone" ≡ false)
    × ((schema : String)
        → some "storage" ≡ some schema
        → any (is_component_at schema "gone") report.desired ≡ false)
reconcile_spares_desired_example =
    reconcile_spares_desired postgresql_memory listed registry true "public" database database
      report reported gone (Memᴰ.head refl) refl

abbrev pruned : Memory
pruned = (prune postgresql_memory report true database).1

run : prune postgresql_memory report true database ≡ (ok report, pruned)
unfolding prune execute_prune prune_block drop_schema drop_relation forget advisory_lock begin
    for_each execute keep any contains ◌>>=◌ insert_all
run = refl

dropped : postgresql_memory.relation pruned (reference "storage" "gone") ≡ none
unfolding prune execute_prune prune_block drop_schema drop_relation forget advisory_lock begin
    for_each execute keep any contains ◌>>=◌ insert_all ref_in
dropped = refl

abbrev row_of_orders : Link
row_of_orders = record {
  dataset = "orders";
  component = "orders_geo";
  update_id = "1";
  materialize = "table";
}

prune_only_obsolete_example :
    (postgresql_memory.relation pruned (plain "orders")
      ≡ postgresql_memory.relation database (plain "orders"))
    × (postgresql_memory.marker pruned table_updates "orders"
        ≡ postgresql_memory.marker database table_updates "orders")
    × (has_link (postgresql_memory.link_rows pruned) row_of_orders
        ≡ has_link (postgresql_memory.link_rows database) row_of_orders)
unfolding any
prune_only_obsolete_example =
    prune_only_obsolete postgresql_memory postgresql_memory-IsServer report true database pruned
      (ok report) run (plain "orders") refl table_updates "orders" refl row_of_orders refl
