-- ===== src/Stage/Tests.antt =====
-- A run of the staging on a server that executes each statement as its documentation says.
use snakemake_storage_plugin.Base.{◌≡◌, refl, true, false, none, [], contains}
use snakemake_storage_plugin.Base.Result.{ok}
use snakemake_storage_plugin.Sql.Effect.{is_marker_name, column}
use snakemake_storage_plugin.Sql.Memory.{Memory, memory, memory-IsServer}
use snakemake_storage_plugin.Sql.Exec.{execute, begin, ◌>>=◌}
use snakemake_storage_plugin.Meta.{staging_name, create_all, advisory_lock, fetch_one, table_exists}
use snakemake_storage_plugin.Engine.{upsert_by_pk}
use snakemake_storage_plugin.Sql.{Link, reference, component_updates}
use snakemake_storage_plugin.Sql.Effect.{has_link}
use snakemake_storage_plugin.Stage.{
  File, receipt_of, is_current, load_staging, stage_unless, stage_table,
}
use snakemake_storage_plugin.Stage.Private.{stage_table_private}
use snakemake_storage_plugin.Stage.Fresh.{stage_table_fresh}

abbrev orders_file : File
orders_file = record { update_id = "v2"; parquet_sha256 = "ab"; row_count = 3 }

abbrev nothing : Memory
nothing = record { catalog = λ r. none; rows = λ m k. none; links = [] }

orders_staged : stage_table memory "orders" orders_file nothing ≡ (
  ok (receipt_of "orders" orders_file none 3 true),
  (stage_table memory "orders" orders_file nothing).1,
)
unfolding stage_table create_all begin advisory_lock execute ◌>>=◌ stage_unless fetch_one
    table_exists load_staging upsert_by_pk contains column
orders_staged = refl

staging_unmarked : is_marker_name (staging_name "orders") ≡ false
unfolding contains
staging_unmarked = refl

live_unmarked : is_marker_name "orders" ≡ false
unfolding contains
live_unmarked = refl

stage_table_fresh_example :
    is_current memory "orders" orders_file (stage_table memory "orders" orders_file nothing).1
    ≡ true
stage_table_fresh_example =
    stage_table_fresh memory memory-IsServer "orders" orders_file nothing
      ((stage_table memory "orders" orders_file nothing).1)
      (receipt_of "orders" orders_file none 3 true) staging_unmarked orders_staged

abbrev orders_link : Link
orders_link = record {
  dataset = "sales";
  component = "orders";
  update_id = "1";
  materialize = "view";
}

stage_table_private_example :
    (memory.relation
        (stage_table memory "orders" orders_file nothing).1
        (reference "storage" "orders")
      ≡ memory.relation nothing (reference "storage" "orders"))
    × (memory.marker (stage_table memory "orders" orders_file nothing).1 component_updates "orders"
        ≡ memory.marker nothing component_updates "orders")
    × (has_link (memory.link_rows (stage_table memory "orders" orders_file nothing).1) orders_link
        ≡ has_link (memory.link_rows nothing) orders_link)
stage_table_private_example =
    stage_table_private memory memory-IsServer "orders" orders_file nothing
      (reference "storage" "orders") refl live_unmarked component_updates "orders" refl orders_link
