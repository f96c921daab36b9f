-- ===== src/Publish/Tests.antt =====
-- Runs of a publish on a server that executes each statement as its documentation says.
use snakemake_storage_plugin.Base.{
  ◌≡◌, refl, ◌==◌, String, true, false, none, some, List, [], ◌∷◌, Memᴰ, ℕ, any, keep, contains,
  has_duplicate, if◌then◌else◌, ◌&&◌,
}
use snakemake_storage_plugin.Base.Result.{Result, ok, err}
use snakemake_storage_plugin.Sql.{plain, same_ref, table, loaded, Relation, table_updates, text}
use snakemake_storage_plugin.Sql.Effect.{is_marker_name, column, assign}
use snakemake_storage_plugin.Sql.Memory.{Memory, memory, memory-IsServer}
use snakemake_storage_plugin.Sql.Exec.{
  SinkError, publish_conflict, execute, begin, best_effort, for_each, ◌>>=◌,
}
use snakemake_storage_plugin.Meta.{create_all, advisory_lock, staging_name, has_table}
use snakemake_storage_plugin.Engine.{
  Environ, apply_lock_timeout, resolve_keep_old, resolve_lock_timeout, resolve_analyze,
  upsert_by_pk, with_now,
}
use snakemake_storage_plugin.Engine.Upsert.{upsert_by_pk_writes}
use snakemake_storage_plugin.KeepOld.{Codec}
use snakemake_storage_plugin.Sql.Effect.{same_option}
use snakemake_storage_plugin.Publish.{
  version_of, assert_marker_unchanged, refresh_markers, demote_published, attempt, drop_old_tables,
  analyze_relations,
}
use snakemake_storage_plugin.Publish.Tables.{
  Receipt, Options, marker_values, move_aside, publish_one, publish_each, publish_block,
  publish_transaction, publish_now, publish_tables,
}
use snakemake_storage_plugin.Publish.Tables.Atomic.{publish_tables_atomic}
use snakemake_storage_plugin.Publish.Tables.Installs.{Installed, names_touched}
use snakemake_storage_plugin.Publish.Tables.Published.{publish_tables_installs}

-- The comments are not read back here.
abbrev silent : Codec
silent = record { dumps = λ k g. "{}"; loads = λ t. []; upper = λ t. t }

abbrev no_environ : Environ
no_environ name = none

abbrev defaults : Options
defaults = record { refresh = true; keep_old = none; lock_timeout = none; analyze = none }

-- `orders` is staged from version v1.
abbrev orders_receipt : Receipt
orders_receipt = record {
  table = "orders";
  staged = true;
  update_id = "v2";
  parquet_sha256 = "ab";
  loader_version = some 1;
  type_map_version = none;
  row_count = 3;
  published_by = none;
  marker_update_id_at_stage_time = some "v1";
}

abbrev load_of : ℕ → Relation
load_of n = record { kind = table; body = loaded n; comment = none; grants = [] }

-- `orders` is live at the given version, and its replacement is staged.
abbrev live_at : String → Memory
live_at version = record {
  catalog = λ r.
      if same_ref (plain "orders") r
      then some (load_of 2)
      else if same_ref (plain "stg__orders") r
      then some (load_of 3)
      else none;
  rows = λ m k. elim m [
    | table_updates ↦ if k == "orders" then some (("update_id", text version) ∷ []) else none
    | _ ↦ none
  ];
  links = [];
}

abbrev publish_from : String → Result SinkError (List String) × Memory
publish_from version =
    publish_tables memory silent "20260101" no_environ defaults (orders_receipt ∷ [])
      (live_at version)

published_v2 : publish_from "v1" ≡ (ok ("orders" ∷ []), (publish_from "v1").1)
unfolding publish_tables publish_now resolve_lock_timeout resolve_analyze create_all begin
    advisory_lock execute ◌>>=◌ publish_transaction publish_block demote_published publish_each
    publish_one assert_marker_unchanged move_aside column upsert_by_pk refresh_markers
    analyze_relations drop_old_tables for_each attempt best_effort apply_lock_timeout keep any
    resolve_keep_old
published_v2 = refl

conflict_v9 : publish_from "v9" ≡ (err (publish_conflict "orders"), (publish_from "v9").1)
unfolding publish_tables publish_now resolve_lock_timeout resolve_analyze create_all begin
    advisory_lock execute ◌>>=◌ publish_transaction publish_block demote_published publish_each
    publish_one assert_marker_unchanged move_aside column upsert_by_pk refresh_markers
    analyze_relations drop_old_tables for_each attempt best_effort apply_lock_timeout keep any
    resolve_keep_old
conflict_v9 = refl

orders_unmarked : is_marker_name "orders" ≡ false
unfolding contains
orders_unmarked = refl

publish_tables_atomic_example :
    (memory.relation (publish_from "v9").1 (plain "orders")
      ≡ memory.relation (live_at "v9") (plain "orders"))
    × (memory.marker (publish_from "v9").1 table_updates "orders"
        ≡ memory.marker (live_at "v9") table_updates "orders")
publish_tables_atomic_example =
    publish_tables_atomic memory memory-IsServer silent "20260101" no_environ defaults
      (orders_receipt ∷ []) (live_at "v9") ((publish_from "v9").1) (publish_conflict "orders")
      conflict_v9 (plain "orders") orders_unmarked table_updates "orders"

v1_unlive :
    (same_option (version_of memory table_updates "update_id" "orders" (live_at "v1")) (some "v2")
      && has_table memory (plain "orders") (live_at "v1"))
    ≡ false
unfolding column
v1_unlive = refl

orders_unique :
    has_duplicate
      (names_touched (resolve_keep_old none no_environ) "20260101" (orders_receipt ∷ []))
    ≡ false
unfolding has_duplicate contains resolve_keep_old
orders_unique = refl

staged_unmarked : is_marker_name (staging_name "orders") ≡ false
unfolding contains
staged_unmarked = refl

publish_tables_installs_example :
    Installed memory orders_receipt (live_at "v1") (publish_from "v1").1
publish_tables_installs_example =
    publish_tables_installs memory memory-IsServer silent "20260101" no_environ defaults
      (orders_receipt ∷ []) (live_at "v1") ((publish_from "v1").1) ("orders" ∷ []) orders_unique
      published_v2 orders_receipt (Memᴰ.head refl) staged_unmarked orders_unmarked refl v1_unlive

upserted :
    upsert_by_pk memory table_updates "orders"
      (marker_values orders_receipt)
      (some "published_at")
      (live_at "v1")
    ≡ (
      ok tt,
      (upsert_by_pk memory table_updates "orders"
          (marker_values orders_receipt)
          (some "published_at")
          (live_at "v1")).1,
    )
unfolding upsert_by_pk execute ◌>>=◌
upserted = refl

upsert_by_pk_writes_example :
    memory.marker
      (upsert_by_pk memory table_updates "orders"
        (marker_values orders_receipt)
        (some "published_at")
        (live_at "v1")).1
      table_updates
      "orders"
    ≡ some (
        assign
          (with_now (some "published_at") 7 (marker_values orders_receipt))
          (memory.marker (live_at "v1") table_updates "orders"))
upsert_by_pk_writes_example =
    upsert_by_pk_writes memory memory-IsServer table_updates "orders" (marker_values orders_receipt)
      (some "published_at") (live_at "v1")
      ((upsert_by_pk memory table_updates "orders" (marker_values orders_receipt)
        (some "published_at") (live_at "v1")).1)
      upserted
